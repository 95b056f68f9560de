-- ===== src/Tests/Forwards.antt =====
-- A packet for the client of the controller of Tests/Configs.antt, and the round that sends it.
use wspace_controller.Prelude.{ℕ, ◌≡◌, refl, List, [], ◌∷◌}
use wspace_controller.Prelude.Int.{ℤ, pos, eqb_ℤ}
use wspace_controller.Prelude.Result.{ok, ok-injective}
use wspace_controller.Prelude.{subst, sym, ◌∙◌, arith}
use wspace_controller.Map.{find, put, has}
use wspace_controller.NodeId.{NodeId, node_id_eq}
use wspace_controller.Double.{whole_double}
use wspace_controller.Scheduler.{PktScheduler, Dequeued, dequeue}
use wspace_controller.Scheduler
use wspace_controller.Scheduler.Queue
use wspace_controller.Scheduler.Active
use wspace_controller.Scheduler.Calls.{DequeueSpec}
use wspace_controller.Scheduler.Quantum.{new_scheduler, add_clients}
use wspace_controller.Routing.{find_route}
use wspace_controller.Config.Build.{domain_scheduler}
use wspace_controller.Controller.{WspaceController, read_tun, queue_packet, enqueue_all}
use wspace_controller.Controller.Wiring.{IsWired, IsSameSetup}
use wspace_controller.Controller.Forward.{Sending, writes, forward_round, forward_to_bs}
use wspace_controller.Controller.Writing.{WriteSpec}
use wspace_controller.Controller.Client.{extract_client_id}
use wspace_controller.Text.{atoi, after_last_char}
use wspace_controller.Text.Decimal.{decimal}
use wspace_controller.Tests.Packets.{some_inet_ntoa}
use wspace_controller.Controller.Serving.{IsServed, ForwardSpec, forward_to_bs_lem}
use wspace_controller.Controller.Reading.{queue_packet-IsWired}
use wspace_controller.Controller.Served.{queue_packet-IsServed}
use wspace_controller.Tests.Configs.{
  configured, wired, wired-IsWired, wired-IsServed, tunnel_packet, takes_all,
}

abbrev header : NodeId → ℕ → List ℕ → List ℕ
header id n bytes = 1 ∷ bytes

abbrev with_packet : PktScheduler ℤ
with_packet = record (domain_scheduler configured) {
  queues =
      (
        pos 5,
        record { max_size = 1000; packets = record { bytes = 1 ∷ tunnel_packet; len = 21 } ∷ [] },
      )
      ∷ [];
  active_list = record { ids = pos 5 ∷ []; exist = pos 5 ∷ [] };
}

abbrev loaded : WspaceController ℤ
loaded = record wired {
  client_original_seq_tbl = (pos 5, 1) ∷ [];
  packet_scheduler_tbl = (pos 2, with_packet) ∷ (pos 3, with_packet) ∷ [];
}

loaded_run : read_tun some_inet_ntoa 4 header tunnel_packet wired ≡ ok loaded
unfolding read_tun queue_packet extract_client_id after_last_char atoi decimal find put eqb_ℤ
    find_route enqueue_all Scheduler.enqueue Queue.enqueue Active.append has new_scheduler
    add_clients Queue.new_queue Active.empty
loaded_run = refl

queued_run : queue_packet (pos 5) header tunnel_packet wired ≡ ok loaded
unfolding queue_packet find put eqb_ℤ find_route enqueue_all Scheduler.enqueue Queue.enqueue
    Active.append has new_scheduler add_clients Queue.new_queue Active.empty
queued_run = refl

loaded-IsWired : IsWired loaded × IsServed loaded
loaded-IsWired =
    let (c', run, w, same) =
      queue_packet-IsWired (pos 5) header tunnel_packet wired (λ id n. omega arith) wired-IsWired in
    let e : c' ≡ loaded = ok-injective c' loaded (sym run ∙ queued_run) in
    let setup : IsSameSetup wired loaded = subst (IsSameSetup wired) e same in
    (
      subst IsWired e w,
      queue_packet-IsServed (pos 5) header tunnel_packet wired loaded queued_run setup
          wired-IsServed,
    )

forward_to_bs_lem_example :
    (r : Dequeued ℤ) × (out : List Sending) × (c' : WspaceController ℤ) × (dequeue with_packet
      ≡ ok r)
    × DequeueSpec with_packet r
    × (forward_round (pos 2) loaded ≡ ok (out, c'))
    × WriteSpec takes_all (writes out) (out, c') (forward_to_bs takes_all (pos 2) loaded)
    × ForwardSpec (pos 2) loaded r out c'
    × IsWired c'
    × IsServed c'
    × IsSameSetup loaded c'
unfolding find eqb_ℤ
forward_to_bs_lem_example =
    forward_to_bs_lem takes_all (pos 2) loaded with_packet loaded-IsWired.0 loaded-IsWired.1 refl
