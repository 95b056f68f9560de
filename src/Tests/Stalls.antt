-- ===== src/Tests/Stalls.antt =====
-- A client that leaves the throughputs for a round while packets for it go on arriving, and comes back.
use wspace_controller.Prelude.{◌≡◌, refl, [], ◌∷◌}
use wspace_controller.Prelude.Int.{ℤ, pos, eqb_ℤ, ◌/ℤ◌}
use wspace_controller.Prelude.Result.{ok}
use wspace_controller.Map.{find, put, has, update}
use wspace_controller.NodeId.{node_id_eq}
use wspace_controller.Double.{whole_double}
use wspace_controller.Scheduler.{PktScheduler, enqueue, dequeue, pick}
use wspace_controller.Scheduler.Queue
use wspace_controller.Scheduler.Active
use wspace_controller.Scheduler.Service.{Inv}
use wspace_controller.Scheduler.Quantum.{compute_quantum, share}
use wspace_controller.Scheduler.History.{enqueues, dequeues, computes, step, step-Inv}
use wspace_controller.Scheduler.Stall.{IsStalled, step-IsStalled}
use wspace_controller.Tests.Schedulers.{client, rates, started, packet, full_queue, started-Inv}

abbrev away : PktScheduler ℤ
away = record started {
  client_ids = pos 3 ∷ [];
  queues = (client, Queue.new_queue 1) ∷ (pos 3, Queue.new_queue 1) ∷ [];
  stats = (pos 3, record { throughput = pos 1; quantum = pos 10; counter = pos 0 }) ∷ [];
}

abbrev holding : PktScheduler ℤ
holding = record away {
  queues = (client, full_queue) ∷ (pos 3, Queue.new_queue 1) ∷ [];
  active_list = record { ids = client ∷ []; exist = client ∷ [] };
}

abbrev passed_over : PktScheduler ℤ
passed_over = record holding { active_list = record { ids = []; exist = [] } }

-- It has a status again, and a packet, and it does not wait.
abbrev stuck : PktScheduler ℤ
stuck = record passed_over {
  client_ids = client ∷ [];
  stats = (client, record { throughput = pos 1; quantum = pos 10; counter = pos 0 }) ∷ [];
}

leaves_run : step started (computes ((pos 3, pos 1) ∷ [])) ≡ ok away
unfolding step compute_quantum share has update eqb_ℤ put Queue.new_queue Queue.clear find ◌/ℤ◌
leaves_run = refl

arrives_run : step away (enqueues packet 1 client) ≡ ok holding
unfolding step enqueue Queue.enqueue find put Active.append eqb_ℤ Queue.new_queue Queue.is_full
    Queue.get_length Active.empty
arrives_run = refl

passes_run : step holding dequeues ≡ ok passed_over
unfolding step dequeue pick Active.remove Active.erase_id has eqb_ℤ
passes_run = refl

returns_run : step passed_over (computes rates) ≡ ok stuck
unfolding step compute_quantum share has update eqb_ℤ put Queue.new_queue Queue.clear find ◌/ℤ◌
returns_run = refl

away-Inv : Inv away
unfolding has eqb_ℤ
away-Inv = step-Inv started away (computes ((pos 3, pos 1) ∷ [])) (refl, tt) started-Inv leaves_run

holding-Inv : Inv holding
holding-Inv = step-Inv away holding (enqueues packet 1 client) tt away-Inv arrives_run

passed_over-Inv : Inv passed_over
passed_over-Inv = step-Inv holding passed_over dequeues tt holding-Inv passes_run

stuck-Inv : Inv stuck
unfolding has eqb_ℤ
stuck-Inv = step-Inv passed_over stuck (computes rates) (refl, tt) passed_over-Inv returns_run

stuck-IsStalled : IsStalled client full_queue stuck
unfolding find eqb_ℤ
stuck-IsStalled = record { found = refl; full = refl; idle = refl }

dropped_run : step stuck (enqueues packet 1 client) ≡ ok stuck
unfolding step enqueue Queue.enqueue find put Active.append eqb_ℤ Queue.new_queue Queue.is_full
    Queue.get_length Active.empty
dropped_run = refl

step-IsStalled_example : IsStalled client full_queue stuck
step-IsStalled_example =
    step-IsStalled stuck stuck (enqueues packet 1 client) client full_queue stuck-Inv tt dropped_run
      stuck-IsStalled
