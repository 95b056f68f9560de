-- ===== src/Tests/Threads.antt =====
-- The threads of one scheduler, through one packet: it comes in, it is served, and the scheduler sleeps.
use wspace_controller.Prelude.{◌≡◌, refl, [], ◌∷◌, arith, subst, sym}
use wspace_controller.Prelude.Int.{ℤ, pos, eqb_ℤ, ◌+ℤ◌, ◌-ℤ◌, ◌/ℤ◌, ◌*ℤ◌}
use wspace_controller.Map.{find, put, has, get_or, update}
use wspace_controller.NodeId.{node_id_eq}
use wspace_controller.Double.{whole_double, pkt_duration}
use wspace_controller.Scheduler.{equal_time}
use wspace_controller.Scheduler.Queue
use wspace_controller.Scheduler.Active
use wspace_controller.Scheduler.Quantum.{new_scheduler, add_clients}
use wspace_controller.Scheduler.Threads.{
  System, Step, idle, stored, resting, taken, serving, peeked, store, append, take, begin, peek,
  send, empty,
}
use wspace_controller.Scheduler.Threads.Attended.{IsSafe}
use wspace_controller.Scheduler.Threads.Safety.{
  start, start-IsSafe, Step-IsSafe, Reach, here, next, Reach-IsSafe, sleeps_drained,
}
use wspace_controller.Tests.Schedulers.{client, packet, started, full_queue}

abbrev begun : System ℤ
begun = record { sched = started; producer = idle; consumer = resting }

start_run : start (pos 1) (client ∷ []) 1 10 equal_time ≡ begun
unfolding start new_scheduler add_clients put update get_or find eqb_ℤ Queue.new_queue ◌/ℤ◌
    Active.empty
start_run = refl

abbrev queued : System ℤ
queued = record begun {
  sched = record started { queues = (client, full_queue) ∷ [] };
  producer = stored client;
}

abbrev store_run : Step begun queued
unfolding find put eqb_ℤ Queue.enqueue Queue.new_queue Queue.is_full Queue.get_length
store_run = store begun packet 1 client (Queue.new_queue 1) full_queue refl refl refl

abbrev listed : System ℤ
listed = record queued {
  sched = record queued.sched { active_list = record { ids = client ∷ []; exist = client ∷ [] } };
  producer = idle;
}

abbrev chosen : System ℤ
chosen = record listed {
  sched = record listed.sched { active_list = record { ids = []; exist = [] } };
  consumer = taken client;
}

abbrev in_service : System ℤ
in_service = record chosen {
  sched = record chosen.sched {
    stats = (client, record { throughput = pos 1; quantum = pos 10; counter = pos 10 }) ∷ [];
  };
  consumer = serving client;
}

abbrev drained_queue : Queue.PktQueue
drained_queue = record { max_size = 1; packets = [] }

abbrev paid : System ℤ
paid = record in_service {
  sched = record in_service.sched {
    queues = (client, drained_queue) ∷ [];
    stats = (client, record { throughput = pos 1; quantum = pos 10; counter = pos 2 }) ∷ [];
  };
}

abbrev asleep : System ℤ
asleep = record paid {
  sched = record paid.sched {
    stats = (client, record { throughput = pos 1; quantum = pos 10; counter = pos 0 }) ∷ [];
  };
  consumer = resting;
}

abbrev append_run : Step queued listed
unfolding Active.append Active.empty
append_run = append queued client refl

abbrev take_run : Step listed chosen
unfolding Active.remove Active.erase_id eqb_ℤ
take_run = take listed client _ refl refl

abbrev begin_run : Step chosen in_service
unfolding has get_or find put eqb_ℤ ◌+ℤ◌
begin_run = begin chosen client refl refl

abbrev peek_run : Step in_service (record in_service { consumer = peeked client 1 })
unfolding find eqb_ℤ Queue.peek_top_pkt_size
peek_run = peek in_service client full_queue refl refl

abbrev send_run : Step (record in_service { consumer = peeked client 1 }) paid
unfolding find get_or put eqb_ℤ Queue.dequeue pkt_duration ◌+ℤ◌ ◌-ℤ◌ ◌/ℤ◌ ◌*ℤ◌
send_run =
    send (record in_service { consumer = peeked client 1 }) client 1 full_queue _ _ refl
      (omega arith) refl refl refl

abbrev peek_again_run : Step paid (record paid { consumer = peeked client 0 })
unfolding find eqb_ℤ Queue.peek_top_pkt_size
peek_again_run = peek paid client _ refl refl

abbrev empty_run : Step (record paid { consumer = peeked client 0 }) asleep
unfolding get_or find put eqb_ℤ
empty_run = empty (record paid { consumer = peeked client 0 }) client refl

begun-IsSafe : IsSafe begun
begun-IsSafe = subst IsSafe start_run (start-IsSafe (pos 1) (client ∷ []) 1 10 equal_time)

peeked-Reach : Reach begun (record in_service { consumer = peeked client 1 })
unfolding store_run append_run take_run begin_run peek_run
peeked-Reach =
    next (next (next (next (next here store_run tt) append_run tt) take_run tt) begin_run tt)
      peek_run tt

asleep-Reach : Reach begun asleep
unfolding send_run peek_again_run empty_run
asleep-Reach = next (next (next peeked-Reach send_run tt) peek_again_run tt) empty_run tt

Step-IsSafe_example : IsSafe paid
unfolding send_run
Step-IsSafe_example = Step-IsSafe send_run tt (Reach-IsSafe begun-IsSafe peeked-Reach)

sleeps_drained_example : drained_queue.packets ≡ []
unfolding has find eqb_ℤ
sleeps_drained_example =
    sleeps_drained (pos 1) (client ∷ []) 1 10 equal_time asleep client drained_queue
      (subst (λ s. Reach s asleep) (sym start_run) asleep-Reach) refl refl refl refl refl
