-- ===== src/Tests/Schedulers.antt =====
-- A scheduler of two slots a queue, through a first round.
use wspace_controller.Prelude.{
  ℕ, ◌≡◌, refl, List, [], ◌∷◌, ◌++◌, some, arith, inl, inr, Bool-cases, subst, map,
}
use wspace_controller.Prelude.Int.{ℤ, pos, eqb_ℤ, ◌+ℤ◌, ◌/ℤ◌, ◌*ℤ◌}
use wspace_controller.Prelude.Result.{ok, ◌>>=◌}
use wspace_controller.Map.{◌=?◌, Map, find, put, has, get_or}
use wspace_controller.NodeId.{NodeId, node_id_eq}
use wspace_controller.Double.{whole_double, pkt_duration}
use wspace_controller.Scheduler.{
  PktScheduler, equal_time, Dequeued, serves, enqueue, dequeue, pick, drain, serve, Drained,
}
use wspace_controller.Scheduler.Queue
use wspace_controller.Scheduler.Queue.Laws.{
  IsValid, enqueue_all, dequeue_all, whole_pkt, dequeue_all-enqueue_all,
}
use wspace_controller.Scheduler.Active.Laws.{empty-IsSynced}
use wspace_controller.Scheduler.Calls.{DequeueSpec, dequeue_lem, dequeue_progress}
use wspace_controller.Scheduler.Admission.{EnqueueSpec, enqueue_lem}
use wspace_controller.Scheduler.Quantum.Correct.{QuantumSpec, compute_quantum_lem}
use wspace_controller.Scheduler.Drain.{DrainSpec, drain_lem}
use mathlib.Core.Option.{some-injective}
use wspace_controller.Scheduler.Active
use wspace_controller.Scheduler.Service.{Inv, NoneStalled, ServeSpec, serve_lem}
use wspace_controller.Scheduler.Start.{new_scheduler-Inv}
use wspace_controller.Scheduler.Quantum.{new_scheduler, compute_quantum}
use wspace_controller.Scheduler.Threads.{idle}
use wspace_controller.Scheduler.Threads.Safety.{Reach}
use wspace_controller.Scheduler.Threads.Calls.{alone, step-Reach}
use wspace_controller.Scheduler.History.{enqueues, dequeues, step, step-Inv, step-NoneStalled}

abbrev pub client : NodeId
client = pos 2

abbrev pub rates : Map NodeId ℤ
rates = (client, pos 1) ∷ []

abbrev pub started : PktScheduler ℤ
started = record {
  client_ids = client ∷ [];
  pkt_queue_size = 1;
  queues = (client, Queue.new_queue 1) ∷ [];
  stats = (client, record { throughput = pos 1; quantum = pos 10; counter = pos 0 }) ∷ [];
  active_list = Active.empty;
  round_interval = 10;
  fairness_mode = equal_time;
}

abbrev pub packet : List ℕ
packet = 7 ∷ []

abbrev waiting : PktScheduler ℤ
waiting = record started {
  queues =
      (client, record { max_size = 1; packets = record { bytes = packet; len = 1 } ∷ [] }) ∷ [];
  active_list = record { ids = client ∷ []; exist = client ∷ [] };
}

abbrev served : PktScheduler ℤ
served = record started {
  stats = (client, record { throughput = pos 1; quantum = pos 10; counter = pos 0 }) ∷ [];
  active_list = record { ids = []; exist = [] };
}

enqueue_run : enqueue packet 1 client started ≡ ok waiting
unfolding enqueue Queue.enqueue find put Active.append eqb_ℤ Queue.new_queue Queue.is_full
    Queue.get_length Active.empty
enqueue_run = refl

dequeue_run : step waiting dequeues ≡ ok served
unfolding step dequeue pick Active.remove Active.erase_id has serve drain find put get_or
    Queue.dequeue Queue.peek_top_pkt_size pkt_duration Active.append eqb_ℤ Queue.new_queue
    Active.empty ◌+ℤ◌ ◌/ℤ◌ ◌*ℤ◌
dequeue_run = refl

one_IsValid :
    (k : NodeId) (q0 q : Queue.PktQueue)
    → IsValid q0
    → find k ((client, q0) ∷ []) ≡ some q
    → IsValid q
unfolding find
one_IsValid k q0 q v f = elim (Bool-cases (client =? k)) [
  | inl y ↦ subst IsValid (some-injective _ _ (rw (y) at f)) v
  | inr n ↦ cc ((rw (n) at f))
]

pub started-Inv : Inv started
unfolding Queue.new_queue has
started-Inv = record {
  synced = empty-IsSynced;
  valid = λ k q f.
      one_IsValid k (Queue.new_queue 1) q (record { bounded = omega arith; lengths = tt }) f;
  have_queues = λ k h. h;
}

waiting-Inv : Inv waiting
unfolding step enqueue
waiting-Inv = step-Inv started waiting (enqueues packet 1 client) tt started-Inv enqueue_run

waiting-NoneStalled : NoneStalled waiting
unfolding has
waiting-NoneStalled k q known found full = known

dequeue_lem_example : (r : Dequeued ℤ) × (dequeue waiting ≡ ok r) × DequeueSpec waiting r
dequeue_lem_example = dequeue_lem waiting waiting-Inv

abbrev pub full_queue : Queue.PktQueue
full_queue = record { max_size = 1; packets = record { bytes = packet; len = 1 } ∷ [] }

dequeue_progress_example :
    (id : NodeId) × (pkts : List Queue.Packet) × (s' : PktScheduler ℤ) × (dequeue waiting
      ≡ ok (serves id pkts s'))
unfolding has find eqb_ℤ
dequeue_progress_example =
    dequeue_progress waiting client full_queue waiting-Inv waiting-NoneStalled refl refl (λ e. cc)

enqueue_lem_example :
    (s' : PktScheduler ℤ) × (enqueue packet 1 client started ≡ ok s')
    × EnqueueSpec started packet 1 client (Queue.new_queue 1) s'
    × Inv s'
    × (NoneStalled started → NoneStalled s')
unfolding find eqb_ℤ
enqueue_lem_example =
    enqueue_lem packet 1 client started (Queue.new_queue 1) started-Inv refl (omega arith)

compute_quantum_lem_example :
    (s' : PktScheduler ℤ) × (compute_quantum rates waiting ≡ ok s') × QuantumSpec rates waiting s'
unfolding has
compute_quantum_lem_example = compute_quantum_lem rates waiting tt (refl, tt)

step-Inv_example : Inv served
step-Inv_example = step-Inv waiting served dequeues tt waiting-Inv dequeue_run

step-Reach_example : Reach (alone waiting idle) (alone served idle)
step-Reach_example = step-Reach waiting served dequeues tt tt dequeue_run

step-NoneStalled_example : NoneStalled served
step-NoneStalled_example =
    step-NoneStalled waiting served dequeues tt tt waiting-Inv waiting-NoneStalled dequeue_run

serve_lem_example :
    (pkts : List Queue.Packet) × (s' : PktScheduler ℤ) × (serve client waiting
      ≡ ok (serves client pkts s'))
    × ServeSpec waiting client pkts s'
unfolding has eqb_ℤ
serve_lem_example = serve_lem client waiting waiting-Inv refl

drain_lem_example :
    (r : Drained ℤ) × (sent : List Queue.Packet) × (drain 2
        (record { throughput = pos 1; quantum = pos 10; counter = pos 10 })
        full_queue
        []
      ≡ ok r)
    × (r.pkts ≡ [] ++ sent)
    × DrainSpec
        (record { throughput = pos 1; quantum = pos 10; counter = pos 10 })
        full_queue
        sent
        r
drain_lem_example =
    drain_lem 2 (record { throughput = pos 1; quantum = pos 10; counter = pos 10 }) 1
      (record { bytes = packet; len = 1 } ∷ []) [] (omega arith)

dequeue_all-enqueue_all_example :
    (enqueue_all (packet ∷ []) (Queue.new_queue 2) >>= dequeue_all 1)
    ≡ ok (map whole_pkt (packet ∷ []), Queue.new_queue 2)
dequeue_all-enqueue_all_example =
    dequeue_all-enqueue_all (packet ∷ []) 2 (omega arith, tt) (omega arith)

new_scheduler-Inv_example : Inv (new_scheduler (pos 1) (client ∷ []) 1 10 equal_time)
new_scheduler-Inv_example = new_scheduler-Inv (pos 1) (client ∷ []) 1 10 equal_time
