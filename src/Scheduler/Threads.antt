-- ===== src/Scheduler/Threads.antt =====
-- The threads of one scheduler step by step, of packet_scheduler.cc: the one that reads the tunnel in
-- `Enqueue`, one that forwards in `Dequeue`, and the one that chooses routes in `ComputeQuantum`. A step
-- is what a thread does under one lock of a queue or of the active list; `lock_` of the scheduler is held
-- by the thread that forwards from `begin` to `empty` or `requeue`. A whole `ComputeQuantum` is one step.
pub mod Parts
pub mod Attended
pub mod Produce
pub mod Consume
pub mod Safety
pub mod Calls
use wspace_controller.Prelude.{ℕ, ◌<◌, ◌≡◌, true, false, List, Option, some, if◌then◌else◌}
use wspace_controller.Prelude.Result.{ok}
use wspace_controller.Map.{Map, find, put, has, get_or}
use wspace_controller.NodeId.{NodeId, node_id_eq}
use wspace_controller.Double.{Double, of_nat, pkt_duration}
use wspace_controller.Scheduler.Queue.{Packet, PktQueue, peek_top_pkt_size}
use wspace_controller.Scheduler.Queue
use wspace_controller.Scheduler.Active.{ActiveList}
use wspace_controller.Scheduler.Active
use wspace_controller.Scheduler.Quantum.{compute_quantum}
use wspace_controller.Scheduler.{Status, PktScheduler, no_status}

-- Where the thread in `Enqueue` stands: outside, or with a packet stored and its client not appended.
pub data Producer : Type 0 where
  idle : Producer
  stored : NodeId → Producer

-- Where the thread in `Dequeue` stands: before `Remove`; with an id and no lock; under the lock before
-- a test of the second loop; after `PeekTopPktSize`, with its result; before the last `Append`.
pub data Consumer : Type 0 where
  resting : Consumer
  taken : NodeId → Consumer
  serving : NodeId → Consumer
  peeked : NodeId → ℕ → Consumer
  leaving : NodeId → Consumer

pub record System (W : Type 0) : Type 0 where
  pub sched : PktScheduler W
  pub producer : Producer
  pub consumer : Consumer

-- The thread in `Dequeue` does not hold the lock.
abbrev pub IsUnlocked : Consumer → Type 0
IsUnlocked resting = Unit
IsUnlocked (taken id) = Unit
IsUnlocked _ = ⊥

module _ {W : Type 0} where
  abbrev pub with_queue : NodeId → PktQueue → PktScheduler W → PktScheduler W
  with_queue id q s = record s { queues = put id q s.queues }

  abbrev pub with_status : NodeId → Status W → PktScheduler W → PktScheduler W
  with_status id st s = record s { stats = put id st s.stats }

  abbrev pub with_active : ActiveList → PktScheduler W → PktScheduler W
  with_active l s = record s { active_list = l }

module _ {W : Type 0} ⦃d : Double W⦄ where
  -- `stats_[id]`, of a client that has a status.
  abbrev pub status_at : NodeId → PktScheduler W → Status W
  status_at id s = get_or no_status id s.stats

  -- The time to send the packet, as the counter pays it.
  abbrev pub price : NodeId → ℕ → PktScheduler W → W
  price id len s = d.of_int (pkt_duration len (status_at id s).throughput)

  pub data Step : System W → System W → Type 0 where
    -- `queues_[id]->Enqueue` in `Enqueue`.
    store :
        (s : System W) (pkt : List ℕ) (len : ℕ) (id : NodeId) (q q' : PktQueue)
        → s.producer ≡ idle
        → find id s.sched.queues ≡ some q
        → Queue.enqueue pkt len q ≡ ok (true, q')
        → Step s (record s { sched = with_queue id q' s.sched; producer = stored id })
    refuse :
        (s : System W) (pkt : List ℕ) (len : ℕ) (id : NodeId) (q q' : PktQueue)
        → s.producer ≡ idle
        → find id s.sched.queues ≡ some q
        → Queue.enqueue pkt len q ≡ ok (false, q')
        → Step s (record s { sched = with_queue id q' s.sched })
    -- `active_list_.Append` in `Enqueue`.
    append :
        (s : System W) (id : NodeId)
        → s.producer ≡ stored id
        → Step s (record s {
          sched = with_active (Active.append id s.sched.active_list) s.sched;
          producer = idle;
        })
    -- `active_list_.Remove`, where it does not sleep.
    take :
        (s : System W) (id : NodeId) (l : ActiveList)
        → s.consumer ≡ resting
        → Active.remove s.sched.active_list ≡ some (id, l)
        → Step s (record s { sched = with_active l s.sched; consumer = taken id })
    -- `Lock`, and the test of `stats_.count` that fails: `UnLock` and the next turn.
    drop :
        (s : System W) (id : NodeId)
        → s.consumer ≡ taken id
        → has id s.sched.stats ≡ false
        → Step s (record s { consumer = resting })
    -- `Lock`, the test that holds, and the quantum.
    begin :
        (s : System W) (id : NodeId)
        → s.consumer ≡ taken id
        → has id s.sched.stats ≡ true
        → Step s (record s {
          sched =
              with_status id
                (record (status_at id s.sched) {
                  counter = d.plus (status_at id s.sched).counter (status_at id s.sched).quantum;
                })
                s.sched;
          consumer = serving id;
        })
    peek :
        (s : System W) (id : NodeId) (q : PktQueue)
        → s.consumer ≡ serving id
        → find id s.sched.queues ≡ some q
        → Step s (record s { consumer = peeked id (peek_top_pkt_size q) })
    -- The counter covers the packet: it is taken and paid.
    send :
        (s : System W) (id : NodeId) (len : ℕ) (q q' : PktQueue) (p : Packet)
        → s.consumer ≡ peeked id len
        → 0 < len
        → d.lt (status_at id s.sched).counter (price id len s.sched) ≡ false
        → find id s.sched.queues ≡ some q
        → Queue.dequeue q ≡ ok (p, q')
        → Step s (record s {
          sched =
              with_status id
                (record (status_at id s.sched) {
                  counter = d.minus (status_at id s.sched).counter (price id len s.sched);
                })
                (with_queue id q' s.sched);
          consumer = serving id;
        })
    -- It does not.
    hold :
        (s : System W) (id : NodeId) (len : ℕ)
        → s.consumer ≡ peeked id len
        → 0 < len
        → d.lt (status_at id s.sched).counter (price id len s.sched) ≡ true
        → Step s (record s { consumer = leaving id })
    -- The queue was empty: the counter is reset, and `UnLock`.
    empty :
        (s : System W) (id : NodeId)
        → s.consumer ≡ peeked id 0
        → Step s (record s {
          sched = with_status id (record (status_at id s.sched) { counter = of_nat 0 }) s.sched;
          consumer = resting;
        })
    -- `active_list_.Append` in `Dequeue`, and `UnLock`.
    requeue :
        (s : System W) (id : NodeId)
        → s.consumer ≡ leaving id
        → Step s (record s {
          sched = with_active (Active.append id s.sched.active_list) s.sched;
          consumer = resting;
        })
    compute :
        (s : System W) (ts : Map NodeId W) (sched' : PktScheduler W)
        → IsUnlocked s.consumer
        → compute_quantum ts s.sched ≡ ok sched'
        → Step s (record s { sched = sched' })
