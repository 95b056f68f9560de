-- ===== src/Scheduler/Threads/Safety.antt =====
-- No client is lost between the threads.
use wspace_controller.Prelude.{ℕ, ◌≡◌, ap, subst, true, List, [], some, inl, inr}
use wspace_controller.Map.{find, has, has_elem}
use wspace_controller.NodeId.{NodeId, node_id_eq}
use wspace_controller.Double.{Double}
use wspace_controller.Scheduler.Queue.{PktQueue}
use wspace_controller.Scheduler.Fairness.{list_cases}
use wspace_controller.Scheduler.Threads.{
  idle, resting, System, Step, store, refuse, append, take, drop, begin, peek, send, hold, empty,
  requeue, compute,
}
use wspace_controller.Scheduler.{FairnessMode}
use wspace_controller.Scheduler.Threads.Produce.{stored-IsSafe, refused-IsSafe, appended-IsSafe}
use wspace_controller.Scheduler.Threads.Consume.{
  taken-IsSafe, dropped-IsSafe, begun-IsSafe, peeked-IsSafe, sent-IsSafe, held-IsSafe,
  emptied-IsSafe, requeued-IsSafe, computed-IsSafe,
}
use wspace_controller.Scheduler.Quantum.{new_scheduler}
use wspace_controller.Scheduler.Start.{new_scheduler-Inv, new_scheduler-empty}
use wspace_controller.Scheduler.Threads.Attended.{IsPending, IsHeld, IsSafe, IsCalm}

module _ {W : Type 0} ⦃d : Double W⦄ where
  -- Any step of any thread keeps the following, but for a `ComputeQuantum` that brings in a new client:
  -- the scheduler's invariant holds, a client under service has a status, and each client that has a
  -- status and a packet waits for service, is under service, or is about to be appended by `Enqueue`.
  pub Step-IsSafe : {s t : System W} → (st : Step s t) → IsCalm st → IsSafe s → IsSafe t
  Step-IsSafe (store s pkt len id q q' p f run) c v = stored-IsSafe s pkt len id q q' p f run v
  Step-IsSafe (refuse s pkt len id q q' p f run) c v = refused-IsSafe s pkt len id q q' f run v
  Step-IsSafe (append s id p) c v = appended-IsSafe s id p v
  Step-IsSafe (take s id l e run) c v = taken-IsSafe s v id l e run
  Step-IsSafe (drop s id e gone) c v = dropped-IsSafe s v id e gone
  Step-IsSafe (begin s id e known) c v = begun-IsSafe s v id _ e known
  Step-IsSafe (peek s id q e f) c v = peeked-IsSafe s v id q e f
  Step-IsSafe (send s id len q q' p e l paid f run) c v = sent-IsSafe s v id len q q' p _ e f run
  Step-IsSafe (hold s id len e l short) c v = held-IsSafe s v id len e
  Step-IsSafe (empty s id e) c v = emptied-IsSafe s v id _ e
  Step-IsSafe (requeue s id e) c v = requeued-IsSafe s v id e
  Step-IsSafe (compute s ts sched' u run) (unique, nobody) v =
      computed-IsSafe s v ts sched' u run unique nobody

  -- What the threads can reach by calm steps, in any order.
  pub data Reach (s : System W) : System W → Type 0 where
    here : Reach s s
    next : {t u : System W} → Reach s t → (st : Step t u) → IsCalm st → Reach s u

  pub Reach-IsSafe : {s t : System W} → IsSafe s → Reach s t → IsSafe t
  Reach-IsSafe v here = v
  Reach-IsSafe v (next r st c) = Step-IsSafe st c (Reach-IsSafe v r)

  -- All threads before their first step, on a new scheduler.
  unfoldable pub start : W → List NodeId → ℕ → ℕ → FairnessMode → System W
  start rate cs size round mode = record {
    sched = new_scheduler rate cs size round mode;
    producer = idle;
    consumer = resting;
  }

  pub start-IsSafe :
      (rate : W) (cs : List NodeId) (size round : ℕ) (mode : FairnessMode)
      → IsSafe (start rate cs size round mode)
  unfolding start
  start-IsSafe rate cs size round mode = record {
    inv = new_scheduler-Inv rate cs size round mode;
    status = tt;
    none_lost = λ k q known found full.
        absurd (full (new_scheduler-empty rate cs size round mode k q found));
  }

  -- In every state that the threads can reach from a new scheduler, in any order of their steps and
  -- without a `ComputeQuantum` that brings in a new client: when the thread in `Dequeue` sleeps, no id
  -- waits, and the thread in `Enqueue` is outside, no client with a status has a packet left.
  pub sleeps_drained :
      (rate : W) (cs : List NodeId) (size round : ℕ) (mode : FairnessMode) (s : System W)
      (k : NodeId) (q : PktQueue)
      → Reach (start rate cs size round mode) s
      → s.producer ≡ idle
      → s.consumer ≡ resting
      → s.sched.active_list.ids ≡ []
      → has k s.sched.stats ≡ true
      → find k s.sched.queues ≡ some q
      → q.packets ≡ []
  sleeps_drained rate cs size round mode s k q r p c none_waits known found =
      elim (list_cases q.packets) [
        | inl e ↦ e
        | inr full ↦
            elim ((Reach-IsSafe (start-IsSafe rate cs size round mode) r).none_lost k q known found
              full) [
                | inl waits ↦ cc (ap (has_elem k) none_waits)
                | inr (inl a) ↦ elim (subst (λ x. IsPending x k) p a) [ ]
                | inr (inr a) ↦ elim (subst (λ x. IsHeld x k) c a) [ ]
              ]
      ]
