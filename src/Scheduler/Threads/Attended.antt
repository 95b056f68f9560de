-- ===== src/Scheduler/Threads/Attended.antt =====
-- Who has a client in hand, between the steps of the threads.
use wspace_controller.Prelude.{ℕ, zero, suc, ◌≡◌, refl, true, [], some, inl, inr, ◌≢◌, ◌⊎◌}
use wspace_controller.Map.{find, has, has_elem}
use wspace_controller.Map.Laws.{HasUniqueKeys}
use wspace_controller.NodeId.{NodeId, node_id_eq}
use wspace_controller.Double.{Double}
use wspace_controller.Scheduler.Queue.{PktQueue}
use wspace_controller.Scheduler.Service.{Inv}
use wspace_controller.Scheduler.History.{AddsNobody, computes}
use wspace_controller.Scheduler.Threads.{
  Producer, idle, stored, Consumer, resting, taken, serving, peeked, leaving, System, IsUnlocked,
  Step, compute,
}
use wspace_controller.Scheduler.{PktScheduler}

-- The thread is about to append the client.
abbrev pub IsPending : Producer → NodeId → Type 0
IsPending idle k = ⊥
IsPending (stored id) k = id ≡ k

-- The thread serves the client, and goes on to look at its queue or to append it.
abbrev pub IsHeld : Consumer → NodeId → Type 0
IsHeld resting k = ⊥
IsHeld (taken id) k = id ≡ k
IsHeld (serving id) k = id ≡ k
IsHeld (peeked id zero) k = ⊥
IsHeld (peeked id (suc n)) k = id ≡ k
IsHeld (leaving id) k = id ≡ k

pub IsHeld-peeked : (id k : NodeId) (n : ℕ) → n ≢ 0 → id ≡ k → IsHeld (peeked id n) k
IsHeld-peeked id k zero h e = absurd (h refl)
IsHeld-peeked id k (suc n) h e = e

pub peeked-eq : (id k : NodeId) (n : ℕ) → IsHeld (peeked id n) k → id ≡ k
peeked-eq id k zero h = elim h [ ]
peeked-eq id k (suc n) h = h

module _ {W : Type 0} where
  -- A client that is served has a status.
  abbrev pub HasStatus : PktScheduler W → Consumer → Type 0
  HasStatus s (serving id) = has id s.stats ≡ true
  HasStatus s (peeked id n) = has id s.stats ≡ true
  HasStatus s (leaving id) = has id s.stats ≡ true
  HasStatus s _ = Unit

  pub unlocked-HasStatus : (s : PktScheduler W) (c : Consumer) → IsUnlocked c → HasStatus s c
  unlocked-HasStatus s resting u = tt
  unlocked-HasStatus s (taken id) u = tt
  unlocked-HasStatus s (serving id) u = elim u [ ]
  unlocked-HasStatus s (peeked id n) u = elim u [ ]
  unlocked-HasStatus s (leaving id) u = elim u [ ]

  -- The client waits, or one of the threads has it in hand.
  abbrev pub IsAttended : System W → NodeId → Type 0
  IsAttended s k =
      (has_elem k s.sched.active_list.ids ≡ true) ⊎ (IsPending s.producer k ⊎ IsHeld s.consumer k)

  -- Each client with a status and a packet waits or is in hand.
  abbrev pub NoneLost : System W → Type 0
  NoneLost s =
      (k : NodeId) (q : PktQueue)
      → has k s.sched.stats ≡ true
      → find k s.sched.queues ≡ some q
      → q.packets ≢ []
      → IsAttended s k

  pub record IsSafe (s : System W) : Type 0 where
    pub inv : Inv s.sched
    pub status : HasStatus s.sched s.consumer
    pub none_lost : NoneLost s

  -- A client stays attended where each way in which it is leads to one after the step.
  pub attend :
      (s t : System W) (k : NodeId)
      → IsAttended s k
      → (has_elem k s.sched.active_list.ids ≡ true → IsAttended t k)
      → (IsPending s.producer k → IsAttended t k)
      → (IsHeld s.consumer k → IsAttended t k)
      → IsAttended t k
  attend s t k (inl a) f g h = f a
  attend s t k (inr (inl a)) f g h = g a
  attend s t k (inr (inr a)) f g h = h a

module _ {W : Type 0} ⦃d : Double W⦄ where
  -- A step that brings in no new client: throughputs are a map of clients with a status.
  abbrev pub IsCalm : {s t : System W} → Step s t → Type 0
  IsCalm (compute s ts sched' u e) = HasUniqueKeys ts × AddsNobody s.sched (computes ts)
  IsCalm _ = Unit
