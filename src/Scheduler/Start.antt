-- ===== src/Scheduler/Start.antt =====
-- `PktScheduler::PktScheduler`: what holds before the first call.
use wspace_controller.Prelude.{
  or-true, ℕ, ◌≡◌, ap, sym, some, subst, refl, true, ◌⊎◌, List, [], ◌∷◌, arith, Bool-cases, inl,
  inr, length,
}
use mathlib.Core.Option.{some-injective}
use wspace_controller.Map.{find, put, has, has_elem, update, ◌=?◌}
use wspace_controller.Map.Laws.{find-put, has-put}
use wspace_controller.NodeId.{NodeId, node_id_eq}
use wspace_controller.Double.{Double, of_nat}
use wspace_controller.Scheduler.Queue.{PktQueue, new_queue}
use wspace_controller.Scheduler.Queue.Laws.{IsValid}
use wspace_controller.Scheduler.Active.Laws.{empty-IsSynced}
use wspace_controller.Scheduler.Service.{Inv}
use wspace_controller.Scheduler.Quantum.{add_clients, new_scheduler, with_throughput, with_quantum}
use wspace_controller.Scheduler.Quantum.Correct.{IsKnown}
use wspace_controller.Scheduler.{PktScheduler, FairnessMode, no_status}

new_queue-IsValid : (size : ℕ) → IsValid (new_queue size)
unfolding new_queue
new_queue-IsValid size = record { bounded = omega arith; lengths = tt }

module _ {W : Type 0} where
  -- No client has a packet.
  abbrev pub AreEmpty : PktScheduler W → Type 0
  AreEmpty s = (k : NodeId) (q : PktQueue) → find k s.queues ≡ some q → q.packets ≡ []

module _ {W : Type 0} ⦃d : Double W⦄ where
  -- The scheduler after one turn of the constructor's loop.
  abbrev added : ℕ → W → W → NodeId → PktScheduler W → PktScheduler W
  added size quantum rate c s = record s {
    queues = put c (new_queue size) s.queues;
    stats =
        update no_status c (with_throughput rate)
          (update no_status c (with_quantum quantum) s.stats);
  }

  add_clients-Inv :
      (size : ℕ) (quantum rate : W) (cs : List NodeId) (s : PktScheduler W)
      → Inv s
      → Inv (add_clients size quantum rate cs s)
  unfolding add_clients update
  add_clients-Inv size quantum rate [] s inv = inv
  add_clients-Inv size quantum rate (c ∷ cs) s inv =
      add_clients-Inv size quantum rate cs (added size quantum rate c s) (record {
        synced = inv.synced;
        valid = λ k q f. elim (Bool-cases (c =? k)) [
          | inl y ↦
              let same = rw (find-put k c (new_queue size) s.queues, y) at f in
              subst IsValid (some-injective _ _ same) (new_queue-IsValid size)
          | inr n ↦ inv.valid k q (rw (find-put k c (new_queue size) s.queues, n) at f)
        ];
        have_queues = λ k h.
            let q = has-put k c (new_queue size) s.queues in
            elim (Bool-cases (c =? k)) [
              | inl y ↦ rw (q, y)
              | inr n ↦
                  let h1 = rw (has-put k c) at h in
                  let h2 = rw (n, has-put k c, n) at h1 in rw (q, n) (inv.have_queues k h2)
            ];
      })

  -- A new scheduler satisfies the invariant, whatever its clients, sizes and mode are.
  pub new_scheduler-Inv :
      (rate : W) (cs : List NodeId) (size round : ℕ) (mode : FairnessMode)
      → Inv (new_scheduler rate cs size round mode)
  unfolding new_scheduler find has
  new_scheduler-Inv rate cs size round mode =
      add_clients-Inv size (d.over (of_nat round) (of_nat (length cs))) rate cs _
        (record { synced = empty-IsSynced; valid = λ k q f. cc; have_queues = λ k h. cc })

  add_clients-empty :
      (size : ℕ) (quantum rate : W) (cs : List NodeId) (s : PktScheduler W)
      → AreEmpty s
      → AreEmpty (add_clients size quantum rate cs s)
  unfolding add_clients new_queue update
  add_clients-empty size quantum rate [] s h = h
  add_clients-empty size quantum rate (c ∷ cs) s h =
      add_clients-empty size quantum rate cs (added size quantum rate c s) (λ k q f.
        elim (Bool-cases (c =? k)) [
          | inl y ↦
              ap (λ x. x.packets)
                (sym (some-injective _ _ (rw (find-put k c (new_queue size) s.queues, y) at f)))
          | inr n ↦ h k q (rw (find-put k c (new_queue size) s.queues, n) at f)
        ])

  pub new_scheduler-empty :
      (rate : W) (cs : List NodeId) (size round : ℕ) (mode : FairnessMode)
      → AreEmpty (new_scheduler rate cs size round mode)
  unfolding new_scheduler find
  new_scheduler-empty rate cs size round mode = add_clients-empty size _ rate cs _ (λ k q f. cc)

  add_clients-queues :
      (size : ℕ) (quantum rate : W) (cs : List NodeId) (s : PktScheduler W) (k : NodeId)
      → (has k s.queues ≡ true) ⊎ (has_elem k cs ≡ true)
      → has k (add_clients size quantum rate cs s).queues ≡ true
  unfolding add_clients update
  add_clients-queues size quantum rate [] s k (inl h) = h
  add_clients-queues size quantum rate [] s k (inr h) = cc
  add_clients-queues size quantum rate (c ∷ cs) s k h =
      add_clients-queues size quantum rate cs (added size quantum rate c s) k
        (elim (Bool-cases (c =? k)) [
          | inl y ↦ inl (rw (has-put k c (new_queue size) s.queues, y) refl)
          | inr n ↦ elim h [
            | inl old ↦ inl (rw (has-put k c (new_queue size) s.queues, n) old)
            | inr listed ↦ inr (rw n at listed)
          ]
        ])

  -- Each client has a queue.
  pub new_scheduler-queues :
      (rate : W) (cs : List NodeId) (size round : ℕ) (mode : FairnessMode) (k : NodeId)
      → has_elem k cs ≡ true
      → has k (new_scheduler rate cs size round mode).queues ≡ true
  unfolding new_scheduler
  new_scheduler-queues rate cs size round mode k h = add_clients-queues size _ rate cs _ k (inr h)

  add_clients-mode :
      (size : ℕ) (quantum rate : W) (cs : List NodeId) (s : PktScheduler W)
      → (add_clients size quantum rate cs s).fairness_mode ≡ s.fairness_mode
  unfolding add_clients
  add_clients-mode size quantum rate [] s = refl
  add_clients-mode size quantum rate (c ∷ cs) s =
      add_clients-mode size quantum rate cs (added size quantum rate c s)

  pub new_scheduler-IsKnown :
      (rate : W) (cs : List NodeId) (size round : ℕ) (mode : FairnessMode)
      → IsKnown mode
      → IsKnown (new_scheduler rate cs size round mode).fairness_mode
  unfolding new_scheduler
  new_scheduler-IsKnown rate cs size round mode known = rw (add_clients-mode size) known

  add_clients-stats :
      (size : ℕ) (quantum rate : W) (cs : List NodeId) (s : PktScheduler W) (k : NodeId)
      → has k (add_clients size quantum rate cs s).stats ≡ true
      → (has k s.stats ≡ true) ⊎ (has_elem k cs ≡ true)
  unfolding add_clients update
  add_clients-stats size quantum rate [] s k h = inl h
  add_clients-stats size quantum rate (c ∷ cs) s k h =
      elim (add_clients-stats size quantum rate cs (added size quantum rate c s) k h) [
        | inr listed ↦ inr (rw listed (or-true (c =? k)))
        | inl old ↦ elim (Bool-cases (c =? k)) [
          | inl y ↦ inr (rw y refl)
          | inr n ↦ inl (rw (has-put k c _ s.stats, n) at rw (has-put k c _ _, n) at old)
        ]
      ]

  -- Nobody else has a status.
  pub new_scheduler-stats :
      (rate : W) (cs : List NodeId) (size round : ℕ) (mode : FairnessMode) (k : NodeId)
      → has k (new_scheduler rate cs size round mode).stats ≡ true
      → has_elem k cs ≡ true
  unfolding new_scheduler has
  new_scheduler-stats rate cs size round mode k h = elim (add_clients-stats size _ rate cs _ k h) [
    | inl e ↦ cc
    | inr listed ↦ listed
  ]
