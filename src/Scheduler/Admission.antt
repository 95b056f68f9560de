-- ===== src/Scheduler/Admission.antt =====
-- `PktScheduler::Enqueue` as a whole call, and the clients that it can no longer help.
use wspace_controller.Prelude.{
  ℕ, ◌<◌, ◌≡◌, refl, sym, ap, ◌∙◌, subst, Bool, true, false, List, [], ◌∷◌, ◌++◌, some, arith,
  length, take, Bool-cases, inl, inr, ◌⊎◌, if◌then◌else◌,
}
use mathlib.Core.Option.{some-injective}
use wspace_controller.Prelude.Result.{ok}
use wspace_controller.Map.{Map, find, put, ◌=?◌}
use wspace_controller.Map.Laws.{find-put, has-put}
use wspace_controller.NodeId.{NodeId, node_id_eq}
use wspace_controller.Double.{Double}
use wspace_controller.Scheduler.Queue.{Packet, PktQueue, peek_top_pkt_size}
use wspace_controller.Scheduler.Queue
use wspace_controller.Scheduler.Queue.Laws.{IsValid, enqueue_cases, enqueue_total}
use wspace_controller.Scheduler.Active
use wspace_controller.Scheduler.Active.{ActiveList}
use wspace_controller.Scheduler.Active.Laws.{IsSynced, append_lem}
use wspace_controller.Scheduler.Service.{Inv, NoneStalled}
use wspace_controller.Scheduler.Fairness.{has_elem-append_active}
use wspace_controller.Scheduler.{PktScheduler, enqueue}

put_found :
    (id k : NodeId) (q' p : PktQueue) (m : Map NodeId PktQueue)
    → find k (put id q' m) ≡ some p
    → ((id =? k) ≡ true) × (q' ≡ p) ⊎ ((id =? k) ≡ false) × (find k m ≡ some p)
put_found id k q' p m e =
    let found : (if id =? k then some q' else find k m) ≡ some p = sym (find-put k id q' m) ∙ e in
    elim (Bool-cases (id =? k)) [
      | inl y ↦ inl (y, some-injective _ _ (rw y at found))
      | inr n ↦ inr (n, rw n at found)
    ]

put-IsValid :
    (id : NodeId) (q' : PktQueue) (m : Map NodeId PktQueue)
    → ((k : NodeId) (p : PktQueue) → find k m ≡ some p → IsValid p)
    → IsValid q'
    → (k : NodeId) (p : PktQueue) → find k (put id q' m) ≡ some p
    → IsValid p
put-IsValid id q' m all v k p e = elim (put_found id k q' p m e) [
  | inl (_, same) ↦ subst IsValid same v
  | inr (_, old) ↦ all k p old
]

module _ {W : Type 0} ⦃d : Double W⦄ where
  -- The scheduler after `Enqueue`, from the queue's answer.
  after_enqueue : NodeId → Bool → PktQueue → PktScheduler W → PktScheduler W
  after_enqueue id stored q s =
      if stored
      then record s { queues = put id q s.queues; active_list = Active.append id s.active_list }
      else record s { queues = put id q s.queues }

  enqueue_runs :
      (pkt : List ℕ) (len : ℕ) (id : NodeId) (s : PktScheduler W) (q : PktQueue)
      → find id s.queues ≡ some q
      → (stored : Bool) (q' : PktQueue) → Queue.enqueue pkt len q ≡ ok (stored, q')
      → enqueue pkt len id s ≡ ok (after_enqueue id stored q' s)
  unfolding enqueue after_enqueue
  enqueue_runs pkt len id s q had stored q' run = rw (had, enqueue) (rw run (ground arith))

  -- What `Enqueue` does to the scheduler. The queue keeps its packets in front; a packet is stored
  -- where there is room, and its client then waits; at a full queue nothing changes.
  pub record EnqueueSpec (s : PktScheduler W) (pkt : List ℕ) (len : ℕ) (id : NodeId) (q : PktQueue)
      (s' : PktScheduler W) : Type 0 where
    pub q' : PktQueue
    pub queues : s'.queues ≡ put id q' s.queues
    pub stats : s'.stats ≡ s.stats
    pub mode : s'.fairness_mode ≡ s.fairness_mode
    pub room :
        length q.packets < q.max_size
        → (q'.packets ≡ q.packets ++ record { bytes = take len pkt; len = len } ∷ [])
          × (s'.active_list ≡ Active.append id s.active_list)
    pub full : length q.packets ≡ q.max_size → (q' ≡ q) × (s'.active_list ≡ s.active_list)

  after_enqueue-EnqueueSpec :
      (s : PktScheduler W) (pkt : List ℕ) (len : ℕ) (id : NodeId) (q : PktQueue)
      → IsValid q
      → (stored : Bool) (q' : PktQueue) → Queue.enqueue pkt len q ≡ ok (stored, q')
      → EnqueueSpec s pkt len id q (after_enqueue id stored q' s)
  unfolding after_enqueue
  after_enqueue-EnqueueSpec s pkt len id q v true q' run =
      let (_, _, _, yes_case, _) = enqueue_cases pkt len q v run in
      record {
        q' = q';
        queues = refl;
        stats = refl;
        mode = refl;
        room = λ _. ((yes_case refl).1, refl);
        full = λ e. absurd (omega (arith, (yes_case refl).0));
      }
  after_enqueue-EnqueueSpec s pkt len id q v false q' run =
      let (_, _, _, _, no_case) = enqueue_cases pkt len q v run in
      record {
        q' = q';
        queues = refl;
        stats = refl;
        mode = refl;
        room = λ h. absurd (omega (arith, (no_case refl).0));
        full = λ _. ((no_case refl).1, refl);
      }

  after_enqueue-Inv :
      (s : PktScheduler W) (id : NodeId) (stored : Bool) (q' : PktQueue)
      → Inv s
      → IsValid q'
      → Inv (after_enqueue id stored q' s)
  unfolding after_enqueue
  after_enqueue-Inv s id true q' inv v = record {
    synced = (append_lem id s.active_list inv.synced).0;
    valid = put-IsValid id q' s.queues inv.valid v;
    have_queues = λ k h. rw (has-put k id q' s.queues) (ground (arith, inv.have_queues k h));
  }
  after_enqueue-Inv s id false q' inv v = record {
    synced = inv.synced;
    valid = put-IsValid id q' s.queues inv.valid v;
    have_queues = λ k h. rw (has-put k id q' s.queues) (ground (arith, inv.have_queues k h));
  }

  after_enqueue-NoneStalled :
      (s : PktScheduler W) (id : NodeId) (q : PktQueue) (stored : Bool) (q' : PktQueue)
      → IsSynced s.active_list
      → find id s.queues ≡ some q
      → (stored ≡ false → q' ≡ q)
      → NoneStalled s
      → NoneStalled (after_enqueue id stored q' s)
  unfolding after_enqueue
  after_enqueue-NoneStalled s id q true q' v had same ns k p known found full =
      rw (has_elem-append_active k id s.active_list v) (elim (put_found id k q' p s.queues found) [
        | inl (y, _) ↦ rw y
        | inr (n, old) ↦ rw (n, ns k p known old full)
      ])
  after_enqueue-NoneStalled s id q false q' v had same ns k p known found full =
      elim (put_found id k q' p s.queues found) [
        | inl (y, e) ↦
            let k_id : id ≡ k = (node_id_eq.test_iff id k).0 y in
            ns k p known
              (subst (λ j. find j s.queues ≡ some p) k_id (had ∙ ap some (sym (same refl) ∙ e)))
              full
        | inr (_, old) ↦ ns k p known old full
      ]

  -- From a state that satisfies the invariant, a packet of at least one byte for a client that has a
  -- queue is taken without a fault. It goes to the end of the queue, and its client waits for service,
  -- where there is room; else the packet is dropped and nothing changes. The invariant is kept, and no
  -- client is left behind that was not.
  pub enqueue_lem :
      (pkt : List ℕ) (len : ℕ) (id : NodeId) (s : PktScheduler W) (q : PktQueue)
      → Inv s
      → find id s.queues ≡ some q
      → 0 < len
      → (s' : PktScheduler W) × (enqueue pkt len id s ≡ ok s')
        × EnqueueSpec s pkt len id q s'
        × Inv s'
        × (NoneStalled s → NoneStalled s')
  enqueue_lem pkt len id s q inv had pos_len =
      let (stored, q', run) = enqueue_total pkt len q pos_len in
      let v = inv.valid id q had in
      let (v', _, _, _, no_case) = enqueue_cases pkt len q v run in
      (
        after_enqueue id stored q' s,
        enqueue_runs pkt len id s q had stored q' run,
        after_enqueue-EnqueueSpec s pkt len id q v stored q' run,
        after_enqueue-Inv s id stored q' inv v',
        after_enqueue-NoneStalled s id q stored q' inv.synced had (λ e. (no_case e).1),
      )
