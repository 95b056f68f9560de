-- ===== src/Scheduler/Stall.antt =====
-- How a client can be left behind for good: its queue is full while it does not wait. `Enqueue` then
-- refuses its packets, so nothing puts it back on the active list.
use mathlib.Core.Option.{some-injective}
use wspace_controller.Prelude.{
  ℕ, ◌≡◌, sym, ap, ◌∙◌, subst, false, List, ◌∷◌, ◌++◌, some, arith, length, Bool-cases, inl, inr,
  ltb, ltb→lt,
}
use wspace_controller.Prelude.Result.{ok, ok-injective}
use wspace_controller.Map.{find, has_elem, ◌=?◌}
use wspace_controller.Map.Laws.{find-put, find-put}
use wspace_controller.NodeId.{NodeId, node_id_eq}
use wspace_controller.Double.{Double}
use wspace_controller.Scheduler.Queue.{PktQueue}
use wspace_controller.Scheduler.Service.{Inv}
use wspace_controller.Scheduler.Fairness.{list_cases}
use wspace_controller.Scheduler.Active.Laws.{append_other, has_elem-append}
use wspace_controller.Scheduler.Calls.{DequeueSpec, dequeue_lem}
use wspace_controller.Scheduler.Admission.{EnqueueSpec, enqueue_lem}
use wspace_controller.Scheduler.History.{
  Call, enqueues, dequeues, computes, step, state_after, enqueue_needs,
}
use wspace_controller.Scheduler.{PktScheduler, Dequeued, waits, serves}

module _ {W : Type 0} where
  -- The client has just this queue, which is full, and does not wait.
  pub record IsStalled (k : NodeId) (q : PktQueue) (s : PktScheduler W) : Type 0 where
    pub found : find k s.queues ≡ some q
    pub full : length q.packets ≡ q.max_size
    pub idle : has_elem k s.active_list.ids ≡ false

  -- The calls of the threads that bring packets in and take them out.
  abbrev pub IsTraffic : Call W → Type 0
  IsTraffic (computes ts) = ⊥
  IsTraffic _ = Unit

split_idle :
    (k : NodeId) (dropped : List NodeId) (id : NodeId) (ids : List NodeId)
    → has_elem k (dropped ++ id ∷ ids) ≡ false
    → ((id =? k) ≡ false) × (has_elem k ids ≡ false)
split_idle k dropped id ids e = ground (arith, has_elem-append k dropped (id ∷ ids))

module _ {W : Type 0} ⦃d : Double W⦄ where
  enqueued-IsStalled :
      (s : PktScheduler W) (pkt : List ℕ) (len : ℕ) (id : NodeId) (q : PktQueue)
      (s' : PktScheduler W) (k : NodeId) (held : PktQueue)
      → Inv s
      → find id s.queues ≡ some q
      → EnqueueSpec s pkt len id q s'
      → IsStalled k held s
      → IsStalled k held s'
  enqueued-IsStalled s pkt len id q s' k held inv f spec st = elim (Bool-cases (id =? k)) [
    | inl y ↦
        let own : q ≡ held =
          some-injective _ _
            (sym f ∙ (ap (λ j. find j s.queues) ((node_id_eq.test_iff id k).0 y) ∙ st.found)) in
        let is_full : length q.packets ≡ q.max_size =
          subst (λ (x : PktQueue). length x.packets ≡ x.max_size) (sym own) st.full in
        let (kept, waiting) = spec.full is_full in
        record {
          found = rw (spec.queues) (find-put k id spec.q' s.queues ∙ rw y (ap some (kept ∙ own)));
          full = st.full;
          idle = rw waiting st.idle;
        }
    | inr n ↦ record {
      found = rw (spec.queues) (find-put k id spec.q' s.queues ∙ rw n st.found);
      full = st.full;
      idle = elim (Bool-cases (ltb (length q.packets) q.max_size)) [
        | inl less ↦
            rw ((spec.room (ltb→lt _ _ less)).1) (append_other k id s.active_list n ∙ st.idle)
        | inr no_less ↦
            let v = inv.valid id q f in
            let is_full : length q.packets ≡ q.max_size = ground (arith, v.bounded) in
            rw ((spec.full is_full).1) st.idle
      ];
    }
  ]

  dequeued-IsStalled :
      (s : PktScheduler W) (r : Dequeued W) (k : NodeId) (held : PktQueue)
      → Inv s
      → DequeueSpec s r
      → IsStalled k held s
      → IsStalled k held (state_after r)
  dequeued-IsStalled s (waits s') k held inv (_, none_left, same_q, _, _, _) st = record {
    found = rw same_q st.found;
    full = st.full;
    idle = rw none_left;
  }
  dequeued-IsStalled s (serves id pkts s') k held inv (dropped, l, split, _, _, spec, inv', _) st =
      let (others, rest) = split_idle k dropped id l.ids (sym (ap (has_elem k) split) ∙ st.idle) in
      record {
        found = rw (spec.queues) (find-put k id spec.q' s.queues ∙ rw others st.found);
        full = st.full;
        idle = elim (list_cases spec.q'.packets) [
          | inl e ↦ rw ((spec.emptied e).1) rest
          | inr m ↦ rw ((spec.carried m).1) (append_other k id l others ∙ rest)
        ];
      }

  -- From a state with the invariant, a client whose queue is full while it does not wait still has the
  -- same queue, with the same packets in the same order, after every `Enqueue` and `Dequeue` that returns,
  -- and it still does not wait: its new packets are dropped, and its old ones are never sent.
  pub step-IsStalled :
      (s s' : PktScheduler W) (c : Call W) (k : NodeId) (held : PktQueue)
      → Inv s
      → IsTraffic c
      → step s c ≡ ok s'
      → IsStalled k held s
      → IsStalled k held s'
  unfolding step
  step-IsStalled s s' (enqueues pkt len id) k held inv t e st =
      let (q, f, pos_len) = enqueue_needs pkt len id s s' e in
      let (s2, run, spec, _, _) = enqueue_lem pkt len id s q inv f pos_len in
      subst (IsStalled k held) (ok-injective s2 s' (sym run ∙ e))
        (enqueued-IsStalled s pkt len id q s2 k held inv f spec st)
  step-IsStalled s s' dequeues k held inv t e st =
      let (r, run, spec) = dequeue_lem s inv in
      subst (IsStalled k held) (ok-injective (state_after r) s' (rw run at e))
        (dequeued-IsStalled s r k held inv spec st)
  step-IsStalled s s' (computes ts) k held inv t e st = absurd t
