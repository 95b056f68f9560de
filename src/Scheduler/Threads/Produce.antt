-- ===== src/Scheduler/Threads/Produce.antt =====
-- The steps of `Enqueue` lose no client.
use wspace_controller.Prelude.{
  ℕ, ◌≡◌, refl, sym, ap, ◌∙◌, subst, true, false, ◌||◌, List, some, arith, Bool-cases, inl, inr,
}
use mathlib.Core.Option.{some-injective}
use wspace_controller.Prelude.Result.{ok}
use wspace_controller.Map.{find, has_elem, ◌=?◌}
use wspace_controller.Map.Laws.{find-put}
use wspace_controller.NodeId.{NodeId, node_id_eq}
use wspace_controller.Double.{Double}
use wspace_controller.Scheduler.Queue.{Packet, PktQueue, peek_top_pkt_size}
use wspace_controller.Scheduler.Queue.Laws.{enqueue_cases}
use wspace_controller.Scheduler.Active.{ActiveList}
use wspace_controller.Scheduler.Active
use wspace_controller.Scheduler.Queue
use wspace_controller.Scheduler.Active.Laws.{append_lem}
use wspace_controller.Scheduler.Fairness.{has_elem-append_active}
use wspace_controller.Scheduler.Threads.{idle, stored, System, with_queue, with_active}
use wspace_controller.Scheduler.Threads.Parts.{with_queue-Inv, with_active-Inv}
use wspace_controller.Scheduler.Threads.Attended.{IsPending, IsSafe, attend}

module _ {W : Type 0} ⦃d : Double W⦄ where
  pub stored-IsSafe :
      (s : System W) (pkt : List ℕ) (len : ℕ) (id : NodeId) (q q' : PktQueue)
      → s.producer ≡ idle
      → find id s.sched.queues ≡ some q
      → Queue.enqueue pkt len q ≡ ok (true, q')
      → IsSafe s
      → IsSafe (record s { sched = with_queue id q' s.sched; producer = stored id })
  stored-IsSafe s pkt len id q q' p f run v = record {
    inv = with_queue-Inv s.sched v.inv id q' ((enqueue_cases pkt len q (v.inv.valid id q f) run).0);
    status = v.status;
    none_lost = λ k r known found full. elim (Bool-cases (id =? k)) [
      | inl y ↦ inr (inl ((node_id_eq.test_iff id k).0 y))
      | inr n ↦
          attend s (record s { sched = with_queue id q' s.sched; producer = stored id }) k
            (v.none_lost k r known (rw (find-put k id q' s.sched.queues, n) at found) full)
            (λ a. inl a) (λ a. elim (subst (λ x. IsPending x k) p a) [ ]) (λ a. inr (inr a))
    ];
  }

  pub refused-IsSafe :
      (s : System W) (pkt : List ℕ) (len : ℕ) (id : NodeId) (q q' : PktQueue)
      → find id s.sched.queues ≡ some q
      → Queue.enqueue pkt len q ≡ ok (false, q')
      → IsSafe s
      → IsSafe (record s { sched = with_queue id q' s.sched })
  refused-IsSafe s pkt len id q q' f run v =
      let cases = enqueue_cases pkt len q (v.inv.valid id q f) run in
      record {
        inv = with_queue-Inv s.sched v.inv id q' cases.0;
        status = v.status;
        none_lost = λ k r known found full. elim (Bool-cases (id =? k)) [
          | inl y ↦
              let same : q' ≡ r =
                some-injective _ _ (rw (find-put k id q' s.sched.queues, y) at found) in
              let old : find k s.sched.queues ≡ some r =
                subst (λ j. find j s.sched.queues ≡ some r) ((node_id_eq.test_iff id k).0 y)
                  (f ∙ ap some (sym ((cases.4 refl).1) ∙ same)) in
              v.none_lost k r known old full
          | inr n ↦ v.none_lost k r known (rw (find-put k id q' s.sched.queues, n) at found) full
        ];
      }

  pub appended-IsSafe :
      (s : System W) (id : NodeId)
      → s.producer ≡ stored id
      → IsSafe s
      → IsSafe (record s {
        sched = with_active (Active.append id s.sched.active_list) s.sched;
        producer = idle;
      })
  appended-IsSafe s id p v =
      let t : System W = record s {
        sched = with_active (Active.append id s.sched.active_list) s.sched;
        producer = idle;
      } in
      let waits : (k : NodeId)
          → has_elem k (Active.append id s.sched.active_list).ids
            ≡ ((id =? k) || has_elem k s.sched.active_list.ids) =
        λ k. has_elem-append_active k id s.sched.active_list v.inv.synced in
      record {
        inv = with_active-Inv s.sched v.inv _ ((append_lem id s.sched.active_list v.inv.synced).0);
        status = v.status;
        none_lost = λ k r known found full.
            attend s t k (v.none_lost k r known found full) (λ a. inl (waits k ∙ ground (arith, a)))
              (λ a.
                let here : id ≡ k = subst (λ x. IsPending x k) p a in
                inl (waits k ∙ rw ((node_id_eq.test_iff id k).1 here)))
              (λ a. inr (inr a));
      }
