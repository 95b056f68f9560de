-- ===== src/Scheduler/Threads/Consume.antt =====
-- The steps of `Dequeue` lose no client.
use wspace_controller.Prelude.{
  ℕ, ◌≡◌, sym, ap, ◌∙◌, subst, true, false, ◌||◌, some, arith, Bool-cases, inl, inr,
}
use mathlib.Core.Option.{some-injective}
use mathlib.Core.Bool.{true≢false}
use wspace_controller.Prelude.Result.{ok}
use wspace_controller.Map.{Map, find, has, has_elem, ◌=?◌}
use wspace_controller.Map.Laws.{find-put, has-put, has-put_self, HasUniqueKeys}
use wspace_controller.NodeId.{NodeId, node_id_eq}
use wspace_controller.Double.{Double}
use wspace_controller.Scheduler.Queue.{Packet, PktQueue, peek_top_pkt_size}
use wspace_controller.Scheduler.Queue.Laws.{peek_top_pkt_size-zero}
use wspace_controller.Scheduler.Active.{ActiveList}
use wspace_controller.Scheduler.Active
use wspace_controller.Scheduler.Queue
use wspace_controller.Scheduler.Active.Laws.{append_lem, remove-IsSynced}
use wspace_controller.Scheduler.Fairness.{has_elem-append_active}
use wspace_controller.Scheduler.History.{AddsNobody, computes, step, step-Inv, computed_old}
use wspace_controller.Scheduler.Quantum.{compute_quantum}
use wspace_controller.Scheduler.Threads.{
  Consumer, resting, taken, serving, peeked, leaving, System, IsUnlocked, with_queue, with_status,
  with_active,
}
use wspace_controller.Scheduler.Threads.Parts.{
  dequeue-IsValid, with_queue-Inv, with_status-Inv, with_active-Inv,
}
use wspace_controller.Scheduler.{Status, PktScheduler}
use wspace_controller.Scheduler.Threads.Attended.{
  IsHeld, IsHeld-peeked, peeked-eq, HasStatus, unlocked-HasStatus, IsSafe, attend,
}

module _ {W : Type 0} ⦃d : Double W⦄ (s : System W) (v : IsSafe s) where
  -- The thread moves on, and has in hand whom it had.
  moved :
      (c : Consumer)
      → HasStatus s.sched c
      → ((k : NodeId) → has k s.sched.stats ≡ true → IsHeld s.consumer k → IsHeld c k)
      → IsSafe (record s { consumer = c })
  moved c h keeps = record {
    inv = v.inv;
    status = h;
    none_lost = λ k r known found full.
        attend s (record s { consumer = c }) k (v.none_lost k r known found full) (λ a. inl a)
          (λ a. inr (inl a)) (λ a. inr (inr (keeps k known a)));
  }

  -- The same with a new status for a client that has one.
  moved_status :
      (c : Consumer) (id : NodeId) (st : Status W)
      → has id s.sched.stats ≡ true
      → HasStatus (with_status id st s.sched) c
      → ((k : NodeId) → IsHeld s.consumer k → IsHeld c k)
      → IsSafe (record s { sched = with_status id st s.sched; consumer = c })
  moved_status c id st known_id h keeps = record {
    inv = with_status-Inv s.sched v.inv id st known_id;
    status = h;
    none_lost = λ k r known found full.
        let known' : has k s.sched.stats ≡ true = elim (Bool-cases (id =? k)) [
          | inl y ↦
              subst (λ j. has j s.sched.stats ≡ true) ((node_id_eq.test_iff id k).0 y) known_id
          | inr n ↦ rw (has-put k id st s.sched.stats, n) at known
        ] in
        attend s (record s { sched = with_status id st s.sched; consumer = c }) k
          (v.none_lost k r known' found full) (λ a. inl a) (λ a. inr (inl a))
          (λ a. inr (inr (keeps k a)));
  }

  held : (c : Consumer) → s.consumer ≡ c → (k : NodeId) → IsHeld s.consumer k → IsHeld c k
  held c e k h = subst (λ x. IsHeld x k) e h

  status_of : (c : Consumer) → s.consumer ≡ c → HasStatus s.sched c
  status_of c e = subst (HasStatus s.sched) e v.status

  pub taken-IsSafe :
      (id : NodeId) (l : ActiveList)
      → s.consumer ≡ resting
      → Active.remove s.sched.active_list ≡ some (id, l)
      → IsSafe (record s { sched = with_active l s.sched; consumer = taken id })
  taken-IsSafe id l e run =
      let (synced, ids, _) = remove-IsSynced s.sched.active_list id l v.inv.synced run in
      record {
        inv = with_active-Inv s.sched v.inv l synced;
        status = tt;
        none_lost = λ k r known found full.
            attend s (record s { sched = with_active l s.sched; consumer = taken id }) k
              (v.none_lost k r known found full)
              (λ a.
                let split : ((id =? k) || has_elem k l.ids) ≡ true =
                  sym (ap (has_elem k) ids) ∙ a in
                elim (Bool-cases (id =? k)) [
                  | inl y ↦ inr (inr ((node_id_eq.test_iff id k).0 y))
                  | inr n ↦ inl (rw (n) at split)
                ])
              (λ a. inr (inl a)) (λ a. elim (held resting e k a) [ ]);
      }

  pub dropped-IsSafe :
      (id : NodeId)
      → s.consumer ≡ taken id
      → has id s.sched.stats ≡ false
      → IsSafe (record s { consumer = resting })
  dropped-IsSafe id e gone = moved resting tt (λ k known h.
      let same : id ≡ k = held (taken id) e k h in
      absurd (true≢false (sym known ∙ subst (λ j. has j s.sched.stats ≡ false) same gone)))

  pub begun-IsSafe :
      (id : NodeId) (st : Status W)
      → s.consumer ≡ taken id
      → has id s.sched.stats ≡ true
      → IsSafe (record s { sched = with_status id st s.sched; consumer = serving id })
  begun-IsSafe id st e known =
      moved_status (serving id) id st known (has-put_self id st s.sched.stats) (held (taken id) e)

  pub peeked-IsSafe :
      (id : NodeId) (q : PktQueue)
      → s.consumer ≡ serving id
      → find id s.sched.queues ≡ some q
      → IsSafe (record s { consumer = peeked id (peek_top_pkt_size q) })
  peeked-IsSafe id q e f = record {
    inv = v.inv;
    status = status_of (serving id) e;
    none_lost = λ k r known found full.
        attend s (record s { consumer = peeked id (peek_top_pkt_size q) }) k
          (v.none_lost k r known found full) (λ a. inl a) (λ a. inr (inl a))
          (λ a.
            let same : id ≡ k = held (serving id) e k a in
            let q_r : q ≡ r =
              some-injective _ _
                (sym f ∙ subst (λ j. find j s.sched.queues ≡ some r) (sym same) found) in
            inr (
              inr (
                IsHeld-peeked id k (peek_top_pkt_size q)
                  (λ z. full (
                    ap (λ x. x.packets) (sym q_r)
                    ∙ peek_top_pkt_size-zero q ((v.inv.valid id q f).lengths) z))
                  same)));
  }

  pub sent-IsSafe :
      (id : NodeId) (len : ℕ) (q q' : PktQueue) (p : Packet) (st : Status W)
      → s.consumer ≡ peeked id len
      → find id s.sched.queues ≡ some q
      → Queue.dequeue q ≡ ok (p, q')
      → IsSafe
          (record s { sched = with_status id st (with_queue id q' s.sched); consumer = serving id })
  sent-IsSafe id len q q' p st e f run =
      let known_id : has id s.sched.stats ≡ true = status_of (peeked id len) e in
      let valid = dequeue-IsValid q q' p (v.inv.valid id q f) run in
      let t : System W = record s {
        sched = with_status id st (with_queue id q' s.sched);
        consumer = serving id;
      } in
      record {
        inv =
            with_status-Inv (with_queue id q' s.sched) (with_queue-Inv s.sched v.inv id q' valid) id
              st known_id;
        status = has-put_self id st s.sched.stats;
        none_lost = λ k r known found full. elim (Bool-cases (id =? k)) [
          | inl y ↦ inr (inr ((node_id_eq.test_iff id k).0 y))
          | inr n ↦
              attend s t k
                (v.none_lost k r (rw (has-put k id st s.sched.stats, n) at known)
                  (rw (find-put k id q' s.sched.queues, n) at found) full)
                (λ a. inl a) (λ a. inr (inl a))
                (λ a. inr (inr (peeked-eq id k len (held (peeked id len) e k a))))
        ];
      }

  pub held-IsSafe :
      (id : NodeId) (len : ℕ)
      → s.consumer ≡ peeked id len
      → IsSafe (record s { consumer = leaving id })
  held-IsSafe id len e =
      moved (leaving id) (status_of (peeked id len) e)
        (λ k known h. peeked-eq id k len (held (peeked id len) e k h))

  pub emptied-IsSafe :
      (id : NodeId) (st : Status W)
      → s.consumer ≡ peeked id 0
      → IsSafe (record s { sched = with_status id st s.sched; consumer = resting })
  emptied-IsSafe id st e =
      moved_status resting id st (status_of (peeked id 0) e) tt (λ k h. held (peeked id 0) e k h)

  pub requeued-IsSafe :
      (id : NodeId)
      → s.consumer ≡ leaving id
      → IsSafe (record s {
        sched = with_active (Active.append id s.sched.active_list) s.sched;
        consumer = resting;
      })
  requeued-IsSafe id e =
      let waits : (k : NodeId)
          → has_elem k (Active.append id s.sched.active_list).ids
            ≡ ((id =? k) || has_elem k s.sched.active_list.ids) =
        λ k. has_elem-append_active k id s.sched.active_list v.inv.synced in
      record {
        inv = with_active-Inv s.sched v.inv _ ((append_lem id s.sched.active_list v.inv.synced).0);
        status = tt;
        none_lost = λ k r known found full.
            attend s
              (record s {
                sched = with_active (Active.append id s.sched.active_list) s.sched;
                consumer = resting;
              })
              k (v.none_lost k r known found full) (λ a. inl (waits k ∙ ground (arith, a)))
              (λ a. inr (inl a))
              (λ a. inl (waits k ∙ rw ((node_id_eq.test_iff id k).1 (held (leaving id) e k a))));
      }

  pub computed-IsSafe :
      (ts : Map NodeId W) (sched' : PktScheduler W)
      → IsUnlocked s.consumer
      → compute_quantum ts s.sched ≡ ok sched'
      → HasUniqueKeys ts
      → AddsNobody s.sched (computes ts)
      → IsSafe (record s { sched = sched' })
  unfolding step
  computed-IsSafe ts sched' u run unique nobody =
      let (active, old) = computed_old ts s.sched sched' unique nobody v.inv run in
      record {
        inv = step-Inv s.sched sched' (computes ts) unique v.inv run;
        status = unlocked-HasStatus sched' s.consumer u;
        none_lost = λ k r known found full.
            let (was_known, was_found) = old k r known found in
            attend s (record s { sched = sched' }) k (v.none_lost k r was_known was_found full)
              (λ a. inl (rw (active) a)) (λ a. inr (inl a)) (λ a. inr (inr a));
      }
