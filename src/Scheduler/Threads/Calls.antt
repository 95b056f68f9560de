-- ===== src/Scheduler/Threads/Calls.antt =====
-- Whole calls of one thread as runs of its steps, while the other threads stand still.
use wspace_controller.Prelude.{
  ℕ, zero, suc, ◌<◌, ◌≡◌, refl, sym, ap, ◌∙◌, subst, true, false, List, [], ◌∷◌, ◌++◌, arith,
  length, Bool-cases, Option-cases, inl, inr, ◌⊎◌, ◌==◌, ==_iff, if◌then◌else◌,
}
use wspace_controller.Prelude.Result.{Result, ok, ok-injective, >>=-eq-ok}
use wspace_controller.Map.{find, put, has}
use wspace_controller.Map.Laws.{find-put_self, get_or-find, put-put, put-found}
use wspace_controller.NodeId.{NodeId, node_id_eq}
use wspace_controller.Double.{Double, of_nat, pkt_duration}
use wspace_controller.Scheduler.Queue.{Packet, PktQueue, peek_top_pkt_size}
use wspace_controller.Scheduler.Queue
use wspace_controller.Scheduler.Active.{ActiveList}
use wspace_controller.Scheduler.Active
use wspace_controller.Scheduler
use wspace_controller.Scheduler.{
  Status, PktScheduler, Drained, Dequeued, waits, serves, Picked, nobody, client, no_status, pick,
  drain, serve, dequeue,
}
use wspace_controller.Scheduler.History.{
  Call, enqueues, dequeues, computes, step, IsMap, AddsNobody, state_after,
}
use wspace_controller.Scheduler.Threads.{
  Producer, idle, stored, Consumer, resting, taken, serving, peeked, leaving, System, with_queue,
  with_status, with_active, status_at, store, refuse, append, take, drop, begin, peek, send, hold,
  empty, requeue, compute,
}
use wspace_controller.Scheduler.Threads.Safety.{Reach, here, next}

some_length : (n : ℕ) → (n == 0) ≡ false → 0 < n
some_length n e = ground arith

some-==0 : (n : ℕ) → 0 < n → (n == 0) ≡ false
some-==0 n h = ground arith

module _ {W : Type 0} ⦃d : Double W⦄ where
  pub Reach-trans : {s t u : System W} → Reach s t → Reach t u → Reach s u
  Reach-trans r here = r
  Reach-trans r (next q st c) = next (Reach-trans r q) st c

  -- The client under service, with its status and its queue.
  abbrev at : PktScheduler W → Producer → NodeId → Status W → PktQueue → Consumer → System W
  at s p id st q c = record {
    sched = with_status id st (with_queue id q s);
    producer = p;
    consumer = c;
  }

  module _ (s : PktScheduler W) (p : Producer) (id : NodeId) where
    at_status :
        (st : Status W) (q : PktQueue) (c : Consumer)
        → status_at id (let x = at s p id st q c in x.sched) ≡ st
    at_status st q c = get_or-find no_status id (put id st s.stats) st (find-put_self id st s.stats)

    -- A packet is taken and paid.
    sent-at :
        (st st' : Status W) (q q' : PktQueue) (c : Consumer)
        → (record {
          sched = with_status id st' (with_queue id q' (let x = at s p id st q c in x.sched));
          producer = p;
          consumer = serving id;
        })
          ≡ at s p id st' q' (serving id)
    sent-at st st' q q' c = rw (put-put id q' q s.queues, put-put id st' st s.stats) refl

    abbrev paid_once : ℕ → Status W → Status W
    paid_once len st = record st {
      counter = d.minus st.counter (d.of_int (pkt_duration len st.throughput));
    }

    send-Reach :
        (st : Status W) (q q' : PktQueue) (pkt : Packet) (len : ℕ)
        → 0 < len
        → d.lt st.counter (d.of_int (pkt_duration len st.throughput)) ≡ false
        → Queue.dequeue q ≡ ok (pkt, q')
        → Reach (at s p id st q (peeked id len)) (at s p id (paid_once len st) q' (serving id))
    send-Reach st q q' pkt len some_len covered run =
        let x : System W = at s p id st q (peeked id len) in
        let same = at_status st q (peeked id len) in
        let covers =
          subst (λ z. d.lt z.counter (d.of_int (pkt_duration len z.throughput)) ≡ false) (sym same)
            covered in
        let ends =
          ap
            (λ (z : Status W). record x {
              sched =
                  with_status id
                    (record z {
                      counter = d.minus z.counter (d.of_int (pkt_duration len z.throughput));
                    })
                    (with_queue id q' x.sched);
              consumer = serving id;
            })
            same
          ∙ sent-at st (paid_once len st) q q' (peeked id len) in
        subst (Reach x) ends (
          next here (send x id len q q' pkt refl some_len covers (find-put_self id q s.queues) run)
            tt)

    peek-Reach :
        (st : Status W) (q : PktQueue)
        → Reach (at s p id st q (serving id)) (at s p id st q (peeked id (peek_top_pkt_size q)))
    peek-Reach st q =
        let x : System W = at s p id st q (serving id) in
        next here (peek x id q refl (find-put_self id q s.queues)) tt

    -- Where the second loop ends: at an empty queue, or at a packet that the counter does not cover.
    abbrev IsAtEnd : Drained W → Type 0
    IsAtEnd r =
        (r.last_len ≡ 0)
        ⊎ ((0 < r.last_len)
            × (d.lt r.status.counter (d.of_int (pkt_duration r.last_len r.status.throughput))
                ≡ true))

    -- The second loop of `Dequeue`, step by step.
    drain-Reach :
        (n : ℕ) (st : Status W) (q : PktQueue) (pkts : List Packet) (r : Drained W)
        → drain n st q pkts ≡ ok r
        → Reach (at s p id st q (serving id)) (at s p id r.status r.queue (peeked id r.last_len))
          × IsAtEnd r
    unfolding drain
    drain-Reach zero st q pkts r run = cc
    drain-Reach (suc n) st q pkts r run =
        let len = peek_top_pkt_size q in
        elim (Bool-cases (len == 0)) [
          | inl z ↦
              let ends = ok-injective _ _ (rw z at run) in
              subst
                (λ x.
                  Reach (at s p id st q (serving id))
                    (at s p id x.status x.queue (peeked id x.last_len))
                  × IsAtEnd x)
                ends (peek-Reach st q, inl ((==_iff len 0).0 z))
          | inr nz ↦
              elim (Bool-cases (d.lt st.counter (d.of_int (pkt_duration len st.throughput)))) [
                | inl short ↦
                    let ends = ok-injective _ _ (rw (nz, short) at run) in
                    subst
                      (λ x.
                        Reach (at s p id st q (serving id))
                          (at s p id x.status x.queue (peeked id x.last_len))
                        × IsAtEnd x)
                      ends (peek-Reach st q, inr (some_length len nz, short))
                | inr covered ↦
                    let ((pkt, q'), taken_out, rest) =
                      >>=-eq-ok (Queue.dequeue q) _ (rw (nz, covered) at run) in
                    let (later, end) =
                      drain-Reach n (paid_once len st) q' (pkts ++ pkt ∷ []) r rest in
                    (
                      Reach-trans (peek-Reach st q) (
                          Reach-trans
                            (send-Reach st q q' pkt len (some_length len nz) covered taken_out)
                            later),
                      end,
                    )
              ]
        ]

    -- The counter is reset, and the thread is outside.
    empty-Reach :
        (st : Status W) (q : PktQueue)
        → Reach
            (at s p id st q (peeked id 0))
            (at s p id (record st { counter = of_nat 0 }) q resting)
    empty-Reach st q =
        let x : System W = at s p id st q (peeked id 0) in
        let ends =
          ap
            (λ (z : Status W). record x {
              sched = with_status id (record z { counter = of_nat 0 }) x.sched;
              consumer = resting;
            })
            (at_status st q (peeked id 0))
          ∙ ap (λ m. record x { sched = record x.sched { stats = m }; consumer = resting })
              (put-put id (record st { counter = of_nat 0 }) st s.stats) in
        subst (Reach x) ends (next here (empty x id refl) tt)

    requeue-Reach :
        (st : Status W) (q : PktQueue) (len : ℕ)
        → 0 < len
        → d.lt st.counter (d.of_int (pkt_duration len st.throughput)) ≡ true
        → Reach
            (at s p id st q (peeked id len))
            (at (with_active (Active.append id s.active_list) s) p id st q resting)
    requeue-Reach st q len some_len short =
        let x : System W = at s p id st q (peeked id len) in
        let shorts =
          subst (λ z. d.lt z.counter (d.of_int (pkt_duration len z.throughput)) ≡ true)
            (sym (at_status st q (peeked id len))) short in
        next (next here (hold x id len refl some_len shorts) tt)
          (requeue (record x { consumer = leaving id }) id refl) tt

  -- The other threads stand still, and the one in `Dequeue` is outside.
  abbrev pub alone : PktScheduler W → Producer → System W
  alone s p = record { sched = s; producer = p; consumer = resting }

  -- The last lines of `Dequeue`.
  abbrev finished : NodeId → PktScheduler W → Drained W → Dequeued W
  finished id s e =
      let s' : PktScheduler W = record s { queues = put id e.queue s.queues } in
      if e.last_len == 0
      then serves id e.pkts
          (record s' { stats = put id (record (e.status) { counter = of_nat 0 }) s.stats })
      else serves id e.pkts (record s' {
        stats = put id e.status s.stats;
        active_list = Active.append id s'.active_list;
      })

  finish-Reach :
      (s : PktScheduler W) (p : Producer) (id : NodeId) (e : Drained W)
      → IsAtEnd s p id e
      → Reach
          (at s p id e.status e.queue (peeked id e.last_len))
          (alone (state_after (finished id s e)) p)
  finish-Reach s p id e (inl z) = rw ((==_iff e.last_len 0).1 z) (
      subst
        (λ n.
          Reach (at s p id e.status e.queue (peeked id n))
            (at s p id (record (e.status) { counter = of_nat 0 }) e.queue resting))
        (sym z) (empty-Reach s p id e.status e.queue))
  finish-Reach s p id e (inr (some_len, short)) =
      rw (some-==0 e.last_len some_len)
        (requeue-Reach s p id e.status e.queue e.last_len some_len short)

  serve-Reach :
      (s : PktScheduler W) (p : Producer) (id : NodeId) (r : Dequeued W)
      → has id s.stats ≡ true
      → serve id s ≡ ok r
      → Reach (record (alone s p) { consumer = taken id }) (alone (state_after r) p)
  unfolding serve
  serve-Reach s p id r known run = elim (Option-cases (find id s.queues)) [
    | inl gone ↦ cc (rw (serve, gone) at run)
    | inr (q, f) ↦
        let st = status_at id s in
        let st' : Status W = record st { counter = d.plus st.counter st.quantum } in
        let (e, drained, last) =
          >>=-eq-ok (drain (suc (length q.packets)) st' q []) _ (rw (serve, f) at run) in
        let x : System W = record (alone s p) { consumer = taken id } in
        let begins : Reach x (at s p id st' q (serving id)) =
          subst
            (λ m. Reach x (record x {
              sched = with_status id st' (record s { queues = m });
              consumer = serving id;
            }))
            (sym (put-found id q s.queues f)) (next here (begin x id refl known) tt) in
        let (loop, end) = drain-Reach s p id (suc (length q.packets)) st' q [] e drained in
        subst (λ y. Reach x (alone (state_after y) p)) (ok-injective _ _ last)
          (Reach-trans begins (Reach-trans loop (finish-Reach s p id e end)))
  ]

  -- What the first loop of `Dequeue` reaches.
  abbrev picked : PktScheduler W → Producer → Picked → System W
  picked s p (nobody l) = alone (with_active l s) p
  picked s p (client id l) = record (alone (with_active l s) p) { consumer = taken id }

  abbrev IsServable : PktScheduler W → Picked → Type 0
  IsServable s (nobody l) = Unit
  IsServable s (client id l) = has id s.stats ≡ true

  pick-Reach :
      (n : ℕ) (s : PktScheduler W) (p : Producer) (l : ActiveList) (r : Picked)
      → pick n s.stats l ≡ ok r
      → Reach (alone (with_active l s) p) (picked s p r) × IsServable s r
  unfolding pick
  pick-Reach zero s p l r run = cc
  pick-Reach (suc n) s p l r run = elim (Option-cases (Active.remove l)) [
    | inl none_left ↦
        subst (λ y. Reach (alone (with_active l s) p) (picked s p y) × IsServable s y)
          (ok-injective _ _ (rw (pick, none_left) at run)) (here, tt)
    | inr ((id, l'), e) ↦
        let x : System W = alone (with_active l s) p in
        let takes = next here (take x id l' refl e) tt in
        elim (Bool-cases (has id s.stats)) [
          | inl known ↦
              let run' = rw (pick, e) at run in
              subst (λ y. Reach x (picked s p y) × IsServable s y)
                (ok-injective _ _ (rw known at run')) (takes, known)
          | inr gone ↦
              let run' = rw (pick, e) at run in
              let (later, known) = pick-Reach n s p l' r (rw gone at run') in
              (
                Reach-trans
                    (next takes
                      (drop (record (alone (with_active l' s) p) { consumer = taken id }) id refl
                        gone)
                      tt)
                    later,
                known,
              )
        ]
  ]

  -- Whatever `Dequeue` returns as one call, the steps of its thread reach the same state, with the
  -- thread outside again, while the other threads stand still.
  pub dequeue-Reach :
      (s : PktScheduler W) (p : Producer) (r : Dequeued W)
      → dequeue s ≡ ok r
      → Reach (alone s p) (alone (state_after r) p)
  unfolding dequeue
  dequeue-Reach s p r run =
      let (c, chosen, rest) =
        >>=-eq-ok (pick (suc (length s.active_list.ids)) s.stats s.active_list) _ run in
      go c (pick-Reach (suc (length s.active_list.ids)) s p s.active_list c chosen) rest
    where
      go :
          (c : Picked)
          → Reach (alone s p) (picked s p c) × IsServable s c
          → ◌≡◌ {A = Result (Dequeued W)}
              (elim c [
                | nobody l ↦ ok (waits (record s { active_list = l }))
                | client id l ↦ serve id (record s { active_list = l })
              ])
              (ok r)
          → Reach (alone s p) (alone (state_after r) p)
      go (nobody l) (reach, _) rest =
          subst (λ y. Reach (alone s p) (alone (state_after y) p)) (ok-injective _ _ rest) reach
      go (client id l) (reach, known) rest =
          Reach-trans reach (serve-Reach (record s { active_list = l }) p id r known rest)

  enqueue-Reach :
      (s s' : PktScheduler W) (pkt : List ℕ) (len : ℕ) (id : NodeId)
      → Scheduler.enqueue pkt len id s ≡ ok s'
      → Reach (alone s idle) (alone s' idle)
  unfolding Scheduler.enqueue
  enqueue-Reach s s' pkt len id run = elim (Option-cases (find id s.queues)) [
    | inl gone ↦ cc (rw (Scheduler.enqueue, gone) at run)
    | inr (q, f) ↦
        let ((took, q'), one, last) =
          >>=-eq-ok (Queue.enqueue pkt len q) _ (rw (Scheduler.enqueue, f) at run) in
        let x : System W = alone s idle in
        elim (Bool-cases took) [
          | inl y ↦
              let one' : Queue.enqueue pkt len q ≡ ok (true, q') = one ∙ ap (λ b. ok (b, q')) y in
              let y1 : System W = record x { sched = with_queue id q' s; producer = stored id } in
              subst (λ z. Reach x (alone z idle)) (ok-injective _ _ (rw y at last))
                (next (next here (store x pkt len id q q' refl f one') tt) (append y1 id refl) tt)
          | inr n ↦
              let one' : Queue.enqueue pkt len q ≡ ok (false, q') = one ∙ ap (λ b. ok (b, q')) n in
              subst (λ z. Reach x (alone z idle)) (ok-injective _ _ (rw n at last))
                (next here (refuse x pkt len id q q' refl f one') tt)
        ]
  ]

  -- Each call that returns, taken as one function, is a run of the threads in which they move one after
  -- the other: from all of them outside, their steps lead to the state that the call returns, with all
  -- outside again. The call is not a `ComputeQuantum` that brings in a new client.
  pub step-Reach :
      (s s' : PktScheduler W) (c : Call W)
      → IsMap c
      → AddsNobody s c
      → step s c ≡ ok s'
      → Reach (alone s idle) (alone s' idle)
  unfolding step
  step-Reach s s' (enqueues pkt len id) m a run = enqueue-Reach s s' pkt len id run
  step-Reach s s' dequeues m a run =
      let (r, one, last) = >>=-eq-ok (dequeue s) _ run in
      subst (λ z. Reach (alone s idle) (alone z idle)) (ok-injective _ _ last)
        (dequeue-Reach s idle r one)
  step-Reach s s' (computes ts) m a run = next here (compute (alone s idle) ts s' tt run) (m, a)
