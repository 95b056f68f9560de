-- ===== src/Scheduler/Quantum/Fill.antt =====
-- The first loops of `ComputeQuantum`: the new clients, their statuses and their queues.
use mathlib.Core.Option
use wspace_controller.Prelude.{
  ℕ, ◌≡◌, refl, sym, ap, ◌∙◌, subst, false, [], ◌∷◌, ◌++◌, Option, none, some, if◌then◌else◌, arith,
  Bool-cases, inl, inr, append_assoc, append-nil,
}
use wspace_controller.Map.{Map, find, put, has, keys, get_or, update, ◌=?◌, =?-refl}
use wspace_controller.Map.Laws.{
  find-put, has-find, has_of_find, get_or-find, find-update, find-none, HasUniqueKeys,
}
use wspace_controller.NodeId.{NodeId, node_id_eq}
use wspace_controller.Double.{Double, of_nat}
use wspace_controller.Scheduler.Queue.{PktQueue, new_queue, clear}
use wspace_controller.Scheduler.Quantum.Laws.{Agrees, status_of, status-update}
use wspace_controller.Scheduler.{Status, PktScheduler, no_status}
use wspace_controller.Scheduler.Quantum.{
  Stats, with_throughput, throughput_of, take_throughputs, clear_others,
}

-- A client that has no queue yet gets an empty one.
abbrev pub or_new : ℕ → Option PktQueue → PktQueue
or_new size none = new_queue size
or_new size (some q) = q

find-add_queue :
    (size : ℕ) (k c : NodeId) (queues : Map NodeId PktQueue)
    → find c (if has k queues then queues else put k (new_queue size) queues)
      ≡ (if k =? c then some (or_new size (find c queues)) else find c queues)
find-add_queue size k c queues = elim (Bool-cases (has k queues)) [
  | inl old ↦
      let (q, found) = has-find k queues old in
      rw old (elim (Bool-cases (k =? c)) [
        | inl y ↦
            let kc : k ≡ c = (node_id_eq.test_iff k c).0 y in
            let found' : find c queues ≡ some q = subst (λ j. find j queues ≡ some q) kc found in
            rw (y, found')
        | inr n ↦ rw n
      ])
  | inr new ↦
      rw (new, find-put c k (new_queue size) queues)
        (elim (Bool-cases (k =? c)) [
          | inl y ↦
              let kc : k ≡ c = (node_id_eq.test_iff k c).0 y in
              let gone : find c queues ≡ none =
                subst (λ j. find j queues ≡ none) kc (find-none k queues new) in
              rw (y, gone)
          | inr n ↦ rw n
        ])
]

module _ {W : Type 0} ⦃d : Double W⦄ where
  -- The status that a client starts the round with.
  abbrev pub fresh : W → Status W
  fresh t = record { throughput = t; quantum = of_nat 0; counter = of_nat 0 }

  pub take_throughputs-client_ids :
      (ts : Map NodeId W) (s : PktScheduler W)
      → (take_throughputs ts s).client_ids ≡ s.client_ids ++ keys ts
  unfolding take_throughputs
  take_throughputs-client_ids [] s = sym (append-nil s.client_ids)
  take_throughputs-client_ids ((c, t) ∷ ts) s =
      take_throughputs-client_ids ts _ ∙ append_assoc s.client_ids (c ∷ []) (keys ts)

  pub take_throughputs-rest :
      (ts : Map NodeId W) (s : PktScheduler W)
      → ((take_throughputs ts s).active_list ≡ s.active_list)
        × ((take_throughputs ts s).round_interval ≡ s.round_interval)
        × ((take_throughputs ts s).fairness_mode ≡ s.fairness_mode)
        × ((take_throughputs ts s).pkt_queue_size ≡ s.pkt_queue_size)
  unfolding take_throughputs
  take_throughputs-rest [] s = (refl, refl, refl, refl)
  take_throughputs-rest ((c, t) ∷ ts) s = take_throughputs-rest ts _

  abbrev filled : Option W → NodeId → Stats W → Option (Status W)
  filled none c stats = find c stats
  filled (some t) c stats = some (with_throughput t (status_of c stats))

  filled_same :
      (o : Option W) (c : NodeId) (stats1 stats : Stats W)
      → find c stats1 ≡ find c stats
      → status_of c stats1 ≡ status_of c stats
      → filled o c stats1 ≡ filled o c stats
  filled_same none c stats1 stats e h = e
  filled_same (some t) c stats1 stats e h = ap (λ st. some (with_throughput t st)) h

  take_throughputs-stats :
      (ts : Map NodeId W) (s : PktScheduler W) (c : NodeId)
      → HasUniqueKeys ts
      → find c (take_throughputs ts s).stats ≡ filled (find c ts) c s.stats
  unfolding take_throughputs find
  take_throughputs-stats [] s c u = refl
  take_throughputs-stats ((k, t) ∷ ts) s c u =
      let stats1 = update no_status k (with_throughput t) s.stats in
      let s1 : PktScheduler W = record s {
        client_ids = s.client_ids ++ k ∷ [];
        stats = stats1;
        queues = if has k s.queues then s.queues else put k (new_queue s.pkt_queue_size) s.queues;
      } in
      take_throughputs-stats ts s1 c u.1 ∙ elim (Bool-cases (k =? c)) [
        | inl y ↦
            let kc : k ≡ c = (node_id_eq.test_iff k c).0 y in
            rw (y, find-none c ts (subst (λ j. has j ts ≡ false) kc u.0))
              (find-update no_status c k (with_throughput t) s.stats ∙ rw (y, kc))
        | inr n ↦ rw n (
            filled_same (find c ts) c stats1 s.stats
              (find-update no_status c k (with_throughput t) s.stats ∙ rw n)
              (status-update c k (with_throughput t) s.stats ∙ rw n))
      ]

  -- From an empty map each client of the new throughputs gets a fresh status, and nobody else.
  pub take_throughputs-fresh :
      (ts : Map NodeId W) (s : PktScheduler W) (c : NodeId)
      → HasUniqueKeys ts
      → s.stats ≡ []
      → (find c ts ≡ none → find c (take_throughputs ts s).stats ≡ none)
        × ((t : W) → find c ts ≡ some t → find c (take_throughputs ts s).stats ≡ some (fresh t))
  unfolding find get_or
  take_throughputs-fresh ts s c u e = (
    λ h. take_throughputs-stats ts s c u ∙ rw h (rw e),
    λ t h. take_throughputs-stats ts s c u ∙ rw h (rw e),
  )

  Agrees-of_find :
      (ts : Map NodeId W) (stats : Stats W)
      → HasUniqueKeys ts
      → ((c : NodeId) (x : W) → find c ts ≡ some x → throughput_of stats c ≡ x)
      → Agrees ts stats
  unfolding find
  Agrees-of_find [] stats u h = tt
  Agrees-of_find ((c, x) ∷ ts) stats u h = (
    h c x (rw (=?-refl c)),
    Agrees-of_find ts stats u.1 λ k y e. h k y (elim (Bool-cases (c =? k)) [
      | inl same ↦
          let ck : c ≡ k = (node_id_eq.test_iff c k).0 same in
          cc (sym u.0 ∙ ap (λ j. has j ts) ck ∙ has_of_find k ts y e)
      | inr other ↦ rw other e
    ]),
  )

  pub take_throughputs-Agrees :
      (ts : Map NodeId W) (s : PktScheduler W)
      → HasUniqueKeys ts
      → s.stats ≡ []
      → Agrees ts (take_throughputs ts s).stats
  take_throughputs-Agrees ts s u e = Agrees-of_find ts (take_throughputs ts s).stats u λ c x f.
      ap (λ (st : Status W). st.throughput)
        (get_or-find no_status c (take_throughputs ts s).stats (fresh x)
          ((take_throughputs-fresh ts s c u e).1 x f))

  pub take_throughputs-queues :
      (ts : Map NodeId W) (s : PktScheduler W) (c : NodeId)
      → find c (take_throughputs ts s).queues
        ≡ (if has c ts then some (or_new s.pkt_queue_size (find c s.queues)) else find c s.queues)
  unfolding take_throughputs has
  take_throughputs-queues [] s c = refl
  take_throughputs-queues ((k, t) ∷ ts) s c =
      take_throughputs-queues ts _ c ∙ ground (arith, find-add_queue s.pkt_queue_size k c s.queues)

  pub clear_others-queues :
      (ts : Map NodeId W) (queues : Map NodeId PktQueue) (c : NodeId)
      → find c (clear_others ts queues)
        ≡ (if has c ts then find c queues else Option.map clear (find c queues))
  unfolding clear_others find
  clear_others-queues ts [] c = elim (Bool-cases (has c ts)) [ inl y ↦ rw y | inr n ↦ rw n ]
  clear_others-queues ts ((k, q) ∷ queues) c = elim (Bool-cases (k =? c)) [
    | inl y ↦
        let kc : k ≡ c = (node_id_eq.test_iff k c).0 y in
        rw (y, kc) (elim (Bool-cases (has c ts)) [ inl h ↦ rw h | inr h ↦ rw h ])
    | inr n ↦ rw n (clear_others-queues ts queues c)
  ]
