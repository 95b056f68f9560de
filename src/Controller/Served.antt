-- ===== src/Controller/Served.antt =====
-- That the turns of the other threads give a status to nobody but the clients on the list.
use wspace_controller.Prelude.{
  ◌≡◌, refl, sym, ap, subst, ◌∙◌, true, List, [], ◌∷◌, none, some, Bool-cases, inl, inr, ℕ,
  cons_cases, Option-cases, if◌then◌else◌, Bool, ◌&&◌, ◌⊎◌, ltb, length, ◌==◌,
}
use mathlib.Core.Option.{some-injective}
use wspace_controller.Prelude.Int.{pos}
use wspace_controller.Prelude.Result.{Result, ok, err, ok-injective, >>=-eq-ok}
use wspace_controller.Map.{Map, find, put, has, has_elem, get_or, ◌=?◌}
use wspace_controller.Map.Laws.{find-put, find-none, has-find, has_of_find, has_of_none}
use wspace_controller.NodeId.{NodeId, node_id_eq}
use wspace_controller.Double.{Double}
use wspace_controller.Scheduler.{PktScheduler}
use wspace_controller.Word.{add32}
use wspace_controller.Scheduler
use wspace_controller.Scheduler.Queue
use wspace_controller.Routing.{RoutingTable}
use wspace_controller.Routing.Choice.{RoutesSpec}
use wspace_controller.Controller.{
  WspaceController, BsStatsPkt, queue_packet, contention_of, recv_stats, enqueue_at, enqueue_all,
}
use wspace_controller.Controller.Laws.{is_accepted, recv_accepted, recv_refused}
use wspace_controller.Controller.Wiring.{IsSameSetup, find_route-none, find_route-some}
use wspace_controller.Controller.Receive.{
  Received, stats, cell_data, ack, gps, code, other, answer, pass_on, to_default,
}
use wspace_controller.Controller.Writing.{Sent}
use wspace_controller.Controller.Rounds.{IsComputed}
use wspace_controller.Controller.Turns.{RoundSpec}
use wspace_controller.Controller.Serving.{IsServed}

module _ {W : Type 0} ⦃d : Double W⦄ where
  -- A turn that leaves the schedulers and the list of clients.
  kept-IsServed :
      (c c' : WspaceController W)
      → IsSameSetup c c'
      → c'.packet_scheduler_tbl ≡ c.packet_scheduler_tbl
      → c'.routing_tbl.client_ids ≡ c.routing_tbl.client_ids
      → IsServed c
      → IsServed c'
  kept-IsServed c c' same scheds ids v = record {
    addressed = λ id h. same.clients id ∙ v.addressed id (sym (ap (has_elem id) ids) ∙ h);
    listed = λ k id s f h. ap (has_elem id) ids ∙ v.listed k id s (sym (ap (find k) scheds) ∙ f) h;
  }

  abbrev IsKept : WspaceController W → WspaceController W → Type 0
  IsKept c c' =
      (c'.packet_scheduler_tbl ≡ c.packet_scheduler_tbl)
      × (c'.routing_tbl.client_ids ≡ c.routing_tbl.client_ids)

  recv_stats-IsKept : (p : BsStatsPkt W) (c : WspaceController W) → IsKept c (recv_stats p c)
  recv_stats-IsKept p c = elim (Bool-cases (is_accepted p c)) [
    | inl y ↦ rw (recv_accepted p c y) (refl, refl)
    | inr n ↦ rw (recv_refused p c n) (refl, refl)
  ]

  -- What an answer says of the controller after it.
  Answers : (WspaceController W → Type 0) → Result (List Sent × WspaceController W) → Type 0
  Answers P (err f) = Unit
  Answers P (ok (sent, c)) = P c

  -- `RecvFromBS` leaves the schedulers and the list of clients.
  answer-IsKept :
      (n : ℕ) (r : Received W) (c : WspaceController W) → Answers (IsKept c) (answer n r c)
  unfolding answer pass_on to_default Answers
  answer-IsKept n (stats p) c = recv_stats-IsKept p c
  answer-IsKept n (cell_data bytes) c = elim (Bool-cases (ltb n (length bytes))) [
    | inl y ↦ rw y (refl, refl)
    | inr m ↦ elim (Bool-cases (length bytes == n)) [ inl y ↦ rw (m, y) tt | inr o ↦ rw (m, o) tt ]
  ]
  answer-IsKept n (ack b bytes) c = (refl, refl)
  answer-IsKept n (gps bytes) c = elim (cons_cases c.bs_ip_tbl) [
    | inl e ↦ rw e tt
    | inr (p, ps, e) ↦ rw e (refl, refl)
  ]
  answer-IsKept n (code id bytes) c = (refl, refl)
  answer-IsKept n other c = (refl, refl)

  pub answer-IsServed :
      (n : ℕ) (r : Received W) (c c' : WspaceController W) (sent : List Sent)
      → answer n r c ≡ ok (sent, c')
      → IsSameSetup c c'
      → IsServed c
      → IsServed c'
  unfolding Answers
  answer-IsServed n r c c' sent run same v =
      let kept = subst (Answers (IsKept c)) run (answer-IsKept n r c) in
      kept-IsServed c c' same (kept.0) (kept.1) v

  -- `Enqueue` gives nobody a status.
  abbrev HasOldStatuses : Map NodeId (PktScheduler W) → Map NodeId (PktScheduler W) → Type 0
  HasOldStatuses m m' =
      (k id : NodeId) (s' : PktScheduler W)
      → find k m' ≡ some s'
      → has id s'.stats ≡ true
      → (s : PktScheduler W) × (find k m ≡ some s) × (has id s.stats ≡ true)

  enqueue_stats :
      (pkt : List ℕ) (len : ℕ) (id : NodeId) (s s' : PktScheduler W)
      → Scheduler.enqueue pkt len id s ≡ ok s'
      → s'.stats ≡ s.stats
  unfolding Scheduler.enqueue
  enqueue_stats pkt len id s s' run = elim (Option-cases (find id s.queues)) [
    | inl none_there ↦ cc (rw (Scheduler.enqueue, none_there) at run)
    | inr (q, f) ↦
        let ((stored, q'), _, last) =
          >>=-eq-ok (Queue.enqueue pkt len q) _ (rw (Scheduler.enqueue, f) at run) in
        elim (Bool-cases stored) [
          | inl y ↦ sym (ap (λ t. t.stats) (ok-injective _ _ (rw y at last)))
          | inr n ↦ sym (ap (λ t. t.stats) (ok-injective _ _ (rw n at last)))
        ]
  ]

  enqueued-has :
      (pkt : List ℕ) (len : ℕ) (client : NodeId) (s s' : PktScheduler W) (id : NodeId)
      → Scheduler.enqueue pkt len client s ≡ ok s'
      → has id s'.stats ≡ true
      → has id s.stats ≡ true
  enqueued-has pkt len client s s' id run h =
      subst (λ x. has id x ≡ true) (enqueue_stats pkt len client s s' run) h

  enqueue_at-HasOldStatuses :
      (pkt : List ℕ) (id k : NodeId) (m m' : Map NodeId (PktScheduler W))
      → enqueue_at pkt id k m ≡ ok m'
      → HasOldStatuses m m'
  unfolding enqueue_at
  enqueue_at-HasOldStatuses pkt client k m m' run j id t f h = elim (Option-cases (find k m)) [
    | inl gone ↦ cc (rw (enqueue_at, gone) at run)
    | inr (s, g) ↦
        let (s', one, last) =
          >>=-eq-ok (Scheduler.enqueue pkt (length pkt) client s) _ (rw (enqueue_at, g) at run) in
        let f' : find j (put k s' m) ≡ some t =
          subst (λ x. find j x ≡ some t) (sym (ok-injective _ _ last)) f in
        elim (Bool-cases (k =? j)) [
          | inl y ↦
              let same : s' ≡ t = some-injective _ _ (rw (find-put j k s' m, y) at f') in
              (
                s,
                subst (λ i. find i m ≡ some s) ((node_id_eq.test_iff k j).0 y) g,
                enqueued-has pkt (length pkt) client s s' id one
                    (subst (λ x. has id x.stats ≡ true) (sym same) h),
              )
          | inr n ↦ (t, rw (find-put j k s' m, n) at f', h)
        ]
  ]

  enqueue_all-HasOldStatuses :
      (pkt : List ℕ) (id : NodeId) (m m' : Map NodeId (PktScheduler W))
      → enqueue_all pkt id m ≡ ok m'
      → HasOldStatuses m m'
  unfolding enqueue_all find
  enqueue_all-HasOldStatuses pkt client [] m' run j id t f h =
      (t, subst (λ x. find j x ≡ some t) (sym (ok-injective _ _ run)) f, h)
  enqueue_all-HasOldStatuses pkt client ((k, s) ∷ m) m' run j id t f h =
      let (s', one, rest) = >>=-eq-ok (Scheduler.enqueue pkt (length pkt) client s) _ run in
      let (m1, all, last) = >>=-eq-ok (enqueue_all pkt client m) _ rest in
      let f' : find j ((k, s') ∷ m1) ≡ some t =
        subst (λ x. find j x ≡ some t) (sym (ok-injective _ _ last)) f in
      elim (Bool-cases (k =? j)) [
        | inl y ↦
            let same : s' ≡ t = some-injective _ _ (rw y at f') in
            (
              s,
              rw y refl,
              enqueued-has pkt (length pkt) client s s' id one
                  (subst (λ x. has id x.stats ≡ true) (sym same) h),
            )
        | inr n ↦
            let (u, g, old) =
              enqueue_all-HasOldStatuses pkt client m m1 all j id t (rw n at f') h in
            (u, rw n g, old)
      ]

  -- Clients with a status in the new schedulers had one in the old.
  queued-IsServed :
      (c c' : WspaceController W)
      → IsSameSetup c c'
      → c'.routing_tbl.client_ids ≡ c.routing_tbl.client_ids
      → HasOldStatuses c.packet_scheduler_tbl c'.packet_scheduler_tbl
      → IsServed c
      → IsServed c'
  queued-IsServed c c' same ids old v = record {
    addressed = λ id h. same.clients id ∙ v.addressed id (sym (ap (has_elem id) ids) ∙ h);
    listed = λ k id s' f h.
        let (s, g, h') = old k id s' f h in ap (has_elem id) ids ∙ v.listed k id s g h';
  }

  module _ (client_id : NodeId) (with_header : NodeId → ℕ → List ℕ → List ℕ) (bytes : List ℕ)
      (c c' : WspaceController W) (run : queue_packet client_id with_header bytes c ≡ ok c')
      (same : IsSameSetup c c') (v : IsServed c) where
    pub queue_packet-IsServed : IsServed c'
    unfolding queue_packet contention_of
    queue_packet-IsServed = elim (Option-cases (find client_id c.client_original_seq_tbl)) [
      | inl unknown ↦ subst IsServed (ok-injective _ _ (rw (queue_packet, unknown) at run)) v
      | inr (n, known) ↦ elim (Option-cases (find client_id c.routing_tbl.route)) [
        | inl f ↦
            let skips = find_route-none client_id c.routing_tbl f in
            let (m, all, last) =
              >>=-eq-ok
                (enqueue_all (with_header client_id (add32 n 1) bytes) client_id
                  c.packet_scheduler_tbl)
                _ (rw (queue_packet, known, skips) at run) in
            queued-IsServed c c' same
              (sym (ap (λ x. x.routing_tbl.client_ids) (ok-injective _ _ last))
                ∙ ap (λ r. r.1.client_ids) skips)
              (subst (λ x. HasOldStatuses c.packet_scheduler_tbl x.packet_scheduler_tbl)
                (ok-injective _ _ last)
                (enqueue_all-HasOldStatuses _ client_id c.packet_scheduler_tbl m all))
              v
        | inr (b, f) ↦
            let reads = find_route-some client_id b c.routing_tbl f in
            let (m, one, last) =
              >>=-eq-ok
                (enqueue_at (with_header client_id (add32 n 1) bytes) client_id
                  (get_or (pos 0) b c.conflict_graph) c.packet_scheduler_tbl)
                _ (rw (queue_packet, known, reads, contention_of) at run) in
            queued-IsServed c c' same
              (sym (ap (λ x. x.routing_tbl.client_ids) (ok-injective _ _ last))
                ∙ ap (λ r. r.1.client_ids) reads)
              (subst (λ x. HasOldStatuses c.packet_scheduler_tbl x.packet_scheduler_tbl)
                (ok-injective _ _ last)
                (enqueue_at-HasOldStatuses _ client_id _ c.packet_scheduler_tbl m one))
              v
      ]
    ]

  -- `ComputeQuantum` gives a status to clients with a throughput alone.
  computed_status :
      (row : Map NodeId W) (s s' : PktScheduler W) (id : NodeId)
      → IsComputed row s s'
      → has id s'.stats ≡ true
      → (has id s.stats ≡ true) ⊎ (has id row ≡ true)
  computed_status [] s s' id e h = inl (subst (λ x. has id x.stats ≡ true) e h)
  computed_status (p ∷ ps) s s' id spec h = elim (Bool-cases (has id (p ∷ ps))) [
    | inl y ↦ inr y
    | inr n ↦
        let gone = has_of_none id s'.stats (spec.no_entry id (find-none id (p ∷ ps) n)) in
        cc (sym gone ∙ h)
  ]

  row_rated :
      (row rates : Map NodeId W) (id : NodeId) (b : Bool)
      → find id row ≡ (if has id rates && b then find id rates else none)
      → has id row ≡ true
      → has id rates ≡ true
  row_rated row rates id b e h = elim (Bool-cases (has id rates)) [
    | inl y ↦ y
    | inr n ↦ let gone = has_of_none id row (rw n at e) in cc (sym gone ∙ h)
  ]

  pub rated_listed :
      (P : NodeId → NodeId × W → Type 0) (c : WspaceController W) (t : RoutingTable W)
      (rates : Map NodeId W)
      → RoutesSpec P c.routing_tbl t rates
      → (id : NodeId) → has id rates ≡ true
      → has_elem id c.routing_tbl.client_ids ≡ true
  rated_listed P c t rates spec id h = elim (Bool-cases (has_elem id c.routing_tbl.client_ids)) [
    | inl y ↦ y
    | inr n ↦ let gone = has_of_none id rates ((spec.others id n).1) in cc (sym gone ∙ h)
  ]

  -- New routes: just the clients on the list get a throughput.
  pub round-IsServed :
      (c c' : WspaceController W) (t : RoutingTable W) (rates : Map NodeId W)
      → ((id : NodeId) → has id rates ≡ true → has_elem id c.routing_tbl.client_ids ≡ true)
      → RoundSpec t rates c c'
      → IsServed c
      → IsServed c'
  round-IsServed c c' t rates rated round v =
      let ids : c'.routing_tbl.client_ids ≡ c.routing_tbl.client_ids = round.setup.client_ids in
      record {
        addressed =
            λ id h. round.setup.clients id ∙ v.addressed id (sym (ap (has_elem id) ids) ∙ h);
        listed = λ k id s' f h.
            let there = sym (round.setup.domains k) ∙ has_of_find k c'.packet_scheduler_tbl s' f in
            let (s, g) = has-find k c.packet_scheduler_tbl there in
            let (row, s2, f2, computed, rows) = round.schedulers k s g in
            let same : s2 ≡ s' = some-injective _ _ (sym f2 ∙ f) in
            ap (has_elem id) ids
            ∙ elim (computed_status row s s2 id computed
                (subst (λ x. has id x.stats ≡ true) (sym same) h)) [
                  | inl old ↦ v.listed k id s g old
                  | inr new ↦ rated id (row_rated row rates id _ (rows id) new)
                ];
      }
