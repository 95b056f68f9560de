-- ===== src/Routing/Answers.antt =====
-- What the routes and the throughputs of `UpdateRoutesOptimizer` are, client by client.
use wspace_controller.Prelude.{
  ◌≤◌, ◌≡◌, refl, sym, ap, ◌∙◌, subst, true, false, List, [], ◌∷◌, Option, none, some, arith,
  Bool-cases, Option-cases, inl, inr, ◌⊎◌, length, if◌then◌else◌,
}
use mathlib.Core.Option.{some-injective}
use wspace_controller.Prelude.Int.{negsuc}
use wspace_controller.Prelude.Result.{ok}
use wspace_controller.Map.{Map, find, put, has_elem, get_or, ◌=?◌}
use wspace_controller.Map.Laws.{find-put, find-put_self, get_or-put, get_or-find}
use wspace_controller.NodeId.{NodeId, node_id_eq}
use wspace_controller.Double.{Double, of_nat}
use wspace_controller.Routing.{
  Table, RoutingTable, Routes, min_throughput, update_stats, lookup_stats,
}
use wspace_controller.Routing.Filling.{fill_stats-filled}
use wspace_controller.Routing.Optimizer.{
  AreAnswers, IsAnswer, rate_of, with_default, with_given, take_gone, take_default, take_given,
}
use wspace_controller.Routing.Update.{
  parse_routing_table, fill_stats, take_assignment, update_optimizer,
}

-- The line for a client: the first has the first line.
unfoldable pub answer_of : NodeId → List NodeId → List NodeId → Option NodeId
answer_of k [] lines = none
answer_of k (c ∷ cs) [] = none
answer_of k (c ∷ cs) (b ∷ lines) = if c =? k then some b else answer_of k cs lines

abbrev pub AreDistinct : List NodeId → Type 0
AreDistinct [] = Unit
AreDistinct (c ∷ cs) = (has_elem c cs ≡ false) × AreDistinct cs

answer_of-other :
    (k : NodeId) (cs lines : List NodeId) → has_elem k cs ≡ false → answer_of k cs lines ≡ none
unfolding answer_of
answer_of-other k [] lines h = refl
answer_of-other k (c ∷ cs) [] h = refl
answer_of-other k (c ∷ cs) (b ∷ lines) h = elim (Bool-cases (c =? k)) [
  | inl y ↦ cc (rw y at h)
  | inr n ↦ rw n (answer_of-other k cs lines (rw n at h))
]

answer_of-AreAnswers :
    (k b : NodeId) (bs_ids cs lines : List NodeId)
    → AreAnswers bs_ids lines
    → answer_of k cs lines ≡ some b
    → (b ≡ negsuc 0) ⊎ (has_elem b bs_ids ≡ true)
unfolding answer_of
answer_of-AreAnswers k b bs_ids [] lines a e = cc
answer_of-AreAnswers k b bs_ids (c ∷ cs) [] a e = cc
answer_of-AreAnswers k b bs_ids (c ∷ cs) (x ∷ lines) a e = elim (Bool-cases (c =? k)) [
  | inl y ↦
      subst (λ z. (z ≡ negsuc 0) ⊎ (has_elem z bs_ids ≡ true)) (some-injective _ _ (rw y at e)) a.0
  | inr n ↦ answer_of-AreAnswers k b bs_ids cs lines a.1 (rw n at e)
]

abbrev or_old : Option NodeId → Option NodeId → Option NodeId
or_old (some b) old = some b
or_old none old = old

or_old-none : (o : Option NodeId) → or_old o none ≡ o
or_old-none none = refl
or_old-none (some b) = refl

parse_routing_table-answers :
    (lines cs : List NodeId) (route : Map NodeId NodeId)
    → length lines ≤ length cs
    → AreDistinct cs
    → (route' : Map NodeId NodeId) × (parse_routing_table lines cs route ≡ ok route')
      × ((k : NodeId) → find k route' ≡ or_old (answer_of k cs lines) (find k route))
unfolding parse_routing_table answer_of
parse_routing_table-answers [] [] route few u = (route, refl, λ k. refl)
parse_routing_table-answers [] (c ∷ cs) route few u = (route, refl, λ k. refl)
parse_routing_table-answers (b ∷ lines) [] route few u = absurd (omega (arith, few))
parse_routing_table-answers (b ∷ lines) (c ∷ cs) route few u =
    let (route', run, spec) =
      parse_routing_table-answers lines cs (put c b route) (omega (arith, few)) u.1 in
    (
      route',
      run,
      λ k. spec k ∙ elim (Bool-cases (c =? k)) [
        | inl y ↦
            let gone =
              answer_of-other k cs lines
                (subst (λ i. has_elem i cs ≡ false) ((node_id_eq.test_iff c k).0 y) u.0) in
            rw (gone, find-put k c b route, y) refl
        | inr n ↦ rw (find-put k c b route, n) refl
      ],
    )

-- The route for an answer: -1 stands for the first station.
abbrev pub route_for : NodeId → Option NodeId → Option NodeId
route_for b0 none = none
route_for b0 (some b) = some (if b =? negsuc 0 then b0 else b)

module _ {W : Type 0} ⦃d : Double W⦄ where
  -- The throughput for an answer.
  abbrev rate_for : Table W → NodeId → Option NodeId → Option W → Option W
  rate_for stats k none old = old
  rate_for stats k (some b) old = some (if b =? negsuc 0 then min_throughput else rate_of k b stats)

  -- One turn of the last loop, at its client and at the others.
  record TurnSpec (b0 c : NodeId) (stats stats1 : Table W) (r r1 : Routes W) : Type 0 where
    own_route : find c r1.route ≡ route_for b0 (find c r.route)
    own_rate : find c r1.throughputs ≡ rate_for stats c (find c r.route) (find c r.throughputs)
    else_route : (k : NodeId) → (c =? k) ≡ false → find k r1.route ≡ find k r.route
    else_rate : (k : NodeId) → (c =? k) ≡ false → find k r1.throughputs ≡ find k r.throughputs
    else_stats : (k b : NodeId) → (c =? k) ≡ false → rate_of k b stats1 ≡ rate_of k b stats

  update_stats-other :
      (c b k x : NodeId) (v : W) (stats : Table W)
      → (c =? k) ≡ false
      → rate_of k x (update_stats c b v stats) ≡ rate_of k x stats
  unfolding rate_of update_stats
  update_stats-other c b k x v stats n =
      let row = put b v (get_or [] c stats) in
      let read : get_or [] k (put c row stats) ≡ get_or [] k stats =
        let read = get_or-put [] row k c stats in rw n at read in
      ap (get_or (of_nat 0) x) read

  take_turn :
      (b0 : NodeId) (bs : List NodeId) (c : NodeId) (cs : List NodeId) (stats : Table W)
      (r : Routes W)
      → (stats1 : Table W) × (r1 : Routes W) × (take_assignment (b0 ∷ bs) (c ∷ cs) stats r
          ≡ take_assignment (b0 ∷ bs) cs stats1 r1)
        × TurnSpec b0 c stats stats1 r r1
  unfolding with_default with_given
  take_turn b0 bs c cs stats r = elim (Option-cases (find c r.route)) [
    | inl gone ↦ (
      stats,
      r,
      take_gone b0 bs c cs stats r gone,
      record {
        own_route = rw gone refl;
        own_rate = rw gone refl;
        else_route = λ k n. refl;
        else_rate = λ k n. refl;
        else_stats = λ k b n. refl;
      },
    )
    | inr (b, f) ↦ elim (Bool-cases (b =? negsuc 0)) [
      | inl y ↦ (
        stats,
        with_default b0 bs c r,
        take_default b0 bs c b cs stats r f y,
        record {
          own_route = rw (f, y) (find-put_self c b0 r.route);
          own_rate = rw (f, y) (find-put_self c min_throughput r.throughputs);
          else_route = λ k n. rw (find-put k c b0 r.route, n) refl;
          else_rate = λ k n. rw (find-put k c min_throughput r.throughputs, n) refl;
          else_stats = λ k x n. refl;
        },
      )
      | inr m ↦
          let t = rate_of c b stats in
          (
            update_stats c b t stats,
            with_given b0 bs c b stats r,
            take_given b0 bs c b cs stats r f m,
            record {
              own_route = rw (f, m) refl;
              own_rate = rw (f, m) (find-put_self c t r.throughputs);
              else_route = λ k n. refl;
              else_rate = λ k n. rw (find-put k c t r.throughputs, n) refl;
              else_stats = λ k x n. update_stats-other c b k x t stats n;
            },
          )
    ]
  ]

  -- The loop over all clients, no one twice.
  record LoopSpec (b0 : NodeId) (cs : List NodeId) (stats : Table W) (r r' : Routes W)
      : Type 0 where
    route : (k : NodeId) → has_elem k cs ≡ true → find k r'.route ≡ route_for b0 (find k r.route)
    rate :
        (k : NodeId)
        → has_elem k cs ≡ true
        → find k r'.throughputs ≡ rate_for stats k (find k r.route) (find k r.throughputs)
    else_route : (k : NodeId) → has_elem k cs ≡ false → find k r'.route ≡ find k r.route
    else_rate : (k : NodeId) → has_elem k cs ≡ false → find k r'.throughputs ≡ find k r.throughputs

  LoopSpec-cons :
      (b0 c : NodeId) (cs : List NodeId) (stats stats1 : Table W) (r r1 r' : Routes W)
      → has_elem c cs ≡ false
      → TurnSpec b0 c stats stats1 r r1
      → LoopSpec b0 cs stats1 r1 r'
      → LoopSpec b0 (c ∷ cs) stats r r'
  LoopSpec-cons b0 c cs stats stats1 r r1 r' fresh turn loop = record {
    route = λ k h. elim (Bool-cases (c =? k)) [
      | inl y ↦
          subst (λ i. find i r'.route ≡ route_for b0 (find i r.route))
            ((node_id_eq.test_iff c k).0 y) (loop.else_route c fresh ∙ turn.own_route)
      | inr n ↦ loop.route k (rw n at h) ∙ ap (route_for b0) (turn.else_route k n)
    ];
    rate = λ k h. elim (Bool-cases (c =? k)) [
      | inl y ↦
          subst
            (λ i. find i r'.throughputs ≡ rate_for stats i (find i r.route) (find i r.throughputs))
            ((node_id_eq.test_iff c k).0 y) (loop.else_rate c fresh ∙ turn.own_rate)
      | inr n ↦
          loop.rate k (rw n at h)
          ∙ rate_for-same k stats1 stats (find k r1.route) (find k r1.throughputs)
              (λ b. turn.else_stats k b n)
          ∙ ap (λ o. rate_for stats k o (find k r1.throughputs)) (turn.else_route k n)
          ∙ ap (rate_for stats k (find k r.route)) (turn.else_rate k n)
    ];
    else_route = λ k h. elim (Bool-cases (c =? k)) [
      | inl y ↦ cc (rw y at h)
      | inr n ↦ loop.else_route k (rw n at h) ∙ turn.else_route k n
    ];
    else_rate = λ k h. elim (Bool-cases (c =? k)) [
      | inl y ↦ cc (rw y at h)
      | inr n ↦ loop.else_rate k (rw n at h) ∙ turn.else_rate k n
    ];
  }
    where
      rate_for-same :
          (k : NodeId) (s t : Table W) (o : Option NodeId) (old : Option W)
          → ((b : NodeId) → rate_of k b s ≡ rate_of k b t)
          → rate_for s k o old ≡ rate_for t k o old
      rate_for-same k s t none old e = refl
      rate_for-same k s t (some b) old e =
          ap (λ x. some (if b =? negsuc 0 then min_throughput else x)) (e b)

  take_assignment-LoopSpec :
      (b0 : NodeId) (bs cs : List NodeId) (stats : Table W) (r : Routes W)
      → AreDistinct cs
      → (stats' : Table W) × (r' : Routes W) × (take_assignment (b0 ∷ bs) cs stats r
          ≡ ok (stats', r'))
        × LoopSpec b0 cs stats r r'
  unfolding take_assignment
  take_assignment-LoopSpec b0 bs [] stats r u = (
    stats,
    r,
    refl,
    record {
      route = λ k h. cc;
      rate = λ k h. cc;
      else_route = λ k h. refl;
      else_rate = λ k h. refl;
    },
  )
  take_assignment-LoopSpec b0 bs (c ∷ cs) stats r u =
      let (stats1, r1, step, turn) = take_turn b0 bs c cs stats r in
      let (stats', r', run, loop) = take_assignment-LoopSpec b0 bs cs stats1 r1 u.1 in
      (stats', r', step ∙ run, LoopSpec-cons b0 c cs stats stats1 r r1 r' u.0 turn loop)

  -- The throughput at the station of an answer: the reported one, or the minimum where there is none,
  -- and for -1.
  abbrev pub reported : Table W → NodeId → NodeId → W
  reported stats k b =
      if b =? negsuc 0
      then min_throughput
      else (elim (lookup_stats k b stats) [ none ↦ min_throughput | some x ↦ x ])

  -- What the answers mean.
  pub record AnswersSpec (stats : Table W) (b0 : NodeId) (lines : List NodeId)
      (t t' : RoutingTable W) (rates : Map NodeId W) : Type 0 where
    pub route : (k : NodeId) → find k t'.route ≡ route_for b0 (answer_of k t.client_ids lines)
    pub answered :
        (k b : NodeId)
        → answer_of k t.client_ids lines ≡ some b
        → find k rates ≡ some (reported stats k b)
    pub unanswered : (k : NodeId) → answer_of k t.client_ids lines ≡ none → find k rates ≡ none

  reported-filled :
      (stats : Table W) (k b : NodeId) (bs cs : List NodeId)
      → has_elem k cs ≡ true
      → (b ≡ negsuc 0) ⊎ (has_elem b bs ≡ true)
      → (if b =? negsuc 0 then min_throughput else rate_of k b (fill_stats bs cs stats))
        ≡ reported stats k b
  unfolding rate_of lookup_stats
  reported-filled stats k b bs cs listed valid = elim (Bool-cases (b =? negsuc 0)) [
    | inl y ↦ rw y refl
    | inr n ↦
        let station : has_elem b bs ≡ true = elim valid [
          | inl e ↦ cc (sym n, (node_id_eq.test_iff b (negsuc 0)).1 e)
          | inr h ↦ h
        ] in
        let entry = fill_stats-filled k b bs cs stats in
        let row = get_or [] k (fill_stats bs cs stats) in
        elim (Option-cases (lookup_stats k b stats)) [
          | inl gone ↦
              rw (n, gone)
                (get_or-find (of_nat 0) b row min_throughput (rw (listed, station, gone) at entry))
          | inr (x, f) ↦
              rw (n, f) (get_or-find (of_nat 0) b row x (rw (listed, station, f) at entry))
        ]
  ]

  -- With a station, no client twice, and answers that can be read: the optimizer's routes are the lines
  -- of its answer, where -1 stands for the first station. A client with a line has the throughput that
  -- is reported for it at its station, or the minimum where there is no report and for -1; one without
  -- has no route and no throughput.
  pub update_optimizer_lem :
      (solve : Table W → List NodeId) (stats : Table W) (t : RoutingTable W) (b0 : NodeId)
      (bs : List NodeId)
      → t.bs_ids ≡ b0 ∷ bs
      → AreDistinct t.client_ids
      → IsAnswer t.bs_ids t.client_ids (solve (fill_stats t.bs_ids t.client_ids stats))
      → (t' : RoutingTable W) × (rates : Map NodeId W) × (update_optimizer solve stats t
          ≡ ok (t', rates))
        × AnswersSpec stats b0 (solve (fill_stats t.bs_ids t.client_ids stats)) t t' rates
  unfolding update_optimizer find
  update_optimizer_lem solve stats t b0 bs e u (few, valid) =
      let filled = fill_stats t.bs_ids t.client_ids stats in
      let lines = solve filled in
      let (route, read, lines_read) = parse_routing_table-answers lines t.client_ids [] few u in
      let (stats', r, run, loop) =
        take_assignment-LoopSpec b0 bs t.client_ids filled
          (record { route = route; throughputs = [] }) u in
      let read_route : (k : NodeId) → find k route ≡ answer_of k t.client_ids lines =
        λ k. lines_read k ∙ or_old-none (answer_of k t.client_ids lines) in
      let run' : take_assignment t.bs_ids t.client_ids filled
            (record { route = route; throughputs = [] })
          ≡ ok (stats', r) =
        subst
          (λ ids.
            take_assignment ids t.client_ids filled (record { route = route; throughputs = [] })
            ≡ ok (stats', r))
          (sym e) run in
      (
        record t { route = r.route; stats = stats' },
        r.throughputs,
        rw (read, run') refl,
        record {
          route = λ k. elim (Bool-cases (has_elem k t.client_ids)) [
            | inl h ↦ loop.route k h ∙ ap (route_for b0) (read_route k)
            | inr n ↦
                let gone = answer_of-other k t.client_ids lines n in
                loop.else_route k n ∙ read_route k ∙ gone ∙ sym (ap (route_for b0) gone)
          ];
          answered = λ k b f. elim (Bool-cases (has_elem k t.client_ids)) [
            | inl h ↦
                loop.rate k h
                ∙ ap (λ o. rate_for filled k o none) (read_route k ∙ f)
                ∙ ap some (
                    reported-filled stats k b t.bs_ids t.client_ids h
                      (answer_of-AreAnswers k b t.bs_ids t.client_ids lines valid f))
            | inr n ↦ cc (sym (answer_of-other k t.client_ids lines n) ∙ f)
          ];
          unanswered = λ k f. elim (Bool-cases (has_elem k t.client_ids)) [
            | inl h ↦ loop.rate k h ∙ ap (λ o. rate_for filled k o none) (read_route k ∙ f)
            | inr n ↦ loop.else_rate k n
          ];
        },
      )
