-- ===== src/Routing/Optimizer.antt =====
-- `UpdateRoutesOptimizer` of wspace_controller.cc, from what the script answers.
use wspace_controller.Prelude.{
  ◌≤◌, ◌≡◌, ◌≢◌, refl, sym, ap, ◌∙◌, subst, true, false, List, [], ◌∷◌, none, some, arith,
  Bool-cases, Option-cases, inl, inr, ◌⊎◌, length, or-true,
}
use mathlib.Core.Option.{some-injective}
use wspace_controller.Prelude.Int.{negsuc}
use wspace_controller.Prelude.Result.{ok}
use wspace_controller.Map.{Map, find, put, has, has_elem, get_or, ◌=?◌, =?-refl}
use wspace_controller.Map.Laws.{
  find-put, has-put, has-put_old, has-put_self, has_of_find, HasUniqueKeys, put-HasUniqueKeys,
}
use wspace_controller.NodeId.{NodeId, node_id_eq}
use wspace_controller.Double.{Double, of_nat}
use wspace_controller.Routing.{Table, RoutingTable, Routes, bs_at, min_throughput, update_stats}
use wspace_controller.Routing.Update.{
  parse_routing_table, fill_stats, take_assignment, update_optimizer,
}

abbrev pub AreAnswers : List NodeId → List NodeId → Type 0
AreAnswers bs_ids [] = Unit
AreAnswers bs_ids (b ∷ lines) =
    ((b ≡ negsuc 0) ⊎ (has_elem b bs_ids ≡ true)) × AreAnswers bs_ids lines

-- What the script may write: at most one line for each client, with the id of a station, or -1 for the
-- first station.
abbrev pub IsAnswer : List NodeId → List NodeId → List NodeId → Type 0
IsAnswer bs_ids client_ids lines = (length lines ≤ length client_ids) × AreAnswers bs_ids lines

-- Routes lead to stations on the list, but for clients on the other list, where -1 may stand.
abbrev AreOpen : List NodeId → List NodeId → Map NodeId NodeId → Type 0
AreOpen bs_ids open_ids route =
    (k b : NodeId)
    → find k route ≡ some b
    → (has_elem b bs_ids ≡ true) ⊎ (b ≡ negsuc 0) × (has_elem k open_ids ≡ true)

put-AreOpen :
    (bs_ids all : List NodeId) (c b : NodeId) (route : Map NodeId NodeId)
    → (has_elem b bs_ids ≡ true) ⊎ (b ≡ negsuc 0) × (has_elem c all ≡ true)
    → AreOpen bs_ids all route
    → AreOpen bs_ids all (put c b route)
put-AreOpen bs_ids all c b route now old k x f = elim (Bool-cases (c =? k)) [
  | inl y ↦
      let same : c ≡ k = (node_id_eq.test_iff c k).0 y in
      let value : b ≡ x = some-injective _ _ (rw (find-put k c b route, y) at f) in
      subst (λ i. (has_elem x bs_ids ≡ true) ⊎ (x ≡ negsuc 0) × (has_elem i all ≡ true)) same
        (subst (λ z. (has_elem z bs_ids ≡ true) ⊎ (z ≡ negsuc 0) × (has_elem c all ≡ true)) value
          now)
  | inr n ↦ old k x (rw (find-put k c b route, n) at f)
]

-- A client that is passed is not open any more.
closed :
    (b0 : NodeId) (bs : List NodeId) (c : NodeId) (cs : List NodeId) (route : Map NodeId NodeId)
    → AreOpen (b0 ∷ bs) (c ∷ cs) route
    → ((b : NodeId) → find c route ≡ some b → b ≢ negsuc 0)
    → AreOpen (b0 ∷ bs) cs route
closed b0 bs c cs route o fine k b f = elim (o k b f) [
  | inl listed ↦ inl listed
  | inr (e, h) ↦ elim (Bool-cases (c =? k)) [
    | inl y ↦
        absurd
          (fine b (subst (λ i. find i route ≡ some b) (sym ((node_id_eq.test_iff c k).0 y)) f) e)
    | inr n ↦ inr (e, rw n at h)
  ]
]

defaulted :
    (b0 : NodeId) (bs : List NodeId) (c : NodeId) (cs : List NodeId) (route : Map NodeId NodeId)
    → AreOpen (b0 ∷ bs) (c ∷ cs) route
    → AreOpen (b0 ∷ bs) cs (put c b0 route)
defaulted b0 bs c cs route o k b f = elim (Bool-cases (c =? k)) [
  | inl y ↦
      let same : b0 ≡ b = some-injective _ _ (rw (find-put k c b0 route, y) at f) in
      inl (subst (λ z. has_elem z (b0 ∷ bs) ≡ true) same (rw (=?-refl b0) refl))
  | inr n ↦ elim (o k b (rw (find-put k c b0 route, n) at f)) [
    | inl listed ↦ inl listed
    | inr (e, h) ↦ inr (e, rw n at h)
  ]
]

-- `ParseRoutingTable` reads all lines.
parse_routing_table_lem :
    (bs_ids all lines cs : List NodeId) (route : Map NodeId NodeId)
    → length lines ≤ length cs
    → AreAnswers bs_ids lines
    → ((k : NodeId) → has_elem k cs ≡ true → has_elem k all ≡ true)
    → AreOpen bs_ids all route
    → (route' : Map NodeId NodeId) × (parse_routing_table lines cs route ≡ ok route')
      × AreOpen bs_ids all route'
unfolding parse_routing_table
parse_routing_table_lem bs_ids all [] cs route few a sub o = (route, refl, o)
parse_routing_table_lem bs_ids all (b ∷ lines) [] route few a sub o = absurd (omega (arith, few))
parse_routing_table_lem bs_ids all (b ∷ lines) (c ∷ cs) route few a sub o =
    let here : has_elem c all ≡ true = sub c (rw (=?-refl c) refl) in
    let now : (has_elem b bs_ids ≡ true) ⊎ (b ≡ negsuc 0) × (has_elem c all ≡ true) = elim (a.0) [
      | inl e ↦ inr (e, here)
      | inr l ↦ inl l
    ] in
    parse_routing_table_lem bs_ids all lines cs (put c b route) (omega (arith, few)) a.1
      (λ k h. sub k (rw h (or-true (c =? k)))) (put-AreOpen bs_ids all c b route now o)

module _ {W : Type 0} ⦃d : Double W⦄ where
  -- Each client with a throughput has a route.
  abbrev AreRates : Routes W → Type 0
  AreRates r = (k : NodeId) → has k r.throughputs ≡ true → has k r.route ≡ true

  -- What the last loop leaves: routes to listed stations, throughputs for listed clients with a route.
  record TakenSpec (bs_ids cs : List NodeId) (r r' : Routes W) : Type 0 where
    routed : (k b : NodeId) → find k r'.route ≡ some b → has_elem b bs_ids ≡ true
    rates : AreRates r'
    rated :
        (k : NodeId)
        → has k r'.throughputs ≡ true
        → (has k r.throughputs ≡ true) ⊎ (has_elem k cs ≡ true)
    unique : HasUniqueKeys r.throughputs → HasUniqueKeys r'.throughputs

  TakenSpec-step :
      (bs_ids : List NodeId) (c : NodeId) (cs : List NodeId) (r r1 r' : Routes W)
      → ((k : NodeId)
          → has k r1.throughputs ≡ true
          → (has k r.throughputs ≡ true) ⊎ ((c =? k) ≡ true))
      → (HasUniqueKeys r.throughputs → HasUniqueKeys r1.throughputs)
      → TakenSpec bs_ids cs r1 r'
      → TakenSpec bs_ids (c ∷ cs) r r'
  TakenSpec-step bs_ids c cs r r1 r' new unique spec = record {
    routed = spec.routed;
    rates = spec.rates;
    rated = λ k h. elim (spec.rated k h) [
      | inr listed ↦ inr (rw listed (or-true (c =? k)))
      | inl early ↦ elim (new k early) [ inl old ↦ inl old | inr same ↦ inr (rw same refl) ]
    ];
    unique = λ u. spec.unique (unique u);
  }

  put_rated :
      (c k : NodeId) (x : W) (m : Map NodeId W)
      → has k (put c x m) ≡ true
      → (has k m ≡ true) ⊎ ((c =? k) ≡ true)
  put_rated c k x m h = elim (Bool-cases (c =? k)) [
    | inl y ↦ inr y
    | inr n ↦ inl (rw (has-put k c x m, n) at h)
  ]

  put-AreRates :
      (c : NodeId) (x : W) (route route' : Map NodeId NodeId) (m : Map NodeId W)
      → ((k : NodeId) → has k route ≡ true → has k route' ≡ true)
      → has c route' ≡ true
      → AreRates (record { route = route; throughputs = m })
      → AreRates (record { route = route'; throughputs = put c x m })
  put-AreRates c x route route' m more there a k h = elim (put_rated c k x m h) [
    | inl old ↦ more k (a k old)
    | inr y ↦ subst (λ i. has i route' ≡ true) ((node_id_eq.test_iff c k).0 y) there
  ]

  -- The entry that the last loop reads.
  unfoldable pub rate_of : NodeId → NodeId → Table W → W
  rate_of c b stats = get_or (of_nat 0) b (get_or [] c stats)

  module _ (b0 : NodeId) (bs : List NodeId) where
    abbrev Taken : List NodeId → Table W → Routes W → Type 0
    Taken cs stats r =
        (stats' : Table W) × (r' : Routes W) × (take_assignment (b0 ∷ bs) cs stats r
          ≡ ok (stats', r'))
        × TakenSpec (b0 ∷ bs) cs r r'

    unfoldable pub with_default : NodeId → Routes W → Routes W
    with_default c r = record {
      route = put c b0 r.route;
      throughputs = put c min_throughput r.throughputs;
    }

    unfoldable pub with_given : NodeId → NodeId → Table W → Routes W → Routes W
    with_given c b stats r = record r { throughputs = put c (rate_of c b stats) r.throughputs }

    pub take_gone :
        (c : NodeId) (cs : List NodeId) (stats : Table W) (r : Routes W)
        → find c r.route ≡ none
        → take_assignment (b0 ∷ bs) (c ∷ cs) stats r ≡ take_assignment (b0 ∷ bs) cs stats r
    unfolding take_assignment
    take_gone c cs stats r f = rw (take_assignment, f) refl

    pub take_default :
        (c b : NodeId) (cs : List NodeId) (stats : Table W) (r : Routes W)
        → find c r.route ≡ some b
        → (b =? negsuc 0) ≡ true
        → take_assignment (b0 ∷ bs) (c ∷ cs) stats r
          ≡ take_assignment (b0 ∷ bs) cs stats (with_default c r)
    unfolding take_assignment with_default bs_at
    take_default c b cs stats r f y = rw (take_assignment, f, y) refl

    pub take_given :
        (c b : NodeId) (cs : List NodeId) (stats : Table W) (r : Routes W)
        → find c r.route ≡ some b
        → (b =? negsuc 0) ≡ false
        → take_assignment (b0 ∷ bs) (c ∷ cs) stats r
          ≡ take_assignment
              (b0 ∷ bs)
              cs
              (update_stats c b (rate_of c b stats) stats)
              (with_given c b stats r)
    unfolding take_assignment with_given rate_of
    take_given c b cs stats r f n = rw (take_assignment, f, n) refl

    Taken-step :
        (c : NodeId) (cs : List NodeId) (stats stats1 : Table W) (r r1 : Routes W)
        → take_assignment (b0 ∷ bs) (c ∷ cs) stats r ≡ take_assignment (b0 ∷ bs) cs stats1 r1
        → ((k : NodeId)
            → has k r1.throughputs ≡ true
            → (has k r.throughputs ≡ true) ⊎ ((c =? k) ≡ true))
        → (HasUniqueKeys r.throughputs → HasUniqueKeys r1.throughputs)
        → Taken cs stats1 r1
        → Taken (c ∷ cs) stats r
    Taken-step c cs stats stats1 r r1 step new unique (stats', r', run, spec) =
        (stats', r', step ∙ run, TakenSpec-step (b0 ∷ bs) c cs r r1 r' new unique spec)

    take_assignment_lem :
        (cs : List NodeId) (stats : Table W) (r : Routes W)
        → AreOpen (b0 ∷ bs) cs r.route
        → AreRates r
        → Taken cs stats r
    unfolding take_assignment with_default with_given
    take_assignment_lem [] stats r o a = (
      stats,
      r,
      refl,
      record {
        routed = λ k b f. elim (o k b f) [ inl h ↦ h | inr (_, h) ↦ cc ];
        rates = a;
        rated = λ k h. inl h;
        unique = λ u. u;
      },
    )
    take_assignment_lem (c ∷ cs) stats r o a = elim (Option-cases (find c r.route)) [
      | inl gone ↦
          Taken-step c cs stats stats r r (take_gone c cs stats r gone) (λ k h. inl h) (λ u. u)
            (take_assignment_lem cs stats r (closed b0 bs c cs r.route o (λ b f. cc)) a)
      | inr (b, f) ↦ elim (Bool-cases (b =? negsuc 0)) [
        | inl y ↦
            Taken-step c cs stats stats r (with_default c r) (take_default c b cs stats r f y)
              (λ k h. put_rated c k min_throughput r.throughputs h)
              (put-HasUniqueKeys c min_throughput r.throughputs)
              (take_assignment_lem cs stats (with_default c r) (defaulted b0 bs c cs r.route o) (
                put-AreRates c min_throughput r.route (put c b0 r.route) r.throughputs
                  (λ k h. has-put_old k c b0 r.route h) (has-put_self c b0 r.route) a))
        | inr n ↦
            let t = rate_of c b stats in
            Taken-step c cs stats (update_stats c b t stats) r (with_given c b stats r)
              (take_given c b cs stats r f n) (λ k h. put_rated c k t r.throughputs h)
              (put-HasUniqueKeys c t r.throughputs)
              (take_assignment_lem cs (update_stats c b t stats) (with_given c b stats r)
                (closed b0 bs c cs r.route o (λ x g e. cc (
                  sym n,
                  (node_id_eq.test_iff b (negsuc 0)).1 (sym (some-injective _ _ (sym g ∙ f)) ∙ e),
                )))
                (put-AreRates c t r.route r.route r.throughputs (λ k h. h)
                  (has_of_find c r.route b f) a))
      ]
    ]

  -- What the optimizer leaves: routes to listed stations, throughputs for listed clients that have a
  -- route, and all else as it was.
  pub record OptimizerSpec (t t' : RoutingTable W) (rates : Map NodeId W) : Type 0 where
    pub routed : (k b : NodeId) → find k t'.route ≡ some b → has_elem b t.bs_ids ≡ true
    pub have_routes : (k : NodeId) → has k rates ≡ true → has k t'.route ≡ true
    pub rated : (k : NodeId) → has k rates ≡ true → has_elem k t.client_ids ≡ true
    pub unique : HasUniqueKeys rates
    pub same_clients : t'.client_ids ≡ t.client_ids
    pub same_stations : t'.bs_ids ≡ t.bs_ids

  pub update_optimizer-OptimizerSpec :
      (solve : Table W → List NodeId) (stats : Table W) (t : RoutingTable W) (b0 : NodeId)
      (bs : List NodeId)
      → t.bs_ids ≡ b0 ∷ bs
      → ((x : Table W) → IsAnswer t.bs_ids t.client_ids (solve x))
      → (t' : RoutingTable W) × (rates : Map NodeId W) × (update_optimizer solve stats t
          ≡ ok (t', rates))
        × OptimizerSpec t t' rates
  unfolding update_optimizer find has
  update_optimizer-OptimizerSpec solve stats t b0 bs e answers =
      let filled = fill_stats t.bs_ids t.client_ids stats in
      let (few, lines) = answers filled in
      let (route, read, o) =
        parse_routing_table_lem t.bs_ids t.client_ids (solve filled) t.client_ids [] few lines
          (λ k h. h) (λ k b f. cc) in
      let (stats', r, run, spec) =
        take_assignment_lem b0 bs t.client_ids filled (record { route = route; throughputs = [] })
          (subst (λ ids. AreOpen ids t.client_ids route) e o) (λ k h. cc) in
      let run' : take_assignment t.bs_ids t.client_ids filled
            (record { route = route; throughputs = [] })
          ≡ ok (stats', r) =
        subst
          (λ ids.
            take_assignment ids t.client_ids filled (record { route = route; throughputs = [] })
            ≡ ok (stats', r))
          (sym e) run in
      (
        record t { route = r.route; stats = stats' },
        r.throughputs,
        rw (read, run') refl,
        record {
          routed = λ k b f. ap (has_elem b) e ∙ spec.routed k b f;
          have_routes = spec.rates;
          rated = λ k h. elim (spec.rated k h) [ inl x ↦ cc | inr y ↦ y ];
          unique = spec.unique tt;
          same_clients = refl;
          same_stations = refl;
        },
      )
