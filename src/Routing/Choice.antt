-- ===== src/Routing/Choice.antt =====
-- `UpdateRoutes` as a whole.
use native.Mathlib.Nat.{mod-lt}
use mathlib.Core.Option.{some-injective}
use wspace_controller.Prelude.{
  ℕ, ◌+◌, ◌%◌, ◌^◌, ◌<◌, ◌≡◌, refl, sym, ap, ◌∙◌, subst, true, false, ◌||◌, List, [], ◌∷◌, none,
  some, arith, if◌then◌else◌, Bool-cases, Option-cases, inl, inr, ◌⊎◌, length, get_elem?,
  get_elem?-some,
}
use wspace_controller.Prelude.Result.{Result, ok}
use wspace_controller.Map.{Map, find, put, has_elem, ◌=?◌}
use wspace_controller.Map.Laws.{find-put, HasUniqueKeys, put-HasUniqueKeys}
use wspace_controller.NodeId.{NodeId, node_id_eq}
use wspace_controller.Double.{Double}
use wspace_controller.Routing.{
  Table, RoutingTable, Routes, no_routes, set_routes, route_max, route_fixed, bs_at, lookup_stats,
  min_throughput,
}
use wspace_controller.Routing.Update.{update_max_throughput, update_round_robin}
use wspace_controller.Routing.Laws.{IsOrdered, BestSpec, route_max_lem}

bs_at-some :
    (bs_ids : List NodeId) (i : ℕ) (b : NodeId)
    → get_elem? bs_ids i ≡ some b
    → bs_at bs_ids i ≡ ok b
unfolding bs_at
bs_at-some bs_ids i b e = rw (e, bs_at)

module _ {W : Type 0} ⦃d : Double W⦄ where
  -- A choice that never fails is made for each client on the list, and for nobody else.
  set_routes_lem :
      (choose : NodeId → Result (NodeId × W)) (f : NodeId → NodeId × W)
      → ((c : NodeId) → choose c ≡ ok (f c))
      → (cs : List NodeId) (r : Routes W)
      → (r' : Routes W) × (set_routes choose cs r ≡ ok r')
        × ((k : NodeId)
            → find k r'.route ≡ (if has_elem k cs then some ((f k).0) else find k r.route))
        × ((k : NodeId)
            → find k r'.throughputs
              ≡ (if has_elem k cs then some ((f k).1) else find k r.throughputs))
        × (HasUniqueKeys r.throughputs → HasUniqueKeys r'.throughputs)
  unfolding set_routes
  set_routes_lem choose f all [] r = (r, refl, λ k. refl, λ k. refl, λ u. u)
  set_routes_lem choose f all (c ∷ cs) r =
      let r1 : Routes W = record {
        route = put c ((f c).0) r.route;
        throughputs = put c ((f c).1) r.throughputs;
      } in
      let (r', run, routes, rates, unique) = set_routes_lem choose f all cs r1 in
      (
        r',
        rw (all c) run,
        λ k. routes k ∙ merge k c cs (λ j. (f j).0) r.route,
        λ k. rates k ∙ merge k c cs (λ j. (f j).1) r.throughputs,
        λ u. unique (put-HasUniqueKeys c ((f c).1) r.throughputs u),
      )
    where
      merge :
          {V : Type 0} (k c : NodeId) (cs : List NodeId) (g : NodeId → V) (m : Map NodeId V)
          → (if has_elem k cs then some (g k) else find k (put c (g c) m))
            ≡ (if (c =? k) || has_elem k cs then some (g k) else find k m)
      merge k c cs g m = elim (Bool-cases (has_elem k cs)) [
        | inl y ↦ rw y (ground arith)
        | inr n ↦
            rw (n, find-put k c (g c) m)
              (elim (Bool-cases (c =? k)) [
                | inl same ↦ rw same (ap (λ j. some (g j)) ((node_id_eq.test_iff c k).0 same))
                | inr other ↦ rw other
              ])
      ]

  -- Every client has a route and a throughput, and they satisfy `P`; nobody else has any.
  pub record RoutesSpec (P : NodeId → NodeId × W → Type 0) (t t' : RoutingTable W)
      (rates : Map NodeId W) : Type 0 where
    pub routed :
        (c : NodeId)
        → has_elem c t.client_ids ≡ true
        → (p : NodeId × W) × P c p × (find c t'.route ≡ some p.0) × (find c rates ≡ some p.1)
    pub others :
        (c : NodeId)
        → has_elem c t.client_ids ≡ false
        → (find c t'.route ≡ none) × (find c rates ≡ none)
    pub unique : HasUniqueKeys rates
    pub same_clients : t'.client_ids ≡ t.client_ids
    pub same_stations : t'.bs_ids ≡ t.bs_ids
    pub same_infos : t'.bs_tbl ≡ t.bs_tbl

  -- With a station, doubles without a NaN, and one entry a station in the table, the route of each
  -- client is the best one: the station of the largest reported throughput above 0, or the first
  -- station where there is none.
  pub update_max_throughput_lem :
      (laws : IsOrdered W) (stats : Table W) (t : RoutingTable W) (b : NodeId) (bs : List NodeId)
      → t.bs_ids ≡ b ∷ bs
      → ((c : NodeId) (row : Map NodeId W) → find c stats ≡ some row → HasUniqueKeys row)
      → (t' : RoutingTable W) × (rates : Map NodeId W) × (update_max_throughput stats t
          ≡ ok (t', rates))
        × RoutesSpec (BestSpec stats b) t t' rates
  unfolding update_max_throughput find
  update_max_throughput_lem laws stats t b bs e u =
      let f : NodeId → NodeId × W = λ c. (route_max_lem laws b bs stats c (u c)).0 in
      let all : (c : NodeId) → route_max t.bs_ids stats c ≡ ok (f c) =
        λ c. rw e ((route_max_lem laws b bs stats c (u c)).1) in
      let (r, run, routes, rates, unique) =
        set_routes_lem (route_max t.bs_ids stats) f all t.client_ids no_routes in
      (
        record t { route = r.route; stats = stats },
        r.throughputs,
        rw run,
        record {
          routed = λ c h.
              (f c, (route_max_lem laws b bs stats c (u c)).2, routes c ∙ rw h, rates c ∙ rw h);
          others = λ c h. (routes c ∙ rw h, rates c ∙ rw h);
          unique = unique tt;
          same_clients = refl;
          same_stations = refl;
          same_infos = refl;
        },
      )

  -- What the round-robin loop decides: the station whose turn it is, at its reported throughput, but
  -- at least the minimum.
  abbrev pub FixedSpec : Table W → NodeId → NodeId → NodeId × W → Type 0
  FixedSpec stats bs client_id (b, t) =
      (b ≡ bs)
      × ((lookup_stats client_id bs stats ≡ some t) × (d.lt t min_throughput ≡ false)
          ⊎ (t ≡ min_throughput)
            × ((x : W) → lookup_stats client_id bs stats ≡ some x → d.lt x min_throughput ≡ true))

  route_fixed_lem :
      (bs : NodeId) (stats : Table W) (c : NodeId)
      → (p : NodeId × W) × (route_fixed bs stats c ≡ ok p) × FixedSpec stats bs c p
  unfolding route_fixed
  route_fixed_lem bs stats c = elim (Option-cases (lookup_stats c bs stats)) [
    | inl gone ↦ ((bs, min_throughput), rw (gone, route_fixed), (refl, inr (refl, λ x f. cc)))
    | inr (t, f) ↦ elim (Bool-cases (d.lt t min_throughput)) [
      | inl low ↦ (
        (bs, min_throughput),
        rw (f, route_fixed) (rw low),
        (
          refl,
          inr (
            refl,
            λ x g. subst (λ z. d.lt z min_throughput ≡ true) (some-injective _ _ (sym f ∙ g)) low,
          ),
        ),
      )
      | inr high ↦ ((bs, t), rw (f, route_fixed) (rw high), (refl, inl (f, high)))
    ]
  ]

  -- With at least one station, round robin routes every client through the station whose turn it is
  -- and moves on to the next.
  pub update_round_robin_lem :
      (stats : Table W) (t : RoutingTable W)
      → 0 < length t.bs_ids
      → (bs : NodeId) × (t' : RoutingTable W) × (rates : Map NodeId W) × (get_elem? t.bs_ids
            (t.bs_index % length t.bs_ids)
          ≡ some bs)
        × (update_round_robin stats t ≡ ok (t', rates))
        × (t'.bs_index ≡ (t.bs_index + 1) % 2 ^ 32)
        × RoutesSpec (FixedSpec stats bs) t t' rates
  unfolding update_round_robin find
  update_round_robin_lem stats t h =
      let n = length t.bs_ids in
      let (bs, at) = get_elem?-some t.bs_ids (t.bs_index % n) (mod-lt t.bs_index h) in
      let f : NodeId → NodeId × W = λ c. (route_fixed_lem bs stats c).0 in
      let all : (c : NodeId) → route_fixed bs stats c ≡ ok (f c) =
        λ c. (route_fixed_lem bs stats c).1 in
      let (r, run, routes, rates, unique) =
        set_routes_lem (route_fixed bs stats) f all t.client_ids no_routes in
      (
        bs,
        record t { route = r.route; stats = stats; bs_index = (t.bs_index + 1) % 2 ^ 32 },
        r.throughputs,
        at,
        rw (bs_at-some t.bs_ids (t.bs_index % n) bs at) (rw run),
        refl,
        record {
          routed = λ c k. (f c, (route_fixed_lem bs stats c).2, routes c ∙ rw k, rates c ∙ rw k);
          others = λ c k. (routes c ∙ rw k, rates c ∙ rw k);
          unique = unique tt;
          same_clients = refl;
          same_stations = refl;
          same_infos = refl;
        },
      )
