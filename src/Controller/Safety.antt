-- ===== src/Controller/Safety.antt =====
-- That the threads of the controller find their tables in order, whatever turns they take.
use wspace_controller.Prelude.{
  ℕ, ◌≡◌, refl, sym, subst, ◌∙◌, true, ◌||◌, List, [], ◌∷◌, some, zero, suc, inl, inr, Bool-cases,
  get_elem?, or-true,
}
use mathlib.Core.Option.{some-injective}
use wspace_controller.Prelude.Result.{ok}
use wspace_controller.Map.{Map, find, has, has_elem, ◌=?◌, =?-refl}
use wspace_controller.Map.Laws.{has-find, get_or-find, HasUniqueKeys}
use wspace_controller.NodeId.{NodeId, node_id_eq}
use wspace_controller.Double.{Double}
use wspace_controller.Routing.{
  Table, RoutingTable, SchedulingMode, max_throughput, duplication, round_robin, optimizer,
  exhaustive_search, unknown_mode,
}
use wspace_controller.Routing.Update.{update_routes, update_max_throughput}
use wspace_controller.Routing.Laws.{IsOrdered, BestSpec}
use wspace_controller.Routing.Choice.{RoutesSpec, FixedSpec, update_max_throughput_lem}
use wspace_controller.Controller.{WspaceController, compute_routes}
use wspace_controller.Controller.Wiring.{IsWired}
use wspace_controller.Controller.Split.{AreRouted}
use wspace_controller.Controller.Turns.{RoundSpec, rerouted, AreStationsKnown, round_lem}

get_elem?-has_elem :
    (xs : List NodeId) (i : ℕ) (x : NodeId) → get_elem? xs i ≡ some x → has_elem x xs ≡ true
get_elem?-has_elem [] i x e = cc
get_elem?-has_elem (y ∷ ys) zero x e =
    subst (λ z. ((y =? z) || has_elem z ys) ≡ true) (some-injective _ _ e) (rw (=?-refl y) refl)
get_elem?-has_elem (y ∷ ys) (suc i) x e = rw (get_elem?-has_elem ys i x e) (or-true (y =? x))

-- The modes in which the controller chooses the best route.
abbrev pub IsBestMode : SchedulingMode → Type 0
IsBestMode max_throughput = Unit
IsBestMode duplication = Unit
IsBestMode _ = ⊥

-- Those, and the one that takes the stations in turn.
abbrev pub IsRunMode : SchedulingMode → Type 0
IsRunMode round_robin = Unit
IsRunMode mode = IsBestMode mode

module _ {W : Type 0} ⦃d : Double W⦄ where
  -- Where each route that is chosen leads to a known station, the new tables are in order.
  pub chosen-AreRouted :
      (P : NodeId → NodeId × W → Type 0) (c : WspaceController W) (t : RoutingTable W)
      (rates : Map NodeId W)
      → RoutesSpec P c.routing_tbl t rates
      → AreRouted rates (rerouted t c)
  chosen-AreRouted P c t rates spec id h =
      elim (Bool-cases (has_elem id c.routing_tbl.client_ids)) [
        | inl y ↦ let (p, _, route, _) = spec.routed id y in (p.0, route)
        | inr n ↦ let (v, f) = has-find id rates h in cc (sym ((spec.others id n).1) ∙ f)
      ]

  pub chosen-AreStationsKnown :
      (P : NodeId → NodeId × W → Type 0) (c : WspaceController W) (t : RoutingTable W)
      (rates : Map NodeId W)
      → ((id : NodeId) (p : NodeId × W) → P id p → has p.0 c.conflict_graph ≡ true)
      → RoutesSpec P c.routing_tbl t rates
      → AreStationsKnown t c
  chosen-AreStationsKnown P c t rates known spec dest b f =
      elim (Bool-cases (has_elem dest c.routing_tbl.client_ids)) [
        | inl y ↦
            let (p, choice, route, _) = spec.routed dest y in
            subst (λ i. has i c.conflict_graph ≡ true) (some-injective _ _ (sym route ∙ f))
              (known dest p choice)
        | inr n ↦ cc (sym ((spec.others dest n).0) ∙ f)
      ]

  best_known :
      (c : WspaceController W) (b : NodeId) (bs : List NodeId)
      → IsWired c
      → c.routing_tbl.bs_ids ≡ b ∷ bs
      → (id : NodeId) (p : NodeId × W) → BestSpec c.bs_stats_tbl b id p
      → has p.0 c.conflict_graph ≡ true
  best_known c b bs w e id (b', t) (inl (f, _, _)) = w.reports id b' t f
  best_known c b bs w e id (b', t) (inr (same, _, _)) =
      subst (λ i. has i c.conflict_graph ≡ true) (sym same) (w.listed b (rw (e, =?-refl b) refl))

  pub fixed_known :
      (c : WspaceController W) (i : ℕ) (bs : NodeId)
      → IsWired c
      → get_elem? c.routing_tbl.bs_ids i ≡ some bs
      → (id : NodeId) (p : NodeId × W) → FixedSpec c.bs_stats_tbl bs id p
      → has p.0 c.conflict_graph ≡ true
  fixed_known c i bs w e id (b', t) (same, _) =
      subst (λ j. has j c.conflict_graph ≡ true) (sym same)
        (w.listed bs (get_elem?-has_elem c.routing_tbl.bs_ids i bs e))

  unique_rows :
      (c : WspaceController W)
      → IsWired c
      → (id : NodeId) (row : Map NodeId W) → find id c.bs_stats_tbl ≡ some row
      → HasUniqueKeys row
  unique_rows c w id row f =
      subst HasUniqueKeys (get_or-find [] id c.bs_stats_tbl row f) (w.rows id)

  best_mode :
      (solve : Table W → List NodeId) (mode : SchedulingMode) (stats : Table W) (t : RoutingTable W)
      → IsBestMode mode
      → update_routes solve mode stats t ≡ update_max_throughput stats t
  unfolding update_routes
  best_mode solve max_throughput stats t m = refl
  best_mode solve duplication stats t m = refl
  best_mode solve optimizer stats t m = elim m [ ]
  best_mode solve round_robin stats t m = elim m [ ]
  best_mode solve exhaustive_search stats t m = elim m [ ]
  best_mode solve (unknown_mode n) stats t m = elim m [ ]

  -- In the modes `kMaxThroughput` and `kDuplication`, where the tables are in order and doubles have no
  -- NaN, one turn of `ComputeRoutes` ends without a fault. Each client gets its best route by the
  -- reports, which are cleared; each scheduler computes the quanta of just the clients that are now
  -- routed to its contention domain, from the throughputs of their routes; the tables stay in order.
  pub compute_routes_lem :
      (laws : IsOrdered W) (solve : Table W → List NodeId) (c : WspaceController W) (b : NodeId)
      (bs : List NodeId)
      → IsBestMode c.scheduling_mode
      → c.routing_tbl.bs_ids ≡ b ∷ bs
      → IsWired c
      → (c' : WspaceController W) × (t : RoutingTable W) × (rates : Map NodeId W) × (compute_routes
            solve c
          ≡ ok c')
        × RoutesSpec (BestSpec c.bs_stats_tbl b) c.routing_tbl t rates
        × RoundSpec t rates c c'
        × IsWired c'
  compute_routes_lem laws solve c b bs mode e w =
      let (t, rates, run, spec) =
        update_max_throughput_lem laws c.bs_stats_tbl c.routing_tbl b bs e (unique_rows c w) in
      let (c', runs, round, w') =
        round_lem solve c t rates w
          (best_mode solve c.scheduling_mode c.bs_stats_tbl c.routing_tbl mode ∙ run) spec.unique
          (chosen-AreRouted _ c t rates spec)
          (chosen-AreStationsKnown _ c t rates (best_known c b bs w e) spec) spec.same_stations
          spec.same_clients in
      (c', t, rates, runs, spec, round, w')
