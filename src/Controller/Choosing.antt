-- ===== src/Controller/Choosing.antt =====
-- What a turn of `ComputeRoutes` leaves in each mode that the controller can run in.
use wspace_controller.Prelude.{
  cons_cases, ◌<◌, ◌≡◌, ◌≢◌, refl, ◌∙◌, List, [], ◌∷◌, arith, inl, inr, ◌⊎◌, length,
}
use wspace_controller.Prelude.Result.{Result, ok}
use wspace_controller.Map.Laws.{has-find}
use wspace_controller.NodeId.{NodeId, node_id_eq}
use wspace_controller.Double.{Double}
use wspace_controller.Routing.{
  Table, SchedulingMode, max_throughput, duplication, round_robin, optimizer, exhaustive_search,
  unknown_mode,
}
use wspace_controller.Routing.Update.{update_routes, update_round_robin, update_optimizer}
use wspace_controller.Routing.Optimizer.{IsAnswer, update_optimizer-OptimizerSpec}
use wspace_controller.Routing.Laws.{IsOrdered}
use wspace_controller.Routing.Choice.{update_round_robin_lem}
use wspace_controller.Controller.{WspaceController, compute_routes}
use wspace_controller.Controller.Wiring.{IsWired, IsSameSetup}
use wspace_controller.Controller.Serving.{IsServed}
use wspace_controller.Controller.Served.{round-IsServed, rated_listed}
use wspace_controller.Controller.Turns.{round_lem}
use wspace_controller.Controller.Safety.{
  IsBestMode, IsRunMode, chosen-AreRouted, chosen-AreStationsKnown, fixed_known, compute_routes_lem,
}

-- The modes that choose routes, the optimizer's with answers that can be read.
abbrev pub CanChoose :
    {W : Type 0} → (Table W → List NodeId) → SchedulingMode → List NodeId → List NodeId → Type 0
CanChoose {W} solve optimizer bs_ids client_ids =
    (x : Table W) → IsAnswer bs_ids client_ids (solve x)
CanChoose solve mode bs_ids client_ids = IsRunMode mode

mode_cases :
    {W : Type 0} (solve : Table W → List NodeId) (m : SchedulingMode) (bs cs : List NodeId)
    → CanChoose solve m bs cs
    → (m ≡ round_robin)
      ⊎ (IsBestMode m ⊎ (m ≡ optimizer) × ((x : Table W) → IsAnswer bs cs (solve x)))
mode_cases solve max_throughput bs cs r = inr (inl r)
mode_cases solve optimizer bs cs r = inr (inr (refl, r))
mode_cases solve duplication bs cs r = inr (inl r)
mode_cases solve round_robin bs cs r = inl refl
mode_cases solve exhaustive_search bs cs r = elim r [ ]
mode_cases solve (unknown_mode n) bs cs r = elim r [ ]

some_length : (xs : List NodeId) → xs ≢ [] → 0 < length xs
some_length [] h = absurd (h refl)
some_length (x ∷ xs) h = omega arith

module _ {W : Type 0} ⦃d : Double W⦄ where
  robin_mode :
      (solve : Table W → List NodeId) (c : WspaceController W)
      → c.scheduling_mode ≡ round_robin
      → update_routes solve c.scheduling_mode c.bs_stats_tbl c.routing_tbl
        ≡ update_round_robin c.bs_stats_tbl c.routing_tbl
  unfolding update_routes
  robin_mode solve c e = rw e refl

  -- The turn ends without a fault, the tables are in order after it, each client with a status has an
  -- address, and the setup is the same.
  abbrev pub EndsServed : WspaceController W → Result (WspaceController W) → Type 0
  EndsServed c r =
      (c' : WspaceController W) × (r ≡ ok c') × IsWired c' × IsServed c' × IsSameSetup c c'

  robin-EndsServed :
      (solve : Table W → List NodeId) (c : WspaceController W)
      → c.scheduling_mode ≡ round_robin
      → IsWired c
      → IsServed c
      → EndsServed c (compute_routes solve c)
  robin-EndsServed solve c e w v =
      let (bs, t, rates, at, run, _, spec) =
        update_round_robin_lem c.bs_stats_tbl c.routing_tbl
          (some_length c.routing_tbl.bs_ids w.some_listed) in
      let (c', runs, round, w') =
        round_lem solve c t rates w (robin_mode solve c e ∙ run) spec.unique
          (chosen-AreRouted _ c t rates spec)
          (chosen-AreStationsKnown _ c t rates (fixed_known c _ bs w at) spec) spec.same_stations
          spec.same_clients in
      (
        c',
        runs,
        w',
        round-IsServed c c' t rates (rated_listed _ c t rates spec) round v,
        round.setup,
      )

  best-EndsServed :
      (laws : IsOrdered W) (solve : Table W → List NodeId) (c : WspaceController W)
      → IsBestMode c.scheduling_mode
      → IsWired c
      → IsServed c
      → EndsServed c (compute_routes solve c)
  best-EndsServed laws solve c mode w v = elim (cons_cases c.routing_tbl.bs_ids) [
    | inl e ↦ absurd (w.some_listed e)
    | inr (b, bs, e) ↦
        let (c', t, rates, runs, spec, round, w') = compute_routes_lem laws solve c b bs mode e w in
        (
          c',
          runs,
          w',
          round-IsServed c c' t rates (rated_listed _ c t rates spec) round v,
          round.setup,
        )
  ]

  optimizer_mode :
      (solve : Table W → List NodeId) (c : WspaceController W)
      → c.scheduling_mode ≡ optimizer
      → update_routes solve c.scheduling_mode c.bs_stats_tbl c.routing_tbl
        ≡ update_optimizer solve c.bs_stats_tbl c.routing_tbl
  unfolding update_routes
  optimizer_mode solve c e = rw e refl

  optimizer-EndsServed :
      (solve : Table W → List NodeId) (c : WspaceController W)
      → c.scheduling_mode ≡ optimizer
      → ((x : Table W) → IsAnswer c.routing_tbl.bs_ids c.routing_tbl.client_ids (solve x))
      → IsWired c
      → IsServed c
      → EndsServed c (compute_routes solve c)
  optimizer-EndsServed solve c mode answers w v = elim (cons_cases c.routing_tbl.bs_ids) [
    | inl e ↦ absurd (w.some_listed e)
    | inr (b, bs, e) ↦
        let (t, rates, run, spec) =
          update_optimizer-OptimizerSpec solve c.bs_stats_tbl c.routing_tbl b bs e answers in
        let (c', runs, round, w') =
          round_lem solve c t rates w (optimizer_mode solve c mode ∙ run) spec.unique
            (λ id h. has-find id t.route (spec.have_routes id h))
            (λ dest k f. w.listed k (spec.routed dest k f)) spec.same_stations spec.same_clients in
        (c', runs, w', round-IsServed c c' t rates spec.rated round v, round.setup)
  ]

  -- A turn of `ComputeRoutes` ends without a fault in each mode that chooses routes.
  pub compute_routes-EndsServed :
      (laws : IsOrdered W) (solve : Table W → List NodeId) (c : WspaceController W)
      → CanChoose solve c.scheduling_mode c.routing_tbl.bs_ids c.routing_tbl.client_ids
      → IsWired c
      → IsServed c
      → EndsServed c (compute_routes solve c)
  compute_routes-EndsServed laws solve c can w v =
      elim (mode_cases solve c.scheduling_mode c.routing_tbl.bs_ids c.routing_tbl.client_ids can) [
        | inl robin ↦ robin-EndsServed solve c robin w v
        | inr (inl best) ↦ best-EndsServed laws solve c best w v
        | inr (inr (mode, answers)) ↦ optimizer-EndsServed solve c mode answers w v
      ]
