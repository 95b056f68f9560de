-- ===== src/Controller/Turns.antt =====
-- The turns of the controller's threads, one after the other.
use wspace_controller.Prelude.{
  ◌≡◌, refl, sym, ap, subst, ◌∙◌, true, ◌&&◌, List, [], none, some, if◌then◌else◌, inl, inr,
  Bool-cases, and-true,
}
use wspace_controller.Prelude.Result.{ok}
use wspace_controller.Map.{Map, find, has, has_elem, get_or, ◌=?◌}
use wspace_controller.Map.Laws.{HasUniqueKeys}
use wspace_controller.Map.Every.{IsEvery}
use wspace_controller.NodeId.{NodeId, node_id_eq}
use wspace_controller.Double.{Double}
use wspace_controller.Scheduler.{PktScheduler}
use wspace_controller.Routing.{Table, RoutingTable, lookup_stats}
use wspace_controller.Routing.Update.{update_routes}
use wspace_controller.Controller.{
  WspaceController, BsStatsPkt, split_throughputs, compute_all, compute_routes,
}
use wspace_controller.Controller.Laws.{lookup_stats-update_stats, is_accepted, accepted}
use wspace_controller.Controller.Wiring.{IsReady, IsWired, IsSameSetup}
use wspace_controller.Controller.Split.{
  AreRouted, SplitSpec, IsSameWiring, is_routed_to, is_routed_to-same, split_throughputs_lem,
  update_stats-HasUniqueRows,
}
use wspace_controller.Controller.Rounds.{IsComputed, AreComputed, compute_all_lem}

module _ {W : Type 0} ⦃d : Double W⦄ where
  pub accepted-IsWired :
      (p : BsStatsPkt W) (c : WspaceController W)
      → is_accepted p c ≡ true
      → IsWired c
      → IsWired (accepted p c)
  accepted-IsWired p c a w = record {
    stations = w.stations;
    reports = λ id b v h.
        let e =
          sym (lookup_stats-update_stats b id p.bs_id p.client_id p.throughput c.bs_stats_tbl)
          ∙ h in
        elim (Bool-cases ((p.bs_id =? b) && (p.client_id =? id))) [
          | inl y ↦
              let (same, _) = and-true (p.bs_id =? b) (p.client_id =? id) y in
              w.addresses b (
                subst (λ i. has i c.bs_ip_tbl ≡ true) ((node_id_eq.test_iff p.bs_id b).0 same)
                  (and-true (has p.bs_id c.bs_ip_tbl) (has p.client_id c.client_ip_tbl)
                    (and-true (has p.bs_id c.bs_ip_tbl && has p.client_id c.client_ip_tbl) _
                      a).0).0)
          | inr n ↦ w.reports id b v (rw n at e)
        ];
    rows = update_stats-HasUniqueRows p.client_id p.bs_id p.throughput c.bs_stats_tbl w.rows;
    addresses = w.addresses;
    listed = w.listed;
    some_listed = w.some_listed;
    domains = w.domains;
    ready = w.ready;
  }

  -- What one turn of `ComputeRoutes` does with new routes and throughputs: the reports are cleared, and
  -- each scheduler computes the quanta of the clients that are routed to its contention domain, from
  -- their throughputs; with no such client it stays as it is.
  pub record RoundSpec (t : RoutingTable W) (rates : Map NodeId W) (c c' : WspaceController W)
      : Type 0 where
    pub route : c'.routing_tbl.route ≡ t.route
    pub setup : IsSameSetup c c'
    pub cleared : c'.bs_stats_tbl ≡ []
    pub schedulers :
        (k : NodeId) (s : PktScheduler W)
        → find k c.packet_scheduler_tbl ≡ some s
        → (row : Map NodeId W) × (s' : PktScheduler W) × (find k c'.packet_scheduler_tbl ≡ some s')
          × IsComputed row s s'
          × ((id : NodeId)
              → find id row
                ≡ (if has id rates && is_routed_to k id c' then find id rates else none))

  -- The controller with the new routes.
  abbrev pub rerouted : RoutingTable W → WspaceController W → WspaceController W
  rerouted t c = record c { routing_tbl = t; bs_stats_tbl = [] }

  abbrev pub AreStationsKnown : RoutingTable W → WspaceController W → Type 0
  AreStationsKnown t c =
      (dest b : NodeId) → find dest t.route ≡ some b → has b c.conflict_graph ≡ true

  round_runs :
      (solve : Table W → List NodeId) (c : WspaceController W) (t : RoutingTable W)
      (rates : Map NodeId W) (split : Table W) (c1 : WspaceController W)
      (m : Map NodeId (PktScheduler W))
      → update_routes solve c.scheduling_mode c.bs_stats_tbl c.routing_tbl ≡ ok (t, rates)
      → split_throughputs rates [] (rerouted t c) ≡ ok (split, c1)
      → compute_all split c1.packet_scheduler_tbl ≡ ok m
      → compute_routes solve c ≡ ok (record c1 { packet_scheduler_tbl = m })
  unfolding compute_routes
  round_runs solve c t rates split c1 m e f g = rw (compute_routes, e, f, g) refl

  round-IsWired :
      (c : WspaceController W) (t : RoutingTable W) (c1 : WspaceController W)
      (m : Map NodeId (PktScheduler W))
      → IsWired c
      → AreStationsKnown t c
      → t.bs_ids ≡ c.routing_tbl.bs_ids
      → IsSameWiring (rerouted t c) c1
      → IsEvery (IsReady c1.client_original_seq_tbl) m
      → ((k : NodeId) → has k m ≡ has k c1.packet_scheduler_tbl)
      → IsWired (record c1 { packet_scheduler_tbl = m })
  unfolding lookup_stats get_or find
  round-IsWired c t c1 m w known ids same ready keys = record {
    stations = λ dest b f. same.entered b (known dest b (sym (ap (find dest) same.route) ∙ f));
    reports = λ id b v h. cc (sym (ap (λ x. lookup_stats id b x) same.reports) ∙ h);
    rows = λ id. subst (λ x. HasUniqueKeys (get_or [] id x)) (sym same.reports) tt;
    addresses = λ b h. same.entered b (w.addresses b (sym (ap (has b) same.addresses) ∙ h));
    listed = λ b h. same.entered b (w.listed b (sym (ap (has_elem b) (same.listed ∙ ids)) ∙ h));
    some_listed = λ e. w.some_listed (sym (same.listed ∙ ids) ∙ e);
    domains = λ b k f. elim (same.new_entries b k f) [
      | inl old ↦ keys k ∙ ap (has k) same.schedulers ∙ w.domains b k old
      | inr (id, r, new) ↦ cc (sym (known id b r) ∙ new)
    ];
    ready = ready;
  }

  round-RoundSpec :
      (c : WspaceController W) (t : RoutingTable W) (rates : Map NodeId W) (split : Table W)
      (c1 : WspaceController W) (m : Map NodeId (PktScheduler W))
      → t.bs_ids ≡ c.routing_tbl.bs_ids
      → t.client_ids ≡ c.routing_tbl.client_ids
      → IsSameWiring (rerouted t c) c1
      → SplitSpec rates [] split (rerouted t c)
      → AreComputed split c1.packet_scheduler_tbl m
      → ((k : NodeId) → has k m ≡ has k c1.packet_scheduler_tbl)
      → RoundSpec t rates c (record c1 { packet_scheduler_tbl = m })
  unfolding get_or find
  round-RoundSpec c t rates split c1 m ids clients same spec all keys = record {
    route = same.route;
    setup = record {
      mode = same.mode;
      stations = λ b. ap (has b) same.addresses;
      clients = λ id. ap (has id) same.client_addresses;
      domains = λ k. keys k ∙ ap (has k) same.schedulers;
      bs_ids = same.listed ∙ ids;
      client_ids = same.listed_clients ∙ clients;
    };
    cleared = same.reports;
    schedulers = λ k s f.
        let (s', g, r) = all k s (ap (find k) same.schedulers ∙ f) in
        (
          get_or [] k split,
          s',
          g,
          r,
          λ id.
              spec k id
              ∙ ap (λ b. if has id rates && b then find id rates else none)
                  (sym (is_routed_to-same k id (rerouted t c) c1 same)),
        );
  }

  -- One turn of `ComputeRoutes`, once the routes are chosen.
  pub round_lem :
      (solve : Table W → List NodeId) (c : WspaceController W) (t : RoutingTable W)
      (rates : Map NodeId W)
      → IsWired c
      → update_routes solve c.scheduling_mode c.bs_stats_tbl c.routing_tbl ≡ ok (t, rates)
      → HasUniqueKeys rates
      → AreRouted rates (rerouted t c)
      → AreStationsKnown t c
      → t.bs_ids ≡ c.routing_tbl.bs_ids
      → t.client_ids ≡ c.routing_tbl.client_ids
      → (c' : WspaceController W) × (compute_routes solve c ≡ ok c')
        × RoundSpec t rates c c'
        × IsWired c'
  unfolding get_or find
  round_lem solve c t rates w run u routed known ids clients =
      let (split, c1, splits, spec, same, rows) =
        split_throughputs_lem rates [] (rerouted t c) u routed (λ k. tt) in
      let ready =
        subst (IsEvery (IsReady c1.client_original_seq_tbl)) (sym same.schedulers)
          (subst (λ x. IsEvery (IsReady x) c.packet_scheduler_tbl) (sym same.clients) w.ready) in
      let (m, computes, all, ready', keys) =
        compute_all_lem c1.client_original_seq_tbl split c1.packet_scheduler_tbl rows ready in
      (
        record c1 { packet_scheduler_tbl = m },
        round_runs solve c t rates split c1 m run splits computes,
        round-RoundSpec c t rates split c1 m ids clients same spec all keys,
        round-IsWired c t c1 m w known ids same ready' keys,
      )
