-- ===== src/Controller/Wiring.antt =====
-- How the tables of the controller fit together, and what a packet does to the schedulers then.
use wspace_controller.Prelude.{
  ◌∙◌, ℕ, ◌<◌, ◌≡◌, ◌≢◌, refl, ap, subst, true, ◌||◌, List, [], ◌∷◌, none, some, length, inl, inr,
  Bool-cases,
}
use wspace_controller.Prelude.Result.{Result, ok}
use wspace_controller.Map.{Map, find, put, has, has_elem, get_or, ◌=?◌}
use wspace_controller.Map.Laws.{has-put, has-put_old, has-put_known, has-find, HasUniqueKeys}
use wspace_controller.Map.Every.{IsEvery, IsEvery-find, put-IsEvery}
use wspace_controller.NodeId.{NodeId, node_id_eq}
use wspace_controller.Double.{Double}
use wspace_controller.Scheduler.{PktScheduler}
use wspace_controller.Scheduler
use wspace_controller.Scheduler.Service.{Inv}
use wspace_controller.Scheduler.Quantum.Correct.{IsKnown}
use wspace_controller.Scheduler.Admission.{enqueue_lem}
use wspace_controller.Routing.{RoutingTable, find_route, no_info, lookup_stats}
use wspace_controller.Controller.{WspaceController, enqueue_all, enqueue_at}

module _ {W : Type 0} where
  -- The table after `FindRoute` has read the station.
  abbrev pub station_read : NodeId → RoutingTable W → RoutingTable W
  station_read b t = record t { bs_tbl = put b (get_or no_info b t.bs_tbl) t.bs_tbl }

  pub find_route-none :
      (dest : NodeId) (t : RoutingTable W)
      → find dest t.route ≡ none
      → find_route dest t ≡ (none, t)
  unfolding find_route
  find_route-none dest t e = rw (find_route, e) refl

  pub find_route-some :
      (dest b : NodeId) (t : RoutingTable W)
      → find dest t.route ≡ some b
      → find_route dest t ≡ (some (b, get_or no_info b t.bs_tbl), station_read b t)
  unfolding find_route
  find_route-some dest b t e = rw (find_route, e) refl

module _ {W : Type 0} ⦃d : Double W⦄ where
  -- A scheduler that satisfies its invariant, has a queue for each client, and one of the three modes.
  pub record IsReady (clients : Map NodeId ℕ) (s : PktScheduler W) : Type 0 where
    pub inv : Inv s
    pub queues : (id : NodeId) → has id clients ≡ true → has id s.queues ≡ true
    pub known : IsKnown s.fairness_mode

  -- Routes, reports, addresses and the list of stations, which is not empty, are about stations of the
  -- conflict graph; no report is entered twice; a contention domain has a scheduler, and each scheduler
  -- is ready for every client.
  pub record IsWired (c : WspaceController W) : Type 0 where
    pub stations :
        (dest b : NodeId) → find dest c.routing_tbl.route ≡ some b → has b c.conflict_graph ≡ true
    pub reports :
        (id b : NodeId) (v : W)
        → lookup_stats id b c.bs_stats_tbl ≡ some v
        → has b c.conflict_graph ≡ true
    pub rows : (id : NodeId) → HasUniqueKeys (get_or [] id c.bs_stats_tbl)
    pub addresses : (b : NodeId) → has b c.bs_ip_tbl ≡ true → has b c.conflict_graph ≡ true
    pub listed :
        (b : NodeId) → has_elem b c.routing_tbl.bs_ids ≡ true → has b c.conflict_graph ≡ true
    pub some_listed : c.routing_tbl.bs_ids ≢ []
    pub domains :
        (b k : NodeId) → find b c.conflict_graph ≡ some k → has k c.packet_scheduler_tbl ≡ true
    pub ready : IsEvery (IsReady c.client_original_seq_tbl) c.packet_scheduler_tbl

  -- The mode and the lists of stations and clients are the same, the same stations and clients have an
  -- address, and the same contention domains have a scheduler.
  pub record IsSameSetup (c c' : WspaceController W) : Type 0 where
    pub mode : c'.scheduling_mode ≡ c.scheduling_mode
    pub stations : (b : NodeId) → has b c'.bs_ip_tbl ≡ has b c.bs_ip_tbl
    pub clients : (id : NodeId) → has id c'.client_ip_tbl ≡ has id c.client_ip_tbl
    pub domains : (k : NodeId) → has k c'.packet_scheduler_tbl ≡ has k c.packet_scheduler_tbl
    pub bs_ids : c'.routing_tbl.bs_ids ≡ c.routing_tbl.bs_ids
    pub client_ids : c'.routing_tbl.client_ids ≡ c.routing_tbl.client_ids

  -- A turn that leaves the mode, the lists and both tables of addresses.
  pub unchanged-IsSameSetup :
      (c c' : WspaceController W)
      → c'.scheduling_mode ≡ c.scheduling_mode
      → c'.bs_ip_tbl ≡ c.bs_ip_tbl
      → c'.client_ip_tbl ≡ c.client_ip_tbl
      → ((k : NodeId) → has k c'.packet_scheduler_tbl ≡ has k c.packet_scheduler_tbl)
      → c'.routing_tbl.bs_ids ≡ c.routing_tbl.bs_ids
      → c'.routing_tbl.client_ids ≡ c.routing_tbl.client_ids
      → IsSameSetup c c'
  unchanged-IsSameSetup c c' m t u keys bs ids = record {
    bs_ids = bs;
    client_ids = ids;
    mode = m;
    stations = λ b. ap (has b) t;
    clients = λ id. ap (has id) u;
    domains = keys;
  }

  pub IsSameSetup-trans :
      (a b c : WspaceController W) → IsSameSetup a b → IsSameSetup b c → IsSameSetup a c
  IsSameSetup-trans a b c x y = record {
    mode = y.mode ∙ x.mode;
    stations = λ k. y.stations k ∙ x.stations k;
    clients = λ k. y.clients k ∙ x.clients k;
    domains = λ k. y.domains k ∙ x.domains k;
    bs_ids = y.bs_ids ∙ x.bs_ids;
    client_ids = y.client_ids ∙ x.client_ids;
  }

  -- The turn ends without a fault, the tables are in order after it, and the setup is the same.
  abbrev pub EndsWired : WspaceController W → Result (WspaceController W) → Type 0
  EndsWired c r = (c' : WspaceController W) × (r ≡ ok c') × IsWired c' × IsSameSetup c c'

  enqueue-IsReady :
      (clients : Map NodeId ℕ) (pkt : List ℕ) (id : NodeId) (s : PktScheduler W)
      → has id clients ≡ true
      → 0 < length pkt
      → IsReady clients s
      → (s' : PktScheduler W) × (Scheduler.enqueue pkt (length pkt) id s ≡ ok s')
        × IsReady clients s'
  enqueue-IsReady clients pkt id s known full r =
      let (q, found) = has-find id s.queues (r.queues id known) in
      let (s', run, spec, inv, _) = enqueue_lem pkt (length pkt) id s q r.inv found full in
      (
        s',
        run,
        record {
          inv = inv;
          queues = λ j h. rw spec.queues (has-put_old j id spec.q' s.queues (r.queues j h));
          known = rw spec.mode r.known;
        },
      )

  pub enqueue_all-IsReady :
      (clients : Map NodeId ℕ) (pkt : List ℕ) (id : NodeId) (m : Map NodeId (PktScheduler W))
      → has id clients ≡ true
      → 0 < length pkt
      → IsEvery (IsReady clients) m
      → (m' : Map NodeId (PktScheduler W)) × (enqueue_all pkt id m ≡ ok m')
        × IsEvery (IsReady clients) m'
        × ((k : NodeId) → has k m' ≡ has k m)
  unfolding enqueue_all has
  enqueue_all-IsReady clients pkt id [] known full a = ([], refl, tt, λ k. refl)
  enqueue_all-IsReady clients pkt id ((k, s) ∷ m) known full a =
      let (s', run, r) = enqueue-IsReady clients pkt id s known full a.0 in
      let (m', runs, rs, same) = enqueue_all-IsReady clients pkt id m known full a.1 in
      ((k, s') ∷ m', rw (run, runs) refl, (r, rs), λ j. ap (λ b. (k =? j) || b) (same j))

  enqueue_at_runs :
      (pkt : List ℕ) (id k : NodeId) (m : Map NodeId (PktScheduler W)) (s s' : PktScheduler W)
      → find k m ≡ some s
      → Scheduler.enqueue pkt (length pkt) id s ≡ ok s'
      → enqueue_at pkt id k m ≡ ok (put k s' m)
  unfolding enqueue_at
  enqueue_at_runs pkt id k m s s' found run = rw (enqueue_at, found, run) refl

  pub enqueue_at-IsReady :
      (clients : Map NodeId ℕ) (pkt : List ℕ) (id k : NodeId) (m : Map NodeId (PktScheduler W))
      → has id clients ≡ true
      → 0 < length pkt
      → has k m ≡ true
      → IsEvery (IsReady clients) m
      → (m' : Map NodeId (PktScheduler W)) × (enqueue_at pkt id k m ≡ ok m')
        × IsEvery (IsReady clients) m'
        × ((j : NodeId) → has j m' ≡ has j m)
  enqueue_at-IsReady clients pkt id k m known full there a =
      let (s, found) = has-find k m there in
      let (s', run, r) =
        enqueue-IsReady clients pkt id s known full (IsEvery-find _ k s m a found) in
      (
        put k s' m,
        enqueue_at_runs pkt id k m s s' found run,
        put-IsEvery _ k s' m r a,
        λ j. has-put_known j k s' m there,
      )

  pub all_counted :
      (id : NodeId) (n : ℕ) (clients : Map NodeId ℕ) (m : Map NodeId (PktScheduler W))
      → has id clients ≡ true
      → IsEvery (IsReady clients) m
      → IsEvery (IsReady (put id n clients)) m
  all_counted id n clients [] known a = tt
  all_counted id n clients ((k, s) ∷ m) known a = (
    record {
      inv = a.0.inv;
      known = a.0.known;
      queues = λ j h. a.0.queues j (
          let h' = rw (has-put j id n clients) at h in
          elim (Bool-cases (id =? j)) [
            | inl y ↦ subst (λ i. has i clients ≡ true) ((node_id_eq.test_iff id j).0 y) known
            | inr e ↦ rw e at h'
          ]);
    },
    all_counted id n clients m known a.1,
  )
