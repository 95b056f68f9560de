-- ===== src/Controller/Split.antt =====
-- How `ComputeRoutes` sorts the throughputs by contention domain.
use wspace_controller.Prelude.{
  ◌≡◌, refl, sym, ap, subst, ◌∙◌, Bool, true, false, ◌&&◌, [], ◌∷◌, none, some, if◌then◌else◌, inl,
  inr, ◌⊎◌, Bool-cases, Option-cases, or-true,
}
use mathlib.Core.Option.{some-injective}
use wspace_controller.Prelude.Int.{pos}
use wspace_controller.Prelude.Result.{ok}
use wspace_controller.Map.{Map, find, put, has, get_or, ◌=?◌, =?-refl}
use wspace_controller.Map.Laws.{
  get_or-put_same, find-put, has-put_old, has-put_new, has-find, get_or-find, get_or-put,
  HasUniqueKeys, put-HasUniqueKeys,
}
use wspace_controller.NodeId.{NodeId, node_id_eq}
use wspace_controller.Double.{Double}
use wspace_controller.Routing.{Table, update_stats, lookup_stats}
use wspace_controller.Controller.{WspaceController, split_throughputs, contention_of}
use wspace_controller.Controller.Laws.{lookup_stats-update_stats}
use wspace_controller.Controller.Wiring.{station_read, find_route-some}

module _ {W : Type 0} ⦃d : Double W⦄ where
  -- The contention domain of a station.
  abbrev pub domain_at : NodeId → WspaceController W → NodeId
  domain_at b c = get_or (pos 0) b c.conflict_graph

  -- The client's route leads to a station of the contention domain.
  abbrev pub is_routed_to : NodeId → NodeId → WspaceController W → Bool
  is_routed_to k id c = elim (find id c.routing_tbl.route) [
    | none ↦ false
    | some b ↦ domain_at b c =? k
  ]

  -- The controller after the loop has read a station.
  abbrev read_station : NodeId → WspaceController W → WspaceController W
  read_station b c = record c {
    routing_tbl = station_read b c.routing_tbl;
    conflict_graph = put b (domain_at b c) c.conflict_graph;
  }

  -- A route leads to a station that the conflict graph does not have.
  abbrev pub IsNewStation : NodeId → WspaceController W → Type 0
  IsNewStation b c =
      (id : NodeId) × (find id c.routing_tbl.route ≡ some b) × (has b c.conflict_graph ≡ false)

  -- What stays: routes, contention domains, schedulers and all that is not read through `FindRoute`.
  pub record IsSameWiring (c c' : WspaceController W) : Type 0 where
    pub route : c'.routing_tbl.route ≡ c.routing_tbl.route
    pub domains : (b : NodeId) → domain_at b c' ≡ domain_at b c
    pub entered : (b : NodeId) → has b c.conflict_graph ≡ true → has b c'.conflict_graph ≡ true
    pub new_entries :
        (b k : NodeId)
        → find b c'.conflict_graph ≡ some k
        → (find b c.conflict_graph ≡ some k) ⊎ IsNewStation b c
    pub listed : c'.routing_tbl.bs_ids ≡ c.routing_tbl.bs_ids
    pub listed_clients : c'.routing_tbl.client_ids ≡ c.routing_tbl.client_ids
    pub mode : c'.scheduling_mode ≡ c.scheduling_mode
    pub reports : c'.bs_stats_tbl ≡ c.bs_stats_tbl
    pub addresses : c'.bs_ip_tbl ≡ c.bs_ip_tbl
    pub client_addresses : c'.client_ip_tbl ≡ c.client_ip_tbl
    pub schedulers : c'.packet_scheduler_tbl ≡ c.packet_scheduler_tbl
    pub clients : c'.client_original_seq_tbl ≡ c.client_original_seq_tbl

  IsSameWiring-refl : (c : WspaceController W) → IsSameWiring c c
  IsSameWiring-refl c = record {
    route = refl;
    domains = λ b. refl;
    entered = λ b h. h;
    new_entries = λ b k f. inl f;
    listed = refl;
    listed_clients = refl;
    mode = refl;
    reports = refl;
    addresses = refl;
    client_addresses = refl;
    schedulers = refl;
    clients = refl;
  }

  read_station-entries :
      (id b j k : NodeId) (c : WspaceController W)
      → find id c.routing_tbl.route ≡ some b
      → find j (put b (domain_at b c) c.conflict_graph) ≡ some k
      → (find j c.conflict_graph ≡ some k) ⊎ IsNewStation j c
  read_station-entries id b j k c e f = elim (Bool-cases (b =? j)) [
    | inr n ↦ inl (rw (find-put j b (domain_at b c) c.conflict_graph, n) at f)
    | inl y ↦
        let same : b ≡ j = (node_id_eq.test_iff b j).0 y in
        let value : domain_at b c ≡ k =
          some-injective _ _ (rw (find-put j b (domain_at b c) c.conflict_graph, y) at f) in
        elim (Bool-cases (has b c.conflict_graph)) [
          | inl old ↦
              let (v, g) = has-find b c.conflict_graph old in
              let read = get_or-find (pos 0) b c.conflict_graph v g in
              inl (
                subst (λ i. find i c.conflict_graph ≡ some k) same (g ∙ ap some (sym read ∙ value)))
          | inr new ↦ inr (subst (λ i. IsNewStation i c) same (id, e, new))
        ]
  ]

  read_station-IsSameWiring :
      (id b : NodeId) (c c' : WspaceController W)
      → find id c.routing_tbl.route ≡ some b
      → IsSameWiring (read_station b c) c'
      → IsSameWiring c c'
  read_station-IsSameWiring id b c c' e w = record {
    new_entries = λ j k f. elim (w.new_entries j k f) [
      | inl g ↦ read_station-entries id b j k c e g
      | inr (i, r, new) ↦ inr (i, r, has-put_new j b (domain_at b c) c.conflict_graph new)
    ];
    listed = w.listed;
    listed_clients = w.listed_clients;
    mode = w.mode;
    reports = w.reports;
    addresses = w.addresses;
    client_addresses = w.client_addresses;
    route = w.route;
    domains = λ j. w.domains j ∙ get_or-put_same (pos 0) j b c.conflict_graph;
    entered = λ j h. w.entered j (has-put_old j b (domain_at b c) c.conflict_graph h);
    schedulers = w.schedulers;
    clients = w.clients;
  }

  is_routed_to-none :
      (k id : NodeId) (c : WspaceController W)
      → find id c.routing_tbl.route ≡ none
      → is_routed_to k id c ≡ false
  is_routed_to-none k id c e = rw (is_routed_to, e) refl

  is_routed_to-some :
      (k id b : NodeId) (c : WspaceController W)
      → find id c.routing_tbl.route ≡ some b
      → is_routed_to k id c ≡ (domain_at b c =? k)
  is_routed_to-some k id b c e = rw (is_routed_to, e) refl

  pub is_routed_to-same :
      (k id : NodeId) (c c' : WspaceController W)
      → IsSameWiring c c'
      → is_routed_to k id c' ≡ is_routed_to k id c
  is_routed_to-same k id c c' w = elim (Option-cases (find id c.routing_tbl.route)) [
    | inl e ↦
        is_routed_to-none k id c' (ap (find id) w.route ∙ e) ∙ sym (is_routed_to-none k id c e)
    | inr (b, e) ↦
        is_routed_to-some k id b c' (ap (find id) w.route ∙ e)
        ∙ ap (λ x. x =? k) (w.domains b)
        ∙ sym (is_routed_to-some k id b c e)
  ]

  -- What each contention domain gets: the throughputs of the clients that are routed to it, over what
  -- it had.
  abbrev pub SplitSpec : Map NodeId W → Table W → Table W → WspaceController W → Type 0
  SplitSpec ts split split' c =
      (k id : NodeId)
      → find id (get_or [] k split')
        ≡ (if has id ts && is_routed_to k id c then find id ts else find id (get_or [] k split))

  abbrev pub AreRouted : Map NodeId W → WspaceController W → Type 0
  AreRouted ts c =
      (id : NodeId) → has id ts ≡ true → (b : NodeId) × (find id c.routing_tbl.route ≡ some b)

  split_one :
      (id b : NodeId) (t : W) (ts : Map NodeId W) (split : Table W) (c : WspaceController W)
      → find id c.routing_tbl.route ≡ some b
      → split_throughputs ((id, t) ∷ ts) split c
        ≡ split_throughputs ts (update_stats (domain_at b c) id t split) (read_station b c)
  unfolding split_throughputs contention_of update_stats
  split_one id b t ts split c e =
      let reads = find_route-some id b c.routing_tbl e in
      rw (split_throughputs, reads, contention_of, reads) refl

  SplitSpec-cons :
      (id b : NodeId) (t : W) (ts : Map NodeId W) (split split' : Table W) (c : WspaceController W)
      → has id ts ≡ false
      → find id c.routing_tbl.route ≡ some b
      → SplitSpec ts (update_stats (domain_at b c) id t split) split' (read_station b c)
      → SplitSpec ((id, t) ∷ ts) split split' c
  unfolding has find lookup_stats
  SplitSpec-cons id b t ts split split' c fresh e spec k j =
      let old = lookup_stats-update_stats j k id (domain_at b c) t split in
      let now =
        is_routed_to-same k j c (read_station b c)
          (read_station-IsSameWiring id b c _ e (IsSameWiring-refl _)) in
      let step = rw (now, old) at (spec k j) in
      elim (Bool-cases (id =? j)) [
        | inl y ↦
            let same : id ≡ j = (node_id_eq.test_iff id j).0 y in
            let gone : has j ts ≡ false = subst (λ i. has i ts ≡ false) same fresh in
            let to : is_routed_to k j c ≡ (domain_at b c =? k) =
              is_routed_to-some k j b c (subst (λ i. find i c.routing_tbl.route ≡ some b) same e) in
            rw (gone, y) at step ∙ rw (y, to) refl
        | inr n ↦ rw n at step ∙ rw n refl
      ]

  -- No client is entered twice for a contention domain.
  abbrev pub HasUniqueRows : Table W → Type 0
  HasUniqueRows split = (k : NodeId) → HasUniqueKeys (get_or [] k split)

  pub update_stats-HasUniqueRows :
      (k id : NodeId) (t : W) (split : Table W)
      → HasUniqueRows split
      → HasUniqueRows (update_stats k id t split)
  unfolding update_stats
  update_stats-HasUniqueRows k id t split u l =
      let entry = get_or-put [] (put id t (get_or [] k split)) l k split in
      elim (Bool-cases (k =? l)) [
        | inl y ↦
            subst HasUniqueKeys (sym (entry ∙ rw y refl))
              (put-HasUniqueKeys id t (get_or [] k split) (u k))
        | inr n ↦ subst HasUniqueKeys (sym (entry ∙ rw n refl)) (u l)
      ]

  -- Where each client with a throughput has a route, the loop ends without the assertion. Each
  -- contention domain then has the throughputs of just the clients that are routed to its stations, over
  -- what it had before; routes, domains, schedulers and clients are as before.
  pub split_throughputs_lem :
      (ts : Map NodeId W) (split : Table W) (c : WspaceController W)
      → HasUniqueKeys ts
      → AreRouted ts c
      → HasUniqueRows split
      → (split' : Table W) × (c' : WspaceController W) × (split_throughputs ts split c
          ≡ ok (split', c'))
        × SplitSpec ts split split' c
        × IsSameWiring c c'
        × HasUniqueRows split'
  unfolding split_throughputs has find
  split_throughputs_lem [] split c u r rows =
      (split, c, refl, λ k id. refl, IsSameWiring-refl c, rows)
  split_throughputs_lem ((id, t) ∷ ts) split c u r rows =
      let (b, e) = r id (rw (=?-refl id) refl) in
      let (split', c', run, spec, same, rows') =
        split_throughputs_lem ts (update_stats (domain_at b c) id t split) (read_station b c) u.1
          (λ j h. r j (rw h (or-true (id =? j))))
          (update_stats-HasUniqueRows (domain_at b c) id t split rows) in
      (
        split',
        c',
        split_one id b t ts split c e ∙ run,
        SplitSpec-cons id b t ts split split' c u.0 e spec,
        read_station-IsSameWiring id b c c' e same,
        rows',
      )
