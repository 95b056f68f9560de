-- ===== src/Config/Domains.antt =====
-- That the constructor leaves tables that fit together: a station has a contention domain, and a
-- domain has a scheduler.
use wspace_controller.Prelude.{
  ℕ, ◌≡◌, ◌≢◌, refl, sym, ap, subst, true, ◌||◌, List, [], ◌∷◌, some, inl, inr, ◌⊎◌, Bool-cases,
  or-true, and-true, leb, length, ◌&&◌, ◌++◌, ◌∙◌,
}
use mathlib.Core.Option.{some-injective}
use wspace_controller.Prelude.Int.{ℤ, pos}
use wspace_controller.Prelude.Result.{
  ok, ok-injective, >>=-eq-ok, guard-eq-ok, assert_failed, undefined,
}
use wspace_controller.Map.{Map, find, put, has, has_elem, get_or, ◌=?◌, =?-refl}
use wspace_controller.Map.Laws.{find-put, has-put, has-put_self, has-put_old}
use wspace_controller.Map.Every.{IsEvery, put-IsEvery}
use wspace_controller.NodeId.{NodeId, node_id_eq}
use wspace_controller.Double.{Double}
use wspace_controller.Scheduler.{PktScheduler}
use wspace_controller.Scheduler.Quantum.Correct.{IsKnown}
use wspace_controller.Scheduler.Start.{
  new_scheduler-Inv, new_scheduler-IsKnown, new_scheduler-queues,
}
use wspace_controller.Routing.{RoutingTable, min_throughput, lookup_stats}
use wspace_controller.Routing.Update.{add_stations, init, tun_prefix}
use wspace_controller.Controller.{WspaceController}
use wspace_controller.Controller.Wiring.{IsReady, IsWired}
use wspace_controller.Config.{Config, Opt, initial_config, take_options, is_complete, is_given}
use wspace_controller.Config.Build.{
  set_domains, build_conflict_graph, parse_conflict_graph, domain_scheduler, add_schedulers,
  construct, empty_table,
}
use wspace_controller.Config.Ids.{AreIdsValid, AreKeysIn}
use wspace_controller.Config.Options.{take_options_lem}

set_domains-has :
    (domain : NodeId → Map NodeId NodeId → NodeId) (bs : List NodeId) (g : Map NodeId NodeId)
    (b : NodeId)
    → (has b g ≡ true) ⊎ (has_elem b bs ≡ true)
    → has b (set_domains domain bs g) ≡ true
unfolding set_domains
set_domains-has domain [] g b (inl h) = h
set_domains-has domain [] g b (inr h) = cc
set_domains-has domain (x ∷ bs) g b h =
    set_domains-has domain bs (put x (domain x g) g) b (elim (Bool-cases (x =? b)) [
      | inl y ↦ inl (rw (has-put b x (domain x g) g, y) refl)
      | inr n ↦ elim h [
        | inl old ↦ inl (rw (has-put b x (domain x g) g, n) old)
        | inr listed ↦ inr (rw n at listed)
      ]
    ])

build_conflict_graph-has :
    (lines : List (List ℕ)) (c : Config) (g : Map NodeId NodeId) (b : NodeId)
    → build_conflict_graph lines c ≡ ok g
    → has_elem b c.bs_ids ≡ true
    → has b g ≡ true
unfolding build_conflict_graph
build_conflict_graph-has lines c g b run h = elim (Bool-cases (c.is_same_channel =? pos 1)) [
  | inl y ↦
      subst (λ m. has b m ≡ true) (ok-injective _ _ (rw y at run))
        (set_domains-has _ c.bs_ids [] b (inr h))
  | inr n ↦ elim (Bool-cases (c.is_same_channel =? pos 0)) [
    | inl y ↦
        subst (λ m. has b m ≡ true) (ok-injective _ _ (rw (n, y) at run))
          (set_domains-has _ c.bs_ids [] b (inr h))
    | inr o ↦
        let (read, _, rest) = >>=-eq-ok (parse_conflict_graph lines []) _ (rw (n, o) at run) in
        subst (λ m. has b m ≡ true) (ok-injective _ _ rest)
          (set_domains-has _ c.bs_ids read b (inr h))
  ]
]

add_stations-route :
    {W : Type 0} (to_string : ℤ → List ℕ) (sock : ℤ) (ips : Map NodeId (List ℕ))
    (t t' : RoutingTable W) (dest b : NodeId)
    → add_stations to_string sock ips t ≡ ok t'
    → find dest t'.route ≡ some b
    → (find dest t.route ≡ some b) ⊎ (has b ips ≡ true)
unfolding add_stations has
add_stations-route to_string sock [] t t' dest b run f =
    inl (subst (λ u. find dest u.route ≡ some b) (sym (ok-injective _ _ run)) f)
add_stations-route to_string sock ((x, ip) ∷ ips) t t' dest b run f =
    let (_, later) = guard-eq-ok (leb (length (tun_prefix ++ to_string x)) 15) undefined _ t' run in
    elim (add_stations-route to_string sock ips _ t' dest b later f) [
      | inr h ↦ inr (rw h (or-true (x =? b)))
      | inl e ↦ elim (Bool-cases (x =? dest)) [
        | inl y ↦
            let same : x ≡ b = some-injective _ _ (rw (find-put dest x x t.route, y) at e) in
            inr (subst (λ k. ((x =? k) || has k ips) ≡ true) same (rw (=?-refl x) refl))
        | inr n ↦ inl (rw (find-put dest x x t.route, n) at e)
      ]
    ]

-- The table that `Init` makes, where the ids fit into the texts of the addresses in the tunnel.
pub init-parts :
    {W : Type 0} (to_string : ℤ → List ℕ) (sock : ℤ) (ips : Map NodeId (List ℕ))
    (bs clients : List NodeId) (t t' : RoutingTable W)
    → init to_string sock ips bs clients t ≡ ok t'
    → (u : RoutingTable W) × (add_stations to_string sock ips t ≡ ok u)
      × (record u { bs_ids = bs; client_ids = clients } ≡ t')
unfolding init
init-parts to_string sock ips bs clients t t' run =
    let (u, added, rest) = >>=-eq-ok (add_stations to_string sock ips t) _ run in
    (u, added, ok-injective _ _ rest)

some_key :
    (ids : List NodeId) (t : Map NodeId (List ℕ))
    → AreKeysIn ids t
    → leb 1 (length t) ≡ true
    → ids ≢ []
unfolding has
some_key ids [] a h e = cc
some_key ids ((k, v) ∷ t) a h e = cc (ap (has_elem k) e, a k (rw (=?-refl k) refl))

complete-some : (c : Config) → AreIdsValid c → is_complete c ≡ true → c.bs_ids ≢ []
complete-some c v complete =
    let (_, rest) = and-true (is_given c.if_name && is_given c.controller_ip_eth) _ complete in
    let (sizes, _) =
      and-true (leb 1 (length c.bs_ip_tbl) && leb 1 (length c.client_ip_tbl)) _ rest in
    let (size, _) = and-true (leb 1 (length c.bs_ip_tbl)) _ sizes in
    some_key c.bs_ids c.bs_ip_tbl v.bs_addresses size

module _ {W : Type 0} ⦃d : Double W⦄ where
  add_schedulers-has :
      (c : Config) (g : Map NodeId NodeId) (m : Map NodeId (PktScheduler W)) (k : NodeId)
      → has k m ≡ true
      → has k (add_schedulers c g m) ≡ true
  unfolding add_schedulers
  add_schedulers-has c [] m k h = h
  add_schedulers-has c ((b, l) ∷ g) m k h = elim (Bool-cases (has l m)) [
    | inl y ↦ rw y (add_schedulers-has c g m k h)
    | inr n ↦ rw n (
        add_schedulers-has c g (put l (domain_scheduler c) m) k
          (has-put_old k l (domain_scheduler c) m h))
  ]

  add_schedulers-domain :
      (c : Config) (g : Map NodeId NodeId) (m : Map NodeId (PktScheduler W)) (b k : NodeId)
      → find b g ≡ some k
      → has k (add_schedulers c g m) ≡ true
  unfolding add_schedulers find
  add_schedulers-domain c [] m b k f = cc
  add_schedulers-domain c ((x, l) ∷ g) m b k f = elim (Bool-cases (x =? b)) [
    | inl y ↦
        subst (λ j. has j (add_schedulers c ((x, l) ∷ g) m) ≡ true) (some-injective _ _ (rw y at f))
          (elim (Bool-cases (has l m)) [
            | inl old ↦ rw old (add_schedulers-has c g m l old)
            | inr new ↦ rw new (
                add_schedulers-has c g (put l (domain_scheduler c) m) l
                  (has-put_self l (domain_scheduler c) m))
          ])
    | inr n ↦ add_schedulers-domain c g _ b k (rw n at f)
  ]

  pub add_schedulers-IsEvery :
      (P : PktScheduler W → Type 0) (c : Config) (g : Map NodeId NodeId)
      (m : Map NodeId (PktScheduler W))
      → P (domain_scheduler c)
      → IsEvery P m
      → IsEvery P (add_schedulers c g m)
  unfolding add_schedulers
  add_schedulers-IsEvery P c [] m p a = a
  add_schedulers-IsEvery P c ((b, l) ∷ g) m p a = elim (Bool-cases (has l m)) [
    | inl y ↦ rw y (add_schedulers-IsEvery P c g m p a)
    | inr n ↦ rw n (add_schedulers-IsEvery P c g _ p (put-IsEvery P l (domain_scheduler c) m p a))
  ]

  domain_scheduler-IsReady :
      (c : Config)
      → AreIdsValid c
      → IsKnown c.fairness_mode
      → IsReady {W = W} c.client_original_seq_tbl (domain_scheduler c)
  domain_scheduler-IsReady c v mode = record {
    known =
        new_scheduler-IsKnown min_throughput c.client_ids 1000 c.round_interval c.fairness_mode
          mode;
    inv = new_scheduler-Inv min_throughput c.client_ids 1000 c.round_interval c.fairness_mode;
    queues = λ id h.
        new_scheduler-queues min_throughput c.client_ids 1000 c.round_interval c.fairness_mode id
          (v.counted id h);
  }

  -- The controller that the constructor and `Init` make from the options.
  abbrev pub constructed : Config → Map NodeId NodeId → RoutingTable W → WspaceController W
  constructed c g t = record {
    bs_ip_tbl = c.bs_ip_tbl;
    client_ip_tbl = c.client_ip_tbl;
    current_seq = [];
    bs_stats_tbl = [];
    routing_tbl = t;
    packet_scheduler_tbl = add_schedulers c g [];
    client_original_seq_tbl = c.client_original_seq_tbl;
    conflict_graph = g;
    scheduling_mode = c.scheduling_mode;
  }

  -- How the constructor gets there, where it does not end the program.
  pub record IsBuilt (to_string : ℤ → List ℕ) (sock : ℤ) (opts : List Opt) (lines : List (List ℕ))
      (s : WspaceController W) (c : Config) : Type 0 where
    pub took : take_options opts initial_config ≡ ok c
    pub complete : is_complete c ≡ true
    pub graph : Map NodeId NodeId
    pub built : build_conflict_graph lines c ≡ ok graph
    pub table : RoutingTable W
    pub made : init to_string sock c.bs_ip_tbl c.bs_ids c.client_ids empty_table ≡ ok table
    pub result : constructed c graph table ≡ s

  pub construct-IsBuilt :
      (to_string : ℤ → List ℕ) (sock : ℤ) (opts : List Opt) (lines : List (List ℕ))
      (s : WspaceController W) (c : Config)
      → construct to_string sock opts lines ≡ ok (s, c)
      → IsBuilt to_string sock opts lines s c
  unfolding construct
  construct-IsBuilt to_string sock opts lines s c run =
      let (e, took, rest) = >>=-eq-ok (take_options opts initial_config) _ run in
      let (y, going) = guard-eq-ok (is_complete e) assert_failed _ (s, c) rest in
      let (g, built, table) = >>=-eq-ok (build_conflict_graph lines e) _ going in
      let (t, made, last) =
        >>=-eq-ok (init to_string sock e.bs_ip_tbl e.bs_ids e.client_ids empty_table) _ table in
      let same : (constructed e g t, e) ≡ (s, c) = ok-injective _ _ last in
      let from_e : IsBuilt to_string sock opts lines (constructed e g t) e = record {
        took = took;
        complete = y;
        graph = g;
        built = built;
        table = t;
        made = made;
        result = refl;
      } in
      subst (λ p. IsBuilt to_string sock opts lines p.0 p.1) same from_e

  constructed-IsWired :
      (to_string : ℤ → List ℕ) (sock : ℤ) (c : Config) (lines : List (List ℕ))
      (g : Map NodeId NodeId) (u : RoutingTable W)
      → AreIdsValid c
      → is_complete c ≡ true
      → IsKnown c.fairness_mode
      → build_conflict_graph lines c ≡ ok g
      → add_stations to_string sock c.bs_ip_tbl empty_table ≡ ok u
      → IsWired (constructed c g (record u { bs_ids = c.bs_ids; client_ids = c.client_ids }))
  unfolding find lookup_stats get_or
  constructed-IsWired to_string sock c lines g u v complete mode run added = record {
    reports = λ id b x f. cc;
    rows = λ id. tt;
    addresses = λ b h. build_conflict_graph-has lines c g b run (v.bs_addresses b h);
    listed = λ b h. build_conflict_graph-has lines c g b run h;
    some_listed = λ e. complete-some c v complete e;
    stations = λ dest b f.
        elim (add_stations-route to_string sock c.bs_ip_tbl empty_table u dest b added f) [
          | inl e ↦ cc
          | inr h ↦ build_conflict_graph-has lines c g b run (v.bs_addresses b h)
        ];
    domains = λ b k f. add_schedulers-domain c g [] b k f;
    ready = add_schedulers-IsEvery _ c g [] (domain_scheduler-IsReady c v mode) tt;
  }

  -- Whatever the command line and the file are, where the fairness mode is one of the three and the
  -- constructor and `Init` return: the tables of the controller fit together. A route leads to a station
  -- with a contention domain, each contention domain has a scheduler, and each scheduler satisfies its
  -- invariant and has a queue for every client.
  pub construct-IsWired :
      (to_string : ℤ → List ℕ) (sock : ℤ) (opts : List Opt) (lines : List (List ℕ))
      (s : WspaceController W) (c : Config)
      → construct to_string sock opts lines ≡ ok (s, c)
      → IsKnown c.fairness_mode
      → IsWired s
  construct-IsWired to_string sock opts lines s c run mode =
      let b = construct-IsBuilt to_string sock opts lines s c run in
      let (u, added, same) =
        init-parts to_string sock c.bs_ip_tbl c.bs_ids c.client_ids empty_table b.table b.made in
      subst IsWired (ap (constructed c b.graph) same ∙ b.result) (
        constructed-IsWired to_string sock c lines b.graph u (take_options_lem opts c b.took)
          b.complete mode b.built added)
