-- ===== src/Routing/Update.antt =====
-- `RoutingTable::Init` and `RoutingTable::UpdateRoutes` with its three ways to choose the routes.
use wspace_controller.Prelude.{
  ℕ, ◌+◌, ◌%◌, ◌^◌, List, [], ◌∷◌, ◌++◌, none, some, if◌then◌else◌, length, take, leb,
}
use wspace_controller.Prelude.Int.{ℤ, negsuc}
use wspace_controller.Prelude.Result.{Result, ok, err, ◌>>=◌, ◌>>◌, guard, assert_failed, undefined}
use wspace_controller.Map.{Map, find, put, has, get_or, ◌=?◌}
use wspace_controller.NodeId.{NodeId, node_id_eq}
use wspace_controller.Double.{Double, of_nat}
use wspace_controller.Routing.{
  Table, SchedulingMode, max_throughput, optimizer, duplication, round_robin, exhaustive_search,
  unknown_mode, RoutingTable, Routes, no_routes, bs_at, min_throughput, update_stats, lookup_stats,
  route_max, route_fixed, set_routes,
}

-- `ParseRoutingTable`, from the numbers on the lines of the file. More lines than clients read
-- `client_ids_` out of range.
unfoldable pub parse_routing_table :
    List NodeId → List NodeId → Map NodeId NodeId → Result (Map NodeId NodeId)
parse_routing_table [] cs route = ok route
parse_routing_table (b ∷ lines) [] route = err undefined
parse_routing_table (b ∷ lines) (c ∷ cs) route = parse_routing_table lines cs (put c b route)

module _ {W : Type 0} ⦃d : Double W⦄ where
  -- `UpdateRoutesMaxThroughput`, with the new throughputs.
  unfoldable pub update_max_throughput :
      Table W → RoutingTable W → Result (RoutingTable W × Map NodeId W)
  unfolding set_routes route_max
  update_max_throughput bs_stats t = do
    r ← set_routes (route_max t.bs_ids bs_stats) t.client_ids no_routes
    ok (record t { route = r.route; stats = bs_stats }, r.throughputs)

  -- `UpdateRoutesRoundRobin`. With no base station the remainder is undefined.
  unfoldable pub update_round_robin :
      Table W → RoutingTable W → Result (RoutingTable W × Map NodeId W)
  unfolding set_routes route_fixed
  update_round_robin bs_stats t = do
    bs_id ← bs_at t.bs_ids (t.bs_index % length t.bs_ids)
    r ← set_routes (route_fixed bs_id bs_stats) t.client_ids no_routes
    ok (
      record t { route = r.route; stats = bs_stats; bs_index = (t.bs_index + 1) % 2 ^ 32 },
      r.throughputs,
    )

  -- The inner and the outer loop that fill `stats_` for the optimizer.
  unfoldable pub fill_row : List NodeId → Map NodeId W → Map NodeId W
  fill_row [] row = row
  fill_row (b ∷ bs) row = fill_row bs (if has b row then row else put b min_throughput row)

  unfoldable pub fill_stats : List NodeId → List NodeId → Table W → Table W
  unfolding fill_row
  fill_stats bs_ids [] stats = stats
  fill_stats bs_ids (c ∷ cs) stats =
      fill_stats bs_ids cs (put c (fill_row bs_ids (get_or [] c stats)) stats)

  -- The last loop of `UpdateRoutesOptimizer`. A route of -1 means that the client gets the default; a
  -- throughput that is missing in `stats_` is entered as 0.
  unfoldable pub take_assignment :
      List NodeId → List NodeId → Table W → Routes W → Result (Table W × Routes W)
  unfolding bs_at update_stats lookup_stats
  take_assignment bs_ids [] stats r = ok (stats, r)
  take_assignment bs_ids (c ∷ cs) stats r =
      let next = take_assignment bs_ids cs in
      elim (find c r.route) [
        | none ↦ next stats r
        | some b ↦
            let t = get_or (of_nat 0) b (get_or [] c stats) in
            if b =? negsuc 0
            then (bs_at bs_ids 0 >>= λ bs. next stats (record {
              route = put c bs r.route;
              throughputs = put c min_throughput r.throughputs;
            }))
            else next (update_stats c b t stats) (record r { throughputs = put c t r.throughputs })
      ]

  -- `UpdateRoutesOptimizer`. The R script is outside of the repository: `solve` gives the numbers on
  -- the lines of the file that it writes, from the table that it is given.
  unfoldable pub update_optimizer :
      (Table W → List NodeId) → Table W → RoutingTable W → Result (RoutingTable W × Map NodeId W)
  unfolding fill_stats parse_routing_table take_assignment
  update_optimizer solve bs_stats t = do
    let stats = fill_stats t.bs_ids t.client_ids bs_stats
    route ← parse_routing_table (solve stats) t.client_ids []
    (stats', r) ←
        take_assignment t.bs_ids t.client_ids stats (record { route = route; throughputs = [] })
    ok (record t { route = r.route; stats = stats' }, r.throughputs)

  -- `UpdateRoutes`, without the time that it measures.
  unfoldable pub update_routes :
      (Table W → List NodeId)
      → SchedulingMode
      → Table W
      → RoutingTable W
      → Result (RoutingTable W × Map NodeId W)
  unfolding update_max_throughput update_optimizer update_round_robin
  update_routes solve max_throughput bs_stats t = update_max_throughput bs_stats t
  update_routes solve duplication bs_stats t = update_max_throughput bs_stats t
  update_routes solve optimizer bs_stats t = update_optimizer solve bs_stats t
  update_routes solve round_robin bs_stats t = update_round_robin bs_stats t
  update_routes solve exhaustive_search bs_stats t = err assert_failed
  update_routes solve (unknown_mode m) bs_stats t = err assert_failed

-- The loop of `Init` over the addresses of the base stations. `to_string` is the library's; a
-- `strncpy` of 16 bytes is `take 16`. The prefix is "10.0.0."; `strcat` puts the id after it in an array of 16
-- bytes, so that a text of more than 15 bytes is written past its end.
abbrev pub port_eth : ℕ
port_eth = 55554

abbrev pub tun_prefix : List ℕ
tun_prefix = b'1' ∷ b'0' ∷ b'.' ∷ b'0' ∷ b'.' ∷ b'0' ∷ b'.' ∷ []

unfoldable pub add_stations :
    {W : Type 0} → (ℤ → List ℕ) → ℤ → Map NodeId (List ℕ) → RoutingTable W → Result (RoutingTable W)
add_stations to_string sock [] t = ok t
add_stations to_string sock ((b, ip) ∷ ips) t =
    guard (leb (length (tun_prefix ++ to_string b)) 15) undefined
    >> add_stations to_string sock ips (record t {
      bs_tbl =
          put b
            (record {
              ip_eth = take 16 ip;
              ip_tun = take 16 (tun_prefix ++ to_string b);
              port = port_eth;
              socket_id = sock;
            })
            t.bs_tbl;
      route = put b b t.route;
    })

-- `Init`, without the file names.
unfoldable pub init :
    {W : Type 0}
    → (ℤ → List ℕ)
    → ℤ
    → Map NodeId (List ℕ)
    → List NodeId
    → List NodeId
    → RoutingTable W
    → Result (RoutingTable W)
unfolding add_stations
init to_string sock bs_ip_tbl bs_ids client_ids t =
    add_stations to_string sock bs_ip_tbl t >>= λ t'.
    ok (record t' { bs_ids = bs_ids; client_ids = client_ids })
