-- ===== src/Routing.antt =====
-- `BSStatsTable` and `RoutingTable` of wspace_controller.h and wspace_controller.cc. Each method of
-- the first runs under its lock; the routes change under the lock of the second.
pub mod Update
pub mod Laws
pub mod Choice
pub mod Optimizer
pub mod Filling
pub mod Answers
pub mod Files
pub mod Stations
use wspace_controller.Prelude.{
  ℕ, suc, ◌+◌, ◌%◌, ◌^◌, ◌≡◌, Bool, true, false, ◌&&◌, ◌||◌, not, List, [], ◌∷◌, ◌++◌, Option, none,
  some, if◌then◌else◌, length, get_elem?, take, map, ◌==◌,
}
use wspace_controller.Prelude.Int.{ℤ, pos, negsuc}
use wspace_controller.Prelude.Result.{Result, ok, err, ◌>>=◌, Fault, assert_failed, undefined}
use wspace_controller.Map.{Map, find, put, has, get_or, ◌=?◌}
use wspace_controller.NodeId.{NodeId, node_id_eq}
use wspace_controller.Double.{Double, of_nat}

-- `stats_` of both tables: <client_id, <bs_id, throughput>>.
abbrev pub Table : Type 0 → Type 0
Table W = Map NodeId (Map NodeId W)

-- `BSInfo`, with the texts as lists of bytes.
pub record BsInfo : Type 0 where
  pub ip_eth : List ℕ
  pub ip_tun : List ℕ
  pub port : ℕ
  pub socket_id : ℤ

-- A number from the command line may name none of the modes.
pub data SchedulingMode : Type 0 where
  max_throughput : SchedulingMode
  optimizer : SchedulingMode
  duplication : SchedulingMode
  round_robin : SchedulingMode
  exhaustive_search : SchedulingMode
  unknown_mode : ℤ → SchedulingMode

-- `RoutingTable`, without the file names and the log; `bs_index` is the static variable of
-- `UpdateRoutesRoundRobin`.
pub record RoutingTable (W : Type 0) : Type 0 where
  pub route : Map NodeId NodeId
  pub bs_tbl : Map NodeId BsInfo
  pub bs_ids : List NodeId
  pub client_ids : List NodeId
  pub stats : Table W
  pub bs_index : ℕ

-- Routes, with the throughput of each client's base station.
pub record Routes (W : Type 0) : Type 0 where
  pub route : Map NodeId NodeId
  pub throughputs : Map NodeId W

-- `BSInfo ()`: its members are not set.
abbrev pub no_info : BsInfo
no_info = record { ip_eth = []; ip_tun = []; port = 0; socket_id = pos 0 }

-- `bs_ids_[i]`; out of range is undefined.
unfoldable pub bs_at : List NodeId → ℕ → Result NodeId
bs_at bs_ids i = elim (get_elem? bs_ids i) [ none ↦ err undefined | some b ↦ ok b ]

module _ {W : Type 0} ⦃d : Double W⦄ where
  -- `MIN_THROUGHPUT`.
  abbrev pub min_throughput : W
  min_throughput = of_nat 1

  -- `BSStatsTable::Update`.
  unfoldable pub update_stats : NodeId → NodeId → W → Table W → Table W
  update_stats client_id bs_id throughput stats =
      put client_id (put bs_id throughput (get_or [] client_id stats)) stats

  -- The entry at a client and a base station.
  unfoldable pub lookup_stats : NodeId → NodeId → Table W → Option W
  lookup_stats client_id bs_id stats = find bs_id (get_or [] client_id stats)

  -- `BSStatsTable::GetThroughput`: only a throughput above the minimum counts.
  unfoldable pub get_throughput : NodeId → NodeId → Table W → Option W
  unfolding lookup_stats
  get_throughput client_id bs_id stats = elim (lookup_stats client_id bs_id stats) [
    | none ↦ none
    | some t ↦ if d.lt min_throughput t then some t else none
  ]

  -- The loop of `FindMaxThroughputBS`, from `max_p`.
  unfoldable pub max_pair : NodeId × W → Map NodeId W → NodeId × W
  max_pair best [] = best
  max_pair best (p ∷ ps) = max_pair (if d.lt best.1 p.1 then p else best) ps

  abbrev pub no_pair : NodeId × W
  no_pair = (negsuc 0, d.of_int (negsuc 0))

  -- `FindMaxThroughputBS`: whether the client is found, the base station and its throughput.
  unfoldable pub find_max_throughput_bs : NodeId → Table W → Bool × NodeId × W
  unfolding max_pair
  find_max_throughput_bs client_id stats = elim (find client_id stats) [
    | none ↦ (false, no_pair.0, no_pair.1)
    | some row ↦ let best = max_pair no_pair row in (true, best.0, best.1)
  ]

  -- The body of the loop of `UpdateRoutesMaxThroughput`.
  unfoldable pub route_max : List NodeId → Table W → NodeId → Result (NodeId × W)
  unfolding find_max_throughput_bs bs_at
  route_max bs_ids stats client_id =
      let (found, bs_id, throughput) = find_max_throughput_bs client_id stats in
      let default_bs = bs_at bs_ids 0 in
      if found && d.lt (of_nat 0) throughput
      then ok (bs_id, throughput)
      else default_bs >>= λ bs. ok (bs, min_throughput)

  -- The body of the loop of `UpdateRoutesRoundRobin`.
  unfoldable pub route_fixed : NodeId → Table W → NodeId → Result (NodeId × W)
  unfolding lookup_stats
  route_fixed bs_id stats client_id = elim (lookup_stats client_id bs_id stats) [
    | none ↦ ok (bs_id, min_throughput)
    | some t ↦ ok (bs_id, if d.lt t min_throughput then min_throughput else t)
  ]

  -- A loop over the clients that sets the route and the throughput of each.
  unfoldable pub set_routes :
      (NodeId → Result (NodeId × W)) → List NodeId → Routes W → Result (Routes W)
  set_routes choose [] r = ok r
  set_routes choose (c ∷ cs) r = choose c >>= λ p.
      set_routes choose cs
        (record { route = put c p.0 r.route; throughputs = put c p.1 r.throughputs })

  abbrev pub no_routes : Routes W
  no_routes = record { route = []; throughputs = [] }

-- `FindRoute`. `bs_tbl_[*bs_id]` enters a station that is missing.
unfoldable pub find_route :
    {W : Type 0} → NodeId → RoutingTable W → Option (NodeId × BsInfo) × RoutingTable W
find_route dest_id t = elim (find dest_id t.route) [
  | none ↦ (none, t)
  | some b ↦
      let info = get_or no_info b t.bs_tbl in
      (some (b, info), record t { bs_tbl = put b info t.bs_tbl })
]
