-- ===== src/Tests/Configs.antt =====
-- A command line with two stations and one client, and what the controller reads from the tunnel.
use wspace_controller.Prelude.{
  ℕ, ◌+◌, ◌<◌, ◌≤◌, ◌≡◌, ◌⊎◌, refl, List, [], ◌∷◌, length, Bool-cases, inl, inr, true, arith,
  replicate, ◌++◌,
}
use wspace_controller.Prelude.Int.{ℤ, pos, negsuc, eqb_ℤ}
use wspace_controller.Prelude.Result.{Result, ok, err, exited, undefined}
use wspace_controller.Map.{Map, put, has, ◌=?◌}
use wspace_controller.NodeId.{NodeId, node_id_eq}
use wspace_controller.Double.{whole_double}
use wspace_controller.Text.{fields, atoi}
use wspace_controller.Text.Laws.{join}
use wspace_controller.Routing.{BsInfo, RoutingTable}
use wspace_controller.Routing.Stations.{AddsStations, init_lem}
use wspace_controller.Routing.Update.{init, add_stations, tun_prefix}
use wspace_controller.Controller.{WspaceController}
use wspace_controller.Controller.Wiring.{IsWired}
use wspace_controller.Config.{Config, Opt, initial_config, take_options, parse_ip}
use wspace_controller.Config.Build.{
  construct, domain_scheduler, build_conflict_graph, add_schedulers, empty_table,
}
use wspace_controller.Config.Address.{Assigns, parse_ip_lem}
use wspace_controller.Config.Ids.{AreIdsValid}
use wspace_controller.Config.Options.{take_options_lem}
use wspace_controller.Config.Domains.{construct-IsWired}
use wspace_controller.Config.Serving.{HasAddresses, construct-IsServed}
use wspace_controller.Routing.{Table}
use wspace_controller.Controller.Serving.{IsServed}
use wspace_controller.Controller.Runs.{Turn, reads, forwards, routes}
use wspace_controller.Controller.Writing.{System}
use wspace_controller.Controller.Client.{IsIpPacket}

-- "2,3"
abbrev ids_text : List ℕ
ids_text = b'2' ∷ b',' ∷ b'3' ∷ []

abbrev two_fields : List (List ℕ)
two_fields = (b'2' ∷ []) ∷ (b'3' ∷ []) ∷ []

abbrev options : List Opt
options =
    Opt.if_name (b't' ∷ [])
    ∷ Opt.controller_ip_eth (b'a' ∷ [])
    ∷ Opt.bs_ids ids_text
    ∷ Opt.bs_ip_eth ids_text
    ∷ Opt.client_ids (b'5' ∷ [])
    ∷ Opt.client_ip_eth (b'c' ∷ [])
    ∷ []

abbrev pub configured : Config
configured = record initial_config {
  if_name = b't' ∷ [];
  controller_ip_eth = b'a' ∷ [];
  bs_ids = pos 2 ∷ pos 3 ∷ [];
  bs_ip_tbl = (pos 2, b'2' ∷ []) ∷ (pos 3, b'3' ∷ []) ∷ [];
  client_ids = pos 5 ∷ [];
  client_ip_tbl = (pos 5, b'c' ∷ []) ∷ [];
  client_original_seq_tbl = (pos 5, 0) ∷ [];
}

options_run : take_options options initial_config ≡ ok configured
unfolding take_options fields atoi parse_ip put eqb_ℤ
options_run = refl

take_options_lem_example : AreIdsValid configured
take_options_lem_example = take_options_lem options configured options_run

abbrev two_ids : List NodeId
two_ids = pos 2 ∷ pos 3 ∷ []

parse_ip_lem_example :
    (0 < length two_ids
      → length two_fields ≤ length two_ids
      → (t' : Map NodeId (List ℕ)) × (parse_ip two_ids (join b',' two_fields) [] ≡ ok t')
        × Assigns two_fields two_ids [] t')
    × ((length two_ids ≡ 0) ⊎ (length two_ids < length two_fields)
        → parse_ip two_ids (join b',' two_fields) [] ≡ err exited)
unfolding eqb_ℤ
parse_ip_lem_example =
    parse_ip_lem two_ids two_fields [] (refl, (refl, tt))
      (((λ e. cc), tt), (((λ e. cc), tt), λ e. cc))

abbrev station : ℕ → BsInfo
station b = record {
  ip_eth = (b + 48) ∷ [];
  ip_tun = b'1' ∷ b'0' ∷ b'.' ∷ b'0' ∷ b'.' ∷ b'0' ∷ b'.' ∷ (b + 48) ∷ [];
  port = 55554;
  socket_id = pos 4;
}

-- `std::to_string` on a number of one digit.
abbrev one_digit : ℤ → List ℕ
one_digit (pos n) = (n + 48) ∷ []
one_digit (negsuc n) = []

abbrev pub wired : WspaceController ℤ
wired = record {
  bs_ip_tbl = configured.bs_ip_tbl;
  client_ip_tbl = configured.client_ip_tbl;
  current_seq = [];
  bs_stats_tbl = [];
  routing_tbl = record {
    route = (pos 2, pos 2) ∷ (pos 3, pos 3) ∷ [];
    bs_tbl = (pos 2, station 2) ∷ (pos 3, station 3) ∷ [];
    bs_ids = configured.bs_ids;
    client_ids = configured.client_ids;
    stats = [];
    bs_index = 0;
  };
  packet_scheduler_tbl =
      (pos 2, domain_scheduler configured) ∷ (pos 3, domain_scheduler configured) ∷ [];
  client_original_seq_tbl = configured.client_original_seq_tbl;
  conflict_graph = (pos 2, pos 2) ∷ (pos 3, pos 3) ∷ [];
  scheduling_mode = configured.scheduling_mode;
}

abbrev init_call : Result (RoutingTable ℤ)
init_call =
    init one_digit (pos 4) configured.bs_ip_tbl configured.bs_ids configured.client_ids empty_table

init_lem_example :
    (((b : NodeId) → has b configured.bs_ip_tbl ≡ true → length (tun_prefix ++ one_digit b) ≤ 15)
      → (t' : RoutingTable ℤ) × (init_call ≡ ok t')
        × AddsStations one_digit (pos 4) configured.bs_ip_tbl empty_table t'
        × (t'.bs_ids ≡ configured.bs_ids)
        × (t'.client_ids ≡ configured.client_ids))
    × ((b : NodeId)
        → has b configured.bs_ip_tbl ≡ true
        → 15 < length (tun_prefix ++ one_digit b)
        → init_call ≡ err undefined)
unfolding has eqb_ℤ
init_lem_example =
    init_lem one_digit (pos 4) configured.bs_ip_tbl configured.bs_ids configured.client_ids
      empty_table (refl, (refl, tt))

construct_run : construct one_digit (pos 4) options [] ≡ ok (wired, configured)
unfolding construct take_options fields atoi parse_ip put eqb_ℤ build_conflict_graph add_schedulers
    init add_stations has
construct_run = refl

pub wired-IsWired : IsWired wired
wired-IsWired = construct-IsWired one_digit (pos 4) options [] wired configured construct_run tt

construct-IsWired_example : IsWired wired
construct-IsWired_example =
    construct-IsWired one_digit (pos 4) options [] wired configured construct_run tt

configured-HasAddresses : HasAddresses configured
unfolding has
configured-HasAddresses id h = elim (Bool-cases (pos 5 =? id)) [
  | inl y ↦ rw y refl
  | inr n ↦ cc (rw n at h)
]

pub wired-IsServed : IsServed wired
wired-IsServed =
    construct-IsServed one_digit (pos 4) options [] wired configured construct_run
      configured-HasAddresses

abbrev no_answers : Table ℤ → List NodeId
no_answers t = []

-- A packet of the tunnel for the client 10.0.0.5.
abbrev pub tunnel_packet : List ℕ
tunnel_packet = replicate 16 0 ++ (10 ∷ 0 ∷ 0 ∷ 5 ∷ [])

pub tunnel_packet-IsIpPacket : IsIpPacket tunnel_packet
tunnel_packet-IsIpPacket = record {
  head = replicate 16 0;
  rest = [];
  a = 10;
  b = 0;
  c = 0;
  d = 5;
  parts = refl;
  long = refl;
  a_byte = omega arith;
  b_byte = omega arith;
  c_byte = omega arith;
  d_byte = omega arith;
}

-- The system takes all bytes.
abbrev pub takes_all : System
takes_all = record {
  on_tunnel = λ bytes. pos (length bytes);
  on_socket = λ ip port bytes. pos (length bytes);
}

abbrev some_turns : List (Turn ℤ)
some_turns = reads tunnel_packet ∷ forwards (pos 2) ∷ routes ∷ forwards (pos 3) ∷ []
