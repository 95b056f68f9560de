-- ===== src/Config.antt =====
-- The constructor of `WspaceController` in wspace_controller.cc: the command line, the conflict graph
-- and the schedulers. `getopt` is the system's: the options that it finds, in order, are a parameter,
-- and so are the lines of the file with the conflict graph.
pub mod Address
pub mod Ids
pub mod Options
pub mod Build
pub mod Domains
pub mod Serving
use wspace_controller.Prelude.{
  ℕ, ◌-◌, ◌%◌, ◌^◌, ◌≡◌, Bool, true, false, ◌&&◌, not, List, [], ◌∷◌, ◌++◌, leb, if◌then◌else◌,
  length, take,
}
use wspace_controller.Prelude.Int.{ℤ, pos, negsuc}
use wspace_controller.Prelude.Result.{
  Result, ok, err, ◌>>=◌, ◌>>◌, guard, exited, undefined, assert_failed,
}
use wspace_controller.Map.{Map, put, has, get_or, ◌=?◌}
use wspace_controller.NodeId.{NodeId, node_id_eq}
use wspace_controller.Double.{Double}
use wspace_controller.Text.{fields, atoi, after_char}
use wspace_controller.Scheduler.{
  PktScheduler, FairnessMode, equal_time, equal_throughput, proportional_throughput,
}
use wspace_controller.Scheduler
use wspace_controller.Scheduler.Quantum.{new_scheduler}
use wspace_controller.Routing.{
  SchedulingMode, max_throughput, optimizer, duplication, round_robin, exhaustive_search,
  RoutingTable, min_throughput,
}
use wspace_controller.Routing
use wspace_controller.Routing.Update.{init}
use wspace_controller.Controller.{WspaceController}

-- What `getopt` returns, with `optarg`: one constructor for each case of the switch.
pub data Opt : Type 0 where
  -- 'C'
  controller_ip_eth : List ℕ → Opt
  -- 'b'
  bs_ids : List ℕ → Opt
  -- 'S'
  bs_ip_eth : List ℕ → Opt
  -- 'c'
  client_ids : List ℕ → Opt
  -- 's'
  client_ip_eth : List ℕ → Opt
  -- 'i'
  if_name : List ℕ → Opt
  -- 't'
  update_interval : List ℕ → Opt
  -- 'd'
  round_interval : List ℕ → Opt
  -- 'm'
  fairness_mode : List ℕ → Opt
  -- 'f'
  same_channel : List ℕ → Opt
  -- 'o'
  scheduling_mode : List ℕ → Opt
  -- 'F'
  executable : List ℕ → Opt
  -- 'R'
  route_log : List ℕ → Opt
  other : Opt

-- The members that the options set, and `is_same_channel`.
pub record Config : Type 0 where
  pub controller_ip_eth : List ℕ
  pub if_name : List ℕ
  pub bs_ids : List NodeId
  pub client_ids : List NodeId
  pub bs_ip_tbl : Map NodeId (List ℕ)
  pub client_ip_tbl : Map NodeId (List ℕ)
  pub client_original_seq_tbl : Map NodeId ℕ
  pub update_route_interval : ℕ
  pub round_interval : ℕ
  pub fairness_mode : FairnessMode
  pub is_same_channel : ℤ
  pub scheduling_mode : SchedulingMode
  pub f_executable : List ℕ
  pub f_route_log : List ℕ

-- Before the first option; "get_assignment.R" is the name of the script.
abbrev pub initial_config : Config
initial_config = record {
  controller_ip_eth = [];
  if_name = [];
  bs_ids = [];
  client_ids = [];
  bs_ip_tbl = [];
  client_ip_tbl = [];
  client_original_seq_tbl = [];
  update_route_interval = 100000;
  round_interval = 10;
  fairness_mode = equal_time;
  is_same_channel = pos 0;
  scheduling_mode = max_throughput;
  f_executable =
      b'g' ∷ b'e' ∷ b't' ∷ b'_' ∷ b'a' ∷ b's' ∷ b's' ∷ b'i' ∷ b'g' ∷ b'n' ∷ b'm' ∷ b'e' ∷ b'n'
      ∷ b't' ∷ b'.' ∷ b'R' ∷ [];
  f_route_log = [];
}

-- The loop over the base stations of an option. Id 1 is the controller's.
unfoldable pub parse_bs_ids : List (List ℕ) → Config → Result Config
parse_bs_ids [] c = ok c
parse_bs_ids (f ∷ fs) c = atoi f >>= λ id.
    if id =? pos 1 then err exited else parse_bs_ids fs (record c { bs_ids = c.bs_ids ++ id ∷ [] })

-- The loop over the clients of an option.
unfoldable pub parse_client_ids : List (List ℕ) → Config → Result Config
parse_client_ids [] c = ok c
parse_client_ids (f ∷ fs) c = atoi f >>= λ id.
    if id =? pos 1
    then err exited
    else parse_client_ids fs (record c {
      client_ids = c.client_ids ++ id ∷ [];
      client_original_seq_tbl = put id 0 c.client_original_seq_tbl;
    })

-- The loop of `ParseIP`, over the addresses and the ids that are left.
unfoldable pub parse_addresses :
    List (List ℕ) → List NodeId → Map NodeId (List ℕ) → Result (Map NodeId (List ℕ))
parse_addresses [] ids t = ok t
parse_addresses (addr ∷ addrs) [] t = err exited
parse_addresses (addr ∷ addrs) (id ∷ ids) t = parse_addresses addrs ids (put id (take 16 addr) t)

unfoldable pub parse_ip : List NodeId → List ℕ → Map NodeId (List ℕ) → Result (Map NodeId (List ℕ))
unfolding parse_addresses
parse_ip [] arg t = err exited
parse_ip (id ∷ ids) arg t = parse_addresses (fields b',' arg) (id ∷ ids) t

-- A value of `int` in a `uint32`.
abbrev to_u32 : ℤ → ℕ
to_u32 (pos n) = n % 2 ^ 32
to_u32 (negsuc n) = 2 ^ 32 - 1 - n % 2 ^ 32

abbrev to_fairness_mode : ℤ → FairnessMode
to_fairness_mode n =
    if n =? pos 0
    then equal_time
    else if n =? pos 1
    then equal_throughput
    else if n =? pos 2
    then proportional_throughput
    else Scheduler.unknown_mode n

abbrev to_scheduling_mode : ℤ → SchedulingMode
to_scheduling_mode n =
    if n =? pos 0
    then max_throughput
    else if n =? pos 1
    then optimizer
    else if n =? pos 2
    then duplication
    else if n =? pos 3
    then round_robin
    else if n =? pos 4
    then exhaustive_search
    else Routing.unknown_mode n

-- One turn of the loop over the options. `strncpy` of n bytes is `take n`.
unfoldable pub take_option : Opt → Config → Result Config
unfolding parse_bs_ids parse_client_ids parse_ip
take_option (controller_ip_eth arg) c = ok (record c { controller_ip_eth = take 16 arg })
take_option (bs_ids arg) c = parse_bs_ids (fields b',' arg) c
take_option (bs_ip_eth arg) c =
    parse_ip c.bs_ids arg c.bs_ip_tbl >>= λ t. ok (record c { bs_ip_tbl = t })
take_option (client_ids arg) c = parse_client_ids (fields b',' arg) c
take_option (client_ip_eth arg) c =
    parse_ip c.client_ids arg c.client_ip_tbl >>= λ t. ok (record c { client_ip_tbl = t })
take_option (if_name arg) c = ok (record c { if_name = take 15 arg })
take_option (update_interval arg) c =
    atoi arg >>= λ n. ok (record c { update_route_interval = to_u32 n })
take_option (round_interval arg) c = atoi arg >>= λ n. ok (record c { round_interval = to_u32 n })
take_option (fairness_mode arg) c =
    atoi arg >>= λ n. ok (record c { fairness_mode = to_fairness_mode n })
take_option (same_channel arg) c = atoi arg >>= λ n. ok (record c { is_same_channel = n })
take_option (scheduling_mode arg) c =
    atoi arg >>= λ n. ok (record c { scheduling_mode = to_scheduling_mode n })
take_option (executable arg) c = ok (record c { f_executable = arg })
take_option (route_log arg) c = ok (record c { f_route_log = arg })
take_option other c = err exited

unfoldable pub take_options : List Opt → Config → Result Config
unfolding take_option
take_options [] c = ok c
take_options (o ∷ os) c = take_option o c >>= take_options os

-- The first byte of a string is not null.
abbrev pub is_given : List ℕ → Bool
is_given [] = false
is_given (c ∷ cs) = true

abbrev all_given : Map NodeId (List ℕ) → Bool
all_given [] = true
all_given ((id, addr) ∷ t) = is_given addr && all_given t

-- The assertions after the loop.
abbrev pub is_complete : Config → Bool
is_complete c =
    (is_given c.if_name && is_given c.controller_ip_eth)
    && ((leb 1 (length c.bs_ip_tbl) && leb 1 (length c.client_ip_tbl))
        && (all_given c.bs_ip_tbl && all_given c.client_ip_tbl))
