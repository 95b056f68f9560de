-- ===== src/Config/Build.antt =====
-- The rest of the constructor: the conflict graph and the schedulers. The lines of the file with the
-- conflict graph are a parameter.
use wspace_controller.Prelude.{ℕ, List, [], ◌∷◌, leb, if◌then◌else◌, length}
use wspace_controller.Prelude.Int.{ℤ, pos}
use wspace_controller.Prelude.Result.{Result, ok, ◌>>=◌, ◌>>◌, guard, undefined, assert_failed}
use wspace_controller.Map.{Map, put, has, get_or, ◌=?◌}
use wspace_controller.NodeId.{NodeId, node_id_eq}
use wspace_controller.Double.{Double}
use wspace_controller.Text.{atoi, after_char}
use wspace_controller.Scheduler.{PktScheduler}
use wspace_controller.Scheduler.Quantum.{new_scheduler}
use wspace_controller.Routing.{RoutingTable, min_throughput}
use wspace_controller.Routing.Update.{init}
use wspace_controller.Controller.{WspaceController}
use wspace_controller.Config.{Config, Opt, initial_config, take_options, is_complete}

-- A line of the file: the copy into `tmp` has room for 15 bytes.
unfoldable parse_line : List ℕ → Map NodeId NodeId → Result (Map NodeId NodeId)
parse_line line g = do
  bs_id ← atoi line
  guard (leb (length line) 15) undefined
  rest ← after_char b' ' line
  contention_id ← atoi rest
  ok (put bs_id contention_id g)

-- `ParseConflictGraph`.
unfoldable pub parse_conflict_graph : List (List ℕ) → Map NodeId NodeId → Result (Map NodeId NodeId)
unfolding parse_line
parse_conflict_graph [] g = ok g
parse_conflict_graph (line ∷ lines) g = parse_line line g >>= parse_conflict_graph lines

-- A loop that enters each station with a contention domain.
unfoldable pub set_domains :
    (NodeId → Map NodeId NodeId → NodeId) → List NodeId → Map NodeId NodeId → Map NodeId NodeId
set_domains domain [] g = g
set_domains domain (b ∷ bs) g = set_domains domain bs (put b (domain b g) g)

-- The three ways to construct the conflict graph. The last loop prints `conflict_graph_[bs_id]`, which
-- enters a station that the file does not name.
unfoldable pub build_conflict_graph : List (List ℕ) → Config → Result (Map NodeId NodeId)
unfolding set_domains parse_conflict_graph
build_conflict_graph lines c =
    let read = parse_conflict_graph lines [] in
    if c.is_same_channel =? pos 1
    then ok (set_domains (λ b g. pos 1) c.bs_ids [])
    else if c.is_same_channel =? pos 0
    then ok (set_domains (λ b g. b) c.bs_ids [])
    else read >>= λ g. ok (set_domains (λ b h. get_or (pos 0) b h) c.bs_ids g)

module _ {W : Type 0} ⦃d : Double W⦄ where
  abbrev pub domain_scheduler : Config → PktScheduler W
  domain_scheduler c =
      new_scheduler min_throughput c.client_ids 1000 c.round_interval c.fairness_mode

  -- The loop that makes a scheduler for each contention domain.
  unfoldable pub add_schedulers :
      Config → Map NodeId NodeId → Map NodeId (PktScheduler W) → Map NodeId (PktScheduler W)
  add_schedulers c [] m = m
  add_schedulers c ((b, k) ∷ g) m =
      add_schedulers c g (if has k m then m else put k (domain_scheduler c) m)

  -- `RoutingTable ()`.
  abbrev pub empty_table : RoutingTable W
  empty_table = record {
    route = [];
    bs_tbl = [];
    bs_ids = [];
    client_ids = [];
    stats = [];
    bs_index = 0;
  }

  -- The constructor, and `Init` with the socket that it opens.
  unfoldable pub construct :
      (ℤ → List ℕ) → ℤ → List Opt → List (List ℕ) → Result (WspaceController W × Config)
  unfolding take_options build_conflict_graph add_schedulers init
  construct to_string sock opts lines = do
    c ← take_options opts initial_config
    guard (is_complete c) assert_failed
    g ← build_conflict_graph lines c
    t ← init to_string sock c.bs_ip_tbl c.bs_ids c.client_ids empty_table
    ok (
      record {
        bs_ip_tbl = c.bs_ip_tbl;
        client_ip_tbl = c.client_ip_tbl;
        current_seq = [];
        bs_stats_tbl = [];
        routing_tbl = t;
        packet_scheduler_tbl = add_schedulers c g [];
        client_original_seq_tbl = c.client_original_seq_tbl;
        conflict_graph = g;
        scheduling_mode = c.scheduling_mode;
      },
      c,
    )
