-- ===== src/Tests/Routes.antt =====
-- A controller with two base stations and one client.
use mathlib.Core.Option.{some-injective}
use wspace_controller.Prelude.{
  ℕ, ◌≡◌, refl, subst, Bool-cases, inl, inr, List, [], ◌∷◌, some, arith, get_elem?,
}
use wspace_controller.Prelude.Int.{ℤ, pos, eqb_ℤ}
use wspace_controller.Prelude.Result.{ok}
use wspace_controller.Map.{Map, find, has, ◌=?◌}
use wspace_controller.Map.Laws.{HasUniqueKeys}
use wspace_controller.NodeId.{NodeId, node_id_eq}
use wspace_controller.Double.{whole_double}
use wspace_controller.Routing.{Table, RoutingTable, max_throughput}
use wspace_controller.Routing.Update.{update_max_throughput, update_round_robin}
use wspace_controller.Routing.Laws.{whole-IsOrdered, BestSpec}
use wspace_controller.Routing.Choice.{
  RoutesSpec, FixedSpec, update_max_throughput_lem, update_round_robin_lem,
}
use wspace_controller.Controller.{WspaceController, BsStatsPkt}
use wspace_controller.Controller.Laws.{known_at, newest, recv_all, recv_all_lem}

abbrev client : NodeId
client = pos 9

abbrev row : Map NodeId ℤ
row = (pos 2, pos 5) ∷ (pos 3, pos 8) ∷ []

abbrev reports : Table ℤ
reports = (client, row) ∷ []

abbrev table : RoutingTable ℤ
table = record {
  route = (client, pos 2) ∷ [];
  bs_tbl = [];
  bs_ids = pos 2 ∷ pos 3 ∷ [];
  client_ids = client ∷ [];
  stats = [];
  bs_index = 1;
}

row-HasUniqueKeys : HasUniqueKeys row
unfolding has eqb_ℤ
row-HasUniqueKeys = (refl, (refl, tt))

rows_unique : (c : NodeId) (r : Map NodeId ℤ) → find c reports ≡ some r → HasUniqueKeys r
unfolding find
rows_unique c r f = elim (Bool-cases (client =? c)) [
  | inl y ↦ subst HasUniqueKeys (some-injective _ _ (rw (y) at f)) row-HasUniqueKeys
  | inr n ↦ cc ((rw (n) at f))
]

update_max_throughput_lem_example :
    (t' : RoutingTable ℤ) × (rates : Map NodeId ℤ) × (update_max_throughput reports table
      ≡ ok (t', rates))
    × RoutesSpec (BestSpec reports (pos 2)) table t' rates
update_max_throughput_lem_example =
    update_max_throughput_lem whole-IsOrdered reports table (pos 2) (pos 3 ∷ []) refl rows_unique

update_round_robin_lem_example :
    (bs : NodeId) × (t' : RoutingTable ℤ) × (rates : Map NodeId ℤ) × (get_elem?
        (pos 2 ∷ pos 3 ∷ [])
        1
      ≡ some bs)
    × (update_round_robin reports table ≡ ok (t', rates))
    × (t'.bs_index ≡ 2)
    × RoutesSpec (FixedSpec reports bs) table t' rates
update_round_robin_lem_example = update_round_robin_lem reports table (omega arith)

abbrev controller : WspaceController ℤ
controller = record {
  bs_ip_tbl = (pos 2, []) ∷ [];
  client_ip_tbl = (client, []) ∷ [];
  current_seq = [];
  bs_stats_tbl = [];
  routing_tbl = table;
  packet_scheduler_tbl = [];
  client_original_seq_tbl = (client, 0) ∷ [];
  conflict_graph = [];
  scheduling_mode = max_throughput;
}

abbrev report : ℕ → ℤ → BsStatsPkt ℤ
report seq t = record { seq = seq; bs_id = pos 2; client_id = client; throughput = t }

-- The second report comes late.
abbrev late_reports : List (BsStatsPkt ℤ)
late_reports = report 2 (pos 7) ∷ report 1 (pos 4) ∷ []

recv_all_lem_example :
    known_at (pos 2) client (recv_all late_reports controller)
    ≡ newest (pos 2) client late_reports (known_at (pos 2) client controller)
unfolding has eqb_ℤ
recv_all_lem_example = recv_all_lem (pos 2) client late_reports controller refl refl
