-- ===== src/Tests/Answers.antt =====
-- Two clients and the optimizer's answers: station 3 for the first, and none for the second.
use wspace_controller.Prelude.{ℕ, ◌≡◌, refl, List, [], ◌∷◌, arith, inl, inr}
use wspace_controller.Prelude.Int.{ℤ, pos, negsuc, eqb_ℤ}
use wspace_controller.Prelude.Result.{ok}
use wspace_controller.Map.{Map, find, get_or}
use wspace_controller.NodeId.{NodeId, node_id_eq}
use wspace_controller.Double.{whole_double}
use wspace_controller.Routing.{Table, RoutingTable, lookup_stats}
use wspace_controller.Routing.Files.{print_stats, print_stats-fill_stats}
use wspace_controller.Routing.Update.{update_optimizer, fill_stats}
use wspace_controller.Routing.Answers.{AnswersSpec, update_optimizer_lem}

abbrev reports : Table ℤ
reports = (pos 9, (pos 3, pos 8) ∷ []) ∷ []

abbrev two_clients : RoutingTable ℤ
two_clients = record {
  route = [];
  bs_tbl = [];
  bs_ids = pos 2 ∷ pos 3 ∷ [];
  client_ids = pos 9 ∷ pos 8 ∷ [];
  stats = [];
  bs_index = 0;
}

abbrev answer : Table ℤ → List NodeId
answer t = pos 3 ∷ negsuc 0 ∷ []

update_optimizer_lem_example :
    (t' : RoutingTable ℤ) × (rates : Map NodeId ℤ) × (update_optimizer answer reports two_clients
      ≡ ok (t', rates))
    × AnswersSpec reports (pos 2) (pos 3 ∷ negsuc 0 ∷ []) two_clients t' rates
unfolding eqb_ℤ
update_optimizer_lem_example =
    update_optimizer_lem answer reports two_clients (pos 2) (pos 3 ∷ []) refl (refl, (refl, tt))
      (omega arith, (inr refl, (inl refl, tt)))

-- A number as one byte, which is its size.
abbrev size_byte : ℤ → List ℕ
size_byte (pos n) = n ∷ []
size_byte (negsuc n) = n ∷ []

print_stats-fill_stats_example :
    print_stats size_byte
      (pos 2 ∷ pos 3 ∷ [])
      (pos 9 ∷ pos 8 ∷ [])
      (fill_stats (pos 2 ∷ pos 3 ∷ []) (pos 9 ∷ pos 8 ∷ []) reports)
    ≡ (
      (1 ∷ b' ' ∷ 8 ∷ b' ' ∷ []) ∷ (1 ∷ b' ' ∷ 1 ∷ b' ' ∷ []) ∷ [],
      fill_stats (pos 2 ∷ pos 3 ∷ []) (pos 9 ∷ pos 8 ∷ []) reports,
    )
unfolding lookup_stats find get_or eqb_ℤ
print_stats-fill_stats_example =
    print_stats-fill_stats size_byte (pos 2) (pos 3 ∷ []) (pos 9 ∷ pos 8 ∷ []) reports
