-- ===== src/Controller/Begin.antt =====
-- How `RecvFromBS` of wspace_controller.cc begins: it sets the last sequence number of each station and
-- client to 0. A call after that finds the entries that the model of a turn takes from an empty table.
use wspace_controller.Prelude.{
  ℕ, ◌≡◌, refl, ap, ◌∙◌, Bool, true, false, ◌&&◌, ◌||◌, List, [], ◌∷◌, if◌then◌else◌,
}
use wspace_controller.NodeId.{NodeId, node_id_eq}
use wspace_controller.Map.{has_elem, ◌=?◌}
use wspace_controller.Routing.{Table}
use wspace_controller.Controller.{seq_at, set_seq}
use wspace_controller.Controller.Laws.{seq_at-set_seq}

-- The inner loop.
unfoldable pub clear_row : NodeId → List NodeId → Table ℕ → Table ℕ
clear_row b [] t = t
clear_row b (c ∷ cs) t = clear_row b cs (set_seq b c 0 t)

unfoldable pub clear_seqs : List NodeId → List NodeId → Table ℕ → Table ℕ
clear_seqs [] cs t = t
clear_seqs (b ∷ bs) cs t = clear_seqs bs cs (clear_row b cs t)

join_tests :
    (x y z : Bool) (n : ℕ)
    → (if y && z then 0 else (if y && x then 0 else n)) ≡ (if y && (x || z) then 0 else n)
join_tests x false z n = refl
join_tests true true true n = refl
join_tests true true false n = refl
join_tests false true z n = refl

join_rows :
    (x y z : Bool) (n : ℕ)
    → (if y && z then 0 else (if x && z then 0 else n)) ≡ (if (x || y) && z then 0 else n)
join_rows true true true n = refl
join_rows true true false n = refl
join_rows true false true n = refl
join_rows true false false n = refl
join_rows false y z n = refl

seq_at-clear_row :
    (j k b : NodeId) (cs : List NodeId) (t : Table ℕ)
    → seq_at j k (clear_row b cs t) ≡ (if (b =? j) && has_elem k cs then 0 else seq_at j k t)
unfolding clear_row
seq_at-clear_row j k b [] t = join_none (b =? j)
  where
    join_none : (y : Bool) → seq_at j k t ≡ (if y && false then 0 else seq_at j k t)
    join_none true = refl
    join_none false = refl
seq_at-clear_row j k b (c ∷ cs) t =
    seq_at-clear_row j k b cs (set_seq b c 0 t)
    ∙ ap (λ n. if (b =? j) && has_elem k cs then 0 else n) (seq_at-set_seq j k b c 0 t)
    ∙ join_tests (c =? k) (b =? j) (has_elem k cs) (seq_at j k t)

-- After the loops the entry of each listed station and client is 0, and any other entry is as before.
pub seq_at-clear_seqs :
    (j k : NodeId) (bs cs : List NodeId) (t : Table ℕ)
    → seq_at j k (clear_seqs bs cs t) ≡ (if has_elem j bs && has_elem k cs then 0 else seq_at j k t)
unfolding clear_seqs
seq_at-clear_seqs j k [] cs t = refl
seq_at-clear_seqs j k (b ∷ bs) cs t =
    seq_at-clear_seqs j k bs cs (clear_row b cs t)
    ∙ ap (λ n. if has_elem j bs && has_elem k cs then 0 else n) (seq_at-clear_row j k b cs t)
    ∙ join_rows (b =? j) (has_elem j bs) (has_elem k cs) (seq_at j k t)
