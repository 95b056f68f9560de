-- ===== src/Routing/Filling.antt =====
-- The table that `UpdateRoutesOptimizer` gives to the script: reports, and the minimum where there is none.
use wspace_controller.Prelude.{
  ◌≡◌, refl, sym, ap, ◌∙◌, subst, Bool, true, false, ◌&&◌, ◌||◌, List, [], ◌∷◌, Option, none, some,
  Bool-cases, inl, inr, if◌then◌else◌,
}
use wspace_controller.Map.{Map, find, put, has, has_elem, get_or, ◌=?◌}
use wspace_controller.Map.Laws.{find-put, get_or-put, find-none, has-find}
use wspace_controller.NodeId.{NodeId, node_id_eq}
use wspace_controller.Double.{Double}
use wspace_controller.Routing.{Table, min_throughput, lookup_stats}
use wspace_controller.Routing.Update.{fill_row, fill_stats}

bool_split : (x y z : Bool) → ((x && z) || (y && z)) ≡ ((x || y) && z)
bool_split true true true = refl
bool_split true true false = refl
bool_split true false true = refl
bool_split true false false = refl
bool_split false true true = refl
bool_split false true false = refl
bool_split false false z = refl

module _ {W : Type 0} ⦃d : Double W⦄ where
  -- An entry of the table as the script finds it.
  abbrev pub filled : Bool → Option W → Option W
  filled test (some x) = some x
  filled true none = some min_throughput
  filled false none = none

  filled-filled : (a b : Bool) (o : Option W) → filled a (filled b o) ≡ filled (b || a) o
  filled-filled a true (some x) = refl
  filled-filled a false (some x) = refl
  filled-filled a true none = refl
  filled-filled true false none = refl
  filled-filled false false none = refl

  filled-false : (o : Option W) → filled false o ≡ o
  filled-false (some x) = refl
  filled-false none = refl

  entered-filled :
      (b x : NodeId) (row : Map NodeId W)
      → find b (if has x row then row else put x min_throughput row) ≡ filled (x =? b) (find b row)
  entered-filled b x row = elim (Bool-cases (has x row)) [
    | inl h ↦ elim (Bool-cases (x =? b)) [
      | inl y ↦
          let (v, f) =
            has-find b row (subst (λ i. has i row ≡ true) ((node_id_eq.test_iff x b).0 y) h) in
          rw (h, y, f) refl
      | inr n ↦ rw (h, n) (sym (filled-false (find b row)))
    ]
    | inr h ↦ elim (Bool-cases (x =? b)) [
      | inl y ↦
          let gone =
            find-none b row (subst (λ i. has i row ≡ false) ((node_id_eq.test_iff x b).0 y) h) in
          rw (h, find-put b x min_throughput row, y, gone) refl
      | inr n ↦ rw (h, find-put b x min_throughput row, n) (sym (filled-false (find b row)))
    ]
  ]

  fill_row-filled :
      (b : NodeId) (bs : List NodeId) (row : Map NodeId W)
      → find b (fill_row bs row) ≡ filled (has_elem b bs) (find b row)
  unfolding fill_row
  fill_row-filled b [] row = sym (filled-false (find b row))
  fill_row-filled b (x ∷ bs) row =
      fill_row-filled b bs (if has x row then row else put x min_throughput row)
      ∙ ap (filled (has_elem b bs)) (entered-filled b x row)
      ∙ filled-filled (has_elem b bs) (x =? b) (find b row)

  -- One client's row is filled.
  put_row-filled :
      (k b c : NodeId) (bs : List NodeId) (stats : Table W)
      → lookup_stats k b (put c (fill_row bs (get_or [] c stats)) stats)
        ≡ filled ((c =? k) && has_elem b bs) (lookup_stats k b stats)
  unfolding lookup_stats
  put_row-filled k b c bs stats =
      let row = fill_row bs (get_or [] c stats) in
      let read = get_or-put [] row k c stats in
      elim (Bool-cases (c =? k)) [
        | inl y ↦
            let now : get_or [] k (put c row stats) ≡ row = rw y at read in
            ap (find b) now
            ∙ fill_row-filled b bs (get_or [] c stats)
            ∙ rw y (
                ap (λ i. filled (has_elem b bs) (find b (get_or [] i stats)))
                  ((node_id_eq.test_iff c k).0 y))
        | inr n ↦
            let now : get_or [] k (put c row stats) ≡ get_or [] k stats = rw n at read in
            ap (find b) now ∙ rw n (sym (filled-false (find b (get_or [] k stats))))
      ]

  -- A report stays, and each listed client has an entry for each listed station.
  pub fill_stats-filled :
      (k b : NodeId) (bs cs : List NodeId) (stats : Table W)
      → lookup_stats k b (fill_stats bs cs stats)
        ≡ filled (has_elem k cs && has_elem b bs) (lookup_stats k b stats)
  unfolding fill_stats
  fill_stats-filled k b bs [] stats = sym (filled-false (lookup_stats k b stats))
  fill_stats-filled k b bs (c ∷ cs) stats =
      fill_stats-filled k b bs cs (put c (fill_row bs (get_or [] c stats)) stats)
      ∙ ap (filled (has_elem k cs && has_elem b bs)) (put_row-filled k b c bs stats)
      ∙ filled-filled (has_elem k cs && has_elem b bs) ((c =? k) && has_elem b bs)
          (lookup_stats k b stats)
      ∙ ap (λ t. filled t (lookup_stats k b stats))
          (bool_split (c =? k) (has_elem k cs) (has_elem b bs))
