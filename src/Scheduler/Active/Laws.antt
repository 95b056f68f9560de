-- ===== src/Scheduler/Active/Laws.antt =====
-- The active list holds each client once, and its set is the set of its list.
use wspace_controller.Prelude.{
  ◌≡◌, refl, false, ◌||◌, ◌&&◌, not, List, [], ◌∷◌, ◌++◌, none, some, arith, if◌then◌else◌,
  Bool-cases, inl, inr, subst, ap, ◌∙◌,
}
use wspace_controller.Map.{◌=?◌, has_elem}
use wspace_controller.NodeId.{NodeId, node_id_eq}
use wspace_controller.Scheduler.Active.{ActiveList, empty, append, remove, erase_id}

abbrev pub AreDistinct : List NodeId → Type 0
AreDistinct [] = Unit
AreDistinct (x ∷ xs) = (has_elem x xs ≡ false) × AreDistinct xs

pub record IsSynced (l : ActiveList) : Type 0 where
  pub distinct : AreDistinct l.ids
  pub same : (k : NodeId) → has_elem k l.exist ≡ has_elem k l.ids

pub has_elem-append :
    (k : NodeId) (xs ys : List NodeId) → has_elem k (xs ++ ys) ≡ (has_elem k xs || has_elem k ys)
has_elem-append k [] ys = refl
has_elem-append k (x ∷ xs) ys = ground (arith, has_elem-append k xs ys)

append-AreDistinct :
    (xs : List NodeId) (k : NodeId)
    → AreDistinct xs
    → has_elem k xs ≡ false
    → AreDistinct (xs ++ k ∷ [])
append-AreDistinct [] k a h = (refl, tt)
append-AreDistinct (x ∷ xs) k a h = ground (
  arith,
  append-AreDistinct xs k a.1,
  has_elem-append x xs (k ∷ []),
  node_id_eq.test_iff x k,
  node_id_eq.test_iff k x,
)

has_elem-erase_id :
    (j k : NodeId) (xs : List NodeId) → has_elem j (erase_id k xs) ≡ (has_elem j xs && not (j =? k))
unfolding erase_id
has_elem-erase_id j k [] = refl
has_elem-erase_id j k (x ∷ xs) = ground (
  arith,
  has_elem-erase_id j k xs,
  node_id_eq.test_iff x k,
  node_id_eq.test_iff x j,
  node_id_eq.test_iff j k,
)

pub empty-IsSynced : IsSynced empty
unfolding empty
empty-IsSynced = record { distinct = tt; same = λ k. refl }

-- Where the list and the set hold the same ids, each once, `Append` keeps them so; it puts a new id
-- last, and leaves the list as it was where the id waits already.
pub append_lem :
    (id : NodeId) (l : ActiveList)
    → IsSynced l
    → IsSynced (append id l)
      × ((append id l).ids ≡ (if has_elem id l.ids then l.ids else l.ids ++ id ∷ []))
unfolding append
append_lem id l v = elim (Bool-cases (has_elem id l.exist)) [
  | inl old ↦ rw (old, append) (v, rw (← v.same id, old))
  | inr new ↦
      let fresh : has_elem id l.ids ≡ false = rw (v.same id) at new in
      rw (new, fresh)
        (
          record {
            distinct = append-AreDistinct l.ids id v.distinct fresh;
            same = λ k. ground (arith, has_elem-append k l.ids (id ∷ []), v.same k);
          },
          refl,
        )
]

remove_parts :
    (l : ActiveList) (id : NodeId) (l' : ActiveList)
    → remove l ≡ some (id, l')
    → (l.ids ≡ id ∷ l'.ids) × (l'.exist ≡ erase_id id l.exist)
unfolding remove
remove_parts l id l' e = ground arith

-- Where the list and the set hold the same ids, each once, `Remove`, if it does not sleep, hands out the
-- oldest id and takes it out of both, which go on to hold the same ids.
pub remove-IsSynced :
    (l : ActiveList) (id : NodeId) (l' : ActiveList)
    → IsSynced l
    → remove l ≡ some (id, l')
    → IsSynced l' × (l.ids ≡ id ∷ l'.ids) × (has_elem id l'.exist ≡ false)
remove-IsSynced l id l' v e =
    let (ids_eq, exist_eq) = remove_parts l id l' e in
    let distinct : AreDistinct (id ∷ l'.ids) = subst AreDistinct ids_eq v.distinct in
    let same : (k : NodeId) → has_elem k l'.exist ≡ has_elem k l'.ids = λ k. ground (
      arith,
      ap (has_elem k) exist_eq,
      ap (has_elem k) ids_eq,
      has_elem-erase_id k id l.exist,
      v.same k,
      distinct.0,
      node_id_eq.test_iff id k,
      node_id_eq.test_iff k id,
    ) in
    (record { distinct = distinct.1; same = same }, ids_eq, same id ∙ distinct.0)

pub remove-none : (l : ActiveList) → remove l ≡ none → l.ids ≡ []
unfolding remove
remove-none l e = ground arith

pub append_other :
    (k id : NodeId) (l : ActiveList)
    → (id =? k) ≡ false
    → has_elem k (append id l).ids ≡ has_elem k l.ids
unfolding append
append_other k id l n = elim (Bool-cases (has_elem id l.exist)) [
  | inl old ↦ rw old
  | inr new ↦ rw new (ground (arith, has_elem-append k l.ids (id ∷ [])))
]
