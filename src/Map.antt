-- ===== src/Map.antt =====
-- `std::unordered_map` as an association list: one entry for each key, in an order that C++ leaves
-- open. `operator[]` is `put` where a whole value is assigned, and `update` where a field of the value is.
pub mod Laws
pub mod Every
use wspace_controller.Prelude.{
  ◌≡◌, refl, ◌↔◌, Bool, true, false, ◌||◌, List, [], ◌∷◌, Option, none, some, if◌then◌else◌, inl,
  inr, Bool-cases, ◌≢◌, map,
}

pub record Eq {ℓ} (A : Type ℓ) : Type ℓ where
  pub test : A → A → Bool
  pub test_iff : (a b : A) → (test a b ≡ true) ↔ (a ≡ b)

module _ {ℓ} {A : Type ℓ} ⦃e : Eq A⦄ where
  infix 50 ◌=?◌
  abbrev pub ◌=?◌ : A → A → Bool
  x =? y = e.test x y

  pub =?-refl : (a : A) → (a =? a) ≡ true
  =?-refl a = (e.test_iff a a).1 refl

  pub =?-ne : (a b : A) → a ≢ b → (a =? b) ≡ false
  =?-ne a b h = elim (Bool-cases (a =? b)) [ inl y ↦ absurd (h ((e.test_iff a b).0 y)) | inr n ↦ n ]

  -- The element is in the list.
  abbrev pub has_elem : A → List A → Bool
  has_elem a [] = false
  has_elem a (x ∷ xs) = (x =? a) || has_elem a xs

abbrev pub Map {ℓ} : Type ℓ → Type ℓ → Type ℓ
Map K V = List (K × V)

module _ {ℓ} {K : Type ℓ} {V : Type ℓ} ⦃e : Eq K⦄ where
  unfoldable pub find : K → Map K V → Option V
  find k [] = none
  find k ((j, v) ∷ m) = if j =? k then some v else find k m

  unfoldable pub put : K → V → Map K V → Map K V
  put k v [] = (k, v) ∷ []
  put k v ((j, w) ∷ m) = if j =? k then (k, v) ∷ m else (j, w) ∷ put k v m

  -- `count (k)`, which is 0 or 1.
  unfoldable pub has : K → Map K V → Bool
  has k [] = false
  has k ((j, v) ∷ m) = (j =? k) || has k m

  -- The entry at a key, or the default value where there is none.
  unfoldable pub get_or : V → K → Map K V → V
  get_or d k m = elim (find k m) [ none ↦ d | some v ↦ v ]

  -- `m[k].field = ...`: a missing entry is made from the default value first.
  unfoldable pub update : V → K → (V → V) → Map K V → Map K V
  unfolding get_or
  update d k f m = put k (f (get_or d k m)) m

abbrev pub keys {ℓ} : {K V : Type ℓ} → Map K V → List K
keys = map λ p. p.0
