-- ===== src/Map/Every.antt =====
-- A predicate of all values of a map.
use wspace_controller.Prelude.{◌≡◌, subst, [], ◌∷◌, some, inl, inr, Bool-cases}
use mathlib.Core.Option.{some-injective}
use wspace_controller.Map.{Eq, ◌=?◌, Map, find, put}

module _ {ℓ} {K : Type ℓ} {V : Type ℓ} where
  abbrev pub IsEvery : (V → Type ℓ) → Map K V → Type ℓ
  IsEvery P [] = Unit
  IsEvery P ((k, v) ∷ m) = P v × IsEvery P m

module _ {ℓ} {K : Type ℓ} {V : Type ℓ} ⦃e : Eq K⦄ (P : V → Type ℓ) where
  pub IsEvery-find : (k : K) (v : V) (m : Map K V) → IsEvery P m → find k m ≡ some v → P v
  unfolding find
  IsEvery-find k v [] a f = cc
  IsEvery-find k v ((j, w) ∷ m) a f = elim (Bool-cases (j =? k)) [
    | inl y ↦ subst P (some-injective _ _ (rw y at f)) a.0
    | inr n ↦ IsEvery-find k v m a.1 (rw n at f)
  ]

  pub put-IsEvery : (k : K) (v : V) (m : Map K V) → P v → IsEvery P m → IsEvery P (put k v m)
  unfolding put
  put-IsEvery k v [] p a = (p, tt)
  put-IsEvery k v ((j, w) ∷ m) p a = elim (Bool-cases (j =? k)) [
    | inl y ↦ rw y (p, a.1)
    | inr n ↦ rw n (a.0, put-IsEvery k v m p a.1)
  ]
