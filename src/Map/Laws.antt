-- ===== src/Map/Laws.antt =====
-- The laws of the maps: what is found after a write, and that no key is entered twice.
use wspace_controller.Prelude.{
  subst, ◌≡◌, refl, sym, ap, ◌∙◌, ◌⊎◌, true, false, ◌||◌, [], ◌∷◌, none, some, arith, if◌then◌else◌,
  inl, inr, Bool-cases, or-true, or-false, ◌≢◌,
}
use mathlib.Core.Option.{some-injective}
use wspace_controller.Map.{
  Eq, ◌=?◌, =?-refl, =?-ne, has_elem, Map, find, put, has, keys, get_or, update,
}

module _ {ℓ} {K : Type ℓ} {V : Type ℓ} ⦃e : Eq K⦄ where
  pub find-put :
      (j k : K) (v : V) (m : Map K V) → find j (put k v m) ≡ (if k =? j then some v else find j m)
  unfolding find put
  find-put j k v [] = refl
  find-put j k v ((i, w) ∷ m) =
      ground (arith, e.test_iff k j, e.test_iff i k, e.test_iff i j, find-put j k v m)

  pub find-put_self : (k : K) (v : V) (m : Map K V) → find k (put k v m) ≡ some v
  find-put_self k v m = rw (find-put k k v m, =?-refl k)

  pub find-put_ne : (j k : K) (v : V) (m : Map K V) → k ≢ j → find j (put k v m) ≡ find j m
  find-put_ne j k v m h = rw (find-put j k v m, =?-ne k j h)

  pub has-put : (j k : K) (v : V) (m : Map K V) → has j (put k v m) ≡ ((k =? j) || has j m)
  unfolding has put
  has-put j k v [] = refl
  has-put j k v ((i, w) ∷ m) =
      ground (arith, e.test_iff k j, e.test_iff i k, e.test_iff i j, has-put j k v m)

  pub has-put_self : (k : K) (v : V) (m : Map K V) → has k (put k v m) ≡ true
  has-put_self k v m = rw (has-put k k v m, =?-refl k)

  pub has-put_old : (j k : K) (v : V) (m : Map K V) → has j m ≡ true → has j (put k v m) ≡ true
  has-put_old j k v m h = rw (has-put j k v m, h) (or-true (k =? j))

  -- A key that is there already adds none.
  pub has-put_known : (j k : K) (v : V) (m : Map K V) → has k m ≡ true → has j (put k v m) ≡ has j m
  has-put_known j k v m h = has-put j k v m ∙ elim (Bool-cases (k =? j)) [
    | inl y ↦ rw y (sym (subst (λ i. has i m ≡ true) ((e.test_iff k j).0 y) h))
    | inr n ↦ rw n refl
  ]

  -- A second write at a key hides the first, and a write of what is there changes nothing.
  pub put-put : (k : K) (v w : V) (m : Map K V) → put k v (put k w m) ≡ put k v m
  unfolding put
  put-put k v w [] = rw (=?-refl k) refl
  put-put k v w ((i, u) ∷ m) = elim (Bool-cases (i =? k)) [
    | inl y ↦ rw (y, =?-refl k) refl
    | inr n ↦ rw n (rw n (ap (λ t. (i, u) ∷ t) (put-put k v w m)))
  ]

  pub put-found : (k : K) (v : V) (m : Map K V) → find k m ≡ some v → put k v m ≡ m
  unfolding put find
  put-found k v [] f = cc
  put-found k v ((i, u) ∷ m) f = elim (Bool-cases (i =? k)) [
    | inl y ↦ rw y (
        ap (λ p. p ∷ m)
          (λ j. (sym ((e.test_iff i k).0 y) j, sym (some-injective _ _ (rw y at f)) j)))
    | inr n ↦ rw n (ap (λ t. (i, u) ∷ t) (put-found k v m (rw n at f)))
  ]

  pub has-put_new : (j k : K) (v : V) (m : Map K V) → has j (put k v m) ≡ false → has j m ≡ false
  has-put_new j k v m h = (or-false (k =? j) (has j m) (sym (has-put j k v m) ∙ h)).1

  pub has-eq-has_elem : (k : K) (m : Map K V) → has k m ≡ has_elem k (keys m)
  unfolding has
  has-eq-has_elem k [] = refl
  has-eq-has_elem k ((j, v) ∷ m) = rw (has-eq-has_elem k m)

  pub has-find : (k : K) (m : Map K V) → has k m ≡ true → (v : V) × (find k m ≡ some v)
  unfolding has find
  has-find k [] h = cc
  has-find k ((j, v) ∷ m) h = elim (Bool-cases (j =? k)) [
    | inl y ↦ (v, rw y)
    | inr n ↦ let (w, f) = has-find k m (rw n at h) in (w, rw n f)
  ]

  pub find-none : (k : K) (m : Map K V) → has k m ≡ false → find k m ≡ none
  unfolding has find
  find-none k [] h = refl
  find-none k ((j, v) ∷ m) h = ground (arith, find-none k m)

  pub has_of_find : (k : K) (m : Map K V) (v : V) → find k m ≡ some v → has k m ≡ true
  unfolding has find
  has_of_find k [] v h = cc
  has_of_find k ((j, w) ∷ m) v h = ground (arith, has_of_find k m v)

  pub has_of_none : (k : K) (m : Map K V) → find k m ≡ none → has k m ≡ false
  has_of_none k m h = elim (Bool-cases (has k m)) [
    | inl y ↦ let (v, f) = has-find k m y in cc
    | inr n ↦ n
  ]

  pub find-nil : (k : K) (v : V) → find {V = V} k [] ≡ some v → ⊥
  unfolding find
  find-nil k v f = cc

  pub find-cons_old :
      (j k : K) (v w : V) (m : Map K V)
      → has k m ≡ false
      → find j m ≡ some v
      → find j ((k, w) ∷ m) ≡ some v
  unfolding find
  find-cons_old j k v w m fresh f = elim (Bool-cases (k =? j)) [
    | inl y ↦
        let kj : k ≡ j = (e.test_iff k j).0 y in
        cc (sym fresh ∙ ap (λ i. has i m) kj ∙ has_of_find j m v f)
    | inr n ↦ rw n f
  ]

  pub find-cons_self : (k : K) (v : V) (m : Map K V) → find k ((k, v) ∷ m) ≡ some v
  unfolding find
  find-cons_self k v m = rw (=?-refl k)

  pub find-cons_cases :
      (j k : K) (v w : V) (m : Map K V)
      → find j ((k, w) ∷ m) ≡ some v
      → (some w ≡ some v) ⊎ (find j m ≡ some v)
  unfolding find
  find-cons_cases j k v w m f = elim (Bool-cases (k =? j)) [
    | inl y ↦ inl (rw y at f)
    | inr n ↦ inr (rw n at f)
  ]

  pub find-update :
      (d : V) (j k : K) (f : V → V) (m : Map K V)
      → find j (update d k f m) ≡ (if k =? j then some (f (get_or d k m)) else find j m)
  unfolding update
  find-update d j k f m = find-put j k (f (get_or d k m)) m

  pub get_or-update :
      (d : V) (j k : K) (f : V → V) (m : Map K V)
      → get_or d j (update d k f m) ≡ (if k =? j then f (get_or d j m) else get_or d j m)
  unfolding get_or
  get_or-update d j k f m =
      rw (find-update d j k f m, get_or)
        (elim (Bool-cases (k =? j)) [ inl y ↦ rw y (rw ((e.test_iff k j).0 y)) | inr n ↦ rw n ])

  pub get_or-put :
      (d v : V) (j k : K) (m : Map K V)
      → get_or d j (put k v m) ≡ (if k =? j then v else get_or d j m)
  unfolding get_or
  get_or-put d v j k m = elim (Bool-cases (k =? j)) [
    | inl y ↦ rw (get_or, find-put j k v m, y)
    | inr n ↦ rw (get_or, find-put j k v m, n)
  ]

  pub get_or-find : (d : V) (k : K) (m : Map K V) (v : V) → find k m ≡ some v → get_or d k m ≡ v
  unfolding get_or
  get_or-find d k m v h = rw (h, get_or)

  -- A read of an entry that is missing enters the default, and every entry reads as before.
  pub get_or-put_same :
      (d : V) (j k : K) (m : Map K V) → get_or d j (put k (get_or d k m) m) ≡ get_or d j m
  get_or-put_same d j k m = elim (Bool-cases (k =? j)) [
    | inl y ↦
        rw (get_or-put d (get_or d k m) j k m, y) (ap (λ i. get_or d i m) ((e.test_iff k j).0 y))
    | inr n ↦ rw (get_or-put d (get_or d k m) j k m, n) refl
  ]

-- No key has two entries, as in every `unordered_map`.
abbrev pub HasUniqueKeys {ℓ} : {K V : Type ℓ} ⦃e : Eq K⦄ → Map K V → Type 0
HasUniqueKeys [] = Unit
HasUniqueKeys ((k, v) ∷ m) = (has k m ≡ false) × HasUniqueKeys m

module _ {ℓ} {K : Type ℓ} {V : Type ℓ} ⦃e : Eq K⦄ where
  pub put-HasUniqueKeys :
      (k : K) (v : V) (m : Map K V) → HasUniqueKeys m → HasUniqueKeys (put k v m)
  unfolding has put
  put-HasUniqueKeys k v [] u = (refl, tt)
  put-HasUniqueKeys k v ((j, w) ∷ m) u =
      ground (arith, has-put j k v m, e.test_iff j k, e.test_iff k j, put-HasUniqueKeys k v m u.1)

pub ruleset map_laws = (find-put, has-put, =?-refl)
