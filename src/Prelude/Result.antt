-- ===== src/Prelude/Result.antt =====
-- How a call can fail to return: an assertion, `exit`, or an access that C++ leaves undefined.
use mathlib.Core.Path.{◌≡◌, refl}
use mathlib.Core.Bool.{Bool, true, false}

pub data Fault : Type 0 where
  assert_failed : Fault
  exited : Fault
  undefined : Fault
  out_of_fuel : Fault

pub data Result {ℓ} (A : Type ℓ) : Type ℓ where
  err : Fault → Result A
  ok : A → Result A

-- `assert (b)`, and the other checks that end the run.
abbrev pub guard : Bool → Fault → Result (Unit {0})
guard false fault = err fault
guard true fault = ok tt

pub ok-injective {ℓ} : {A : Type ℓ} (a b : A) → ok a ≡ ok b → a ≡ b
ok-injective a b e = cc

module _ {ℓ κ} {A : Type ℓ} {B : Type κ} where
  infixl 5 ◌>>=◌
  abbrev pub ◌>>=◌ : Result A → (A → Result B) → Result B
  err fault >>= next = err fault
  ok value >>= next = next value

  -- A chain that ends well has a first part that did.
  pub >>=-eq-ok :
      (first : Result A) (next : A → Result B) {b : B}
      → (first >>= next) ≡ ok b
      → (a : A) × (first ≡ ok a) × (next a ≡ ok b)
  >>=-eq-ok (err fault) next ends = cc
  >>=-eq-ok (ok value) next ends = (value, refl, ends)

module _ {κ} {B : Type κ} where
  infixl 5 ◌>>◌
  abbrev pub ◌>>◌ : Result (Unit {0}) → Result B → Result B
  err fault >> rest = err fault
  ok done >> rest = rest

  -- So does a test that holds.
  pub guard-eq-ok :
      (b : Bool) (fault : Fault) (rest : Result B) (v : B)
      → (guard b fault >> rest) ≡ ok v
      → (b ≡ true) × (rest ≡ ok v)
  guard-eq-ok false fault rest v ends = cc
  guard-eq-ok true fault rest v ends = (refl, ends)
