-- ===== src/Double.antt =====
-- What the program does with a `double`: conversions, the four operations and `<`. The type and its
-- operations are the compiler's, so they are parameters; what rounding does is left open.
use wspace_controller.Prelude.{ℕ, Bool, true, ◌≡◌, refl, Bool-cases, inl, inr, if◌then◌else◌}
use wspace_controller.Prelude.Int.{ℤ, pos, negsuc, ◌+ℤ◌, ◌-ℤ◌, ◌*ℤ◌, ◌/ℤ◌, ltb_ℤ}
use wspace_controller.Text.{is_int}

pub record Double {ℓ} (W : Type ℓ) : Type ℓ where
  pub of_int : ℤ → W
  pub plus : W → W → W
  pub minus : W → W → W
  pub times : W → W → W
  pub over : W → W → W
  pub lt : W → W → Bool
  -- The conversion to `int`, which cuts off the fraction. C++ defines it where the whole part is in the
  -- range of `int`; for all other values it is some `int`, of which nothing is assumed.
  pub trunc : W → ℤ
  pub trunc_is_int : (w : W) → is_int (trunc w) ≡ true

module _ {ℓ} {W : Type ℓ} ⦃d : Double W⦄ where
  abbrev pub of_nat : ℕ → W
  of_nat n = d.of_int (pos n)

  -- `len * 8.0 / throughput`, as an `int`: the time to send a packet, in microseconds.
  unfoldable pub pkt_duration : ℕ → W → ℤ
  pkt_duration len throughput = d.trunc (d.over (d.times (of_nat len) (of_nat 8)) throughput)

-- The conversion of the instance: an integer out of range becomes the least `int`.
abbrev trunc_ℤ : ℤ → ℤ
trunc_ℤ n = if is_int n then n else negsuc 2147483647

pub trunc_ℤ-is_int : (n : ℤ) → is_int (trunc_ℤ n) ≡ true
trunc_ℤ-is_int n = elim (Bool-cases (is_int n)) [ inl y ↦ rw (y, y) refl | inr m ↦ rw m refl ]

-- An instance to run the definitions on: integers, with the division of `int`.
instance abbrev pub whole_double : Double ℤ
whole_double = record {
  of_int = λ n. n;
  plus = ◌+ℤ◌;
  minus = ◌-ℤ◌;
  times = ◌*ℤ◌;
  over = ◌/ℤ◌;
  lt = ltb_ℤ;
  trunc = trunc_ℤ;
  trunc_is_int = trunc_ℤ-is_int;
}
