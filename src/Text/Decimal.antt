-- ===== src/Text/Decimal.antt =====
-- The text of an address in the internet: its four bytes in decimal, with dots between them.
use wspace_controller.Prelude.{
  ℕ, zero, suc, ◌+◌, ◌/◌, ◌%◌, ◌≤◌, ◌<◌, ◌≡◌, refl, ap, List, [], ◌∷◌, ◌++◌, arith, ltb,
  if◌then◌else◌, length, take, length-append, ==-ne,
}
use wspace_controller.Prelude.Int.{pos}
use wspace_controller.Prelude.Result.{ok, err, undefined}
use wspace_controller.Text.{atoi, after_last_char, skip_spaces, leading_number}
use wspace_controller.Text.Laws.{IsWithout}

abbrev digit : ℕ → ℕ
digit n = b'0' + n

-- A number below 1000, without leading zeros.
unfoldable pub decimal : ℕ → List ℕ
decimal n =
    if ltb n 10
    then digit n ∷ []
    else if ltb n 100
    then digit (n / 10) ∷ digit (n % 10) ∷ []
    else digit (n / 100) ∷ digit (n / 10 % 10) ∷ digit (n % 10) ∷ []

abbrev pub dotted : ℕ → ℕ → ℕ → ℕ → List ℕ
dotted a b c d = decimal a ++ (b'.' ∷ (decimal b ++ (b'.' ∷ (decimal c ++ (b'.' ∷ decimal d)))))

length-decimal : (n : ℕ) → length (decimal n) ≤ 3
unfolding decimal
length-decimal n = ground arith

decimal-IsWithout : (n : ℕ) → n < 256 → IsWithout b'.' (decimal n)
unfolding decimal
decimal-IsWithout n h = ground arith

pub atoi-decimal : (n : ℕ) → n < 256 → atoi (decimal n) ≡ ok (pos n)
unfolding atoi decimal skip_spaces leading_number
atoi-decimal n h = ground arith

pub take-length : (xs : List ℕ) (n : ℕ) → length xs ≤ n → take n xs ≡ xs
take-length [] zero h = refl
take-length [] (suc n) h = refl
take-length (x ∷ xs) zero h = absurd (omega arith)
take-length (x ∷ xs) (suc n) h = ap (◌∷◌ x) (take-length xs n (omega arith))

after_last_char-none : (c : ℕ) (s : List ℕ) → IsWithout c s → after_last_char c s ≡ err undefined
unfolding after_last_char
after_last_char-none c [] w = refl
after_last_char-none c (x ∷ xs) w = rw (after_last_char-none c xs w.1, ==-ne x c w.0) refl

after_last_char-append :
    (c : ℕ) (s t u : List ℕ) → after_last_char c t ≡ ok u → after_last_char c (s ++ t) ≡ ok u
unfolding after_last_char
after_last_char-append c [] t u e = e
after_last_char-append c (x ∷ s) t u e = rw (after_last_char-append c s t u e) refl

after_last_char-last : (c : ℕ) (u : List ℕ) → IsWithout c u → after_last_char c (c ∷ u) ≡ ok u
unfolding after_last_char
after_last_char-last c u w = rw (after_last_char-none c u w) (ground arith)

-- What follows the last dot of an address is its last byte.
pub after_last_char-dotted :
    (a b c d : ℕ) → d < 256 → after_last_char b'.' (dotted a b c d) ≡ ok (decimal d)
after_last_char-dotted a b c d h =
    let skip = after_last_char-append b'.' in
    let last = after_last_char-last b'.' (decimal d) (decimal-IsWithout d h) in
    skip (decimal a) _ _ (
      skip (b'.' ∷ []) _ _
        (skip (decimal b) _ _ (skip (b'.' ∷ []) _ _ (skip (decimal c) _ _ last))))

-- It fits an array of 16 bytes.
pub take-dotted : (a b c d : ℕ) → take 16 (dotted a b c d) ≡ dotted a b c d
take-dotted a b c d = take-length (dotted a b c d) 16 (
    omega (
      arith,
      length-append {A = ℕ},
      length-decimal a,
      length-decimal b,
      length-decimal c,
      length-decimal d,
    ))
