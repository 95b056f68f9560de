-- ===== src/Text.antt =====
-- What the program uses of the C and C++ libraries on text: `getline` with a separator, `atoi`,
-- `strchr` and `strrchr`. A string is the list of its bytes, without the null byte that ends it.
pub mod Laws
pub mod Decimal
use wspace_controller.Prelude.{
  ℕ, ◌+◌, ◌-◌, ◌*◌, ◌≡◌, Bool, true, false, ◌&&◌, ◌||◌, List, [], ◌∷◌, Option, none, some, leb,
  ◌==◌, if◌then◌else◌,
}
use wspace_controller.Prelude.Int.{ℤ, pos, sub_ℕ}
use wspace_controller.Prelude.Result.{Result, ok, err, undefined}

-- `while (getline (ss, s, sep))`: the fields, of which a last empty one is not read.
abbrev pub cons_first : ℕ → List (List ℕ) → List (List ℕ)
cons_first c [] = (c ∷ []) ∷ []
cons_first c (f ∷ fs) = (c ∷ f) ∷ fs

unfoldable pub fields : ℕ → List ℕ → List (List ℕ)
fields sep [] = []
fields sep (c ∷ cs) = if c == sep then [] ∷ fields sep cs else cons_first c (fields sep cs)

-- `isspace`.
abbrev is_space : ℕ → Bool
is_space c = (c == b' ') || (leb 9 c && leb c 13)

abbrev is_digit : ℕ → Bool
is_digit c = leb b'0' c && leb c b'9'

unfoldable skip_spaces : List ℕ → List ℕ
skip_spaces [] = []
skip_spaces (c ∷ cs) = if is_space c then skip_spaces cs else c ∷ cs

-- The number that the leading digits write, after those that are read.
unfoldable leading_number : ℕ → List ℕ → ℕ
leading_number n [] = n
leading_number n (c ∷ cs) = if is_digit c then leading_number (n * 10 + (c - b'0')) cs else n

abbrev signed_number : List ℕ → ℤ
unfolding leading_number
signed_number [] = pos 0
signed_number (c ∷ cs) =
    if c == b'-'
    then sub_ℕ 0 (leading_number 0 cs)
    else if c == b'+'
    then pos (leading_number 0 cs)
    else pos (leading_number 0 (c ∷ cs))

-- A value of the type `int`.
abbrev pub is_int : ℤ → Bool
is_int (pos n) = leb n 2147483647
is_int (ℤ.negsuc n) = leb n 2147483647

-- A number out of the range of `int` is undefined.
unfoldable pub atoi : List ℕ → Result ℤ
unfolding skip_spaces signed_number
atoi s = let n = signed_number (skip_spaces s) in if is_int n then ok n else err undefined

-- `strchr (s, c) + 1`, which is undefined where `c` is not in `s`.
unfoldable pub after_char : ℕ → List ℕ → Result (List ℕ)
after_char c [] = err undefined
after_char c (x ∷ xs) = if x == c then ok xs else after_char c xs

-- `strrchr (s, c) + 1`, likewise.
unfoldable pub after_last_char : ℕ → List ℕ → Result (List ℕ)
after_last_char c [] = err undefined
after_last_char c (x ∷ xs) = elim (after_last_char c xs) [
  | ok s ↦ ok s
  | err fault ↦ if x == c then ok xs else err fault
]
