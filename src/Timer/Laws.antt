-- ===== src/Timer/Laws.antt =====
-- Timers are ordered and added as the times that they stand for.
use wspace_controller.Prelude.{
  ◌+◌, ◌*◌, ◌<◌, ◌≡◌, true, false, arith, inl, inr, Bool-cases, ◌↔◌, not, lt→ltb, ge→ltb,
}
use wspace_controller.Prelude.Int.{
  ℤ, pos, pos_part, neg_part, ◌+ℤ◌, ◌-ℤ◌, ◌≤ℤ◌, ◌<ℤ◌, ltb_ℤ, leb_ℤ, eqb_ℤ_iff, +ℤ_parts, -ℤ_parts,
  eq_of_parts, int_laws,
}
use wspace_controller.Timer.{Timer, billion, lt, gt, ge, le, sub, add}

-- The nanoseconds are those of less than one second.
pub record IsNormal (t : Timer) : Type 0 where
  pub low : pos 0 ≤ℤ t.nsec
  pub high : t.nsec <ℤ billion

-- The time in nanoseconds is less.
abbrev pub IsBefore : Timer → Timer → Type 0
IsBefore a b =
    1_000_000_000 * (pos_part a.sec + neg_part b.sec) + pos_part a.nsec + neg_part b.nsec
    < 1_000_000_000 * (pos_part b.sec + neg_part a.sec) + pos_part b.nsec + neg_part a.nsec

-- The sum of two timers with nanoseconds from 0 to a billion, the end excluded, has such ones again.
pub add-IsNormal : (a b : Timer) → IsNormal a → IsNormal b → IsNormal (add a b)
unfolding add
add-IsNormal a b v w = ground (arith, +ℤ_parts a.nsec b.nsec, -ℤ_parts (a.nsec +ℤ b.nsec) billion)

pub sub-IsNormal : (a b : Timer) → IsNormal a → IsNormal b → IsNormal (sub a b)
unfolding sub
sub-IsNormal a b v w = ground (arith, -ℤ_parts a.nsec b.nsec, +ℤ_parts (a.nsec -ℤ b.nsec) billion)

timer_path :
    {s s' n n' : ℤ}
    → s ≡ s'
    → n ≡ n'
    → ◌≡◌ {A = Timer} (record { sec = s; nsec = n }) (record { sec = s'; nsec = n' })
timer_path p q = λ i. record { sec = p i; nsec = q i }

borrow_back :
    (a b : Timer) → IsNormal a → ltb_ℤ (a.nsec +ℤ b.nsec -ℤ billion -ℤ b.nsec) (pos 0) ≡ true
borrow_back a b v = lt→ltb _ _ (omega int_laws)

no_borrow : (a b : Timer) → IsNormal a → ltb_ℤ (a.nsec +ℤ b.nsec -ℤ b.nsec) (pos 0) ≡ false
no_borrow a b v = ge→ltb _ _ (omega int_laws)

-- For timers with nanoseconds from 0 to a billion, the end excluded: taking away what was added gives
-- the timer back.
pub sub-add : (a b : Timer) → IsNormal a → IsNormal b → sub (add a b) b ≡ a
unfolding sub add
sub-add a b v w = elim (Bool-cases (leb_ℤ billion (a.nsec +ℤ b.nsec))) [
  | inl carry ↦ rw (carry, borrow_back a b v) (timer_path (omega int_laws) (omega int_laws))
  | inr small ↦ rw (small, no_borrow a b v) (timer_path (omega int_laws) (omega int_laws))
]

-- For timers with nanoseconds from 0 to a billion, the end excluded, `<` is the order of time.
pub lt_iff : (a b : Timer) → IsNormal a → IsNormal b → (lt a b ≡ true) ↔ IsBefore a b
unfolding lt
lt_iff a b v w = (
  λ h. ground (arith, eqb_ℤ_iff a.sec b.sec),
  λ h. ground (arith, eqb_ℤ_iff a.sec b.sec, eq_of_parts a.sec b.sec),
)

-- For any two timers, `>` is `<` with the sides swapped, and `>=` and `<=` are the negations of `<`
-- and `>`.
pub comparisons_agree :
    (a b : Timer) → (gt a b ≡ lt b a) × (ge a b ≡ not (lt a b)) × (le a b ≡ not (lt b a))
unfolding lt gt ge le
comparisons_agree a b =
    ground (arith, eqb_ℤ_iff a.sec b.sec, eqb_ℤ_iff b.sec a.sec, eq_of_parts a.sec b.sec)
