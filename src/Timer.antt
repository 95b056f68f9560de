-- ===== src/Timer.antt =====
-- `MonotonicTimer` of monotonic_timer.h and monotonic_timer.cc: seconds and nanoseconds. The values
-- are integers here; a sum that leaves the range of `time_t` or `long` is undefined in C++.
pub mod Laws
use wspace_controller.Prelude.{
  ℕ, ◌*◌, ◌≡◌, Bool, true, false, ◌&&◌, ◌||◌, if◌then◌else◌, Option, some, none,
}
use wspace_controller.Prelude.Int.{
  ℤ, pos, negsuc, ◌+ℤ◌, ◌-ℤ◌, ◌*ℤ◌, ◌/ℤ◌, ◌%ℤ◌, ltb_ℤ, leb_ℤ, eqb_ℤ,
}

pub record Timer : Type 0 where
  pub sec : ℤ
  pub nsec : ℤ

abbrev pub billion : ℤ
billion = pos 1_000_000_000

-- The five comparisons.
unfoldable pub eq : Timer → Timer → Bool
eq a b = eqb_ℤ a.sec b.sec && eqb_ℤ a.nsec b.nsec

unfoldable pub lt : Timer → Timer → Bool
lt a b =
    if ltb_ℤ a.sec b.sec
    then true
    else if eqb_ℤ a.sec b.sec && ltb_ℤ a.nsec b.nsec
    then true
    else false

unfoldable pub gt : Timer → Timer → Bool
gt a b =
    if ltb_ℤ b.sec a.sec
    then true
    else if eqb_ℤ a.sec b.sec && ltb_ℤ b.nsec a.nsec
    then true
    else false

unfoldable pub ge : Timer → Timer → Bool
ge a b =
    if ltb_ℤ b.sec a.sec
    then true
    else if eqb_ℤ a.sec b.sec && leb_ℤ b.nsec a.nsec
    then true
    else false

unfoldable pub le : Timer → Timer → Bool
le a b =
    if ltb_ℤ a.sec b.sec
    then true
    else if eqb_ℤ a.sec b.sec && leb_ℤ a.nsec b.nsec
    then true
    else false

-- `operator-=`, and `operator-` by it. A left side that is smaller is reported on the console only.
unfoldable pub sub : Timer → Timer → Timer
sub a b =
    let s = a.sec -ℤ b.sec in
    let n = a.nsec -ℤ b.nsec in
    if ltb_ℤ n (pos 0)
    then record { sec = s -ℤ pos 1; nsec = n +ℤ billion }
    else record { sec = s; nsec = n }

-- `operator+=`, and `operator+` by it.
unfoldable pub add : Timer → Timer → Timer
add a b =
    let s = a.sec +ℤ b.sec in
    let n = a.nsec +ℤ b.nsec in
    if leb_ℤ billion n
    then record { sec = s +ℤ pos 1; nsec = n -ℤ billion }
    else record { sec = s; nsec = n }

-- `operator/=` and `operator/`, for a divisor that is not 0.
unfoldable div : Timer → ℤ → Timer
div a n = record { sec = a.sec /ℤ n; nsec = (a.nsec /ℤ n) +ℤ (a.sec %ℤ n) *ℤ (billion /ℤ n) }
