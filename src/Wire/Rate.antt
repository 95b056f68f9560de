-- ===== src/Wire/Rate.antt =====
-- `AthHeader::SetRate` and `AthHeader::GetRate`: between a rate in units of 100 kb/s and the code that
-- the wireless card uses. Any other number ends the program.
use wspace_controller.Prelude.{ℕ, ◌≡◌, arith, ◌==◌, if◌then◌else◌}
use wspace_controller.Prelude.Result.{Result, ok, err, exited}

unfoldable pub set_rate : ℕ → Result ℕ
set_rate rate =
    if rate == 10
    then ok 0x1b
    else if rate == 20
    then ok 0x1a
    else if rate == 55
    then ok 0x19
    else if rate == 110
    then ok 0x18
    else if rate == 60
    then ok 0x0b
    else if rate == 90
    then ok 0x0f
    else if rate == 120
    then ok 0x0a
    else if rate == 180
    then ok 0x0e
    else if rate == 240
    then ok 0x09
    else if rate == 360
    then ok 0x0d
    else if rate == 480
    then ok 0x08
    else if rate == 540
    then ok 0x0c
    else err exited

unfoldable pub get_rate : ℕ → Result ℕ
get_rate code =
    if code == 0x1b
    then ok 10
    else if code == 0x1a
    then ok 20
    else if code == 0x19
    then ok 55
    else if code == 0x18
    then ok 110
    else if code == 0x0b
    then ok 60
    else if code == 0x0f
    then ok 90
    else if code == 0x0a
    then ok 120
    else if code == 0x0e
    then ok 180
    else if code == 0x09
    then ok 240
    else if code == 0x0d
    then ok 360
    else if code == 0x08
    then ok 480
    else if code == 0x0c
    then ok 540
    else err exited

-- A rate that `SetRate` accepts is what `GetRate` reads back.
pub get_rate-set_rate : (rate code : ℕ) → set_rate rate ≡ ok code → get_rate code ≡ ok rate
unfolding set_rate get_rate
get_rate-set_rate rate code e = ground arith

-- A code that `GetRate` knows is the one that `SetRate` gives for its rate.
pub set_rate-get_rate : (rate code : ℕ) → get_rate code ≡ ok rate → set_rate rate ≡ ok code
unfolding set_rate get_rate
set_rate-get_rate rate code e = ground arith
