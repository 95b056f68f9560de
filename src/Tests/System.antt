-- ===== src/Tests/System.antt =====
-- A wait of a second and a half, and a write of five bytes.
use wspace_controller.Prelude.{ℕ, ◌+◌, ◌*◌, ◌<◌, ◌≤◌, ◌≡◌, ◌≢◌, ◌⊎◌, refl, arith}
use wspace_controller.Prelude.Int.{pos, ◌+ℤ◌, ◌-ℤ◌, ◌*ℤ◌}
use wspace_controller.Prelude.Result.{ok, err, assert_failed}
use wspace_controller.Deadline.{time_to_wait, time_to_wait_lem, wait_until}
use wspace_controller.Tun.{control, write, write_lem}

time_to_wait_lem_example :
    (sec' us : ℕ) × (time_to_wait 3 100 600000 (pos 1500) ≡ ok (sec', pos (us * 1000)))
    × (sec' * 1000000 + us ≡ 100 * 1000000 + 600000 + 1500 * 1000)
    × (us * 1000 ≤ 1000000000)
    × ((0 < us) ⊎ (600000 + 1500 * 1000 ≡ 0))
time_to_wait_lem_example =
    time_to_wait_lem 2 100 600000 1500 (omega arith) (omega arith) (omega arith)

-- A time on a full second is written with 10 ^ 9 nanoseconds.
full_second_run : time_to_wait 3 100 500000 (pos 1500) ≡ ok (101, pos 1000000000)
unfolding time_to_wait wait_until ◌+ℤ◌ ◌-ℤ◌ ◌*ℤ◌
full_second_run = refl

write_lem_example :
    (pos 5 ≡ pos 5 → write control 5 (pos 0) (pos 5) ≡ ok 5)
    × (pos 5 ≢ pos 5 → write control 5 (pos 0) (pos 5) ≡ err assert_failed)
write_lem_example = write_lem control 5 (pos 0) (pos 5) (omega arith) (omega arith) (omega arith)
