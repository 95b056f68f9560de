-- ===== src/Deadline.antt =====
-- `WaitFill (int wait_ms)` of `BasicBuf` in wspace_asym_util.h and of `AckContext` in
-- wspace_asym_util.cc: the time until which `pthread_cond_timedwait` waits. What `gettimeofday` reads is
-- a parameter. At the end, that of `WaitWakeAck` of `RxRcvBuf`.
use wspace_controller.Prelude.{
  ℕ, zero, suc, ◌+◌, ◌-◌, ◌*◌, ◌<◌, ◌≤◌, ◌≡◌, refl, ap, subst, ◌∙◌, ◌⊎◌, inl, inr, true, false,
  Bool-cases, if◌then◌else◌, ltb, arith, ltb→lt, lt→ltb, ge→ltb,
}
use wspace_controller.Prelude.Int.{ℤ, pos, sub_ℕ, ◌+ℤ◌, ◌-ℤ◌, ◌*ℤ◌, ltb_ℤ}
use wspace_controller.Prelude.Result.{Result, ok, err, ◌>>=◌, undefined, out_of_fuel}
use wspace_controller.Text.{is_int}

-- The loop, from the seconds of `now`: at its end the seconds, and the microseconds with the rest of the
-- wait. `wait_ms * 1000` is an `int`.
unfoldable pub wait_until : ℕ → ℤ → ℤ → ℕ → Result (ℕ × ℤ)
wait_until zero usec wait_ms sec = err out_of_fuel
wait_until (suc n) usec wait_ms sec =
    let rest = wait_until n usec (wait_ms -ℤ pos 1000) (sec + 1) in
    let due = usec +ℤ wait_ms *ℤ pos 1000 in
    if is_int (wait_ms *ℤ pos 1000)
    then if ltb_ℤ (pos 1000000) due then rest else ok (sec, due)
    else err undefined

-- `time_to_wait`, its seconds and nanoseconds.
unfoldable pub time_to_wait : ℕ → ℕ → ℕ → ℤ → Result (ℕ × ℤ)
unfolding wait_until
time_to_wait n sec usec wait_ms =
    wait_until n (pos usec) wait_ms sec >>= λ t. ok (t.0, t.1 *ℤ pos 1000)

sub_ℕ-times : (a b : ℕ) → sub_ℕ a b *ℤ pos 1000 ≡ sub_ℕ (a * 1000) (b * 1000)
unfolding ◌*ℤ◌
sub_ℕ-times a b = ground arith

sub_ℕ-minus : (a b c : ℕ) → sub_ℕ a b -ℤ pos c ≡ sub_ℕ a (b + c)
unfolding ◌-ℤ◌
sub_ℕ-minus a b c = ground arith

plus-sub_ℕ : (u a b : ℕ) → pos u +ℤ sub_ℕ a b ≡ sub_ℕ (u + a) b
unfolding ◌+ℤ◌
plus-sub_ℕ u a b = ground arith

lt-sub_ℕ : (m a b : ℕ) → ltb_ℤ (pos m) (sub_ℕ a b) ≡ ltb (m + b) a
lt-sub_ℕ m a b = ground arith

is_int-sub_ℕ : (a b : ℕ) → a ≤ 2147483647 + b → b ≤ a + 2147483648 → is_int (sub_ℕ a b) ≡ true
is_int-sub_ℕ a b h l = ground arith

sub_ℕ-pos : (a b : ℕ) → b ≤ a → sub_ℕ a b ≡ pos (a - b)
sub_ℕ-pos a b h = ground arith

due_eq :
    (u w k : ℕ) → (pos u +ℤ sub_ℕ w (k * 1000) *ℤ pos 1000) ≡ sub_ℕ (u + w * 1000) (k * 1000 * 1000)
due_eq u w k =
    ap (λ x. pos u +ℤ x) (sub_ℕ-times w (k * 1000)) ∙ plus-sub_ℕ u (w * 1000) (k * 1000 * 1000)

-- The product is in the range of `int` after k turns, and so is the wait that is left.
module _ (u w k : ℕ) (early : u < 1000000) (small : w * 1000 ≤ 2147483647)
    (turns : k * 1000000 ≤ u + w * 1000) where
  product_is_int : is_int (sub_ℕ w (k * 1000) *ℤ pos 1000) ≡ true
  product_is_int =
      ap is_int (sub_ℕ-times w (k * 1000))
      ∙ is_int-sub_ℕ (w * 1000) (k * 1000 * 1000) (omega arith) (omega arith)

  wait_until-more :
      (n sec : ℕ)
      → (k + 1) * 1000000 < u + w * 1000
      → wait_until (suc n) (pos u) (sub_ℕ w (k * 1000)) sec
        ≡ wait_until n (pos u) (sub_ℕ w (suc k * 1000)) (sec + 1)
  unfolding wait_until
  wait_until-more n sec more =
      let late : ltb_ℤ (pos 1000000) (pos u +ℤ sub_ℕ w (k * 1000) *ℤ pos 1000) ≡ true =
        ap (ltb_ℤ (pos 1000000)) (due_eq u w k)
        ∙ lt-sub_ℕ 1000000 (u + w * 1000) (k * 1000 * 1000)
        ∙ lt→ltb (1000000 + k * 1000 * 1000) (u + w * 1000) (omega arith) in
      let next : (sub_ℕ w (k * 1000) -ℤ pos 1000) ≡ sub_ℕ w (suc k * 1000) =
        sub_ℕ-minus w (k * 1000) 1000 ∙ ap (sub_ℕ w) (omega arith) in
      rw (product_is_int, late) (ap (λ x. wait_until n (pos u) x (sec + 1)) next)

  wait_until-last :
      (n sec : ℕ)
      → u + w * 1000 ≤ (k + 1) * 1000000
      → wait_until (suc n) (pos u) (sub_ℕ w (k * 1000)) sec
        ≡ ok (sec, pos (u + w * 1000 - k * 1000000))
  unfolding wait_until
  wait_until-last n sec last =
      let soon : ltb_ℤ (pos 1000000) (pos u +ℤ sub_ℕ w (k * 1000) *ℤ pos 1000) ≡ false =
        ap (ltb_ℤ (pos 1000000)) (due_eq u w k)
        ∙ lt-sub_ℕ 1000000 (u + w * 1000) (k * 1000 * 1000)
        ∙ ge→ltb (1000000 + k * 1000 * 1000) (u + w * 1000) (omega arith) in
      let value : (pos u +ℤ sub_ℕ w (k * 1000) *ℤ pos 1000) ≡ pos (u + w * 1000 - k * 1000000) =
        due_eq u w k
        ∙ sub_ℕ-pos (u + w * 1000) (k * 1000 * 1000) (omega arith)
        ∙ ap pos (omega arith) in
      rw (product_is_int, soon) (ap (λ x. ok (sec, x)) value)

wait_until_lem :
    (n u w k sec : ℕ)
    → u < 1000000
    → w * 1000 ≤ 2147483647
    → k * 1000000 ≤ u + w * 1000
    → (k ≡ 0) ⊎ (k * 1000000 < u + w * 1000)
    → u + w * 1000 ≤ (k + n + 1) * 1000000
    → (sec' us : ℕ) × (wait_until (suc n) (pos u) (sub_ℕ w (k * 1000)) sec ≡ ok (sec', pos us))
      × (sec' * 1000000 + us + k * 1000000 ≡ sec * 1000000 + u + w * 1000)
      × (us ≤ 1000000)
      × ((0 < us) ⊎ (u + w * 1000 ≡ 0))
wait_until_lem zero u w k sec early small turns strict fuel = (
  sec,
  u + w * 1000 - k * 1000000,
  wait_until-last u w k early small turns zero sec (omega arith),
  omega arith,
  omega arith,
  ground arith,
)
wait_until_lem (suc n) u w k sec early small turns strict fuel =
    elim (Bool-cases (ltb ((k + 1) * 1000000) (u + w * 1000))) [
      | inl y ↦
          let more = ltb→lt ((k + 1) * 1000000) (u + w * 1000) y in
          let (sec', us, run, sum, low, high) =
            wait_until_lem n u w (suc k) (sec + 1) early small (omega arith) (inr (omega arith))
              (omega arith) in
          (
            sec',
            us,
            wait_until-more u w k early small turns (suc n) sec more ∙ run,
            omega arith,
            low,
            high,
          )
      | inr e ↦
          let last : u + w * 1000 ≤ (k + 1) * 1000000 = ground arith in
          (
            sec,
            u + w * 1000 - k * 1000000,
            wait_until-last u w k early small turns (suc n) sec last,
            omega arith,
            omega arith,
            ground arith,
          )
    ]

pos-times : (n : ℕ) → pos n *ℤ pos 1000 ≡ pos (n * 1000)
unfolding ◌*ℤ◌
pos-times n = ground arith

-- With a clock of less than a million microseconds, a wait whose product by 1000 is an `int`, and one
-- turn for each second of the wait and one more, the loop ends. The time is the clock's reading plus the
-- wait, in seconds and at most 10 ^ 9 nanoseconds. They are more than 0, unless there is no wait from a
-- full second: a time that falls on a later full second is written with 10 ^ 9 nanoseconds.
pub time_to_wait_lem :
    (n sec usec wait_ms : ℕ)
    → usec < 1000000
    → wait_ms * 1000 ≤ 2147483647
    → wait_ms ≤ n * 1000
    → (sec' us : ℕ) × (time_to_wait (suc n) sec usec (pos wait_ms) ≡ ok (sec', pos (us * 1000)))
      × (sec' * 1000000 + us ≡ sec * 1000000 + usec + wait_ms * 1000)
      × (us * 1000 ≤ 1000000000)
      × ((0 < us) ⊎ (usec + wait_ms * 1000 ≡ 0))
unfolding time_to_wait
time_to_wait_lem n sec usec wait_ms early small fuel =
    let (sec', us, run, sum, low, high) =
      wait_until_lem n usec wait_ms 0 sec early small (omega arith) (inl refl) (omega arith) in
    let start : sub_ℕ wait_ms (0 * 1000) ≡ pos wait_ms =
      sub_ℕ-pos wait_ms 0 (omega arith) ∙ ap pos (omega arith) in
    let begun = subst (λ x. wait_until (suc n) (pos usec) x sec ≡ ok (sec', pos us)) start run in
    (
      sec',
      us,
      ap (λ r. r >>= λ t. ok (t.0, t.1 *ℤ pos 1000)) begun ∙ ap (λ x. ok (sec', x)) (pos-times us),
      omega arith,
      omega arith,
      high,
    )

-- The time until which `WaitWakeAck` of `RxRcvBuf` waits, from the seconds and microseconds of the clock:
-- the nanoseconds stay 0. `wait_s` is not negative.
unfoldable wake_ack_time : ℕ → ℕ → ℕ → ℕ × ℕ
wake_ack_time sec usec wait_s = (sec + wait_s, 0)
