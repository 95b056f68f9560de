-- ===== src/Word.antt =====
-- The unsigned integers of the program: what a conversion to them keeps.
use wspace_controller.Prelude.{ℕ, ◌+◌, ◌-◌, ◌%◌, ◌^◌}

-- `uint8_t`.
abbrev pub u8 : ℕ → ℕ
u8 n = n % 2 ^ 8

-- `uint16_t`.
abbrev pub u16 : ℕ → ℕ
u16 n = n % 2 ^ 16

-- `uint32_t`, whose sums and differences wrap around.
abbrev pub u32 : ℕ → ℕ
u32 n = n % 2 ^ 32

abbrev pub add32 : ℕ → ℕ → ℕ
add32 a b = u32 (a + b)

-- `b` is at most 2 ^ 32.
abbrev pub sub32 : ℕ → ℕ → ℕ
sub32 a b = u32 (a + 2 ^ 32 - b)
