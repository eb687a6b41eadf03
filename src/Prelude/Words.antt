-- ===== src/Prelude/Words.antt =====
-- C's `u_int`: 32-bit numbers that wrap around.
use Prim.Native.Nat.{ℕ, ◌+◌, ◌-◌, ◌%◌, ◌^◌}

abbrev pub uint_mod : ℕ
uint_mod = 2 ^ 32

abbrev pub uint_max : ℕ
uint_max = 2 ^ 32 - 1

-- `a + b` and `a - b` on `u_int`. The subtraction on ℕ stops at 0, so the modulus is added first.
abbrev pub add_uint : ℕ → ℕ → ℕ
add_uint a b = (a + b) % 2 ^ 32

abbrev pub sub_uint : ℕ → ℕ → ℕ
sub_uint a b = (a + 2 ^ 32 - b) % 2 ^ 32
