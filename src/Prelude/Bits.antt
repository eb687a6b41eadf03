-- ===== src/Prelude/Bits.antt =====
-- `|` of a field below bit k with one from bit k on is their sum.
use Prim.Native.Nat.{
  ℕ, zero, suc, ◌+◌, ◌*◌, ◌/◌, ◌%◌, ◌^◌, ◌<◌, ◌≤◌, max, bit_or, digits, bit_or-bitwise,
}
use mathlib.Core.Path.{◌≡◌, refl, ap}
use native.Mathlib.Nat.{pow-suc}
use native.Mathlib.Omega.{arith}

abbrev or_rounds : ℕ → ℕ → ℕ → ℕ
or_rounds fuel x y = digits (λ y. y) max fuel x y

-- The rounds of the digit recursion past the digits of `x` change nothing.
or_rounds_more :
    (more less x y : ℕ) → x ≤ less → less ≤ more → or_rounds more x y ≡ or_rounds less x y
or_rounds_more zero zero x y h k = refl
or_rounds_more zero (suc less) x y h k = absurd (omega arith)
or_rounds_more (suc more) zero zero y h k = refl
or_rounds_more (suc more) zero (suc x) y h k = absurd (omega arith)
or_rounds_more (suc more) (suc less) zero y h k = refl
or_rounds_more (suc more) (suc less) (suc x) y h k =
    omega (arith, or_rounds_more more less (suc x / 2) (y / 2) (omega arith) (omega arith))

pub zero-bit_or : (y : ℕ) → bit_or 0 y ≡ y
zero-bit_or y = bit_or-bitwise 0 y

bit_or_halves : (x y : ℕ) → bit_or x y ≡ bit_or (x / 2) (y / 2) * 2 + max (x % 2) (y % 2)
bit_or_halves zero y = omega (arith, zero-bit_or y, zero-bit_or (y / 2))
bit_or_halves (suc x) y = omega (
  arith,
  bit_or-bitwise (suc x) y,
  bit_or-bitwise (suc x / 2) (y / 2),
  or_rounds_more x (suc x / 2) (suc x / 2) (y / 2) (omega arith) (omega arith),
)

pub bit_or_disjoint : (k x m : ℕ) → x < 2 ^ k → bit_or x (m * 2 ^ k) ≡ x + m * 2 ^ k
bit_or_disjoint zero zero m h = omega (arith, zero-bit_or (m * 2 ^ 0))
bit_or_disjoint zero (suc x) m h = absurd (omega arith)
bit_or_disjoint (suc k) x m h =
    let double : m * 2 ^ suc k ≡ m * 2 ^ k * 2 = rw pow-suc (grind arith) in
    let half : x / 2 < 2 ^ k = omega (arith, pow-suc 2 k) in
    let same : m * 2 ^ k * 2 / 2 ≡ m * 2 ^ k = omega arith in
    rw double (
      omega (
        arith,
        bit_or_halves x (m * 2 ^ k * 2),
        bit_or_disjoint k (x / 2) m half,
        same,
        ap (bit_or (x / 2)) same,
      ))
