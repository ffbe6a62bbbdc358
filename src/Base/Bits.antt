-- ===== src/Base/Bits.antt =====
-- How large a bitwise or of two numbers is.
use Prim.Native.Nat.{ℕ, zero, suc, ◌*◌, ◌/◌, ◌^◌, ◌<◌, max, digits, bit_or, bit_or-bitwise}
use native.Mathlib.Omega.{arith}

abbrev power : ℕ → ℕ
power zero = 1
power (suc w) = power w * 2

or_digits_below : (w n a b : ℕ) → a < power w → b < power w → digits (λ y. y) max n a b < power w
or_digits_below w zero a b ha hb = hb
or_digits_below w (suc n) zero b ha hb = hb
or_digits_below zero (suc n) (suc a) b ha hb = absurd (omega arith)
or_digits_below (suc w) (suc n) (suc a) b ha hb =
    omega (arith, or_digits_below w n (suc a / 2) (b / 2) (omega arith) (omega arith))

-- Two 32-bit words.
pub bit_or-lt_32 : (a b : ℕ) → a < 2 ^ 32 → b < 2 ^ 32 → bit_or a b < 2 ^ 32
bit_or-lt_32 a b ha hb = simp bit_or-bitwise (or_digits_below 32 a a b ha hb)
