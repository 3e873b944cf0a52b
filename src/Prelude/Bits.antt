-- ===== src/Prelude/Bits.antt =====
-- `&` with a low mask, `|` of disjoint fields and `^`, as arithmetic.
mod Digits
mod Xor
pub use Xor.{xor-undo, xor_comm, xor-lt}
use Prim.Native.Nat.{
  ℕ, zero, suc, ◌+◌, ◌*◌, ◌/◌, ◌%◌, ◌^◌, ◌<◌, ◌≤◌, bit_and, bit_or, bit_or-bitwise,
}
use mathlib.Core.Path.{◌≡◌, refl, ap}
use mathlib.Core.Bool.{Bool, true, false, ◌&&◌, ◌||◌}
use native.Mathlib.Nat.{pow-suc}
use native.Mathlib.Omega.{arith}
use Digits.{bit_and_digit, bit_or_digit}

pub zero-bit_or : (b : ℕ) → bit_or 0 b ≡ b
zero-bit_or b = λ i. bit_or-bitwise 0 b i

double_shift : (q k : ℕ) → q * 2 ^ suc k ≡ 2 * (q * 2 ^ k)
double_shift q k = omega (arith, ap (λ (t : ℕ). q * t) (pow-suc 2 k))

half_shift : (q k : ℕ) → q * 2 ^ suc k / 2 ≡ q * 2 ^ k
half_shift q k = omega (arith, double_shift q k)

-- `r | (q << k)` is a sum when `r` has at most `k` bits.
pub bit_or-shift : (k r q : ℕ) → r < 2 ^ k → bit_or r (q * 2 ^ k) ≡ r + q * 2 ^ k
bit_or-shift zero zero q h = omega (arith, zero-bit_or (q * 2 ^ 0))
bit_or-shift zero (suc r) q h = absurd (omega arith)
bit_or-shift (suc k) r q h = omega (
  arith,
  bit_or_digit r (q * 2 ^ suc k),
  double_shift q k,
  ap (bit_or (r / 2)) (half_shift q k),
  bit_or-shift k (r / 2) q (omega (arith, pow-suc 2 k)),
)

or-zero_upto : (n a : ℕ) → a ≤ n → bit_or a 0 ≡ a
or-zero_upto n zero h = zero-bit_or 0
or-zero_upto zero (suc a) h = absurd (omega arith)
or-zero_upto (suc n) (suc a) h =
    omega (arith, bit_or_digit (suc a) 0, or-zero_upto n (suc a / 2) (omega arith))

-- The same with the shifted number first.
pub shift-bit_or : (k r q : ℕ) → r < 2 ^ k → bit_or (q * 2 ^ k) r ≡ q * 2 ^ k + r
shift-bit_or zero zero q h = omega (arith, or-zero_upto (q * 2 ^ 0) (q * 2 ^ 0) (omega arith))
shift-bit_or zero (suc r) q h = absurd (omega arith)
shift-bit_or (suc k) r q h = omega (
  arith,
  bit_or_digit (q * 2 ^ suc k) r,
  double_shift q k,
  ap (λ t. bit_or t (r / 2)) (half_shift q k),
  shift-bit_or k (r / 2) q (omega (arith, pow-suc 2 k)),
)

-- Both numbers at most `n`.
and-zero_upto : (n a : ℕ) → a ≤ n → bit_and a 0 ≡ 0
and-zero_upto n zero h = refl
and-zero_upto zero (suc a) h = absurd (omega arith)
and-zero_upto (suc n) (suc a) h =
    omega (arith, bit_and_digit (suc a) 0, and-zero_upto n (suc a / 2) (omega arith))

bit_and-zero : (a : ℕ) → bit_and a 0 ≡ 0
bit_and-zero a = and-zero_upto a a (omega arith)

-- The masks of a byte that the code uses, digit by digit.
bit_and-one : (a : ℕ) → bit_and a 1 ≡ a % 2
bit_and-one a = omega (arith, bit_and_digit a 1, bit_and-zero (a / 2))

bit_and-seven : (a : ℕ) → bit_and a 7 ≡ a % 8
bit_and-seven a = omega (arith, bit_and_digit a 7, bit_and_digit (a / 2) 3, bit_and-one (a / 2 / 2))

pub bit_and-low7 : (a : ℕ) → bit_and a 0x7f ≡ a % 128
bit_and-low7 a = omega (
  arith,
  bit_and_digit a 127,
  bit_and_digit (a / 2) 63,
  bit_and_digit (a / 2 / 2) 31,
  bit_and_digit (a / 2 / 2 / 2) 15,
  bit_and-seven (a / 2 / 2 / 2 / 2),
)

pub bit_and-low8 : (a : ℕ) → bit_and a 0xff ≡ a % 256
bit_and-low8 a = omega (arith, bit_and_digit a 255, bit_and-low7 (a / 2))

pub bit_and-high7 : (a : ℕ) → bit_and a 0xfe ≡ a / 2 % 128 * 2
bit_and-high7 a = omega (arith, bit_and_digit a 254, bit_and-low7 (a / 2))

bit_and-eight : (a : ℕ) → bit_and a 8 ≡ a / 8 % 2 * 8
bit_and-eight a = omega (
  arith,
  bit_and_digit a 8,
  bit_and_digit (a / 2) 4,
  bit_and_digit (a / 2 / 2) 2,
  bit_and-one (a / 2 / 2 / 2),
)

pub bit_and-top : (a : ℕ) → bit_and a 0x80 ≡ a / 128 % 2 * 128
bit_and-top a = omega (
  arith,
  bit_and_digit a 128,
  bit_and_digit (a / 2) 64,
  bit_and_digit (a / 2 / 2) 32,
  bit_and_digit (a / 2 / 2 / 2) 16,
  bit_and-eight (a / 2 / 2 / 2 / 2),
)

pub bit_or-top : (a : ℕ) → a < 128 → bit_or a 0x80 ≡ a + 128
bit_or-top a h = bit_or-shift 7 a 1 h
