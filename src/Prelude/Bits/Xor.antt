-- ===== src/Prelude/Bits/Xor.antt =====
-- `^` on native numbers: it is undone by itself, and stays within a width.
use Prim.Native.Nat.{ℕ, zero, suc, ◌+◌, ◌*◌, ◌/◌, ◌%◌, ◌^◌, ◌≤◌, ◌<◌, bit_xor, differ}
use mathlib.Core.Path.{◌≡◌, refl, ap}
use native.Mathlib.Nat.{pow-suc}
use native.Mathlib.Omega.{arith}
use zephyr_esphome.Prelude.Bits.Digits.{bit_xor_digit}

differ_bits : (x y : ℕ) → x < 2 → y < 2 → differ x y ≡ (x + y) % 2
differ_bits zero zero h k = refl
differ_bits zero (suc zero) h k = refl
differ_bits zero (suc (suc y)) h k = absurd (omega arith)
differ_bits (suc zero) zero h k = refl
differ_bits (suc zero) (suc zero) h k = refl
differ_bits (suc zero) (suc (suc y)) h k = absurd (omega arith)
differ_bits (suc (suc x)) y h k = absurd (omega arith)

-- The lowest digit of `^`, in arithmetic.
pub xor_digit : (a b : ℕ) → bit_xor a b ≡ bit_xor (a / 2) (b / 2) * 2 + (a % 2 + b % 2) % 2
xor_digit a b =
    omega (arith, bit_xor_digit a b, differ_bits (a % 2) (b % 2) (omega arith) (omega arith))

xor_half : (a b : ℕ) → bit_xor a b / 2 ≡ bit_xor (a / 2) (b / 2)
xor_half a b = omega (arith, xor_digit a b)

undo_upto : (n a b : ℕ) → a ≤ n → b ≤ n → bit_xor (bit_xor a b) b ≡ a
undo_upto zero zero zero h k = refl
undo_upto zero zero (suc b) h k = absurd (omega arith)
undo_upto zero (suc a) b h k = absurd (omega arith)
undo_upto (suc n) a b h k = omega (
  arith,
  xor_digit (bit_xor a b) b,
  xor_digit a b,
  ap (λ t. bit_xor t (b / 2)) (xor_half a b),
  undo_upto n (a / 2) (b / 2) (omega arith) (omega arith),
)

pub xor-undo : (a b : ℕ) → bit_xor (bit_xor a b) b ≡ a
xor-undo a b = undo_upto (a + b) a b (omega arith) (omega arith)

comm_upto : (n a b : ℕ) → a ≤ n → b ≤ n → bit_xor a b ≡ bit_xor b a
comm_upto zero zero zero h k = refl
comm_upto zero zero (suc b) h k = absurd (omega arith)
comm_upto zero (suc a) b h k = absurd (omega arith)
comm_upto (suc n) a b h k =
    omega
      (arith, xor_digit a b, xor_digit b a, comm_upto n (a / 2) (b / 2) (omega arith) (omega arith))

pub xor_comm : (a b : ℕ) → bit_xor a b ≡ bit_xor b a
xor_comm a b = comm_upto (a + b) a b (omega arith) (omega arith)

pub xor-lt : (k a b : ℕ) → a < 2 ^ k → b < 2 ^ k → bit_xor a b < 2 ^ k
xor-lt zero zero zero h l = omega arith
xor-lt zero zero (suc b) h l = absurd (omega arith)
xor-lt zero (suc a) b h l = absurd (omega arith)
xor-lt (suc k) a b h l = omega (
  arith,
  xor_digit a b,
  pow-suc 2 k,
  xor-lt k (a / 2) (b / 2) (omega (arith, pow-suc 2 k)) (omega (arith, pow-suc 2 k)),
)
