-- ===== src/Prelude/Codes.antt =====
-- What a C function returns as an `int`: 0, another number, or a negated constant of errno.h.
use Prim.Native.Nat.{ℕ, zero, suc}
use mathlib.Core.Bool.{Bool, true, false}

-- `negsuc n` is -(n + 1).
pub data ℤ : Type 0 where
  pos : ℕ → ℤ
  negsuc : ℕ → ℤ

-- The constants of errno.h that the code returns, negated; their numbers are the C library's.
pub data Errno : Type 0 where
  eio enomem enodev enotsup enotconn eoverflow einval enospc enodata : Errno

-- `-EOF` is its own case: EOF is negative, so `-EOF` is a positive number.
pub data Code : Type 0 where
  int : ℤ → Code
  neg : Errno → Code
  neg_eof : Code

abbrev pub success : Code
success = int (pos 0)

abbrev pub minus_one : Code
minus_one = int (negsuc 0)

-- `ret != 0`, as `if (ret)` reads it. No constant of errno.h is 0.
abbrev pub is_nonzero : Code → Bool
is_nonzero (int (pos zero)) = false
is_nonzero (int (pos (suc n))) = true
is_nonzero (int (negsuc n)) = true
is_nonzero (neg e) = true
is_nonzero neg_eof = true

-- `ret < 0`. The constants of errno.h are positive.
abbrev pub is_negative : Code → Bool
is_negative (int (pos n)) = false
is_negative (int (negsuc n)) = true
is_negative (neg e) = true
is_negative neg_eof = false
