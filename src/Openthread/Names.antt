-- ===== src/Openthread/Names.antt =====
-- The names that srp.c copies into the buffers of OpenThread.
use zephyr_esphome.Prelude.{
  ℕ, zero, suc, ◌+◌, ◌≤◌, ◌≡◌, ◌≢◌, refl, ap, List, [], ◌∷◌, ◌++◌, none, some, All, min, length,
  take, drop, ltb, ltb→lt, if◌then◌else◌, Bool-cases, inl, inr, arith,
}
use mathlib.Core.List.{append_assoc, append-nil}
use zephyr_esphome.Entity.Copy.{c_string}
use zephyr_esphome.Openthread.{copy_name}

drop-all : (xs : List ℕ) → drop (length xs) xs ≡ []
drop-all [] = refl
drop-all (x ∷ xs) = drop-all xs

take-shorter : (n : ℕ) (xs ys : List ℕ) → n ≤ length xs → take n (xs ++ ys) ≡ take n xs
take-shorter zero xs ys h = refl
take-shorter (suc n) [] ys h = absurd (omega arith)
take-shorter (suc n) (x ∷ xs) ys h = ap (λ t. x ∷ t) (take-shorter n xs ys (omega arith))

take-whole : (xs ys : List ℕ) → take (suc (length xs)) (xs ++ (0 ∷ ys)) ≡ xs ++ (0 ∷ [])
take-whole [] ys = refl
take-whole (x ∷ xs) ys = ap (λ t. x ∷ t) (take-whole xs ys)

c_string-append : (xs ys : List ℕ) → All (λ b. b ≢ 0) xs → c_string (xs ++ (0 ∷ ys)) ≡ some xs
unfolding c_string
c_string-append [] ys nz = refl
c_string-append (zero ∷ xs) ys nz = absurd (nz.0 refl)
c_string-append (suc x ∷ xs) ys nz = rw (c_string-append xs ys nz.1) refl

c_string-none : (xs : List ℕ) → All (λ b. b ≢ 0) xs → c_string xs ≡ none
unfolding c_string
c_string-none [] nz = refl
c_string-none (zero ∷ xs) nz = absurd (nz.0 refl)
c_string-none (suc x ∷ xs) nz = rw (c_string-none xs nz.1) refl

All-take : (n : ℕ) (xs : List ℕ) → All (λ b. b ≢ 0) xs → All (λ b. b ≢ 0) (take n xs)
All-take zero xs nz = tt
All-take (suc n) [] nz = tt
All-take (suc n) (x ∷ xs) nz = (nz.0, All-take n xs nz.1)

-- A name without NUL bytes is the string in the buffer just when the buffer has room for it and for
-- the NUL; in a shorter buffer there is no string at all: no NUL is in it.
pub copy_name_lem :
    (name buffer : List ℕ)
    → All (λ b. b ≢ 0) name
    → c_string (copy_name name buffer)
      ≡ (if ltb (length name) (length buffer) then some name else none)
unfolding copy_name
copy_name_lem name buffer nz = elim (Bool-cases (ltb (length name) (length buffer))) [
  | inl room ↦
      let size : min (length buffer) (length name + 1) ≡ suc (length name) =
        omega (arith, ltb→lt (length name) (length buffer) room) in
      rw (room, size, take-whole name [], append_assoc)
        (c_string-append name (drop (suc (length name)) buffer) nz)
  | inr short ↦
      let cut : length buffer ≤ length name = ground (arith, short) in
      let size : min (length buffer) (length name + 1) ≡ length buffer = omega arith in
      rw
        (
          short,
          size,
          take-shorter (length buffer) name (0 ∷ []) cut,
          drop-all buffer,
          append-nil (take (length buffer) name),
        )
        (c_string-none (take (length buffer) name) (All-take (length buffer) name nz))
]
