-- ===== src/Entity/Copy.antt =====
-- _string_copy_safe of entity.c: the string in the buffer, and the code returned.
use zephyr_esphome.Prelude.{
  ℕ, zero, suc, ◌≤◌, ◌≡◌, ◌≢◌, ◌↔◌, refl, List, [], ◌∷◌, ◌++◌, Option, none, some, arith, All,
  length, take, replicate, Code, success, neg, enodata,
}
use zephyr_esphome.Entity.{strncpy, terminate, string_copy_safe}

-- The string that starts at a buffer: its bytes before the first NUL, if there is one.
unfoldable pub c_string : List ℕ → Option (List ℕ)
c_string [] = none
c_string (zero ∷ bs) = some []
c_string (suc b ∷ bs) = elim (c_string bs) [ none ↦ none | some str ↦ some (suc b ∷ str) ]

c_string-terminate :
    (n m : ℕ) (src : List ℕ)
    → All (λ b. b ≢ 0) src
    → c_string (terminate (take (suc n) (src ++ replicate (suc m) 0))) ≡ some (take n src)
unfolding c_string terminate
c_string-terminate zero m [] nz = refl
c_string-terminate zero m (b ∷ bs) nz = refl
c_string-terminate (suc n) zero [] nz = refl
c_string-terminate (suc n) (suc m) [] nz = refl
c_string-terminate (suc n) m (zero ∷ bs) nz = absurd (nz.0 refl)
c_string-terminate (suc n) m (suc b ∷ []) nz = rw (c_string-terminate n m [] tt) refl
c_string-terminate (suc n) m (suc b ∷ c ∷ bs) nz = rw (c_string-terminate n m (c ∷ bs) nz.1) refl

take-nil : (n : ℕ) → take {A = ℕ} n [] ≡ []
take-nil zero = refl
take-nil (suc n) = refl

-- With room for `n` bytes and the NUL, _string_copy_safe leaves in `dest` the first `n` bytes of a
-- source without NUL bytes and a NUL behind them, and returns 0 just when the source is not empty and
-- these are all of it.
pub string_copy_safe_lem :
    (src : List ℕ) (n : ℕ)
    → All (λ b. b ≢ 0) src
    → (r : Code × List ℕ) × (string_copy_safe (some src) (suc n) ≡ some r)
      × (c_string r.1 ≡ some (take n src))
      × ((r.0 ≡ success) ↔ ((1 ≤ length src) × (length src ≤ n)))
unfolding string_copy_safe strncpy
string_copy_safe_lem [] n nz = (
  (neg enodata, 0 ∷ []),
  refl,
  unfold c_string in rw (take-nil n) refl,
  (λ e. cc, λ h. absurd (omega arith)),
)
string_copy_safe_lem (b ∷ bs) n nz =
    (_, refl, c_string-terminate n n (b ∷ bs) nz, (λ e. ground arith, λ h. ground arith))
