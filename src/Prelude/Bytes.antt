-- ===== src/Prelude/Bytes.antt =====
-- The comparison of two byte strings.
use Prim.Native.Nat.{ℕ}
use mathlib.Core.Path.{◌≡◌, refl, ap, ◌∙◌}
use mathlib.Core.Logic.{inl, inr, ◌≢◌, ◌↔◌}
use mathlib.Core.Bool.{Bool, true, false, not, ◌&&◌}
use mathlib.Core.List.{List, [], ◌∷◌}
use zephyr_esphome.Prelude.Tests.{◌==◌, ==_iff, Bool-cases}

-- memcmp(...) == 0 for buffers of one length, and strcmp(...) == 0 for strings
abbrev pub same_bytes : List ℕ → List ℕ → Bool
same_bytes [] [] = true
same_bytes [] (y ∷ ys) = false
same_bytes (x ∷ xs) [] = false
same_bytes (x ∷ xs) (y ∷ ys) = x == y && same_bytes xs ys

pub same_bytes-eq : (xs ys : List ℕ) → same_bytes xs ys ≡ true → xs ≡ ys
same_bytes-eq [] [] e = refl
same_bytes-eq [] (y ∷ ys) e = cc
same_bytes-eq (x ∷ xs) [] e = cc
same_bytes-eq (x ∷ xs) (y ∷ ys) e = elim (Bool-cases (x == y)) [
  | inl here ↦
      ap (λ a. a ∷ xs) ((==_iff x y).0 here)
      ∙ ap (λ zs. y ∷ zs) (same_bytes-eq xs ys (rw here at e))
  | inr differ ↦ (let e' : false ≡ true = rw differ at e in cc)
]

pub same_bytes_self : (xs : List ℕ) → same_bytes xs xs ≡ true
same_bytes_self [] = refl
same_bytes_self (x ∷ xs) = rw ((==_iff x x).1 refl) (same_bytes_self xs)

pub not-same_bytes : (xs ys : List ℕ) → (not (same_bytes xs ys) ≡ true) ↔ (xs ≢ ys)
not-same_bytes xs ys = elim (Bool-cases (same_bytes xs ys)) [
  | inl same ↦
      (λ e. absurd (let e' = rw same at e in cc e'), λ n. absurd (n (same_bytes-eq xs ys same)))
  | inr differ ↦
      (λ e same. (let e' = rw same at differ in cc (e', same_bytes_self ys)), λ n. rw differ refl)
]
