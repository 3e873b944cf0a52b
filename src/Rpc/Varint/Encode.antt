-- ===== src/Rpc/Varint/Encode.antt =====
-- What varint_encode of esphome_rpc.c writes, in plain arithmetic.
use mathlib.Core.WellFounded.{Acc}
use mathlib.Core.List.{append_assoc}
use zephyr_esphome.Prelude.{
  ℕ, zero, suc, ◌+◌, ◌/◌, ◌%◌, ◌^◌, ◌≤◌, ◌<◌, ◌≡◌, refl, ◌∙◌, List, [], ◌∷◌, ◌++◌, Bool, true,
  false, ltb, leb, ◌==◌, if◌then◌else◌, bit_and, bit_or, arith, lt_wf, length, All, bit_and-low7,
  bit_or-top, Bool-cases, inl, inr, ltb→lt, lt→ltb, dec_lt, ◌↔◌,
}
use native.Mathlib.Nat.{pow-suc, one-le-pow}
use zephyr_esphome.Rpc.Varint.{Encoded, put, shift_shrinks, varint_loop, nothing, varint_encode}

-- The groups of seven bits of `v`, for `v` below 128 ^ (k + 1).
unfoldable pub groups : ℕ → ℕ → List ℕ
groups zero v = v ∷ []
groups (suc k) v =
    let rest = groups k (v / 128) in if ltb v 128 then v ∷ [] else (v % 128 + 128) ∷ rest

-- The state of the loop after the bytes `bs`.
abbrev wrote : Bool → Encoded → List ℕ → Encoded
wrote has_out e bs = record {
  count = e.count + length bs;
  out = if has_out then e.out ++ bs else e.out;
}

top_bit_set : (v : ℕ) → bit_or (bit_and v 0x7f) 0x80 ≡ v % 128 + 128
top_bit_set v = rw bit_and-low7 (bit_or-top (v % 128) (omega arith))

-- At 0 the loop stops.
loop_zero :
    (has_out : Bool) (e : Encoded) (v : ℕ) (w : Acc ◌<◌ v) → v ≡ 0 → varint_loop has_out e v w ≡ e
unfolding varint_loop
loop_zero has_out e v (Acc.intro _ smaller) h = ground arith

-- The last round writes the value that is left.
loop_last :
    (has_out : Bool) (e : Encoded) (v : ℕ) (w : Acc ◌<◌ v)
    → 0 < v
    → v < 128
    → varint_loop has_out e v w ≡ put has_out v e
unfolding varint_loop
loop_last has_out e v (Acc.intro _ smaller) h k = grind (
  arith,
  bit_and-low7 v,
  λ (p : v / 2 ^ 7 < v).
      loop_zero has_out (put has_out v e) (v / 2 ^ 7) (smaller _ p) (omega arith),
)

-- Bytes written one by one.
wrote-put :
    (has_out : Bool) (e : Encoded) (b : ℕ) (bs : List ℕ)
    → wrote has_out (put has_out b e) bs ≡ wrote has_out e (b ∷ bs)
wrote-put true e b bs = ground (arith, append_assoc e.out (b ∷ []) bs)
wrote-put false e b bs = ground arith

-- Any other round writes the lowest group with its top bit set, and goes on: what holds of the
-- rest of the loop for every proof that it ends holds after this round.
loop_more {ℓ} :
    (P : Encoded → Type ℓ) (has_out : Bool) (e : Encoded) (v : ℕ) (w : Acc ◌<◌ v)
    → 128 ≤ v
    → ((w' : Acc ◌<◌ (v / 128))
        → P (varint_loop has_out (put has_out (v % 128 + 128) e) (v / 128) w'))
    → P (varint_loop has_out e v w)
unfolding varint_loop
loop_more P has_out e v (Acc.intro _ smaller) h rest = round (dec_lt 0 v)
  where
    more : (v / 2 ^ 7 == 0) ≡ false
    more = ground arith

    round :
        (d : Dec (0 < v))
        → P (elim d [
          | yes p ↦
              varint_loop has_out
                (put has_out
                  (if v / 2 ^ 7 == 0 then bit_and v 0x7f else bit_or (bit_and v 0x7f) 0x80)
                  e)
                (v / 2 ^ 7)
                (smaller (v / 2 ^ 7) (shift_shrinks v p))
          | no q ↦ e
        ])
    round (yes p) = rw (more, top_bit_set v) (rest (smaller (v / 2 ^ 7) (shift_shrinks v p)))
    round (no q) = absurd (q (omega arith))

loop_groups :
    (has_out : Bool) (k : ℕ) (e : Encoded) (v : ℕ) (w : Acc ◌<◌ v)
    → 0 < v
    → v < 128 ^ suc k
    → varint_loop has_out e v w ≡ wrote has_out e (groups k v)
unfolding groups
loop_groups has_out zero e v w h f = loop_last has_out e v w h (omega arith)
loop_groups has_out (suc k) e v w h f = elim (Bool-cases (ltb v 128)) [
  | inl small ↦ rw small (loop_last has_out e v w h (ltb→lt v 128 small))
  | inr big ↦
      let e' : Encoded = put has_out (v % 128 + 128) e in
      rw big (
        loop_more (λ r. r ≡ wrote has_out e ((v % 128 + 128) ∷ groups k (v / 128))) has_out e v w
          (ground arith)
          (λ w'.
            loop_groups has_out k e' (v / 128) w' (ground arith)
              (omega (arith, pow-suc 128 (suc k)))
            ∙ wrote-put has_out e (v % 128 + 128) (groups k (v / 128))))
]

-- On every uint64_t varint_encode returns how many groups of seven bits the number has, also when
-- `out` is NULL, and writes just these groups, the lowest first and all but the last with the top
-- bit set, when it is not.
pub varint_encode-groups :
    (v : ℕ) (has_out : Bool)
    → v < 2 ^ 64
    → varint_encode v has_out ≡ wrote has_out nothing (groups 9 v)
unfolding varint_encode groups
varint_encode-groups v has_out h = elim (Bool-cases (leb v 0x7f)) [
  | inl small ↦ rw (small, lt→ltb v 128 (ground arith)) refl
  | inr big ↦ rw big (loop_groups has_out 9 nothing v (lt_wf.apply v) (ground arith) (omega arith))
]

pub length-groups : (k v : ℕ) → (1 ≤ length (groups k v)) × (length (groups k v) ≤ k + 1)
unfolding groups
length-groups zero v = omega arith
length-groups (suc k) v = ground (arith, length-groups k (v / 128))

groups-bytes : (k v : ℕ) → v < 128 ^ suc k → All (λ b. b < 256) (groups k v)
unfolding groups
groups-bytes zero v h = omega arith
groups-bytes (suc k) v h =
    ground (arith, groups-bytes k (v / 128) (omega (arith, pow-suc 128 (suc k))))

-- No shorter encoding exists: `j` bytes are enough just when the number has at most 7 * j bits.
pub length-groups_iff :
    (k j v : ℕ) → v < 128 ^ suc k → (length (groups k v) ≤ suc j) ↔ (v < 128 ^ suc j)
unfolding groups
length-groups_iff zero j v h =
    (λ _. omega (arith, pow-suc 128 j, one-le-pow j 128), λ _. omega arith)
length-groups_iff (suc k) zero v h = ground (arith, length-groups k (v / 128))
length-groups_iff (suc k) (suc j) v h =
    let (to, from) = length-groups_iff k j (v / 128) (omega (arith, pow-suc 128 (suc k))) in
    let p : 128 ≤ 128 ^ suc j = omega (arith, pow-suc 128 j, one-le-pow j 128) in
    ground (arith, to, from, p, pow-suc 128 (suc j))
