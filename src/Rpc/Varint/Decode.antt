-- ===== src/Rpc/Varint/Decode.antt =====
-- read_decode_varint of esphome_rpc.c: its loop on any input, and on what varint_encode writes.
use native.Mathlib.Numerals.{towards_suc}
use native.Mathlib.Nat.{mod-eq_of_lt, pow-le-pow_right, le_trans}
use zephyr_esphome.Prelude.{
  ℕ, zero, suc, ◌+◌, ◌*◌, ◌%◌, ◌^◌, ◌≤◌, ◌<◌, ◌≡◌, refl, true, leb, ◌==◌, if◌then◌else◌, bit_and,
  bit_or, arith, bit_and-low7, bit_and-high7, bit_and-top, bit_or-shift, not, ◌&&◌, neg, eoverflow,
  Bool-cases, inl, inr,
}
use zephyr_esphome.Rpc.Socket.{Socket, Recv}
use zephyr_esphome.Rpc.Varint.{
  Decoded, value, failed, unfinished, received, is_eof, read_loop, Round, stop, again, round,
  read_decode_varint,
}

-- A result of the code, and a number in it has 64 bits.
abbrev pub IsU64Result : Decoded → Type 0
IsU64Result (value v) = v < 2 ^ 64
IsU64Result (failed c) = Unit
IsU64Result unfinished = ⊥

pub shift_seven : (b : ℕ) → 2 ^ (b + 7) ≡ 128 * 2 ^ b
shift_seven b = simp towards_suc (omega arith)

-- The bits of one round: seven more than before, and 64 at most.
abbrev pub add_bits : ℕ → ℕ → ℕ → ℕ
add_bits result val bitpos = bit_or result (bit_and val 0x7f * 2 ^ bitpos % 2 ^ 64)

-- Where the new bits fit, they are added.
pub add_bits_fit :
    (result val b : ℕ)
    → result < 2 ^ b
    → val % 128 * 2 ^ b < 2 ^ 64
    → add_bits result val b ≡ result + val % 128 * 2 ^ b
add_bits_fit result val b r f =
    rw (bit_and-low7, mod-eq_of_lt f) (bit_or-shift b result (val % 128) r)

le-mul_left : (a b p : ℕ) → a ≤ b → a * p ≤ b * p
le-mul_left a b p h = grind arith

pub below_bit : (result val b : ℕ) → result < 2 ^ b → result + val % 128 * 2 ^ b < 2 ^ (b + 7)
below_bit result val b r =
    let m : val % 128 * 2 ^ b ≤ 127 * 2 ^ b = le-mul_left (val % 128) 127 (2 ^ b) (omega arith) in
    omega (arith, shift_seven b, m)

pub shift_fits : (b : ℕ) → b ≤ 56 → 2 ^ (b + 7) ≤ 2 ^ 63
shift_fits b h = pow-le-pow_right (omega arith) {j = 63} (omega arith)

-- Below bit 63 a round adds seven bits, and at it the one that is left.
add_bits-lt : (result val b : ℕ) → b ≤ 56 → result < 2 ^ b → add_bits result val b < 2 ^ (b + 7)
add_bits-lt result val b h r =
    let p = below_bit result val b r in
    rw (add_bits_fit result val b r (omega (arith, shift_fits b h, p))) p

add_bits_last :
    (result val : ℕ) → result < 2 ^ 63 → bit_and val 0xfe ≡ 0 → add_bits result val 63 < 2 ^ 64
add_bits_last result val r h =
    let p : val % 128 < 2 = omega (arith, bit_and-high7 val) in
    rw (add_bits_fit result val 63 r (omega arith)) (omega arith)

-- What a round leads to when `bitpos` bits have been read.
abbrev IsSoundRound : ℕ → Round → Type 0
IsSoundRound bitpos (stop d) = IsU64Result d
IsSoundRound bitpos (again result' bitpos' val') =
    (bitpos ≤ 56) × (bitpos' ≡ bitpos + 7) × (result' < 2 ^ bitpos')

bits-IsSoundRound :
    (result bitpos v j : ℕ)
    → bitpos ≡ 7 * j
    → j ≤ 9
    → result < 2 ^ bitpos
    → IsSoundRound bitpos (
        if leb 63 bitpos && not (bit_and v 0xfe == 0)
        then stop (failed (neg eoverflow))
        else if bit_and v 0x80 == 0
        then stop (value (add_bits result v bitpos))
        else again (add_bits result v bitpos) ((bitpos + 7) % 256) v)
bits-IsSoundRound result bitpos v j e h b = elim (Bool-cases (leb 63 bitpos)) [
  | inl last ↦ elim (Bool-cases (bit_and v 0xfe == 0)) [
    | inl one_bit ↦
        let at_63 : bitpos ≡ 63 = ground arith in
        let done : (bit_and v 0x80 == 0) ≡ true = ground (arith, bit_and-high7 v, bit_and-top v) in
        rw (last, one_bit, done) (rw at_63 (add_bits_last result v (rw at_63 at b) (ground arith)))
    | inr more ↦ rw (last, more) tt
  ]
  | inr early ↦
      let low : bitpos ≤ 56 = ground arith in
      let p = add_bits-lt result v bitpos low b in
      elim (Bool-cases (bit_and v 0x80 == 0)) [
        | inl done ↦
            rw (early, done) (le_trans p (pow-le-pow_right (omega arith) {j = 64} (omega arith)))
        | inr more ↦
            let e : (bitpos + 7) % 256 ≡ bitpos + 7 = omega arith in
            rw (early, more) (low, e, rw e p)
      ]
]

round-IsSoundRound :
    (r : Recv) (result bitpos val j : ℕ)
    → bitpos ≡ 7 * j
    → j ≤ 9
    → result < 2 ^ bitpos
    → IsSoundRound bitpos (round r result bitpos val)
unfolding round
round-IsSoundRound r result bitpos val j e h b = elim (Bool-cases (is_eof r)) [
  | inl eof ↦ rw eof tt
  | inr more ↦ let v = received r val in rw more (bits-IsSoundRound result bitpos v j e h b)
]

module _ (s : Socket) where
  open s use {World, recv}

  -- `j` rounds have been made, and read `bitpos` bits.
  loop-IsU64Result :
      (rounds j result bitpos val : ℕ) (w : World)
      → bitpos ≡ 7 * j
      → j ≤ 9
      → j + rounds ≡ 10
      → result < 2 ^ bitpos
      → IsU64Result (read_loop s rounds result bitpos val w).0
  unfolding read_loop
  loop-IsU64Result zero j result bitpos val w e h n r = absurd (omega arith)
  loop-IsU64Result (suc rounds) j result bitpos val w e h n r =
      next (round (recv 1 w).0 result bitpos val)
        (round-IsSoundRound (recv 1 w).0 result bitpos val j e h r)
        (λ result' bitpos' val'. loop-IsU64Result rounds (j + 1) result' bitpos' val' (recv 1 w).1)
    where
      next :
          (x : Round)
          → IsSoundRound bitpos x
          → ((result' bitpos' val' : ℕ)
              → bitpos' ≡ 7 * (j + 1)
              → j + 1 ≤ 9
              → j + 1 + rounds ≡ 10
              → result' < 2 ^ bitpos'
              → IsU64Result (read_loop s rounds result' bitpos' val' (recv 1 w).1).0)
          → IsU64Result
              (elim x as (λ x. Decoded × World) [
                | stop d ↦ (d, (recv 1 w).1)
                | again result' bitpos' val' ↦ read_loop s rounds result' bitpos' val' (recv 1 w).1
              ]).0
      next (stop d) k rest = k
      next (again result' bitpos' val') (le, eq, lt) rest =
          rest result' bitpos' val' (omega arith) (omega arith) (omega arith) lt

  -- Whatever the socket answers, and whatever the uninitialised byte held, read_decode_varint
  -- returns after ten reads at most, and a number that it stores is below 2 ^ 64.
  pub read_decode_varint-IsU64Result :
      (val : ℕ) (w : World) → IsU64Result (read_decode_varint s val w).0
  unfolding read_decode_varint
  read_decode_varint-IsU64Result val w =
      loop-IsU64Result 10 0 0 0 val w refl (omega arith) refl (omega arith)
