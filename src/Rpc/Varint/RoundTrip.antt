-- ===== src/Rpc/Varint/RoundTrip.antt =====
-- read_decode_varint of esphome_rpc.c after varint_encode.
use native.Mathlib.Nat.{div-add-mod, pow-suc}
use zephyr_esphome.Prelude.{
  ℕ, zero, suc, ◌+◌, ◌*◌, ◌/◌, ◌%◌, ◌^◌, ◌≤◌, ◌<◌, ◌≡◌, refl, ap, ◌∙◌, [], ◌∷◌, true, false, ltb,
  leb, ◌==◌, bit_and, arith, bit_and-high7, bit_and-top, Bool-cases, inl, inr, ltb→lt,
}
use zephyr_esphome.Rpc.Socket.{Socket, Recv, got, Delivers}
use zephyr_esphome.Rpc.Varint.{
  Decoded, value, stop, again, round, read_loop, read_decode_varint, varint_encode,
}
use zephyr_esphome.Rpc.Varint.Encode.{groups, varint_encode-groups}
use zephyr_esphome.Rpc.Varint.Decode.{add_bits_fit, below_bit, shift_seven, shift_fits}

-- A last byte ends the loop.
round_last :
    (v result b val : ℕ)
    → v < 128
    → b ≤ 63
    → result < 2 ^ b
    → result + v * 2 ^ b < 2 ^ 64
    → round (got (v ∷ [])) result b val ≡ stop (value (result + v * 2 ^ b))
unfolding round
round_last v result b val h l r f =
    let small : v % 256 % 128 * 2 ^ b ≡ v * 2 ^ b = ap (λ (t : ℕ). t * 2 ^ b) (omega arith) in
    let sum = add_bits_fit result (v % 256) b r (omega (arith, small)) in
    let low : (bit_and (v % 256) 0x80 == 0) ≡ true = ground (arith, bit_and-top (v % 256)) in
    elim (Bool-cases (leb 63 b)) [
      | inl last ↦
          let e : b ≡ 63 = ground arith in
          let one : (bit_and (v % 256) 0xfe == 0) ≡ true =
            ground (arith, bit_and-high7 (v % 256), rw e at f) in
          rw (last, one, low, sum, small) refl
      | inr early ↦ rw (early, low, sum, small) refl
    ]

-- A byte with the top bit set adds its seven bits.
round_more :
    (g result b val : ℕ)
    → g < 128
    → b ≤ 56
    → result < 2 ^ b
    → round (got ((g + 128) ∷ [])) result b val ≡ again (result + g * 2 ^ b) (b + 7) (g + 128)
unfolding round
round_more g result b val h l r =
    let byte : (g + 128) % 256 ≡ g + 128 = omega arith in
    let bits : (g + 128) % 128 ≡ g = omega arith in
    let small : (g + 128) % 128 * 2 ^ b ≡ g * 2 ^ b = ap (λ (t : ℕ). t * 2 ^ b) bits in
    let below = below_bit result (g + 128) b r in
    let sum = add_bits_fit result (g + 128) b r (omega (arith, shift_fits b l, below)) in
    let top : (bit_and (g + 128) 0x80 == 0) ≡ false = ground (arith, bit_and-top (g + 128)) in
    let early : leb 63 b ≡ false = ground arith in
    let next : (b + 7) % 256 ≡ b + 7 = omega arith in rw (byte, early, top, next, sum, small) refl

-- The lowest group of `v` and the rest, both shifted by `b`.
split_shift : (v b : ℕ) → v * 2 ^ b ≡ v % 128 * 2 ^ b + v / 128 * 2 ^ (b + 7)
split_shift v b = omega (
  arith,
  ap (λ (t : ℕ). t * 2 ^ b) (div-add-mod v 128),
  ap (λ (t : ℕ). v / 128 * t) (shift_seven b),
)

module _ (s : Socket) where
  open s use {World, recv}

  -- One byte delivered, and the round that it makes.
  loop_stop :
      (n result b val x : ℕ) (d : Decoded) (w v : World)
      → recv 1 w ≡ (got (x ∷ []), v)
      → round (got (x ∷ [])) result b val ≡ stop d
      → read_loop s (suc n) result b val w ≡ (d, v)
  unfolding read_loop
  loop_stop n result b val x d w v p q =
      rw (p, read_loop) (rw (q, read_loop) (ap (λ (t : Recv × World). (d, t.1)) p))

  loop_again :
      (n result b val x result' b' val' : ℕ) (w v : World)
      → recv 1 w ≡ (got (x ∷ []), v)
      → round (got (x ∷ [])) result b val ≡ again result' b' val'
      → read_loop s (suc n) result b val w ≡ read_loop s n result' b' val' v
  unfolding read_loop
  loop_again n result b val x result' b' val' w v p q =
      rw (p, read_loop)
        (rw (q, read_loop) (ap (λ (t : Recv × World). read_loop s n result' b' val' t.1) p))

  loop_reads :
      (k v result b val : ℕ) (w w' : World)
      → b + 7 * k ≡ 63
      → v < 128 ^ suc k
      → result < 2 ^ b
      → result + v * 2 ^ b < 2 ^ 64
      → Delivers s (groups k v) w w'
      → read_loop s (suc k) result b val w ≡ (value (result + v * 2 ^ b), w')
  unfolding groups
  loop_reads zero v result b val w w' e h r f (u, p, z) =
      loop_stop zero result b val v _ w u p
        (round_last v result b val (omega arith) (omega arith) r f)
      ∙ ap (λ t. (value (result + v * 2 ^ b), t)) z
  loop_reads (suc k) v result b val w w' e h r f d = elim (Bool-cases (ltb v 128)) [
    | inl small ↦
        let (u, p, z) = rw small at d in
        loop_stop (suc k) result b val v _ w u p
          (round_last v result b val (ltb→lt v 128 small) (omega arith) r f)
        ∙ ap (λ t. (value (result + v * 2 ^ b), t)) z
    | inr big ↦
        let (u, p, z) = rw big at d in
        let g = v % 128 in
        let split = split_shift v b in
        let low : b ≤ 56 = omega arith in
        let result' = result + g * 2 ^ b in
        let below : result' < 2 ^ (b + 7) = below_bit result v b r in
        loop_again (suc k) result b val (g + 128) result' (b + 7) (g + 128) w u p
          (round_more g result b val (omega arith) low r)
        ∙ loop_reads k (v / 128) result' (b + 7) (g + 128) u w' (omega arith)
            (omega (arith, pow-suc 128 (suc k))) below (omega (arith, split)) z
        ∙ ap (λ (t : ℕ). (value t, w')) (omega (arith, split))
  ]

  -- If the socket delivers, byte by byte, what varint_encode writes for a uint64_t, read_decode_varint
  -- stores that number, and has read nothing beyond it.
  pub read_decode_varint-varint_encode :
      (v val : ℕ) (w w' : World)
      → v < 2 ^ 64
      → Delivers s (varint_encode v true).out w w'
      → read_decode_varint s val w ≡ (value v, w')
  unfolding read_decode_varint
  read_decode_varint-varint_encode v val w w' h d =
      loop_reads 9 v 0 0 val w w' refl (omega arith) (omega arith) (omega arith)
        (rw (varint_encode-groups v true h) at d)
      ∙ ap (λ (t : ℕ). (value t, w')) (omega arith)
