-- ===== src/Rpc/Varint.antt =====
-- varint_encode and read_decode_varint of esphome_rpc.c: numbers in groups of seven bits, the
-- lowest first, with the top bit set on every byte but the last.
pub mod Count
pub mod Lost
pub mod Encode
pub mod Decode
pub mod RoundTrip
use mathlib.Core.WellFounded.{Acc}
use zephyr_esphome.Prelude.{
  ℕ, zero, suc, ◌+◌, ◌*◌, ◌/◌, ◌%◌, ◌^◌, ◌<◌, List, [], ◌∷◌, ◌++◌, Bool, true, false, ◌&&◌, not,
  leb, ◌==◌, if◌then◌else◌, bit_and, bit_or, arith, lt_wf, dec_lt, Code, neg, neg_eof, eoverflow,
}
use zephyr_esphome.Rpc.Socket.{Socket, Recv, lost, got}

-- What a call of varint_encode returns and what it has written to `out`.
pub record Encoded : Type 0 where
  pub count : ℕ
  pub out : List ℕ

-- One byte more at `out[i]`; nothing is written when `out` is NULL.
abbrev pub put : Bool → ℕ → Encoded → Encoded
put has_out b e = record { count = e.count + 1; out = if has_out then e.out ++ (b ∷ []) else e.out }

pub shift_shrinks : (val : ℕ) → 0 < val → val / 2 ^ 7 < val
shift_shrinks val h = omega arith

-- `while (val)`, with the number of bytes written so far for `i`.
varint_loop : Bool → Encoded → (val : ℕ) → Acc ◌<◌ val → Encoded
varint_loop has_out e val (Acc.intro _ smaller) =
    let temp = bit_and val 0x7f in
    elim (dec_lt 0 val) [
      | yes h ↦
          varint_loop has_out (put has_out (if val / 2 ^ 7 == 0 then temp else bit_or temp 0x80) e)
            (val / 2 ^ 7) (smaller (val / 2 ^ 7) (shift_shrinks val h))
      | no h ↦ e
    ]

abbrev pub nothing : Encoded
nothing = record { count = 0; out = [] }

-- varint_encode(val, out), where `has_out` says whether `out` is a buffer or NULL.
unfoldable pub varint_encode : ℕ → Bool → Encoded
unfolding varint_loop lt_wf dec_lt
varint_encode val has_out =
    if leb val 0x7f
    then put has_out val nothing
    else varint_loop has_out nothing val (lt_wf.apply val)

-- How read_decode_varint ends. `unfinished` is no result of the code: the rounds ran out.
pub data Decoded : Type 0 where
  value : ℕ → Decoded
  failed : Code → Decoded
  unfinished : Decoded

-- What `val`, a uint8_t, holds after zsock_recv: a failed call leaves it as it was.
abbrev pub received : Recv → ℕ → ℕ
received (lost n) val = val
received (got []) val = val
received (got (b ∷ bs)) val = b % 256

-- `ret == 0`
abbrev pub is_eof : Recv → Bool
is_eof (lost n) = false
is_eof (got []) = true
is_eof (got (b ∷ bs)) = false

-- What one round of the loop leads to: a return, or the next round with `result`, `bitpos`, `val`.
pub data Round : Type 0 where
  stop : Decoded → Round
  again : ℕ → ℕ → ℕ → Round

-- The body of the `do ... while (val & 0x80)` loop, after zsock_recv.
unfoldable pub round : Recv → (result bitpos val : ℕ) → Round
round r result bitpos val =
    let val' = received r val in
    let result' = bit_or result (bit_and val' 0x7f * 2 ^ bitpos % 2 ^ 64) in
    if is_eof r
    then stop (failed neg_eof)
    else if leb 63 bitpos && not (bit_and val' 0xfe == 0)
    then stop (failed (neg eoverflow))
    else if bit_and val' 0x80 == 0
    then stop (value result')
    else again result' ((bitpos + 7) % 256) val'

module _ (s : Socket) where
  open s use {World, recv}

  -- The loop, at most `rounds` times. `val` starts uninitialised.
  pub read_loop : (rounds result bitpos val : ℕ) → World → Decoded × World
  read_loop zero result bitpos val w = (unfinished, w)
  read_loop (suc rounds) result bitpos val w =
      let (r, w') = recv 1 w in
      elim (round r result bitpos val) [
        | stop d ↦ (d, w')
        | again result' bitpos' val' ↦ read_loop rounds result' bitpos' val' w'
      ]

  -- Ten rounds read 64 bits.
  unfoldable pub read_decode_varint : ℕ → World → Decoded × World
  unfolding read_loop round
  read_decode_varint val w = read_loop 10 0 0 val w
