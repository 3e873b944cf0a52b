-- ===== src/Rpc/Varint/Lost.antt =====
-- read_decode_varint when zsock_recv fails.
use zephyr_esphome.Prelude.{
  ℕ, ◌<◌, ◌≡◌, refl, arith, bit_and, bit_or, ◌*◌, ◌%◌, ◌^◌, bit_and-low7, bit_and-top, zero-bit_or,
  ap, ◌==◌, true,
}
use zephyr_esphome.Rpc.Socket.{Socket, lost}
use zephyr_esphome.Rpc.Varint.{value, read_loop, round, stop, read_decode_varint}

low_byte : (val : ℕ) → val < 128 → bit_or 0 (bit_and val 0x7f * 2 ^ 0 % 2 ^ 64) ≡ val
low_byte val small =
    let same : bit_and val 0x7f * 2 ^ 0 % 2 ^ 64 ≡ val = omega (arith, bit_and-low7 val) in
    rw same (zero-bit_or val)

round_lost : (val n : ℕ) → val < 128 → round (lost n) 0 0 val ≡ stop (value val)
unfolding round
round_lost val n small =
    let no_top : (bit_and val 0x80 == 0) ≡ true = ground (arith, bit_and-top val) in
    rw (no_top, low_byte val small) refl

-- When the first read fails, read_decode_varint does not: it stores what the byte held before, which
-- is not initialised, if this is below 128.
pub read_decode_varint_lost :
    (s : Socket) (val n : ℕ) (w w' : s.World)
    → s.recv 1 w ≡ (lost n, w')
    → val < 128
    → read_decode_varint s val w ≡ (value val, w')
unfolding read_decode_varint read_loop
read_decode_varint_lost s val n w w' e small =
    rw (read_loop, e, round_lost val n small) (ap (λ t. (value val, t.1)) e)
