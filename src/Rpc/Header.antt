-- ===== src/Rpc/Header.antt =====
-- esphome_header_size, esphome_encode_header and esphome_read_header of esphome_rpc.c: a zero byte,
-- the length of the payload and the number of the message.
pub mod Laws
use zephyr_esphome.Prelude.{
  ℕ, zero, suc, ◌+◌, ◌%◌, ◌^◌, List, [], ◌∷◌, ◌++◌, Bool, true, false, ◌==◌, if◌then◌else◌, Code,
  int, neg, negsuc, eio,
}
use zephyr_esphome.Rpc.Socket.{Socket, Recv, lost, got}
use zephyr_esphome.Rpc.Varint.{
  varint_encode, Decoded, value, failed, unfinished, is_eof, read_decode_varint,
}

-- The bytes before the payload, counted with `out` NULL.
unfoldable pub header_size : (rpc_id len : ℕ) → ℕ
header_size rpc_id len = 1 + (varint_encode len false).count + (varint_encode rpc_id false).count

-- The bytes that esphome_encode_header writes to `out`, from its start.
unfoldable pub encode_header : (rpc_id len : ℕ) → List ℕ
encode_header rpc_id len = 0x00 ∷ (varint_encode len true).out ++ (varint_encode rpc_id true).out

-- How esphome_read_header ends: with `*rpc_id` and `*len` stored, or with an error. `waiting` is no
-- result of the code: the rounds of its first loop ran out.
pub data Header : Type 0 where
  header : (rpc_id len : ℕ) → Header
  bad : Code → Header
  waiting : Header

module _ (s : Socket) where
  open s use {World, recv}

  -- `do { ret = zsock_recv(fd, &byte, 1, ...); } while (ret == 0)`, at most `rounds` times.
  -- `none` is no result of the code: the rounds ran out.
  unfoldable pub read_start : (rounds : ℕ) → World → Recv × World
  read_start zero w = (got [], w)
  read_start (suc rounds) w =
      let (r, w') = recv 1 w in elim (is_eof r) [ true ↦ read_start rounds w' | false ↦ (r, w') ]

  -- The second number: `(uint32_t)val` is the message, and `len` the payload's length.
  unfoldable pub read_rpc_id : (val len : ℕ) → World → Header × World
  read_rpc_id val len w =
      let (d, w') = read_decode_varint s val w in
      elim d [
        | value v ↦ (header (v % 2 ^ 32) len, w')
        | failed c ↦ (bad c, w')
        | unfinished ↦ (waiting, w')
      ]

  -- The first number: `(uint32_t)val` is the length.
  unfoldable pub read_len : (val : ℕ) → World → Header × World
  read_len val w =
      let (d, w') = read_decode_varint s val w in
      elim d [
        | value v ↦ read_rpc_id val (v % 2 ^ 32) w'
        | failed c ↦ (bad c, w')
        | unfinished ↦ (waiting, w')
      ]

  -- `rounds` bounds the first loop, and `val` is what the uninitialised byte of read_decode_varint
  -- holds. A first byte other than 0 is -EIO, and a failed read is the number that it returned.
  unfoldable pub read_header : (rounds val : ℕ) → World → Header × World
  read_header rounds val w =
      let (r, w') = read_start rounds w in
      elim r [
        | lost n ↦ (bad (int (negsuc n)), w')
        | got [] ↦ (waiting, w')
        | got (b ∷ bs) ↦ elim (b % 256 == 0x00) [
          | true ↦ read_len val w'
          | false ↦ (bad (neg eio), w')
        ]
      ]
