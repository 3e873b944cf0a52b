-- ===== src/Rpc/Header/Laws.antt =====
-- The header of esphome_rpc.c: its size, reading it back, and reading it from a closed connection.
use native.Mathlib.Nat.{mod-eq_of_lt}
use zephyr_esphome.Prelude.{
  ℕ, zero, suc, ◌+◌, ◌^◌, ◌≤◌, ◌<◌, ◌≡◌, refl, ap, List, [], ◌∷◌, ◌++◌, true, false, length,
  length-append, arith,
}
use zephyr_esphome.Rpc.Socket.{Socket, got, Delivers, IsClosed}
use zephyr_esphome.Rpc.Varint.{varint_encode}
use zephyr_esphome.Rpc.Varint.Encode.{
  groups, varint_encode-groups, length-groups, length-groups_iff,
}
use zephyr_esphome.Rpc.Varint.RoundTrip.{read_decode_varint-varint_encode}
use zephyr_esphome.Rpc.Header.{
  header_size, encode_header, header, waiting, read_start, read_rpc_id, read_len, read_header,
}

-- varint_encode returns the same number with and without a buffer, and this is how much it writes:
-- five bytes at most for 32 bits.
count_lem :
    (v : ℕ)
    → v < 2 ^ 32
    → ((varint_encode v false).count ≡ length (varint_encode v true).out)
      × (1 ≤ length (varint_encode v true).out)
      × (length (varint_encode v true).out ≤ 5)
count_lem v h =
    rw (varint_encode-groups v true (omega arith), varint_encode-groups v false (omega arith))
      (omega arith, (length-groups 9 v).0, (length-groups_iff 9 4 v (omega arith)).1 (omega arith))

-- For 32-bit numbers esphome_encode_header writes just as many bytes as esphome_header_size has
-- computed, and these are between 3 and 11.
pub length-encode_header :
    (rpc_id len : ℕ)
    → rpc_id < 2 ^ 32
    → len < 2 ^ 32
    → (length (encode_header rpc_id len) ≡ header_size rpc_id len)
      × (3 ≤ header_size rpc_id len)
      × (header_size rpc_id len ≤ 11)
unfolding header_size encode_header
length-encode_header rpc_id len h k = omega (
  arith,
  count_lem len k,
  count_lem rpc_id h,
  length-append (varint_encode len true).out (varint_encode rpc_id true).out,
)

-- The header of a message without a payload fits the `uint8_t out[8]` of its function: three bytes.
pub header_size_bare : (rpc_id : ℕ) → rpc_id < 128 → header_size rpc_id 0 ≡ 3
unfolding header_size
header_size_bare rpc_id h =
    let one = (length-groups_iff 9 0 rpc_id (omega arith)).1 h in
    let q : (varint_encode rpc_id false).count ≡ 0 + length (groups 9 rpc_id) =
      ap (λ e. e.count) (varint_encode-groups rpc_id false (omega arith)) in
    let q' : (varint_encode 0 false).count ≡ 0 + length (groups 9 0) =
      ap (λ e. e.count) (varint_encode-groups 0 false (omega arith)) in
    let zero_one = (length-groups_iff 9 0 0 (omega arith)).1 (omega arith) in
    omega (arith, one, q, q', zero_one, length-groups 9 rpc_id, length-groups 9 0)

module _ (s : Socket) where
  open s use {World, recv}

  Delivers-append :
      (xs ys : List ℕ) (w w' : World)
      → Delivers s (xs ++ ys) w w'
      → (v : World) × Delivers s xs w v × Delivers s ys v w'
  Delivers-append [] ys w w' d = (w, refl, d)
  Delivers-append (x ∷ xs) ys w w' (u, p, z) =
      let (v, d, e) = Delivers-append xs ys u w' z in (v, (u, p, d), e)

  -- If the socket delivers, byte by byte, what esphome_encode_header writes for 32-bit numbers,
  -- esphome_read_header stores these numbers, and has read nothing beyond the header.
  pub read_header-encode_header :
      (rounds val rpc_id len : ℕ) (w w' : World)
      → rpc_id < 2 ^ 32
      → len < 2 ^ 32
      → Delivers s (encode_header rpc_id len) w w'
      → read_header s (suc rounds) val w ≡ (header rpc_id len, w')
  unfolding encode_header read_header read_start read_len read_rpc_id
  read_header-encode_header rounds val rpc_id len w w' h k (u, p, d) =
      let (v, d₁, d₂) = Delivers-append (varint_encode len true).out _ u w' d in
      let e₁ = read_decode_varint-varint_encode s len val u v (omega arith) d₁ in
      let e₂ = read_decode_varint-varint_encode s rpc_id val v w' (omega arith) d₂ in
      ground (arith, e₁, e₂, mod-eq_of_lt h, mod-eq_of_lt k)

  read_start_closed : (rounds : ℕ) (w : World) → IsClosed s w → read_start s rounds w ≡ (got [], w)
  unfolding read_start
  read_start_closed zero w c = refl
  read_start_closed (suc rounds) w c = ground (arith, read_start_closed rounds w c)

  -- Once the peer has closed the connection, esphome_read_header does not return: its first loop
  -- reads on for any number of rounds.
  pub read_header_closed :
      (rounds val : ℕ) (w : World) → IsClosed s w → read_header s rounds val w ≡ (waiting, w)
  unfolding read_header
  read_header_closed rounds val w c = ground (arith, read_start_closed rounds w c)
