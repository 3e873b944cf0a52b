-- ===== src/Rpc/Varint/Count.antt =====
-- What read_decode_varint leaves as it is: every number that only zsock_accept and zsock_close change.
use zephyr_esphome.Prelude.{ℕ, zero, suc, ◌≡◌, refl, ◌∙◌}
use zephyr_esphome.Rpc.Socket.{Socket, Keeps}
use zephyr_esphome.Rpc.Varint.{Round, stop, again, round, read_loop, read_decode_varint}

module _ (s : Socket) (count : s.World → ℕ) (keeps : Keeps s count) where
  read_loop-count :
      (rounds result bitpos val : ℕ) (w : s.World)
      → count (read_loop s rounds result bitpos val w).1 ≡ count w
  unfolding read_loop
  read_loop-count zero result bitpos val w = refl
  read_loop-count (suc rounds) result bitpos val w =
      by_round (read_loop-count rounds) (round (s.recv 1 w).0 result bitpos val) refl
    where
      by_round :
          ((result bitpos val : ℕ) (w : s.World)
            → count (read_loop s rounds result bitpos val w).1 ≡ count w)
          → (r : Round) → round (s.recv 1 w).0 result bitpos val ≡ r
          → count (read_loop s (suc rounds) result bitpos val w).1 ≡ count w
      by_round rest (stop d) e = rw (read_loop, e) (keeps.received 1 w)
      by_round rest (again result' bitpos' val') e =
          rw (read_loop, e) (rest result' bitpos' val' _ ∙ keeps.received 1 w)

  pub read_decode_varint-count :
      (val : ℕ) (w : s.World) → count (read_decode_varint s val w).1 ≡ count w
  unfolding read_decode_varint
  read_decode_varint-count val w = read_loop-count 10 0 0 val w
