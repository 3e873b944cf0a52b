-- ===== src/Ota/Errors.antt =====
-- What esphome_ota_run does when a chunk falls short, and how it reads the magic bytes and the size.
use zephyr_esphome.Prelude.{
  same_bytes, same_bytes-eq, ℕ, ◌+◌, ◌*◌, ◌/◌, ◌%◌, ◌^◌, ◌<◌, ◌≡◌, ◌≢◌, refl, sym, ap, ◌∙◌, inl,
  inr, List, [], ◌∷◌, ◌++◌, true, false, none, some, ==_iff, if◌then◌else◌, length, neg, eio, arith,
  foldl, bit_and, bit_and-low8, shift-bit_or, Bool-cases,
}
use zephyr_esphome.Rpc.Socket.{got}
use zephyr_esphome.Ota.Base.{
  Platform, Step, ok, err, Run, ◌>>=◌, pure, fail, bind-ok, is_count, all_of, magic_bytes,
  response_ok, error_magic, size_round,
}
use zephyr_esphome.Ota.{
  try_send, try_recv, or_answer, or_fail, recv_or_answer, recv_all, read_data, read_magic,
  read_size,
}

size_round-shift : (size b : ℕ) → size < 2 ^ 24 → b < 256 → size_round size b ≡ size * 256 + b
unfolding size_round
size_round-shift size b h l =
    let kept : size * 2 ^ 8 % 2 ^ 32 ≡ size * 2 ^ 8 = omega arith in
    let low : bit_and b 0xff ≡ b = omega (arith, bit_and-low8 b) in
    rw (kept, low) (shift-bit_or 8 b size l)

-- The four bytes of a number, the highest first.
abbrev pub big_endian : ℕ → List ℕ
big_endian n = n / 2 ^ 24 ∷ n / 2 ^ 16 % 256 ∷ n / 2 ^ 8 % 256 ∷ n % 256 ∷ []

pub foldl-big_endian : (n : ℕ) → n < 2 ^ 32 → foldl size_round 0 (big_endian n) ≡ n
foldl-big_endian n h =
    let first : size_round 0 (n / 2 ^ 24) ≡ n / 2 ^ 24 =
      size_round-shift 0 (n / 2 ^ 24) (omega arith) (omega arith) ∙ omega arith in
    let second : size_round (n / 2 ^ 24) (n / 2 ^ 16 % 256) ≡ n / 2 ^ 16 =
      size_round-shift (n / 2 ^ 24) (n / 2 ^ 16 % 256) (omega arith) (omega arith) ∙ omega arith in
    let third : size_round (n / 2 ^ 16) (n / 2 ^ 8 % 256) ≡ n / 2 ^ 8 =
      size_round-shift (n / 2 ^ 16) (n / 2 ^ 8 % 256) (omega arith) (omega arith) ∙ omega arith in
    rw (first, second, third)
      (size_round-shift (n / 2 ^ 8) (n % 256) (omega arith) (omega arith) ∙ omega arith)

module _ (p : Platform) where
  open p use {Peer, recv, send, flash_write}

  -- When less than a whole chunk arrives and the answer can be sent, the answer to the client is
  -- one byte, OTA_RESPONSE_OK, and the error is -EIO.
  pub read_data_short :
      (n : ℕ) (r : Run p)
      → all_of n (recv n r.peer).0 ≡ none
      → is_count (send (response_ok ∷ []) (recv n r.peer).1).0 1 ≡ true
      → ((read_data p n r).0 ≡ err (neg eio))
        × ((read_data p n r).1.sent ≡ r.sent ++ (response_ok ∷ []))
  unfolding read_data recv_or_answer or_answer try_recv try_send
  read_data_short n r short sent = (rw short refl, rw (short, sent) refl)

  try_recv_got :
      (n : ℕ) (r : Run p) (bs : List ℕ) (q : Peer)
      → recv n r.peer ≡ (got bs, q)
      → length bs ≡ n
      → try_recv p n r ≡ (ok (some bs), record r { peer = q })
  unfolding try_recv
  try_recv_got n r bs q e l = rw (e, (==_iff (length bs) n).1 l) refl

  recv_all_got :
      (n : ℕ) (r : Run p) (bs : List ℕ) (q : Peer)
      → recv n r.peer ≡ (got bs, q)
      → length bs ≡ n
      → recv_all p n r ≡ (ok bs, record r { peer = q })
  unfolding recv_all or_fail
  recv_all_got n r bs q e l = bind-ok (try_recv p n) (or_fail p) (try_recv_got n r bs q e l)

  abbrev pub sized : List ℕ → Step (Run p) ℕ
  sized bs = pure (foldl size_round 0 bs)

  abbrev pub checked : List ℕ → Step (Run p) (Unit {0})
  checked bs =
      if same_bytes magic_bytes bs
      then pure tt
      else (try_send p (error_magic ∷ []) >>= λ ret. fail (neg eio))

  refused :
      (bs : List ℕ) (r : Run p)
      → same_bytes magic_bytes bs ≡ false
      → is_count (send (error_magic ∷ []) r.peer).0 1 ≡ true
      → checked bs r ≡ (
        err (neg eio),
        record r { peer = (send (error_magic ∷ []) r.peer).1; sent = r.sent ++ (error_magic ∷ []) },
      )
  unfolding try_send
  refused bs r differ accepted = rw (differ, accepted) refl

  -- esphome_ota_read_size takes the four bytes as a number, the highest first: every size below 2^32
  -- is read as it was sent.
  pub read_size-big_endian :
      (n : ℕ) (r : Run p) (q : Peer)
      → n < 2 ^ 32
      → recv 4 r.peer ≡ (got (big_endian n), q)
      → read_size p r ≡ (ok n, record r { peer = q })
  unfolding read_size
  read_size-big_endian n r q h e =
      bind-ok (recv_all p 4) sized (recv_all_got 4 r (big_endian n) q e refl)
      ∙ ap (λ (size : ℕ). (ok size, record r { peer = q })) (foldl-big_endian n h)

  -- A client whose first five bytes are not the magic bytes is answered with one byte,
  -- OTA_RESPONSE_ERROR_MAGIC, and refused with -EIO.
  pub read_magic_mismatch :
      (bs : List ℕ) (r : Run p) (q : Peer)
      → recv 5 r.peer ≡ (got bs, q)
      → length bs ≡ 5
      → bs ≢ magic_bytes
      → is_count (send (error_magic ∷ []) q).0 1 ≡ true
      → read_magic p r ≡ (
        err (neg eio),
        record r { peer = (send (error_magic ∷ []) q).1; sent = r.sent ++ (error_magic ∷ []) },
      )
  unfolding read_magic
  read_magic_mismatch bs r q e five other accepted =
      bind-ok (recv_all p 5) checked (recv_all_got 5 r bs q e five)
      ∙ elim (Bool-cases (same_bytes magic_bytes bs)) [
        | inl same ↦ absurd (other (sym (same_bytes-eq magic_bytes bs same)))
        | inr differ ↦ refused bs (record r { peer = q }) differ accepted
      ]
