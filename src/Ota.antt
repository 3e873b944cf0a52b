-- ===== src/Ota.antt =====
-- esphome_ota.c: the update over the air. A client connects, the two sides shake hands, the client
-- sends the image in chunks that are written to the flash, and the device reboots into it.
pub mod Base
pub mod Acks
pub mod Chunks
pub mod Receive
pub mod Talk
pub mod Flow
pub mod Codes
pub mod Errors
pub mod Endless
pub mod Stream
pub mod Greeting
pub mod Round
pub mod Image
pub mod Update
pub mod Service
use zephyr_esphome.Prelude.{
  same_bytes, ℕ, zero, suc, ◌+◌, ◌-◌, ◌%◌, ◌^◌, List, [], ◌∷◌, ◌++◌, Bool, true, false, Option,
  none, some, ltb, leb, if◌then◌else◌, min, length, Code, int, neg, ℤ, eio, einval, enotsup,
  success, foldl,
}
use Base.{
  Platform, Result, ok, err, stuck, Run, Step, pure, fail, ◌>>=◌, ◌>>◌, is_count, all_of,
  size_round, is_due, magic_bytes, response_ok, header_ok, auth_ok, update_prepare_ok, bin_md5_ok,
  receive_ok, update_end_ok, chunk_ok, error_magic, block_size, chunk_size, boot_request_upgrade,
  sys_reboot,
}

module _ (p : Platform) where
  open p use {Peer, recv, send, flash_write}

  -- zsock_send of `bytes`: the number that it returned.
  unfoldable pub try_send : List ℕ → Step (Run p) ℤ
  try_send bytes r =
      let (ret, peer) = send bytes r.peer in
      let r' : Run p = record r { peer = peer } in
      (ok ret, if is_count ret (length bytes) then record r' { sent = r.sent ++ bytes } else r')

  -- `if (ret != sizeof(buf)) return -EIO;` after zsock_send
  unfoldable pub send_all : List ℕ → Step (Run p) (Unit {0})
  send_all bytes = do
    ret ← try_send bytes
    if is_count ret (length bytes) then pure tt else fail (neg eio)

  -- The same of one byte in esphome_ota_run, where the number itself is returned.
  unfoldable pub send_byte : ℕ → Step (Run p) (Unit {0})
  send_byte b = do ret ← try_send (b ∷ []); if is_count ret 1 then pure tt else fail (int ret)

  -- zsock_recv of `n` bytes: them, if just as many came.
  unfoldable pub try_recv : ℕ → Step (Run p) (Option (List ℕ))
  try_recv n r =
      let (got_bytes, peer) = recv n r.peer in (ok (all_of n got_bytes), record r { peer = peer })

  -- `if (ret != sizeof(buf)) return -EIO;` after zsock_recv
  unfoldable pub or_fail : Option (List ℕ) → Step (Run p) (List ℕ)
  or_fail none = fail (neg eio)
  or_fail (some bs) = pure bs

  unfoldable pub recv_all : ℕ → Step (Run p) (List ℕ)
  recv_all n = try_recv n >>= or_fail

  -- Where a read fails, the answer is the byte of `error_code`, whatever zsock_send returns.
  unfoldable pub or_answer : ℕ → Option (List ℕ) → Step (Run p) (List ℕ)
  or_answer error_code none = try_send (error_code ∷ []) >>= λ ret. fail (neg eio)
  or_answer error_code (some bs) = pure bs

  unfoldable pub recv_or_answer : ℕ → ℕ → Step (Run p) (List ℕ)
  recv_or_answer n error_code = try_recv n >>= or_answer error_code

  unfoldable pub read_magic : Step (Run p) (Unit {0})
  read_magic = recv_all 5 >>= λ bs.
      if same_bytes magic_bytes bs
      then pure tt
      else (try_send (error_magic ∷ []) >>= λ ret. fail (neg eio))

  unfoldable pub send_version : Step (Run p) (Unit {0})
  send_version = send_all (response_ok ∷ 2 ∷ [])

  unfoldable pub read_features : Step (Run p) (Unit {0})
  read_features = recv_all 1 >>= λ bs. send_all (header_ok ∷ [])

  unfoldable pub send_auth_ok : Step (Run p) (Unit {0})
  send_auth_ok = send_all (auth_ok ∷ [])

  unfoldable pub read_size : Step (Run p) ℕ
  read_size = recv_all 4 >>= λ bs. pure (foldl size_round 0 bs)

  unfoldable pub send_prepare_ok : Step (Run p) (Unit {0})
  send_prepare_ok = send_all (update_prepare_ok ∷ [])

  -- On a short read the answer is `error_code`, which is 0.
  unfoldable pub read_md5 : Step (Run p) (Unit {0})
  read_md5 = recv_or_answer 32 0 >>= λ bs. send_all (bin_md5_ok ∷ [])

  unfoldable pub read_data : ℕ → Step (Run p) (List ℕ)
  read_data n = recv_or_answer n 0

  -- If the flash writer fails, `goto error` returns `ret`, which nothing has set since the read.
  unfoldable pub write_data : (ret : Code) → List ℕ → Bool → Step (Run p) (Unit {0})
  write_data ret bs last r =
      let (done, peer) = flash_write bs last r.peer in
      let r' : Run p = record r { peer = peer } in
      if done
      then (ok tt, record r' { written = r.written ++ bs; closed = last })
      else (err ret, r')

  -- The loop of the acknowledgements, at most `rounds` times: the new `size_acknowledged`.
  unfoldable pub acknowledge : (rounds ota_size total acknowledged : ℕ) → Step (Run p) ℕ
  acknowledge zero ota_size total acknowledged r = (stuck, r)
  acknowledge (suc rounds) ota_size total acknowledged r =
      elim (is_due ota_size total acknowledged) [
        | true ↦
            (send_byte chunk_ok >>= λ u.
            acknowledge rounds ota_size total ((acknowledged + block_size) % 2 ^ 32))
              r
        | false ↦ (ok acknowledged, r)
      ]

  -- The loop of the chunks, at most `rounds` times. A read that does not fail leaves 0 in `ret`.
  unfoldable pub receive : (rounds ota_size total acknowledged : ℕ) → Step (Run p) (Unit {0})
  receive zero ota_size total acknowledged r = (stuck, r)
  receive (suc rounds) ota_size total acknowledged r = elim (ltb total ota_size) [
    | true ↦
        let requested = min chunk_size (ota_size - total) in
        let last = leb (ota_size - total) chunk_size in
        (read_data requested >>= λ bs.
        write_data success bs last
        >> (acknowledge rounds ota_size (total + requested) acknowledged >>= λ acknowledged'.
            receive rounds ota_size (total + requested) acknowledged'))
          r
    | false ↦ (ok tt, r)
  ]

  unfoldable pub request_upgrade : Step (Run p) (Unit {0})
  request_upgrade r =
      (ok tt, record r { upgrade = true; boot_calls = r.boot_calls ++ (boot_request_upgrade ∷ []) })

  unfoldable pub read_ack : Step (Run p) (Unit {0})
  read_ack =
      recv_all 1 >>= λ bs. if same_bytes (response_ok ∷ []) bs then pure tt else fail (neg einval)

  unfoldable pub reboot : Step (Run p) (Unit {0})
  reboot r = (ok tt, record r { rebooted = true; boot_calls = r.boot_calls ++ (sys_reboot ∷ []) })

  -- esphome_ota_run up to the image's size.
  unfoldable pub handshake : Step (Run p) ℕ
  handshake = do
    read_magic
    send_version
    read_features
    send_auth_ok
    size ← read_size
    send_prepare_ok
    read_md5
    pure size

  -- What follows the last chunk. sys_reboot does not return; if it did, the result would be -ENOTSUP.
  unfoldable pub finish : Step (Run p) (Unit {0})
  finish = do
    send_byte receive_ok
    request_upgrade
    send_byte update_end_ok
    read_ack
    reboot
    fail (neg enotsup)

  -- esphome_ota_run, with `rounds` for its loops.
  unfoldable pub ota_run : (rounds : ℕ) → Step (Run p) (Unit {0})
  ota_run rounds = handshake >>= λ ota_size. receive rounds ota_size 0 0 >> finish
