-- ===== src/Ota/Update.antt =====
-- A whole update by esphome_ota_run: what a client sends, and what the flash holds afterwards.
use zephyr_esphome.Prelude.{
  ℕ, ◌+◌, ◌-◌, ◌*◌, ◌/◌, ◌^◌, ◌≤◌, ◌<◌, ◌≡◌, refl, ◌∙◌, List, [], ◌∷◌, ◌++◌, true, length,
  replicate, neg, enotsup, arith,
}
use mathlib.Core.List.{append_assoc}
use zephyr_esphome.Ota.Base.{
  Platform, err, Run, bind-ok, ◌>>◌, magic_bytes, response_ok, chunk_ok, receive_ok, update_end_ok,
  boot_request_upgrade, sys_reboot,
}
use zephyr_esphome.Ota.{receive, handshake, finish, ota_run}
use zephyr_esphome.Ota.Acks.{acks_due}
use zephyr_esphome.Ota.Errors.{big_endian}
use zephyr_esphome.Ota.Stream.{Streams, Yields}
use zephyr_esphome.Ota.Greeting.{answers, handshake-Yields}
use zephyr_esphome.Ota.Image.{Stores, receive-Stores, finish-run}

-- What a client sends for an update: the magic bytes, one byte of features, the size of the image, its
-- MD5 sum, the image, and the acknowledgement at the end.
abbrev pub upload : (feature : ℕ) (md5 image : List ℕ) → List ℕ
upload feature md5 image =
    magic_bytes ++ (feature ∷ (big_endian (length image) ++ (md5 ++ (image ++ (response_ok ∷ [])))))

acks_due_all : (n : ℕ) → acks_due n n - acks_due n 0 ≡ (n + 8191) / 8192
acks_due_all n = ground arith

acks_due_start : (n : ℕ) → acks_due n 0 * 8192 ≡ 0
acks_due_start n = ground arith

module _ (p : Platform) (stream : p.Peer → List ℕ) (streams : Streams p stream) where
  -- esphome_ota_run with a client that has sent a whole update and nothing else, whose MD5 sum has 32 bytes and whose
  -- image is at least 16384 bytes below 2^32, on a platform that delivers the bytes in order and takes
  -- every answer and every chunk, and with more rounds than the bytes and the blocks of the image:
  -- the flash gets just the image, all that was sent is read, the client is answered with the handshake, a
  -- byte for every block of 8192 bytes and the end, and the boot loader is asked for the upgrade before
  -- the reboot, which does not return.
  pub ota_run-upload :
      (rounds feature : ℕ) (md5 image : List ℕ) (r : Run p)
      → length md5 ≡ 32
      → length image + 16384 ≤ 2 ^ 32
      → length image + (length image + 8191) / 8192 < rounds
      → stream r.peer ≡ upload feature md5 image
      → (r' : Run p) × (ota_run p rounds r ≡ (err (neg enotsup), r'))
        × (r'.written ≡ r.written ++ image)
        × (r'.sent
            ≡ r.sent
              ++ answers
              ++ replicate ((length image + 8191) / 8192) chunk_ok
              ++ (receive_ok ∷ update_end_ok ∷ []))
        × (stream r'.peer ≡ [])
        × (r'.boot_calls ≡ r.boot_calls ++ (boot_request_upgrade ∷ sys_reboot ∷ []))
        × (r'.upgrade ≡ true)
        × (r'.rebooted ≡ true)
  unfolding ota_run Yields Stores
  ota_run-upload rounds feature md5 image r m h f c =
      let n = length image in
      let tail = image ++ (response_ok ∷ []) in
      let (q₁, s₁, greeted, e₁, c₁) =
        handshake-Yields p stream streams r feature n md5 tail (omega arith) m c in
      let r₁ : Run p = record r { peer = q₁; sent = s₁ } in
      let (q₂, s₂, w₂, l₂, received, e₂, ew, c₂) =
        receive-Stores p stream streams rounds n 0 image (response_ok ∷ []) r₁ h (omega arith)
          (omega arith) (omega arith) c₁ in
      let r₂ : Run p = record r { peer = q₂; sent = s₂; written = w₂; closed = l₂ } in
      let (q₃, s₃, finished, e₃, c₃) = finish-run p stream streams r₂ [] c₂ in
      (
        record r₂ {
          peer = q₃;
          sent = s₃;
          upgrade = true;
          rebooted = true;
          boot_calls = (r.boot_calls ++ (boot_request_upgrade ∷ [])) ++ (sys_reboot ∷ []);
        },
        bind-ok (handshake p) (λ k. receive p rounds k 0 0 >> finish p) greeted
            ∙ bind-ok (receive p rounds n 0 0) (λ u. finish p) (rw acks_due_start at received)
            ∙ finished,
        ew,
        e₃ ∙ rw (e₂, e₁, acks_due_all n, append_assoc) refl,
        c₃,
        rw append_assoc refl,
        refl,
        refl,
      )
