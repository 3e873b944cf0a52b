-- ===== src/Tests/Update.antt =====
-- A whole update by esphome_ota.c, at a concrete input: a client whose bytes are a list.
use zephyr_esphome.Prelude.{
  ℕ, ◌≡◌, refl, ap, List, [], ◌∷◌, ◌++◌, true, length, drop, replicate, neg, enotsup, arith, ==_iff,
}
use zephyr_esphome.Rpc.Socket.{got}
use zephyr_esphome.Ota.Base.{
  err, Run, chunk_ok, receive_ok, update_end_ok, boot_request_upgrade, sys_reboot,
}
use zephyr_esphome.Ota.{ota_run}
use zephyr_esphome.Ota.Stream.{Streams}
use zephyr_esphome.Ota.Greeting.{answers}
use zephyr_esphome.Ota.Update.{upload, ota_run-upload}
use zephyr_esphome.Tests.Wire.{take-append, drop-append}
use zephyr_esphome.Tests.Ota.{client, start}

client-Streams : Streams client (λ w. w)
client-Streams = record {
  received = λ bs rest q e. rw e (
      (
        ap (λ (x : List ℕ). (got x, drop (length bs) (bs ++ rest))) (take-append bs rest),
        drop-append bs rest,
      ));
  taken = λ bs q. (==_iff (length bs) (length bs)).1 refl;
  answered = λ bs q. refl;
  flashed = λ bs last q. refl;
  kept = λ bs last q. refl;
}

abbrev image : List ℕ
image = 1 ∷ 2 ∷ 3 ∷ 4 ∷ 5 ∷ []

abbrev before : Run client
before = start client (upload 0 (replicate 32 0) image)

ota_run-upload_example :
    (r' : Run client) × (ota_run client 8 before ≡ (err (neg enotsup), r'))
    × (r'.written ≡ image)
    × (r'.sent ≡ answers ++ (chunk_ok ∷ receive_ok ∷ update_end_ok ∷ []))
    × (r'.peer ≡ [])
    × (r'.boot_calls ≡ boot_request_upgrade ∷ sys_reboot ∷ [])
    × (r'.upgrade ≡ true)
    × (r'.rebooted ≡ true)
ota_run-upload_example =
    ota_run-upload client (λ w. w) client-Streams 8 0 (replicate 32 0) image before refl
      (omega arith) (omega arith) refl
