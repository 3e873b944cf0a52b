-- ===== src/Tests/Ota.antt =====
-- Runs of esphome_ota.c, and its theorems at concrete inputs: a client whose bytes are a list.
use zephyr_esphome.Ota.Codes.{ota_run-is_nonzero}
use zephyr_esphome.Ota.Endless.{acknowledge-stuck}
use zephyr_esphome.Prelude.{
  is_nonzero, success, ◌^◌, ◌-◌, ◌*◌, ℕ, ◌<◌, ◌≡◌, none, refl, sym, ap, ◌∙◌, List, [], ◌∷◌, ◌++◌,
  true, false, length, take, drop, replicate, Code, neg, eio, enotsup, success, pos, arith,
}
use zephyr_esphome.Rpc.Socket.{got}
use zephyr_esphome.Ota.Base.{
  boot_request_upgrade, sys_reboot, Platform, Result, ok, err, stuck, Run, response_ok, header_ok,
  auth_ok, update_prepare_ok, bin_md5_ok, receive_ok, update_end_ok, chunk_ok, magic_bytes,
  size_round, is_due,
}
use zephyr_esphome.Ota.{
  try_send, send_all, send_byte, try_recv, or_fail, recv_all, or_answer, recv_or_answer, read_magic,
  send_version, read_features, send_auth_ok, read_size, send_prepare_ok, read_md5, read_data,
  write_data, acknowledge, receive, request_upgrade, read_ack, reboot, handshake, finish, ota_run,
}
use zephyr_esphome.Ota.Service.{Server, accept_loop}
use zephyr_esphome.Ota.Service.Leftovers.{IsPrefix, accept_loop-IsPrefix, ota_run_leftover}
use zephyr_esphome.Ota.Receive.{Ends, receive-Ends}
use zephyr_esphome.Ota.Flow.{Upgraded, ota_run-Upgraded}

abbrev pub client : Platform
client = record {
  Peer = List ℕ;
  recv = λ n w. (got (take n w), drop n w);
  send = λ bs w. (pos (length bs), w);
  flash_write = λ bs last w. (true, w);
}

-- The same client, with a flash that takes nothing.
abbrev worn : Platform
worn = record {
  Peer = List ℕ;
  recv = λ n w. (got (take n w), drop n w);
  send = λ bs w. (pos (length bs), w);
  flash_write = λ bs last w. (false, w);
}

abbrev pub start : (p : Platform) → p.Peer → Run p
start p q = record {
  peer = q;
  sent = [];
  written = [];
  closed = false;
  upgrade = false;
  rebooted = false;
  boot_calls = [];
}

-- An update of five bytes.
abbrev greeting : List ℕ
greeting = magic_bytes ++ (0 ∷ 0 ∷ 0 ∷ 0 ∷ 5 ∷ replicate 32 0)

abbrev image : List ℕ
image = 1 ∷ 2 ∷ 3 ∷ 4 ∷ 5 ∷ []

abbrev answers : List ℕ
answers = response_ok ∷ 2 ∷ header_ok ∷ auth_ok ∷ update_prepare_ok ∷ bin_md5_ok ∷ []

abbrev greeted : Run client
greeted = record (start client (image ++ (0 ∷ []))) { sent = answers }

handshake_run : handshake client (start client (greeting ++ image ++ (0 ∷ []))) ≡ (ok 5, greeted)
unfolding handshake read_magic send_version read_features send_auth_ok read_size send_prepare_ok
    read_md5 recv_all or_fail recv_or_answer or_answer try_recv try_send send_all size_round
handshake_run = refl

ota_run_run : ota_run client 8 (start client (greeting ++ image ++ (0 ∷ []))) ≡ (
  err (neg enotsup),
  record {
    peer = [];
    sent = answers ++ (chunk_ok ∷ receive_ok ∷ update_end_ok ∷ []);
    written = image;
    closed = true;
    upgrade = true;
    rebooted = true;
    boot_calls = boot_request_upgrade ∷ sys_reboot ∷ [];
  },
)
unfolding ota_run receive read_data write_data acknowledge is_due finish send_byte request_upgrade
    read_ack reboot handshake read_magic send_version read_features send_auth_ok read_size
    send_prepare_ok read_md5 recv_all or_fail recv_or_answer or_answer try_recv try_send send_all
    size_round
ota_run_run = refl

abbrev size_of : Result ℕ → ℕ
size_of (ok n) = n
size_of (err c) = 0
size_of stuck = 0

ota_run-Upgraded_example :
    (c : Code) × (r' : Run client) × (ota_run client 8
        (start client (greeting ++ image ++ (0 ∷ [])))
      ≡ (err c, r'))
    × (r'.upgrade ≡ true → Upgraded client (start client (greeting ++ image ++ (0 ∷ []))) r')
ota_run-Upgraded_example =
    ota_run-Upgraded client 8 (start client (greeting ++ image ++ (0 ∷ [])))
      (λ n r₁ e.
        let five : n ≡ 5 = ap (λ t. size_of t.0) (sym e ∙ handshake_run) in
        (omega arith, omega arith))
      refl

ota_run-is_nonzero_example :
    (c : Code) × (r' : Run client) × (ota_run client 8
        (start client (greeting ++ image ++ (0 ∷ [])))
      ≡ (err c, r'))
    × (is_nonzero c ≡ true)
ota_run-is_nonzero_example =
    ota_run-is_nonzero client (λ b q e. cc e) (λ bs last q. refl) 8
      (start client (greeting ++ image ++ (0 ∷ [])))
      (λ n r₁ e.
        let five : n ≡ 5 = ap (λ t. size_of t.0) (sym e ∙ handshake_run) in
        (omega arith, omega arith))
      refl

-- A flash writer that fails.
worn_run : (ota_run worn 8 (start worn (greeting ++ image ++ (0 ∷ [])))).0 ≡ err success
unfolding ota_run receive read_data write_data handshake read_magic send_version read_features
    send_auth_ok read_size send_prepare_ok read_md5 recv_all or_fail recv_or_answer or_answer
    try_recv try_send send_all size_round
worn_run = refl

receive-Ends_example : Ends client 5 0 greeted (receive client 8 5 0 0 greeted)
receive-Ends_example = receive-Ends client 8 5 0 greeted (omega arith) (omega arith) (omega arith)

-- The same update after one that broke off when the flash had taken a byte.
abbrev begun : Run client
begun = record (start client (greeting ++ image ++ (0 ∷ []))) { written = 9 ∷ [] }

handshake-begun : handshake client begun ≡ (ok 5, record greeted { written = 9 ∷ [] })
unfolding handshake read_magic send_version read_features send_auth_ok read_size send_prepare_ok
    read_md5 recv_all or_fail recv_or_answer or_answer try_recv try_send send_all size_round
handshake-begun = refl

begun-upgrade : (ota_run client 8 begun).1.upgrade ≡ true
unfolding ota_run receive read_data write_data acknowledge is_due finish send_byte request_upgrade
    read_ack reboot handshake read_magic send_version read_features send_auth_ok read_size
    send_prepare_ok read_md5 recv_all or_fail recv_or_answer or_answer try_recv try_send send_all
    size_round
begun-upgrade = refl

ota_run_leftover_example :
    (n : ℕ) × (r₁ : Run client) × (handshake client begun ≡ (ok n, r₁))
    × IsPrefix (9 ∷ []) (ota_run client 8 begun).1.written
    × (n < length (ota_run client 8 begun).1.written)
ota_run_leftover_example =
    ota_run_leftover client 8 begun
      (λ n r₁ e.
        let five : n ≡ 5 = ap (λ t. size_of t.0) (sym e ∙ handshake-begun) in
        (omega arith, omega arith))
      refl (omega arith) begun-upgrade

abbrev thread : Server client
thread = record {
  is_confirmed = λ w. true;
  write_confirmed = λ w. w;
  flash_init = λ w. (success, w);
  net = record {
    open_server = λ w. (true, w);
    v6only = λ w. (none, w);
    clear_v6only = λ w. w;
    bind = λ w. (true, w);
    listen = λ w. (true, w);
    close_server = λ w. w;
    errno = λ w. neg eio;
  };
  accept = λ w. (true, w);
  close = λ w. w;
}

-- An update that breaks off after two of its five bytes.
abbrev broken : Run client
broken = record (start client (greeting ++ take 2 image)) { written = 9 ∷ [] }

accept_loop-IsPrefix_example : IsPrefix (9 ∷ []) (accept_loop client thread 2 8 broken).1.written
accept_loop-IsPrefix_example = accept_loop-IsPrefix client thread 2 8 broken

-- The last byte of an image of 2^32 - 1 bytes, with all full blocks acknowledged.
acknowledge-stuck_example :
    (acknowledge client 3 (2 ^ 32 - 1) (2 ^ 32 - 1) (524287 * 8192) (start client [])).0 ≡ stuck
acknowledge-stuck_example =
    acknowledge-stuck client (λ b q. refl) 3 (2 ^ 32 - 1) 524287 (start client []) (omega arith)
      (omega arith) (omega arith)
