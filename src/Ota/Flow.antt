-- ===== src/Ota/Flow.antt =====
-- esphome_ota_run as a whole: when the boot loader is asked for the new image.
use zephyr_esphome.Prelude.{
  ◌++◌, [], ◌∷◌, ℕ, ◌+◌, ◌*◌, ◌/◌, ◌^◌, ◌≤◌, ◌<◌, ◌≡◌, refl, ap, ◌∙◌, inl, inr, true, false, length,
  Code, neg, enotsup, arith,
}
use zephyr_esphome.Ota.Base.{
  Platform, Step, Result, ok, err, Run, ◌>>=◌, ◌>>◌, bind-ok, bind-err, fail, receive_ok,
  update_end_ok, boot_request_upgrade, sys_reboot,
}
use zephyr_esphome.Ota.{
  send_byte, request_upgrade, read_ack, reboot, finish, handshake, receive, ota_run,
}
use zephyr_esphome.Ota.Talk.{Talks, send_byte-Talks, read_ack-Talks, handshake-Talks}
use zephyr_esphome.Ota.Acks.{acks_due}
use zephyr_esphome.Ota.Receive.{Ends, receive-Ends}

module _ (p : Platform) where
  -- A run that ends with an error code, from which the flash and `closed` are as before.
  abbrev pub Fails : Run p → Result (Unit {0}) × Run p → Type 0
  Fails r e =
      (c : Code) × (r' : Run p) × (e ≡ (err c, r'))
      × (r'.written ≡ r.written)
      × (r'.closed ≡ r.closed)

  abbrev after_ack : Unit {0} → Step (Run p) (Unit {0})
  after_ack u = reboot p >> fail (neg enotsup)

  read_ack-Fails : (r : Run p) → Fails r ((read_ack p >>= after_ack) r)
  unfolding Talks reboot
  read_ack-Fails r = elim (read_ack-Talks p r) [
    | inl (a, s, q, e) ↦ (
      neg enotsup,
      record r {
        peer = q;
        sent = s;
        rebooted = true;
        boot_calls = r.boot_calls ++ (sys_reboot ∷ []);
      },
      bind-ok (read_ack p) after_ack e,
      refl,
      refl,
    )
    | inr (c, s, q, e) ↦
        (c, record r { peer = q; sent = s }, bind-err (read_ack p) after_ack e, refl, refl)
  ]

  abbrev after_end : Unit {0} → Step (Run p) (Unit {0})
  after_end u = read_ack p >>= after_ack

  send_end-Fails : (r : Run p) → Fails r ((send_byte p update_end_ok >>= after_end) r)
  unfolding Talks
  send_end-Fails r = elim (send_byte-Talks p update_end_ok r) [
    | inl (a, s, q, e) ↦
        let (c, r', e', w, l) = read_ack-Fails (record r { peer = q; sent = s }) in
        (c, r', bind-ok (send_byte p update_end_ok) after_end e ∙ e', w, l)
    | inr (c, s, q, e) ↦ (
      c,
      record r { peer = q; sent = s },
      bind-err (send_byte p update_end_ok) after_end e,
      refl,
      refl,
    )
  ]

  abbrev after_receive : Unit {0} → Step (Run p) (Unit {0})
  after_receive u = request_upgrade p >> (send_byte p update_end_ok >>= after_end)

  pub finish-Fails : (r : Run p) → Fails r (finish p r)
  unfolding Talks finish request_upgrade
  finish-Fails r = elim (send_byte-Talks p receive_ok r) [
    | inl (a, s, q, e) ↦
        let (c, r', e', w, l) = send_end-Fails (record r {
          peer = q;
          sent = s;
          upgrade = true;
          boot_calls = r.boot_calls ++ (boot_request_upgrade ∷ []);
        }) in
        (c, r', bind-ok (send_byte p receive_ok) after_receive e ∙ e', w, l)
    | inr (c, s, q, e) ↦ (
      c,
      record r { peer = q; sent = s },
      bind-err (send_byte p receive_ok) after_receive e,
      refl,
      refl,
    )
  ]

  -- A run that has asked the boot loader for the new image: the client announced a size, and the flash
  -- has taken just as many bytes, the last of them as the last.
  pub record Upgraded (r r' : Run p) : Type 0 where
    pub size : ℕ
    pub connected : Run p
    pub announced : handshake p r ≡ (ok size, connected)
    pub whole : length r'.written ≡ length r.written + size
    pub closed : 0 < size → r'.closed ≡ true

  abbrev after_handshake : ℕ → ℕ → Step (Run p) (Unit {0})
  after_handshake rounds n = receive p rounds n 0 0 >> finish p

  -- esphome_ota_run returns, with a code that may be 0 if an update has failed, and from a state in which
  -- the boot loader has not been asked, it asks it for the new image only when the flash has taken as many bytes as the
  -- client announced, the last of them as the last. Two things are supposed: the size announced is at
  -- least 16384 below 2^32, and the loops have more rounds than the bytes and the blocks of the image.
  pub ota_run-Upgraded :
      (rounds : ℕ) (r : Run p)
      → ((n : ℕ) (r₁ : Run p)
          → handshake p r ≡ (ok n, r₁)
          → (n + 16384 ≤ 2 ^ 32) × (n + (n + 8191) / 8192 < rounds))
      → r.upgrade ≡ false
      → (c : Code) × (r' : Run p) × (ota_run p rounds r ≡ (err c, r'))
        × (r'.upgrade ≡ true → Upgraded r r')
  unfolding ota_run Talks Ends
  ota_run-Upgraded rounds r enough idle = elim (handshake-Talks p r) [
    | inr (c, s, q, e) ↦ (
      c,
      record r { peer = q; sent = s },
      bind-err (handshake p) (after_handshake rounds) e,
      λ u. cc,
    )
    | inl (n, s, q, e) ↦
        let r₁ : Run p = record r { peer = q; sent = s } in
        let (far, fuel) = enough n r₁ e in
        let start = bind-ok (handshake p) (after_handshake rounds) e in
        let none_due : acks_due n 0 * 8192 ≡ 0 = ground arith in
        let ends : Ends p n 0 r₁ (receive p rounds n 0 0 r₁) =
          rw none_due at (receive-Ends p rounds n 0 r₁ far (omega arith) (omega arith)) in
        elim ends [
          | inr (c, r', e', u) ↦
              (c, r', start ∙ bind-err (receive p rounds n 0 0) (λ u. finish p) e', λ up. cc)
          | inl (r', e', d) ↦
              let (c, r'', e'', w, l) = finish-Fails r' in
              (
                c,
                r'',
                start ∙ bind-ok (receive p rounds n 0 0) (λ u. finish p) e' ∙ e'',
                λ up. record {
                  size = n;
                  connected = r₁;
                  announced = e;
                  whole = ap length w ∙ d.written ∙ omega arith;
                  closed = λ some_bytes. l ∙ d.closed ∙ ground arith;
                },
              )
        ]
  ]
