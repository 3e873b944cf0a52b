-- ===== src/Ota/Endless.antt =====
-- The loop of the acknowledgements in esphome_ota_run at the end of an image close to 2^32 bytes.
use zephyr_esphome.Prelude.{
  ℕ, zero, suc, ◌+◌, ◌*◌, ◌%◌, ◌^◌, ◌≤◌, ◌<◌, ◌≡◌, refl, ap, ◌∙◌, [], ◌∷◌, ◌++◌, true, arith,
}
use zephyr_esphome.Ota.Base.{
  bind-ok, Platform, ok, stuck, Run, is_due, is_count, chunk_ok, block_size,
}
use zephyr_esphome.Ota.{try_send, send_byte, acknowledge}
use zephyr_esphome.Ota.Acks.{acknowledge_more}

-- The last block of the image is due whatever has been acknowledged: the sum wraps.
is_due_always :
    (n a : ℕ) → 2 ^ 32 ≤ n + 8192 → n < 2 ^ 32 → a * 8192 < 2 ^ 32 → is_due n n (a * 8192) ≡ true
unfolding is_due
is_due_always n a big fits below = ground arith

module _ (p : Platform)
    (sends : (b : ℕ) (q : p.Peer) → is_count (p.send (b ∷ []) q).0 1 ≡ true) where
  send_byte_sent :
      (b : ℕ) (r : Run p)
      → send_byte p b r
        ≡ (ok tt, record r { peer = (p.send (b ∷ []) r.peer).1; sent = r.sent ++ (b ∷ []) })
  unfolding send_byte try_send
  send_byte_sent b r = rw (sends b r.peer) refl

  -- At the end of an image that leaves less than a block to 2^32, the loop of the acknowledgements never
  -- ends while the client takes them: it runs out of any number of rounds, from any multiple of the
  -- block size.
  pub acknowledge-stuck :
      (rounds n a : ℕ) (r : Run p)
      → 2 ^ 32 ≤ n + 8192
      → n < 2 ^ 32
      → a * 8192 < 2 ^ 32
      → (acknowledge p rounds n n (a * 8192) r).0 ≡ stuck
  unfolding acknowledge
  acknowledge-stuck zero n a r big fits below = refl
  acknowledge-stuck (suc rounds) n a r big fits below =
      let b = (a + 1) % 2 ^ 19 in
      let next : (a * 8192 + 8192) % 2 ^ 32 ≡ b * 8192 = omega arith in
      let r' : Run p = record r {
        peer = (p.send (chunk_ok ∷ []) r.peer).1;
        sent = r.sent ++ (chunk_ok ∷ []);
      } in
      ap (λ t. t.0)
        (acknowledge_more p rounds n n (a * 8192) r (is_due_always n a big fits below)
          ∙ bind-ok (send_byte p chunk_ok)
              (λ u. acknowledge p rounds n n ((a * 8192 + block_size) % 2 ^ 32))
              (send_byte_sent chunk_ok r))
      ∙ rw next (acknowledge-stuck rounds n b r' big fits (omega arith))
