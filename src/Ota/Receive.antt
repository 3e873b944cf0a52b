-- ===== src/Ota/Receive.antt =====
-- The whole loop of the chunks in esphome_ota_run, and how it ends.
use zephyr_esphome.Prelude.{
  ℕ, zero, suc, ◌+◌, ◌-◌, ◌*◌, ◌/◌, ◌^◌, ◌≤◌, ◌<◌, ◌≡◌, refl, ap, ◌∙◌, ◌⊎◌, inl, inr, ◌∷◌, ◌++◌,
  true, ltb, leb, if◌then◌else◌, min, length, length-append, replicate, Code, arith, Bool-cases,
  ltb→lt,
}
use mathlib.Core.List.{append_assoc, append-nil}
use zephyr_esphome.Ota.Base.{Platform, Result, ok, err, Run, chunk_ok, chunk_size}
use zephyr_esphome.Ota.{receive}
use zephyr_esphome.Ota.Acks.{acks_due}
use zephyr_esphome.Ota.Chunks.{acks_due-le_acks_due, receive_done, receive_round}

pub replicate-append :
    {A : Type 0} (m n : ℕ) (a : A) → replicate m a ++ replicate n a ≡ replicate (m + n) a
replicate-append {A} zero n a = ap (λ k. replicate {A = A} k a) {x = n} {y = 0 + n} (omega arith)
replicate-append {A} (suc m) n a =
    ap (λ t. a ∷ t) (replicate-append m n a)
    ∙ ap (λ k. replicate {A = A} k a) {x = suc (m + n)} {y = suc m + n} (omega arith)

module _ (p : Platform) where
  -- The loop from `total` on has received the rest of an image of `n` bytes.
  pub record Received (n total : ℕ) (r r' : Run p) : Type 0 where
    pub written : length r'.written ≡ length r.written + (n - total)
    pub acknowledged : r'.sent ≡ r.sent ++ replicate (acks_due n n - acks_due n total) chunk_ok
    pub closed : r'.closed ≡ (if ltb total n then true else r.closed)
    pub upgrade : r'.upgrade ≡ r.upgrade

  -- How the loop ends: with the rest of the image, or early with the code that esphome_ota_run returns.
  unfoldable pub Ends : (n total : ℕ) (r : Run p) → Result (Unit {0}) × Run p → Type 0
  Ends n total r e =
      ((r' : Run p) × (e ≡ (ok tt, r')) × Received n total r r')
      ⊎ ((c : Code) × (r' : Run p) × (e ≡ (err c, r')) × (r'.upgrade ≡ r.upgrade))

  -- The loop of the chunks ends, when the image is at least 16384 bytes below 2^32 and the rounds are
  -- more than the bytes left and the blocks: either all bytes left are written, the last chunk as the
  -- last, and OTA_RESPONSE_CHUNK_OK is sent once for every block of 8192 bytes that was still due, the
  -- last one included, or it ends early with a code, which may be 0 though the bytes are not all
  -- written. The boot loader is asked for nothing in it.
  pub receive-Ends :
      (rounds n total : ℕ) (r : Run p)
      → n + 16384 ≤ 2 ^ 32
      → total ≤ n
      → (n - total) + (n + 8191) / 8192 < rounds
      → Ends n total r (receive p rounds n total (acks_due n total * 8192) r)
  unfolding Ends
  receive-Ends zero n total r h l f = absurd (omega arith)
  receive-Ends (suc rounds) n total r h l f = elim (Bool-cases (ltb total n)) [
    | inl more ↦
        let less = ltb→lt total n more in
        let t = total + min chunk_size (n - total) in
        elim (receive_round p rounds n total r h less (omega arith)) [
          | inr (c, r', e, u) ↦ inr (c, r', e, u)
          | inl (bs, q, len, e) ↦
              let all_acks : (acks_due n t - acks_due n total) + (acks_due n n - acks_due n t)
                  ≡ acks_due n n - acks_due n total =
                omega (
                  arith,
                  acks_due-le_acks_due n total t (omega arith) (omega arith),
                  acks_due-le_acks_due n t n (omega arith) (omega arith),
                ) in
              let r₁ : Run p = record r {
                peer = q;
                sent = r.sent ++ replicate (acks_due n t - acks_due n total) chunk_ok;
                written = r.written ++ bs;
                closed = leb (n - total) chunk_size;
              } in
              elim (receive-Ends rounds n t r₁ h (omega arith) (omega arith)) [
                | inr (c, r', e', u) ↦ inr (c, r', e ∙ e', u)
                | inl (r', e', d) ↦ inl (
                  r',
                  e ∙ e',
                  record {
                    written = omega (arith, d.written, length-append r.written bs, len);
                    acknowledged =
                        d.acknowledged
                        ∙ rw append_assoc (
                            ap (λ s. r.sent ++ s)
                              (replicate-append (acks_due n t - acks_due n total)
                                  (acks_due n n - acks_due n t) chunk_ok
                                ∙ ap (λ k. replicate k chunk_ok) all_acks));
                    closed = d.closed ∙ rw more ground arith;
                    upgrade = d.upgrade;
                  },
                )
              ]
        ]
    | inr last ↦
        let nothing : acks_due n n - acks_due n n ≡ 0 = omega arith in
        let e : total ≡ n = ground arith in
        rw e (
          inl (
            r,
            receive_done p rounds n (acks_due n n * 8192) r,
            record {
              written = omega arith;
              acknowledged = rw (nothing, append-nil) refl;
              closed = ground arith;
              upgrade = refl;
            },
          ))
  ]
