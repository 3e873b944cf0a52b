-- ===== src/Ota/Image.antt =====
-- The loop of the chunks in esphome_ota_run and its end, with a client that has sent the image.
use zephyr_esphome.Prelude.{
  ℕ, zero, suc, ◌+◌, ◌-◌, ◌*◌, ◌/◌, ◌^◌, ◌≤◌, ◌<◌, ◌≡◌, refl, sym, ap, ◌∙◌, List, [], ◌∷◌, ◌++◌,
  Bool, true, length, length-append, take, drop, replicate, min, leb, ltb, if◌then◌else◌,
  same_bytes, neg, enotsup, einval, arith, Bool-cases, inl, inr, ltb→lt,
}
use mathlib.Core.List.{append_assoc, append-nil}
use zephyr_esphome.Ota.Base.{
  Platform, Step, ok, err, Run, pure, ◌>>◌, bind-ok, response_ok, chunk_ok, receive_ok,
  update_end_ok, chunk_size, boot_request_upgrade, sys_reboot,
}
use zephyr_esphome.Ota.{send_byte, recv_all, receive, request_upgrade, read_ack, reboot, finish}
use zephyr_esphome.Ota.Acks.{acks_due}
use zephyr_esphome.Ota.Chunks.{receive_done}
use zephyr_esphome.Ota.Receive.{replicate-append}
use zephyr_esphome.Ota.Stream.{Streams, Yields, send_byte-Yields, recv_all-Yields}
use zephyr_esphome.Ota.Round.{take-drop, acks_due-split, receive_chunk}

module _ (p : Platform) (stream : p.Peer → List ℕ) (streams : Streams p stream) where
  open p use {Peer}

  -- The loop of the chunks has stored `left` and answered with `out`.
  unfoldable pub Stores : Step (Run p) (Unit {0}) → Run p → (left out rest : List ℕ) → Type 0
  Stores m r left out rest =
      (q : Peer) × (s w : List ℕ) × (l : Bool) × (m r
        ≡ (ok tt, record r { peer = q; sent = s; written = w; closed = l }))
      × (s ≡ r.sent ++ out)
      × (w ≡ r.written ++ left)
      × (stream q ≡ rest)

  receive_nothing :
      (rounds n total : ℕ) (left rest : List ℕ) (r : Run p)
      → total ≡ n
      → length left ≡ 0
      → stream r.peer ≡ left ++ rest
      → Stores
          (receive p (suc rounds) n total (acks_due n total * 8192))
          r
          left
          (replicate (acks_due n n - acks_due n total) chunk_ok)
          rest
  unfolding Stores
  receive_nothing rounds n total [] rest r e l c =
      let nothing : acks_due n n - acks_due n n ≡ 0 = omega arith in
      rw e (
        (
          r.peer,
          r.sent,
          r.written,
          r.closed,
          receive_done p rounds n (acks_due n n * 8192) r,
          rw (nothing, append-nil) refl,
          sym (append-nil r.written),
          c,
        ))
  receive_nothing rounds n total (x ∷ xs) rest r e l c = absurd (omega arith)

  pub receive-Stores :
      (rounds n total : ℕ) (left rest : List ℕ) (r : Run p)
      → n + 16384 ≤ 2 ^ 32
      → total ≤ n
      → length left ≡ n - total
      → (n - total) + (n + 8191) / 8192 < rounds
      → stream r.peer ≡ left ++ rest
      → Stores
          (receive p rounds n total (acks_due n total * 8192))
          r
          left
          (replicate (acks_due n n - acks_due n total) chunk_ok)
          rest
  unfolding Stores
  receive-Stores zero n total left rest r h t l f c = absurd (omega arith)
  receive-Stores (suc rounds) n total left rest r h t l f c = elim (Bool-cases (ltb total n)) [
    | inr end ↦ receive_nothing rounds n total left rest r (ground arith) (ground arith) c
    | inl more ↦
        let m = min chunk_size (n - total) in
        let less = ltb→lt total n more in
        let total' = total + m in
        let (len, whole) = take-drop left m (omega arith) in
        let left_len : length (drop m left) ≡ n - total' =
          omega (arith, len, l, ap length (sym whole), length-append (take m left) (drop m left)) in
        let (q, s, round, e, c₁) =
          receive_chunk p stream streams rounds n total (take m left) (drop m left ++ rest) r h less
            len (omega arith) (c ∙ ap (λ t. t ++ rest) (sym whole) ∙ rw append_assoc refl) in
        let r₁ : Run p = record r {
          peer = q;
          sent = s;
          written = r.written ++ take m left;
          closed = leb (n - total) chunk_size;
        } in
        let (q', s', w', l', rest_run, e', ew', c') =
          receive-Stores rounds n total' (drop m left) rest r₁ h (omega arith) left_len
            (omega arith) c₁ in
        (
          q',
          s',
          w',
          l',
          round ∙ rest_run,
          e'
              ∙ ap (λ x. x ++ replicate (acks_due n n - acks_due n total') chunk_ok) e
              ∙ rw append_assoc (
                  ap (λ x. r.sent ++ x)
                    (replicate-append (acks_due n total' - acks_due n total)
                        (acks_due n n - acks_due n total') chunk_ok
                      ∙ ap (λ k. replicate k chunk_ok)
                          (acks_due-split n total total' (omega arith) (omega arith)))),
          ew' ∙ rw append_assoc (ap (λ t. r.written ++ t) whole),
          c',
        )
  ]

  pub finish-run :
      (r : Run p) (rest : List ℕ)
      → stream r.peer ≡ response_ok ∷ rest
      → (q : Peer) × (s : List ℕ) × (finish p r ≡ (
        err (neg enotsup),
        record r {
          peer = q;
          sent = s;
          upgrade = true;
          rebooted = true;
          boot_calls = (r.boot_calls ++ (boot_request_upgrade ∷ [])) ++ (sys_reboot ∷ []);
        },
      ))
        × (s ≡ r.sent ++ (receive_ok ∷ update_end_ok ∷ []))
        × (stream q ≡ rest)
  unfolding finish Yields request_upgrade read_ack reboot
  finish-run r rest c =
      let acked : List ℕ → Step (Run p) (Unit {0}) =
        λ bs. if same_bytes (response_ok ∷ []) bs then pure tt else (λ r. (err (neg einval), r)) in
      let (q₁, s₁, one, e₁, c₁) =
        send_byte-Yields p stream streams receive_ok r (response_ok ∷ rest) c in
      let r₁ : Run p = record r {
        peer = q₁;
        sent = s₁;
        upgrade = true;
        boot_calls = r.boot_calls ++ (boot_request_upgrade ∷ []);
      } in
      let (q₂, s₂, two, e₂, c₂) =
        send_byte-Yields p stream streams update_end_ok r₁ (response_ok ∷ rest) c₁ in
      let (q₃, s₃, three, e₃, c₃) =
        recv_all-Yields p stream streams (response_ok ∷ []) rest
          (record r₁ { peer = q₂; sent = s₂ }) c₂ in
      (
        q₃,
        s₃,
        bind-ok (send_byte p receive_ok)
              (λ u.
                request_upgrade p
                >> (send_byte p update_end_ok
                    >> (read_ack p >> (reboot p >> (λ r. (err (neg enotsup), r))))))
              one
            ∙ bind-ok (send_byte p update_end_ok)
                (λ u. read_ack p >> (reboot p >> (λ r. (err (neg enotsup), r)))) two
            ∙ bind-ok (read_ack p) (λ u. reboot p >> (λ r. (err (neg enotsup), r)))
                (bind-ok (recv_all p 1) acked three),
        e₃ ∙ append-nil s₂ ∙ e₂ ∙ ap (λ t. t ++ (update_end_ok ∷ [])) e₁ ∙ rw append_assoc refl,
        c₃,
      )
