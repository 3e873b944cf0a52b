-- ===== src/Ota/Acks.antt =====
-- The loop of the acknowledgements in esphome_ota_run, over blocks of 8192 bytes.
use zephyr_esphome.Prelude.{
  ℕ, zero, suc, ◌+◌, ◌*◌, ◌/◌, ◌%◌, ◌^◌, ◌≤◌, ◌<◌, ◌≡◌, refl, ap, ◌∙◌, ◌⊎◌, inl, inr, List, [], ◌∷◌,
  ◌++◌, true, false, ltb, ◌==◌, if◌then◌else◌, replicate, Code, int, arith, Bool-cases,
}
use mathlib.Core.List.{append_assoc, append-nil}
use zephyr_esphome.Ota.Base.{
  bind-ok, bind-err, Platform, Step, ◌>>=◌, ok, err, Run, is_due, is_count, chunk_ok, block_size,
}
use zephyr_esphome.Ota.{try_send, send_byte, acknowledge}

-- How many blocks of the first `total` bytes are to be acknowledged: the full ones, and at the end of
-- the image the last one too.
abbrev pub acks_due : (ota_size total : ℕ) → ℕ
acks_due ota_size total = if total == ota_size then (ota_size + 8191) / 8192 else total / 8192

-- Far from the end of a 32-bit size_t the loop's condition counts blocks.
pub is_due_lem :
    (n total a : ℕ)
    → n + 16384 ≤ 2 ^ 32
    → total ≤ n
    → a ≤ acks_due n total
    → is_due n total (a * 8192) ≡ ltb a (acks_due n total)
unfolding is_due
is_due_lem n total a h t l = elim (Bool-cases (total == n)) [
  | inl last ↦ ground arith
  | inr more ↦ ground arith
]

pub acks_due-le : (n total : ℕ) → total ≤ n → acks_due n total * 8192 ≤ n + 8191
acks_due-le n total t = ground arith

module _ (p : Platform) where
  open p use {Peer, recv, send, flash_write}

  pub send_byte_cases :
      (b : ℕ) (r : Run p)
      → ((q : Peer) × (send_byte p b r ≡ (ok tt, record r { peer = q; sent = r.sent ++ (b ∷ []) })))
        ⊎ ((c : Code) × (q : Peer) × (send_byte p b r ≡ (err c, record r { peer = q })))
  unfolding send_byte try_send
  send_byte_cases b r = elim (Bool-cases (is_count (send (b ∷ []) r.peer).0 1)) [
    | inl all ↦ inl ((send (b ∷ []) r.peer).1, ground arith)
    | inr part ↦ inr (int (send (b ∷ []) r.peer).0, (send (b ∷ []) r.peer).1, ground arith)
  ]

  pub acknowledge_more :
      (rounds n total k : ℕ) (r : Run p)
      → is_due n total k ≡ true
      → acknowledge p (suc rounds) n total k r
        ≡ (send_byte p chunk_ok >>= λ u. acknowledge p rounds n total ((k + block_size) % 2 ^ 32)) r
  unfolding acknowledge
  acknowledge_more rounds n total k r e = rw (acknowledge, e) refl

  pub acknowledge_done :
      (rounds n total k : ℕ) (r : Run p)
      → is_due n total k ≡ false
      → acknowledge p (suc rounds) n total k r ≡ (ok k, r)
  unfolding acknowledge
  acknowledge_done rounds n total k r e = rw (acknowledge, e) refl

  -- What is left to send once `a` blocks are acknowledged and `k` are due.
  pub acknowledge_cases :
      (rounds n total a k : ℕ) (r : Run p)
      → n + 16384 ≤ 2 ^ 32
      → total ≤ n
      → a + k ≡ acks_due n total
      → k < rounds
      → ((q : Peer) × (acknowledge p rounds n total (a * 8192) r ≡ (
        ok (acks_due n total * 8192),
        record r { peer = q; sent = r.sent ++ replicate k chunk_ok },
      )))
        ⊎ ((c : Code) × (s : List ℕ) × (q : Peer) × (acknowledge p rounds n total (a * 8192) r
              ≡ (err c, record r { peer = q; sent = s })))
  unfolding acknowledge
  acknowledge_cases zero n total a k r h t e l = absurd (omega arith)
  acknowledge_cases (suc rounds) n total a zero r h t e l =
      let not_due : is_due n total (a * 8192) ≡ false =
        is_due_lem n total a h t (omega arith) ∙ ground arith in
      let all : a ≡ acks_due n total = omega arith in
      inl (
        r.peer,
        acknowledge_done rounds n total (a * 8192) r not_due
            ∙ rw (append-nil r.sent) (ap (λ (t : ℕ). (ok (t * 8192), r)) all),
      )
  acknowledge_cases (suc rounds) n total a (suc k) r h t e l =
      let due : is_due n total (a * 8192) ≡ true =
        is_due_lem n total a h t (omega arith) ∙ ground arith in
      let next : (a * 8192 + 8192) % 2 ^ 32 ≡ suc a * 8192 = omega (arith, acks_due-le n total t) in
      let rest_of : Unit {0} → Step (Run p) ℕ =
        λ u. acknowledge p rounds n total ((a * 8192 + block_size) % 2 ^ 32) in
      let more = acknowledge_more rounds n total (a * 8192) r due in
      elim (send_byte_cases chunk_ok r) [
        | inl (q, sent) ↦
            elim (acknowledge_cases rounds n total (suc a) k
              (record r { peer = q; sent = r.sent ++ (chunk_ok ∷ []) }) h t (omega arith)
              (omega arith)) [
                | inl (q', rest) ↦ inl (
                  q',
                  more
                      ∙ bind-ok (send_byte p chunk_ok) rest_of sent
                      ∙ rw next (rest ∙ rw append_assoc refl),
                )
                | inr (c, s, q', rest) ↦
                    inr
                      (c, s, q', more ∙ bind-ok (send_byte p chunk_ok) rest_of sent ∙ rw next rest)
              ]
        | inr (c, q, sent) ↦ inr (c, r.sent, q, more ∙ bind-err (send_byte p chunk_ok) rest_of sent)
      ]
