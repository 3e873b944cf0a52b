-- ===== src/Ota/Round.antt =====
-- One round of the loop of the chunks in esphome_ota_run, with a client that has sent the image.
use zephyr_esphome.Prelude.{
  success, ℕ, zero, suc, ◌+◌, ◌-◌, ◌*◌, ◌/◌, ◌%◌, ◌^◌, ◌≤◌, ◌<◌, ◌≡◌, refl, sym, ap, ◌∙◌, List, [],
  ◌∷◌, ◌++◌, Bool, true, false, length, take, drop, replicate, min, leb, arith,
}
use mathlib.Core.List.{append-nil}
use zephyr_esphome.Ota.Base.{Platform, ok, Run, bind-ok, chunk_ok, block_size, chunk_size, is_due}
use zephyr_esphome.Ota.{send_byte, read_data, write_data, acknowledge, receive}
use zephyr_esphome.Ota.Acks.{acks_due, is_due_lem, acks_due-le, acknowledge_more, acknowledge_done}
use zephyr_esphome.Ota.Chunks.{
  acks_due-le_acks_due, acks_due-top, after_read, after_write, receive_more,
}
use zephyr_esphome.Ota.Stream.{
  Streams, Yields, bind-Yields, send_byte-Yields, recv_or_answer-Yields,
}

pub take-drop :
    (xs : List ℕ) (n : ℕ) → n ≤ length xs → (length (take n xs) ≡ n) × (take n xs ++ drop n xs ≡ xs)
take-drop xs zero h = (refl, refl)
take-drop [] (suc n) h = absurd (omega arith)
take-drop (x ∷ xs) (suc n) h =
    let (l, e) = take-drop xs n (omega arith) in (omega (arith, l), ap (λ t. x ∷ t) e)

pub acks_due-split :
    (n total total' : ℕ)
    → total ≤ total'
    → total' ≤ n
    → (acks_due n total' - acks_due n total) + (acks_due n n - acks_due n total')
      ≡ acks_due n n - acks_due n total
acks_due-split n total total' h h' = omega (
  arith,
  acks_due-le_acks_due n total total' h h',
  acks_due-le_acks_due n total' n h' (omega arith),
)

module _ (p : Platform) (stream : p.Peer → List ℕ) (streams : Streams p stream) where
  open p use {Peer}

  acknowledge-Yields :
      (rounds n total a k : ℕ) (r : Run p) (rest : List ℕ)
      → n + 16384 ≤ 2 ^ 32
      → total ≤ n
      → a + k ≡ acks_due n total
      → k < rounds
      → stream r.peer ≡ rest
      → Yields p stream streams
          (acknowledge p rounds n total (a * 8192))
          r
          (acks_due n total * 8192)
          (replicate k chunk_ok)
          rest
  unfolding Yields
  acknowledge-Yields zero n total a k r rest h t e l c = absurd (omega arith)
  acknowledge-Yields (suc rounds) n total a zero r rest h t e l c =
      let not_due : is_due n total (a * 8192) ≡ false =
        is_due_lem n total a h t (omega arith) ∙ ground arith in
      let all : a ≡ acks_due n total = omega arith in
      (
        r.peer,
        r.sent,
        acknowledge_done p rounds n total (a * 8192) r not_due
            ∙ ap (λ (t : ℕ). (ok (t * 8192), r)) all,
        sym (append-nil r.sent),
        c,
      )
  acknowledge-Yields (suc rounds) n total a (suc k) r rest h t e l c =
      let due : is_due n total (a * 8192) ≡ true =
        is_due_lem n total a h t (omega arith) ∙ ground arith in
      let next : (a * 8192 + 8192) % 2 ^ 32 ≡ suc a * 8192 = omega (arith, acks_due-le n total t) in
      let (q, s, run, out, left) =
        bind-Yields p stream streams (send_byte p chunk_ok)
          (λ u. acknowledge p rounds n total ((a * 8192 + block_size) % 2 ^ 32)) r tt
          (acks_due n total * 8192) (chunk_ok ∷ []) (replicate k chunk_ok) rest rest
          (send_byte-Yields p stream streams chunk_ok r rest c)
          (λ q s c'. rw next (
            acknowledge-Yields rounds n total (suc a) k (record r { peer = q; sent = s }) rest h t
              (omega arith) (omega arith) c')) in
      (q, s, acknowledge_more p rounds n total (a * 8192) r due ∙ run, out, left)

  write_data-Streams :
      (bs : List ℕ) (last : Bool) (r : Run p)
      → write_data p success bs last r ≡ (
        ok tt,
        record r {
          peer = (p.flash_write bs last r.peer).1;
          written = r.written ++ bs;
          closed = last;
        },
      )
  unfolding write_data
  write_data-Streams bs last r = rw (streams.flashed bs last r.peer) refl

  -- A round in which the chunk comes, is written, and what is due is answered.
  receive_one :
      (rounds n total k k' : ℕ) (chunk : List ℕ) (r r₁ r₂ r₃ : Run p)
      → total < n
      → read_data p (min chunk_size (n - total)) r ≡ (ok chunk, r₁)
      → write_data p success chunk (leb (n - total) chunk_size) r₁ ≡ (ok tt, r₂)
      → acknowledge p rounds n (total + min chunk_size (n - total)) k r₂ ≡ (ok k', r₃)
      → receive p (suc rounds) n total k r
        ≡ receive p rounds n (total + min chunk_size (n - total)) k' r₃
  receive_one rounds n total k k' chunk r r₁ r₂ r₃ t read write acks =
      let total' = total + min chunk_size (n - total) in
      receive_more p rounds n total k r t
      ∙ bind-ok (read_data p (min chunk_size (n - total))) (after_read p rounds n total k) read
      ∙ bind-ok (write_data p success chunk (leb (n - total) chunk_size))
          (after_write p rounds n total' k) write
      ∙ bind-ok (acknowledge p rounds n total' k) (receive p rounds n total') acks

  read_data-Yields :
      (chunk rest : List ℕ) (n : ℕ) (r : Run p)
      → length chunk ≡ n
      → stream r.peer ≡ chunk ++ rest
      → Yields p stream streams (read_data p n) r chunk [] rest
  unfolding read_data
  read_data-Yields chunk rest n r l e =
      rw l at (recv_or_answer-Yields p stream streams 0 chunk rest r e)

  -- One round: a chunk of the image is stored, and what is due is answered.
  pub receive_chunk :
      (rounds n total : ℕ) (chunk rest : List ℕ) (r : Run p)
      → n + 16384 ≤ 2 ^ 32
      → total < n
      → length chunk ≡ min chunk_size (n - total)
      → (n + 8191) / 8192 < rounds
      → stream r.peer ≡ chunk ++ rest
      → (q : Peer) × (s : List ℕ) × (receive p (suc rounds) n total (acks_due n total * 8192) r
          ≡ receive p rounds n
              (total + min chunk_size (n - total))
              (acks_due n (total + min chunk_size (n - total)) * 8192)
              (record r {
                peer = q;
                sent = s;
                written = r.written ++ chunk;
                closed = leb (n - total) chunk_size;
              }))
        × (s
            ≡ r.sent
              ++ replicate
                  (acks_due n (total + min chunk_size (n - total)) - acks_due n total)
                  chunk_ok)
        × (stream q ≡ rest)
  unfolding Yields
  receive_chunk rounds n total chunk rest r h t l f c =
      let k = acks_due n total * 8192 in
      let total' = total + min chunk_size (n - total) in
      let last = leb (n - total) chunk_size in
      let mono = acks_due-le_acks_due n total total' (omega arith) (omega arith) in
      let (q₁, s₁, read, e₁, c₁) = read_data-Yields chunk rest (min chunk_size (n - total)) r l c in
      let r₁ : Run p = record r { peer = q₁; sent = s₁ } in
      let r₂ : Run p = record r₁ {
        peer = (p.flash_write chunk last q₁).1;
        written = r.written ++ chunk;
        closed = last;
      } in
      let (q₃, s₃, acks, e₃, c₃) =
        acknowledge-Yields rounds n total' (acks_due n total) (acks_due n total' - acks_due n total)
          r₂ rest h (omega arith) (omega (arith, mono))
          (omega (arith, mono, acks_due-top n total' (omega arith)))
          (streams.kept chunk last q₁ ∙ c₁) in
      let r₃ : Run p = record r₂ { peer = q₃; sent = s₃ } in
      (
        q₃,
        s₃,
        receive_one rounds n total k (acks_due n total' * 8192) chunk r r₁ r₂ r₃ t read
            (write_data-Streams chunk last r₁) acks,
        e₃
            ∙ ap (λ x. x ++ replicate (acks_due n total' - acks_due n total) chunk_ok)
                (e₁ ∙ append-nil r.sent),
        c₃,
      )
