-- ===== src/Ota/Chunks.antt =====
-- One round of the loop of the chunks in esphome_ota_run, on each of its ways.
use zephyr_esphome.Prelude.{
  ℕ, suc, ◌+◌, ◌-◌, ◌*◌, ◌/◌, ◌^◌, ◌≤◌, ◌<◌, ◌≡◌, refl, ◌∙◌, ◌⊎◌, inl, inr, List, [], ◌∷◌, ◌++◌,
  Bool, false, some, ltb, leb, min, length, replicate, Code, neg, eio, success, arith, Bool-cases,
  Option-cases, lt→ltb, ==_iff,
}
use zephyr_esphome.Rpc.Socket.{Recv, lost, got}
use zephyr_esphome.Ota.Base.{
  Platform, Step, ◌>>=◌, bind-ok, bind-err, ok, err, Run, all_of, chunk_ok, chunk_size,
}
use zephyr_esphome.Ota.{
  try_send, try_recv, recv_or_answer, or_answer, read_data, write_data, acknowledge, receive,
}
use zephyr_esphome.Ota.Acks.{acks_due, acknowledge_cases}

all_of-length :
    (n : ℕ) (got_bytes : Recv) (bs : List ℕ) → all_of n got_bytes ≡ some bs → length bs ≡ n
all_of-length n (lost k) bs e = cc
all_of-length n (got xs) bs e = ground (arith, ==_iff (length xs) n)

pub acks_due-le_acks_due :
    (n total total' : ℕ) → total ≤ total' → total' ≤ n → acks_due n total ≤ acks_due n total'
acks_due-le_acks_due n total total' h l = ground arith

pub acks_due-top : (n total : ℕ) → total ≤ n → acks_due n total ≤ (n + 8191) / 8192
acks_due-top n total h = ground arith

module _ (p : Platform) where
  open p use {Peer, recv, send, flash_write}

  try_send_upgrade : (bs : List ℕ) (r : Run p) → (try_send p bs r).1.upgrade ≡ r.upgrade
  unfolding try_send
  try_send_upgrade bs r = ground arith

  read_data_cases :
      (n : ℕ) (r : Run p)
      → ((bs : List ℕ) × (q : Peer) × (length bs ≡ n)
          × (read_data p n r ≡ (ok bs, record r { peer = q })))
        ⊎ ((c : Code) × (r' : Run p) × (read_data p n r ≡ (err c, r')) × (r'.upgrade ≡ r.upgrade))
  unfolding read_data recv_or_answer or_answer try_recv try_send
  read_data_cases n r = elim (Option-cases (all_of n (recv n r.peer).0)) [
    | inl short ↦
        let r₁ : Run p = record r { peer = (recv n r.peer).1 } in
        inr (neg eio, (try_send p (0 ∷ []) r₁).1, rw short refl, try_send_upgrade (0 ∷ []) r₁)
    | inr (bs, whole) ↦ inl (bs, (recv n r.peer).1, all_of-length n _ bs whole, rw whole refl)
  ]

  write_data_cases :
      (bs : List ℕ) (last : Bool) (r : Run p)
      → ((q : Peer) × (write_data p success bs last r
            ≡ (ok tt, record r { peer = q; written = r.written ++ bs; closed = last })))
        ⊎ ((q : Peer) × (write_data p success bs last r ≡ (err success, record r { peer = q })))
  unfolding write_data
  write_data_cases bs last r = elim (Bool-cases (flash_write bs last r.peer).0) [
    | inl done ↦ inl ((flash_write bs last r.peer).1, rw done refl)
    | inr failed ↦ inr ((flash_write bs last r.peer).1, rw failed refl)
  ]

  -- What follows the writing of a chunk, and what follows its reading.
  abbrev pub after_write : (rounds n total k : ℕ) → Unit {0} → Step (Run p) (Unit {0})
  after_write rounds n total k u =
      acknowledge p rounds n total k >>= λ k'. receive p rounds n total k'

  abbrev pub after_read : (rounds n total k : ℕ) → List ℕ → Step (Run p) (Unit {0})
  after_read rounds n total k bs =
      write_data p success bs (leb (n - total) chunk_size)
      >>= after_write rounds n (total + min chunk_size (n - total)) k

  pub receive_more :
      (rounds n total k : ℕ) (r : Run p)
      → total < n
      → receive p (suc rounds) n total k r
        ≡ (read_data p (min chunk_size (n - total)) >>= after_read rounds n total k) r
  unfolding receive
  receive_more rounds n total k r l = rw (receive, lt→ltb total n l) refl

  pub receive_done : (rounds n k : ℕ) (r : Run p) → receive p (suc rounds) n n k r ≡ (ok tt, r)
  unfolding receive
  receive_done rounds n k r = let last : ltb n n ≡ false = ground arith in rw (receive, last) refl

  -- One round of the loop: a chunk is written and what is due is acknowledged, or the loop ends.
  pub receive_round :
      (rounds n total : ℕ) (r : Run p)
      → n + 16384 ≤ 2 ^ 32
      → total < n
      → (n + 8191) / 8192 < rounds
      → ((bs : List ℕ) × (q : Peer) × (length bs ≡ min chunk_size (n - total))
          × (receive p (suc rounds) n total (acks_due n total * 8192) r
              ≡ receive p rounds n
                  (total + min chunk_size (n - total))
                  (acks_due n (total + min chunk_size (n - total)) * 8192)
                  (record r {
                    peer = q;
                    sent =
                        r.sent
                        ++ replicate
                            (acks_due n (total + min chunk_size (n - total)) - acks_due n total)
                            chunk_ok;
                    written = r.written ++ bs;
                    closed = leb (n - total) chunk_size;
                  })))
        ⊎ ((c : Code) × (r' : Run p) × (receive p (suc rounds) n total (acks_due n total * 8192) r
              ≡ (err c, r'))
            × (r'.upgrade ≡ r.upgrade))
  receive_round rounds n total r h l f =
      let m = min chunk_size (n - total) in
      let last = leb (n - total) chunk_size in
      let k = acks_due n total * 8192 in
      let mono = acks_due-le_acks_due n total (total + m) (omega arith) (omega arith) in
      let more = receive_more rounds n total k r l in
      elim (read_data_cases m r) [
        | inr (c, r', e, u) ↦
            inr (c, r', more ∙ bind-err (read_data p m) (after_read rounds n total k) e, u)
        | inl (bs, q, len, e) ↦
            let read = more ∙ bind-ok (read_data p m) (after_read rounds n total k) e in
            let next = after_write rounds n (total + m) k in
            elim (write_data_cases bs last (record r { peer = q })) [
              | inr (q', e') ↦ inr (
                success,
                record r { peer = q' },
                read ∙ bind-err (write_data p success bs last) next e',
                refl,
              )
              | inl (q', e') ↦
                  let r₁ : Run p = record r {
                    peer = q';
                    written = r.written ++ bs;
                    closed = last;
                  } in
                  let to_acks = read ∙ bind-ok (write_data p success bs last) next e' in
                  let acks = acknowledge p rounds n (total + m) k in
                  elim (acknowledge_cases p rounds n (total + m) (acks_due n total)
                    (acks_due n (total + m) - acks_due n total) r₁ h (omega arith)
                    (omega (arith, mono))
                    (omega (arith, mono, acks_due-top n (total + m) (omega arith)))) [
                      | inl (q'', e'') ↦ inl (
                        bs,
                        q'',
                        len,
                        to_acks ∙ bind-ok acks (receive p rounds n (total + m)) e'',
                      )
                      | inr (c, s, q'', e'') ↦ inr (
                        c,
                        record r₁ { peer = q''; sent = s },
                        to_acks ∙ bind-err acks (receive p rounds n (total + m)) e'',
                        refl,
                      )
                    ]
            ]
      ]
