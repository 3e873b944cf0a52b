-- ===== src/Ota/Service/Leftovers.antt =====
-- The bytes that an update which broke off leaves in the context of the flash writer.
use zephyr_esphome.Prelude.{
  success, ℕ, zero, suc, ◌+◌, ◌-◌, ◌%◌, ◌/◌, ◌^◌, ◌≤◌, ◌<◌, ◌≡◌, refl, sym, ap, ◌∙◌, inl, inr, List,
  [], ◌++◌, Bool, true, false, Bool-cases, if◌then◌else◌, ltb, leb, min, length, arith,
}
use mathlib.Core.List.{append_assoc, append-nil}
use zephyr_esphome.Rpc.Service.{Outcome, blocked}
use zephyr_esphome.Ota.Base.{
  Platform, Step, Result, ok, err, stuck, Run, ◌>>=◌, bind-ok, bind-err, bind-stuck, is_due,
  chunk_ok, chunk_size, block_size,
}
use zephyr_esphome.Ota.{
  send_byte, read_data, write_data, acknowledge, receive, handshake, finish, ota_run,
}
use zephyr_esphome.Ota.Talk.{Talks, send_byte-Talks, handshake-Talks, read_data-Talks}
use zephyr_esphome.Ota.Flow.{finish-Fails, ota_run-Upgraded}
use zephyr_esphome.Ota.Service.{Server, close_connection, accept_loop}

-- The first list is the start of the second.
abbrev pub IsPrefix : List ℕ → List ℕ → Type 0
IsPrefix xs ys = (bs : List ℕ) × (ys ≡ xs ++ bs)

IsPrefix-refl : (xs : List ℕ) → IsPrefix xs xs
IsPrefix-refl xs = ([], sym (append-nil xs))

IsPrefix-trans : (xs ys zs : List ℕ) → IsPrefix xs ys → IsPrefix ys zs → IsPrefix xs zs
IsPrefix-trans xs ys zs (bs, e) (cs, d) = (bs ++ cs, d ∙ ap (λ t. t ++ cs) e ∙ rw append_assoc refl)

module _ (p : Platform) where
  -- A part of a run that takes back nothing from the flash.
  abbrev pub Adds : {A : Type 0} → Step (Run p) A → Type 0
  Adds m = (r : Run p) → IsPrefix r.written (m r).1.written

  bind-Adds :
      {A B : Type 0} (m : Step (Run p) A) (f : A → Step (Run p) B)
      → Adds m
      → ((a : A) → Adds (f a))
      → Adds (m >>= f)
  bind-Adds {A} m f t u r = by_result (m r).0 (m r).1 refl (t r)
    where
      by_result :
          (x : Result A) (r' : Run p)
          → m r ≡ (x, r')
          → IsPrefix r.written r'.written
          → IsPrefix r.written ((m >>= f) r).1.written
      by_result (ok a) r' e q =
          rw (bind-ok m f e) (IsPrefix-trans r.written r'.written (f a r').1.written q (u a r'))
      by_result (err c) r' e q = rw (bind-err m f e) q
      by_result stuck r' e q = rw (bind-stuck m f e) q

  talk-Adds : {A : Type 0} (m : Step (Run p) A) → Talks p m → Adds m
  unfolding Talks
  talk-Adds m t r = elim (t r) [
    | inl (a, s, q, e) ↦ rw e (IsPrefix-refl r.written)
    | inr (c, s, q, e) ↦ rw e (IsPrefix-refl r.written)
  ]

  write_data-Adds : (bs : List ℕ) (last : Bool) → Adds (write_data p success bs last)
  unfolding write_data
  write_data-Adds bs last r = elim (Bool-cases (p.flash_write bs last r.peer).0) [
    | inl done ↦ rw done (bs, refl)
    | inr failed ↦ rw failed (IsPrefix-refl r.written)
  ]

  acknowledge-Adds :
      (rounds ota_size total acknowledged : ℕ)
      → Adds (acknowledge p rounds ota_size total acknowledged)
  unfolding acknowledge
  acknowledge-Adds zero ota_size total acknowledged r = IsPrefix-refl r.written
  acknowledge-Adds (suc rounds) ota_size total acknowledged r =
      elim (Bool-cases (is_due ota_size total acknowledged)) [
        | inl due ↦
            let next = (acknowledged + block_size) % 2 ^ 32 in
            rw (acknowledge, due)
              (bind-Adds (send_byte p chunk_ok) (λ u. acknowledge p rounds ota_size total next)
                (talk-Adds (send_byte p chunk_ok) (send_byte-Talks p chunk_ok))
                (λ u. acknowledge-Adds rounds ota_size total next) r)
        | inr done ↦ rw (acknowledge, done) (IsPrefix-refl r.written)
      ]

  abbrev after_write : (rounds ota_size total acknowledged : ℕ) → Unit {0} → Step (Run p) (Unit {0})
  after_write rounds ota_size total acknowledged u =
      acknowledge p rounds ota_size total acknowledged >>= receive p rounds ota_size total

  abbrev after_read :
      (rounds ota_size total acknowledged : ℕ) (last : Bool) → List ℕ → Step (Run p) (Unit {0})
  after_read rounds ota_size total acknowledged last bs =
      write_data p success bs last >>= after_write rounds ota_size total acknowledged

  receive-Adds :
      (rounds ota_size total acknowledged : ℕ) → Adds (receive p rounds ota_size total acknowledged)
  unfolding receive
  receive-Adds zero ota_size total acknowledged r = IsPrefix-refl r.written
  receive-Adds (suc rounds) ota_size total acknowledged r = elim (Bool-cases (ltb total ota_size)) [
    | inl more ↦
        let requested = min chunk_size (ota_size - total) in
        let last = leb (ota_size - total) chunk_size in
        let total' = total + requested in
        rw (receive, more)
          (bind-Adds (read_data p requested) (after_read rounds ota_size total' acknowledged last)
            (talk-Adds (read_data p requested) (read_data-Talks p requested))
            (λ bs.
              bind-Adds (write_data p success bs last)
                (after_write rounds ota_size total' acknowledged) (write_data-Adds bs last)
                (λ u.
                  bind-Adds (acknowledge p rounds ota_size total' acknowledged)
                    (receive p rounds ota_size total')
                    (acknowledge-Adds rounds ota_size total' acknowledged)
                    (receive-Adds rounds ota_size total')))
            r)
    | inr done ↦ rw (receive, done) (IsPrefix-refl r.written)
  ]

  finish-Adds : Adds (finish p)
  finish-Adds r =
      let (c, r', e, kept, closed) = finish-Fails p r in
      rw e ([], kept ∙ sym (append-nil r.written))

  abbrev after_handshake : ℕ → ℕ → Step (Run p) (Unit {0})
  after_handshake rounds size = receive p rounds size 0 0 >>= λ u. finish p

  ota_run-Adds : (rounds : ℕ) → Adds (ota_run p rounds)
  unfolding ota_run
  ota_run-Adds rounds =
      bind-Adds (handshake p) (after_handshake rounds) (talk-Adds (handshake p) (handshake-Talks p))
        (λ size.
          bind-Adds (receive p rounds size 0 0) (λ u. finish p) (receive-Adds rounds size 0 0)
            (λ u. finish-Adds))

  module _ (server : Server p) where
    -- What the loop makes of a call of zsock_accept and of the run after it.
    choose :
        (xs : List ℕ) (accepted rebooted : Bool) (result : Result (Unit {0})) (r₂ : Run p)
        (served skipped : Outcome × Run p)
        → IsPrefix xs r₂.written
        → IsPrefix xs served.1.written
        → IsPrefix xs skipped.1.written
        → IsPrefix xs
            (if accepted
              then (if rebooted
                  then (blocked, r₂)
                  else elim result [ ok u ↦ served | err ret ↦ served | stuck ↦ (blocked, r₂) ])
              else skipped).1.written
    choose xs true true result r₂ served skipped h l k = h
    choose xs true false (ok u) r₂ served skipped h l k = l
    choose xs true false (err ret) r₂ served skipped h l k = l
    choose xs true false stuck r₂ served skipped h l k = h
    choose xs false rebooted result r₂ served skipped h l k = k

    -- The thread of the update takes back nothing that the flash has taken, however many clients come:
    -- what the updates before have written, also those that broke off, stays in front of what the next
    -- one writes.
    pub accept_loop-IsPrefix :
        (connections rounds : ℕ) (r : Run p)
        → IsPrefix r.written (accept_loop p server connections rounds r).1.written
    unfolding accept_loop
    accept_loop-IsPrefix zero rounds r = IsPrefix-refl r.written
    accept_loop-IsPrefix (suc connections) rounds r =
        let r₁ : Run p = record r { peer = (server.accept r.peer).1 } in
        let r₂ = (ota_run p rounds r₁).1 in
        let served = accept_loop p server connections rounds (close_connection p server r₂) in
        let kept = ota_run-Adds rounds r₁ in
        choose r.written (server.accept r.peer).0 r₂.rebooted (ota_run p rounds r₁).0 r₂ served
          (accept_loop p server connections rounds r₁) kept
          (IsPrefix-trans r.written r₂.written served.1.written kept
            (accept_loop-IsPrefix connections rounds (close_connection p server r₂)))
          (accept_loop-IsPrefix connections rounds r₁)

  -- An update that begins when the flash has taken bytes before, and that ends by asking the boot loader
  -- for the new image, asks for one with these bytes in front: it is longer than the size announced.
  -- Two things are supposed: the size announced is at least 16384 below 2^32, and the loops have more
  -- rounds than the bytes and the blocks of the image.
  pub ota_run_leftover :
      (rounds : ℕ) (r : Run p)
      → ((n : ℕ) (r₁ : Run p)
          → handshake p r ≡ (ok n, r₁)
          → (n + 16384 ≤ 2 ^ 32) × (n + (n + 8191) / 8192 < rounds))
      → r.upgrade ≡ false
      → 0 < length r.written
      → (ota_run p rounds r).1.upgrade ≡ true
      → (n : ℕ) × (r₁ : Run p) × (handshake p r ≡ (ok n, r₁))
        × IsPrefix r.written (ota_run p rounds r).1.written
        × (n < length (ota_run p rounds r).1.written)
  ota_run_leftover rounds r enough idle some_bytes asked =
      let (c, r', e, done) = ota_run-Upgraded p rounds r enough idle in
      let same : (ota_run p rounds r).1 ≡ r' = ap (λ t. t.1) e in
      let upgraded = done (ap (λ t. t.upgrade) (sym same) ∙ asked) in
      (
        upgraded.size,
        upgraded.connected,
        upgraded.announced,
        ota_run-Adds rounds r,
        omega (arith, upgraded.whole, ap (λ t. length t.written) same),
      )
