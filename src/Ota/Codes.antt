-- ===== src/Ota/Codes.antt =====
-- The codes that esphome_ota_run returns: which of them are 0.
use zephyr_esphome.Prelude.{
  ℕ, zero, suc, ◌+◌, ◌-◌, ◌/◌, ◌%◌, ◌^◌, ◌≤◌, ◌<◌, ◌≡◌, ◌≢◌, refl, sym, ap, ◌∙◌, inl, inr, List, [],
  ◌∷◌, Bool, true, false, Option, none, some, Bool-cases, if◌then◌else◌, ltb, leb, min, Code, int,
  neg, eio, success, is_nonzero, ℤ, pos, negsuc,
}
use zephyr_esphome.Ota.Base.{
  Platform, Step, Result, ok, err, stuck, Run, pure, fail, ◌>>=◌, bind-ok, bind-err, bind-stuck,
  is_count, is_due, chunk_ok, chunk_size, block_size, receive_ok, update_end_ok,
}
use zephyr_esphome.Ota.{
  try_send, send_all, send_byte, try_recv, recv_all, or_fail, or_answer, read_data, read_magic,
  read_features, read_size, read_md5, recv_or_answer, send_version, send_auth_ok, send_prepare_ok,
  write_data, acknowledge, receive, request_upgrade, read_ack, reboot, handshake, finish, ota_run,
}
use zephyr_esphome.Ota.Flow.{ota_run-Upgraded}

-- No end but by a code other than 0, and those that are no error.
abbrev shows_errors : {A : Type 0} → Result A → Bool
shows_errors (ok a) = true
shows_errors (err c) = is_nonzero c
shows_errors stuck = true

int-is_nonzero : (ret : ℤ) → ret ≢ pos 0 → is_nonzero (int ret) ≡ true
int-is_nonzero (pos zero) n = absurd (n refl)
int-is_nonzero (pos (suc k)) n = refl
int-is_nonzero (negsuc k) n = refl

module _ (p : Platform) where
  open p use {Peer, send, flash_write}

  unfoldable Shows : {A : Type 0} → Step (Run p) A → Type 0
  Shows m = (r : Run p) → shows_errors (m r).0 ≡ true

  pure-Shows : {A : Type 0} (a : A) → Shows (pure a)
  unfolding Shows
  pure-Shows a r = refl

  fail-Shows : (A : Type 0) (c : Code) → is_nonzero c ≡ true → Shows {A = A} (fail c)
  unfolding Shows
  fail-Shows A c e r = e

  try_send-Shows : (bs : List ℕ) → Shows (try_send p bs)
  unfolding Shows try_send
  try_send-Shows bs r = refl

  try_recv-Shows : (n : ℕ) → Shows (try_recv p n)
  unfolding Shows try_recv
  try_recv-Shows n r = refl

  bind-Shows :
      {A B : Type 0} (m : Step (Run p) A) (f : A → Step (Run p) B)
      → Shows m
      → ((a : A) → Shows (f a))
      → Shows (m >>= f)
  unfolding Shows
  bind-Shows {A} m f t u r = by_result (m r).0 (m r).1 refl (t r)
    where
      by_result :
          (x : Result A) (r' : Run p)
          → m r ≡ (x, r')
          → shows_errors x ≡ true
          → shows_errors ((m >>= f) r).0 ≡ true
      by_result (ok a) r' e q = rw (bind-ok m f e) (u a r')
      by_result (err c) r' e q = rw (bind-err m f e) q
      by_result stuck r' e q = rw (bind-stuck m f e) refl

  if-Shows :
      {A : Type 0} (b : Bool) (m n : Step (Run p) A)
      → Shows m
      → Shows n
      → Shows (if b then m else n)
  if-Shows true m n t u = t
  if-Shows false m n t u = u

  send_all-Shows : (bs : List ℕ) → Shows (send_all p bs)
  unfolding send_all
  send_all-Shows bs =
      bind-Shows (try_send p bs) _ (try_send-Shows bs)
        (λ ret. if-Shows _ _ _ (pure-Shows tt) (fail-Shows _ _ refl))

  or_fail-Shows : (o : Option (List ℕ)) → Shows (or_fail p o)
  unfolding or_fail
  or_fail-Shows none = fail-Shows _ _ refl
  or_fail-Shows (some bs) = pure-Shows bs

  recv_all-Shows : (n : ℕ) → Shows (recv_all p n)
  unfolding recv_all
  recv_all-Shows n = bind-Shows (try_recv p n) _ (try_recv-Shows n) or_fail-Shows

  answer-Shows :
      (A : Type 0) (b : ℕ) → Shows {A = A} (try_send p (b ∷ []) >>= λ ret. fail (neg eio))
  answer-Shows A b =
      bind-Shows (try_send p (b ∷ [])) _ (try_send-Shows _) (λ ret. fail-Shows A _ refl)

  or_answer-Shows : (b : ℕ) (o : Option (List ℕ)) → Shows (or_answer p b o)
  unfolding or_answer
  or_answer-Shows b none = answer-Shows _ b
  or_answer-Shows b (some bs) = pure-Shows bs

  recv_or_answer-Shows : (n b : ℕ) → Shows (recv_or_answer p n b)
  unfolding recv_or_answer
  recv_or_answer-Shows n b = bind-Shows (try_recv p n) _ (try_recv-Shows n) (or_answer-Shows b)

  read_magic-Shows : Shows (read_magic p)
  unfolding read_magic
  read_magic-Shows =
      bind-Shows (recv_all p 5) _ (recv_all-Shows 5)
        (λ bs. if-Shows _ _ _ (pure-Shows tt) (answer-Shows _ _))

  read_ack-Shows : Shows (read_ack p)
  unfolding read_ack
  read_ack-Shows =
      bind-Shows (recv_all p 1) _ (recv_all-Shows 1)
        (λ bs. if-Shows _ _ _ (pure-Shows tt) (fail-Shows _ _ refl))

  handshake-Shows : Shows (handshake p)
  unfolding handshake send_version read_features send_auth_ok read_size send_prepare_ok read_md5
  handshake-Shows = bind-Shows (read_magic p) _ read_magic-Shows (λ _.
      bind-Shows (send_version p) _ (send_all-Shows _) (λ _.
        bind-Shows (read_features p) _
          (bind-Shows (recv_all p 1) _ (recv_all-Shows 1) (λ bs. send_all-Shows _))
          (λ _. bind-Shows (send_auth_ok p) _ (send_all-Shows _) (λ _.
            bind-Shows (read_size p) _
              (bind-Shows (recv_all p 4) _ (recv_all-Shows 4) (λ bs. pure-Shows _))
              (λ size. bind-Shows (send_prepare_ok p) _ (send_all-Shows _) (λ _.
                bind-Shows (read_md5 p) _
                  (bind-Shows (recv_or_answer p 32 0) _ (recv_or_answer-Shows 32 0)
                    (λ bs. send_all-Shows _))
                  (λ _. pure-Shows size)))))))

  module _ (sends : (b : ℕ) (q : Peer) → (send (b ∷ []) q).0 ≢ pos 0)
      (flashes : (bs : List ℕ) (last : Bool) (q : Peer) → (flash_write bs last q).0 ≡ true) where
    send_byte-Shows : (b : ℕ) → Shows (send_byte p b)
    unfolding Shows send_byte try_send
    send_byte-Shows b r = elim (Bool-cases (is_count (send (b ∷ []) r.peer).0 1)) [
      | inl all ↦ rw all refl
      | inr part ↦ rw part (int-is_nonzero (send (b ∷ []) r.peer).0 (sends b r.peer))
    ]

    write_data-Shows : (bs : List ℕ) (last : Bool) → Shows (write_data p success bs last)
    unfolding Shows write_data
    write_data-Shows bs last r = rw (flashes bs last r.peer) refl

    acknowledge-Shows :
        (rounds ota_size total acknowledged : ℕ)
        → Shows (acknowledge p rounds ota_size total acknowledged)
    unfolding Shows acknowledge
    acknowledge-Shows zero ota_size total acknowledged r = refl
    acknowledge-Shows (suc rounds) ota_size total acknowledged r =
        elim (Bool-cases (is_due ota_size total acknowledged)) [
          | inl due ↦
              let next = (acknowledged + block_size) % 2 ^ 32 in
              rw (acknowledge, due)
                (bind-Shows (send_byte p chunk_ok) (λ u. acknowledge p rounds ota_size total next)
                  (send_byte-Shows chunk_ok) (λ u. acknowledge-Shows rounds ota_size total next) r)
          | inr done ↦ rw (acknowledge, done) refl
        ]

    abbrev after_write :
        (rounds ota_size total acknowledged : ℕ) → Unit {0} → Step (Run p) (Unit {0})
    after_write rounds ota_size total acknowledged u =
        acknowledge p rounds ota_size total acknowledged >>= receive p rounds ota_size total

    receive-Shows :
        (rounds ota_size total acknowledged : ℕ)
        → Shows (receive p rounds ota_size total acknowledged)
    unfolding Shows receive read_data
    receive-Shows zero ota_size total acknowledged r = refl
    receive-Shows (suc rounds) ota_size total acknowledged r =
        elim (Bool-cases (ltb total ota_size)) [
          | inl more ↦
              let requested = min chunk_size (ota_size - total) in
              let last = leb (ota_size - total) chunk_size in
              let total' = total + requested in
              rw (receive, more)
                (bind-Shows (read_data p requested)
                  (λ bs.
                    write_data p success bs last
                    >>= after_write rounds ota_size total' acknowledged)
                  (recv_or_answer-Shows requested 0)
                  (λ bs.
                    bind-Shows (write_data p success bs last)
                      (after_write rounds ota_size total' acknowledged) (write_data-Shows bs last)
                      (λ u.
                        bind-Shows (acknowledge p rounds ota_size total' acknowledged)
                          (receive p rounds ota_size total')
                          (acknowledge-Shows rounds ota_size total' acknowledged)
                          (receive-Shows rounds ota_size total')))
                  r)
          | inr done ↦ rw (receive, done) refl
        ]

    request_upgrade-Shows : Shows (request_upgrade p)
    unfolding Shows request_upgrade
    request_upgrade-Shows r = refl

    reboot-Shows : Shows (reboot p)
    unfolding Shows reboot
    reboot-Shows r = refl

    finish-Shows : Shows (finish p)
    unfolding finish
    finish-Shows = bind-Shows (send_byte p receive_ok) _ (send_byte-Shows receive_ok) (λ _.
        bind-Shows (request_upgrade p) _ request_upgrade-Shows (λ _.
          bind-Shows (send_byte p update_end_ok) _ (send_byte-Shows update_end_ok) (λ _.
            bind-Shows (read_ack p) _ read_ack-Shows
              (λ _. bind-Shows (reboot p) _ reboot-Shows (λ _. fail-Shows _ _ refl)))))

    ota_run-Shows : (rounds : ℕ) → Shows (ota_run p rounds)
    unfolding ota_run
    ota_run-Shows rounds =
        bind-Shows (handshake p) (λ size. receive p rounds size 0 0 >>= λ _. finish p)
          handshake-Shows
          (λ size.
            bind-Shows (receive p rounds size 0 0) (λ _. finish p) (receive-Shows rounds size 0 0)
              (λ _. finish-Shows))

    -- Where zsock_send of one byte never returns 0 and the flash writer takes every chunk, esphome_ota_run returns,
    -- and the code that it returns is not 0: a 0, which esphome_ota_service does not report, has one of
    -- these two causes. It is supposed that the size announced is at least 16384 below 2^32, that the loops have
    -- more rounds than the bytes and the blocks of the image, and that the boot loader has not been asked for
    -- an image before.
    pub ota_run-is_nonzero :
        (rounds : ℕ) (r : Run p)
        → ((n : ℕ) (r₁ : Run p)
            → handshake p r ≡ (ok n, r₁)
            → (n + 16384 ≤ 2 ^ 32) × (n + (n + 8191) / 8192 < rounds))
        → r.upgrade ≡ false
        → (c : Code) × (r' : Run p) × (ota_run p rounds r ≡ (err c, r')) × (is_nonzero c ≡ true)
    unfolding Shows
    ota_run-is_nonzero rounds r enough idle =
        let (c, r', e, kept) = ota_run-Upgraded p rounds r enough idle in
        (c, r', e, ap (λ t. shows_errors t.0) (sym e) ∙ ota_run-Shows rounds r)
