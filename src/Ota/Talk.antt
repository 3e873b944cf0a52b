-- ===== src/Ota/Talk.antt =====
-- The steps of esphome_ota_run that only talk to the client.
use zephyr_esphome.Prelude.{
  ℕ, ◌≡◌, refl, ◌∙◌, ◌⊎◌, inl, inr, List, [], ◌∷◌, ◌++◌, Bool, true, false, Option, none, some,
  length, Code, neg, eio, Bool-cases, if◌then◌else◌,
}
use zephyr_esphome.Ota.Base.{
  Platform, Step, ok, err, Run, pure, fail, ◌>>=◌, bind-ok, bind-err, is_count, all_of,
}
use zephyr_esphome.Ota.{
  try_send, send_all, send_byte, try_recv, recv_all, or_fail, or_answer, recv_or_answer, read_data,
  read_magic, send_version, read_features, send_auth_ok, read_size, send_prepare_ok, read_md5,
  read_ack, handshake,
}

module _ (p : Platform) where
  open p use {Peer, recv, send}

  -- A step that returns and changes only the connection.
  unfoldable pub Talks : {A : Type 0} → Step (Run p) A → Type 0
  Talks {A} m =
      (r : Run p)
      → ((a : A) × (s : List ℕ) × (q : Peer) × (m r ≡ (ok a, record r { peer = q; sent = s })))
        ⊎ ((c : Code) × (s : List ℕ) × (q : Peer) × (m r
              ≡ (err c, record r { peer = q; sent = s })))

  pure-Talks : {A : Type 0} (a : A) → Talks (pure a)
  unfolding Talks
  pure-Talks a r = inl (a, r.sent, r.peer, refl)

  fail-Talks : (A : Type 0) (c : Code) → Talks {A = A} (fail c)
  unfolding Talks
  fail-Talks A c r = inr (c, r.sent, r.peer, refl)

  bind-Talks :
      {A B : Type 0} (m : Step (Run p) A) (f : A → Step (Run p) B)
      → Talks m
      → ((a : A) → Talks (f a))
      → Talks (m >>= f)
  unfolding Talks
  bind-Talks m f t u r = elim (t r) [
    | inr (c, s, q, e) ↦ inr (c, s, q, bind-err m f e)
    | inl (a, s, q, e) ↦ elim (u a (record r { peer = q; sent = s })) [
      | inr (c, s', q', e') ↦ inr (c, s', q', bind-ok m f e ∙ e')
      | inl (b, s', q', e') ↦ inl (b, s', q', bind-ok m f e ∙ e')
    ]
  ]

  if-Talks :
      {A : Type 0} (b : Bool) (m n : Step (Run p) A)
      → Talks m
      → Talks n
      → Talks (if b then m else n)
  if-Talks true m n t u = t
  if-Talks false m n t u = u

  try_send-Talks : (bs : List ℕ) → Talks (try_send p bs)
  unfolding Talks try_send
  try_send-Talks bs r = elim (Bool-cases (is_count (send bs r.peer).0 (length bs))) [
    | inl all ↦ inl ((send bs r.peer).0, r.sent ++ bs, (send bs r.peer).1, rw all refl)
    | inr part ↦ inl ((send bs r.peer).0, r.sent, (send bs r.peer).1, rw part refl)
  ]

  try_recv-Talks : (n : ℕ) → Talks (try_recv p n)
  unfolding Talks try_recv
  try_recv-Talks n r = inl (all_of n (recv n r.peer).0, r.sent, (recv n r.peer).1, refl)

  send_all-Talks : (bs : List ℕ) → Talks (send_all p bs)
  unfolding send_all
  send_all-Talks bs =
      bind-Talks (try_send p bs) _ (try_send-Talks bs)
        (λ ret. if-Talks _ _ _ (pure-Talks tt) (fail-Talks _ _))

  pub send_byte-Talks : (b : ℕ) → Talks (send_byte p b)
  unfolding send_byte
  send_byte-Talks b =
      bind-Talks (try_send p (b ∷ [])) _ (try_send-Talks (b ∷ []))
        (λ ret. if-Talks _ _ _ (pure-Talks tt) (fail-Talks _ _))

  or_fail-Talks : (o : Option (List ℕ)) → Talks (or_fail p o)
  unfolding or_fail
  or_fail-Talks none = fail-Talks _ _
  or_fail-Talks (some bs) = pure-Talks bs

  recv_all-Talks : (n : ℕ) → Talks (recv_all p n)
  unfolding recv_all
  recv_all-Talks n = bind-Talks (try_recv p n) _ (try_recv-Talks n) or_fail-Talks

  answer-Talks :
      (A : Type 0) (b : ℕ) → Talks {A = A} (try_send p (b ∷ []) >>= λ ret. fail (neg eio))
  answer-Talks A b = bind-Talks (try_send p (b ∷ [])) _ (try_send-Talks _) (λ ret. fail-Talks A _)

  or_answer-Talks : (b : ℕ) (o : Option (List ℕ)) → Talks (or_answer p b o)
  unfolding or_answer
  or_answer-Talks b none = answer-Talks _ b
  or_answer-Talks b (some bs) = pure-Talks bs

  read_magic-Talks : Talks (read_magic p)
  unfolding read_magic
  read_magic-Talks =
      bind-Talks (recv_all p 5) _ (recv_all-Talks 5)
        (λ bs. if-Talks _ _ _ (pure-Talks tt) (answer-Talks _ _))

  read_features-Talks : Talks (read_features p)
  unfolding read_features
  read_features-Talks = bind-Talks (recv_all p 1) _ (recv_all-Talks 1) (λ bs. send_all-Talks _)

  read_size-Talks : Talks (read_size p)
  unfolding read_size
  read_size-Talks = bind-Talks (recv_all p 4) _ (recv_all-Talks 4) (λ bs. pure-Talks _)

  pub read_data-Talks : (n : ℕ) → Talks (read_data p n)
  unfolding read_data recv_or_answer
  read_data-Talks n =
      bind-Talks (try_recv p n) (or_answer p 0) (try_recv-Talks n) (or_answer-Talks 0)

  read_md5-Talks : Talks (read_md5 p)
  unfolding read_md5 recv_or_answer
  read_md5-Talks =
      bind-Talks (try_recv p 32 >>= or_answer p 0) _
        (bind-Talks (try_recv p 32) _ (try_recv-Talks 32) (or_answer-Talks 0))
        (λ bs. send_all-Talks _)

  pub read_ack-Talks : Talks (read_ack p)
  unfolding read_ack
  read_ack-Talks =
      bind-Talks (recv_all p 1) _ (recv_all-Talks 1)
        (λ bs. if-Talks _ _ _ (pure-Talks tt) (fail-Talks _ _))

  pub handshake-Talks : Talks (handshake p)
  unfolding handshake send_version send_auth_ok send_prepare_ok
  handshake-Talks = bind-Talks (read_magic p) _ read_magic-Talks (λ _.
      bind-Talks (send_version p) _ (send_all-Talks _) (λ _.
        bind-Talks (read_features p) _ read_features-Talks (λ _.
          bind-Talks (send_auth_ok p) _ (send_all-Talks _) (λ _.
            bind-Talks (read_size p) _ read_size-Talks (λ size.
              bind-Talks (send_prepare_ok p) _ (send_all-Talks _)
                (λ _. bind-Talks (read_md5 p) _ read_md5-Talks (λ _. pure-Talks size)))))))
