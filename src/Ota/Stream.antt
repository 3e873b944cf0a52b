-- ===== src/Ota/Stream.antt =====
-- A client that has sent all its bytes and takes every answer: what the parts of esphome_ota_run make
-- of it.
use zephyr_esphome.Prelude.{
  ℕ, ◌≡◌, refl, sym, ap, ◌∙◌, List, [], ◌∷◌, ◌++◌, Bool, true, some, length, ==_iff,
}
use mathlib.Core.List.{append_assoc, append-nil}
use zephyr_esphome.Rpc.Socket.{got}
use zephyr_esphome.Ota.Base.{Platform, Step, ok, Run, pure, ◌>>=◌, ◌>>◌, bind-ok, is_count}
use zephyr_esphome.Ota.{
  try_send, send_all, send_byte, try_recv, or_fail, recv_all, or_answer, recv_or_answer,
}

-- `stream` is what the client has sent and nobody has read. A read of no more than this yields just
-- the bytes asked for, every answer is taken whole, and the flash writer takes every chunk.
pub record Streams (p : Platform) (stream : p.Peer → List ℕ) : Type 0 where
  pub received :
      (bs rest : List ℕ) (q : p.Peer)
      → stream q ≡ bs ++ rest
      → (p.recv (length bs) q ≡ (got bs, (p.recv (length bs) q).1))
        × (stream (p.recv (length bs) q).1 ≡ rest)
  pub taken : (bs : List ℕ) (q : p.Peer) → is_count (p.send bs q).0 (length bs) ≡ true
  pub answered : (bs : List ℕ) (q : p.Peer) → stream (p.send bs q).1 ≡ stream q
  pub flashed : (bs : List ℕ) (last : Bool) (q : p.Peer) → (p.flash_write bs last q).0 ≡ true
  pub kept :
      (bs : List ℕ) (last : Bool) (q : p.Peer) → stream (p.flash_write bs last q).1 ≡ stream q

module _ (p : Platform) (stream : p.Peer → List ℕ) (streams : Streams p stream) where
  open p use {Peer}
  open streams use {received, taken, answered}

  -- The step succeeds with `a`, has answered with `out`, and has left `rest` of the stream.
  unfoldable pub Yields : {A : Type 0} → Step (Run p) A → Run p → A → List ℕ → List ℕ → Type 0
  Yields m r a out rest =
      (q : Peer) × (s : List ℕ) × (m r ≡ (ok a, record r { peer = q; sent = s }))
      × (s ≡ r.sent ++ out)
      × (stream q ≡ rest)

  pub pure-Yields :
      {A : Type 0} (a : A) (r : Run p) (rest : List ℕ)
      → stream r.peer ≡ rest
      → Yields (pure a) r a [] rest
  unfolding Yields
  pure-Yields a r rest e = (r.peer, r.sent, refl, sym (append-nil r.sent), e)

  pub bind-Yields :
      {A B : Type 0} (m : Step (Run p) A) (f : A → Step (Run p) B) (r : Run p) (a : A) (b : B)
      (out out' mid rest : List ℕ)
      → Yields m r a out mid
      → ((q : Peer) (s : List ℕ)
          → stream q ≡ mid
          → Yields (f a) (record r { peer = q; sent = s }) b out' rest)
      → Yields (m >>= f) r b (out ++ out') rest
  unfolding Yields
  bind-Yields m f r a b out out' mid rest (q, s, e, es, em) k =
      let (q', s', e', es', em') = k q s em in
      (q', s', bind-ok m f e ∙ e', es' ∙ ap (λ t. t ++ out') es ∙ rw append_assoc refl, em')

  pub then-Yields :
      {B : Type 0} (m : Step (Run p) (Unit {0})) (n : Step (Run p) B) (r : Run p) (b : B)
      (out out' mid rest : List ℕ)
      → Yields m r tt out mid
      → ((q : Peer) (s : List ℕ)
          → stream q ≡ mid
          → Yields n (record r { peer = q; sent = s }) b out' rest)
      → Yields (m >> n) r b (out ++ out') rest
  then-Yields m n r b = bind-Yields m (λ u. n) r tt b

  -- A part that only reads.
  pub reads-Yields :
      {A B : Type 0} (m : Step (Run p) A) (f : A → Step (Run p) B) (r : Run p) (a : A) (b : B)
      (out mid rest : List ℕ)
      → Yields m r a [] mid
      → ((q : Peer) (s : List ℕ)
          → stream q ≡ mid
          → Yields (f a) (record r { peer = q; sent = s }) b out rest)
      → Yields (m >>= f) r b out rest
  reads-Yields m f r a b out mid rest = bind-Yields m f r a b [] out mid rest

  pub send_all-Yields :
      (bs : List ℕ) (r : Run p) (rest : List ℕ)
      → stream r.peer ≡ rest
      → Yields (send_all p bs) r tt bs rest
  unfolding Yields send_all try_send
  send_all-Yields bs r rest e =
      ((p.send bs r.peer).1, r.sent ++ bs, rw (taken bs r.peer) refl, refl, answered bs r.peer ∙ e)

  pub send_byte-Yields :
      (b : ℕ) (r : Run p) (rest : List ℕ)
      → stream r.peer ≡ rest
      → Yields (send_byte p b) r tt (b ∷ []) rest
  unfolding Yields send_byte try_send
  send_byte-Yields b r rest e = (
    (p.send (b ∷ []) r.peer).1,
    r.sent ++ (b ∷ []),
    rw (taken (b ∷ []) r.peer) refl,
    refl,
    answered (b ∷ []) r.peer ∙ e,
  )

  try_recv-Yields :
      (bs rest : List ℕ) (r : Run p)
      → stream r.peer ≡ bs ++ rest
      → Yields (try_recv p (length bs)) r (some bs) [] rest
  unfolding Yields try_recv
  try_recv-Yields bs rest r e =
      let (all, left) = received bs rest r.peer e in
      (
        (p.recv (length bs) r.peer).1,
        r.sent,
        rw (all, (==_iff (length bs) (length bs)).1 refl) refl,
        sym (append-nil r.sent),
        left,
      )

  pub recv_all-Yields :
      (bs rest : List ℕ) (r : Run p)
      → stream r.peer ≡ bs ++ rest
      → Yields (recv_all p (length bs)) r bs [] rest
  unfolding recv_all or_fail
  recv_all-Yields bs rest r e =
      reads-Yields (try_recv p (length bs)) (or_fail p) r (some bs) bs [] rest rest
        (try_recv-Yields bs rest r e)
        (λ q s left. pure-Yields bs (record r { peer = q; sent = s }) rest left)

  pub recv_or_answer-Yields :
      (b : ℕ) (bs rest : List ℕ) (r : Run p)
      → stream r.peer ≡ bs ++ rest
      → Yields (recv_or_answer p (length bs) b) r bs [] rest
  unfolding recv_or_answer or_answer
  recv_or_answer-Yields b bs rest r e =
      reads-Yields (try_recv p (length bs)) (or_answer p b) r (some bs) bs [] rest rest
        (try_recv-Yields bs rest r e)
        (λ q s left. pure-Yields bs (record r { peer = q; sent = s }) rest left)
