-- ===== src/Rpc/Service/Contract.antt =====
-- The inner loop of esphome_rpc_service against its contract: the requests of a client, handled in
-- order until one ends the connection.
use zephyr_esphome.Prelude.{
  ℕ, suc, ◌+◌, ◌<◌, ◌^◌, ◌≡◌, ◌≢◌, refl, sym, ap, ◌∙◌, List, [], ◌∷◌, ◌++◌, true, false, Option,
  none, some, length, All, if◌then◌else◌, arith, Code, is_nonzero, Bool-cases, ◌==◌, ==_iff, inl,
  inr,
}
use mathlib.Core.List.{append_assoc}
use zephyr_esphome.Rpc.Socket.{Socket, got, Delivers}
use zephyr_esphome.Rpc.Header.{encode_header}
use zephyr_esphome.Rpc.Messages.{Message, write_form}
use zephyr_esphome.Rpc.Messages.Form.{packed, bare, rpc_id, shape}
use zephyr_esphome.Rpc.Service.{Codec, State, Callback, Outcome, returned, read_request, serve}
use zephyr_esphome.Rpc.Service.Read.{
  read_request-message_write, read_request-message_write_empty, read_request-message_write_bare,
}
use zephyr_esphome.Rpc.Service.Arrival.{serve_ends, serve_goes_on}

module _ (c : Codec) where
  open c use {Payload, unpack, packed_size, pack}

  -- A request of a client: a message, with its payload if it has one.
  abbrev pub Request : Type 0
  Request = Message × Option Payload

  abbrev pub IsRequest : Request → Type 0
  IsRequest (m, none) = shape (write_form m) ≡ bare
  IsRequest (m, some p) =
      (shape (write_form m) ≡ packed)
      × (packed_size m p ≡ length (pack m p))
      × (packed_size m p < 2 ^ 32)
      × (unpack m (pack m p) ≡ some p)

  -- What the Write function of the message puts on the wire.
  abbrev pub request_bytes : Request → List ℕ
  request_bytes (m, none) = encode_header (rpc_id (write_form m)) 0
  request_bytes (m, some p) = encode_header (rpc_id (write_form m)) (packed_size m p) ++ pack m p

  abbrev pub stream_of : List Request → List ℕ
  stream_of [] = []
  stream_of (r ∷ rs) = request_bytes r ++ stream_of rs

  -- The contract: the requests are handled in order, until a handler's result is not 0. The result that
  -- ends the connection, the view then, and the requests that nobody reads.
  unfoldable pub session :
      {View : Type 0}
      → (Message → Option Payload → View → Code × View)
      → List Request
      → View
      → Option Code × View × List Request
  session handler [] v = (none, v, [])
  session handler ((m, o) ∷ rs) v =
      let (ret, v') = handler m o v in
      let later = session handler rs v' in if is_nonzero ret then (some ret, v', rs) else later

-- `stream` is what the client has sent and nobody has read. A read of no more than this yields just the
-- bytes asked for, the heap has a block for each payload, and the callbacks do to the `view` of the
-- world what `handler` does, and leave the stream.
pub record Serves (s : Socket) (c : Codec) (callback : Callback s c) (View : Type 0)
    (view : s.World → View) (stream : s.World → List ℕ)
    (handler : Message → Option (c.Payload) → View → Code × View) : Type 0 where
  pub received :
      (bs rest : List ℕ) (w : s.World)
      → stream w ≡ bs ++ rest
      → (s.recv (length bs) w ≡ (got bs, (s.recv (length bs) w).1))
        × (stream (s.recv (length bs) w).1 ≡ rest)
        × (view (s.recv (length bs) w).1 ≡ view w)
  pub allocated :
      (n : ℕ) (w : s.World)
      → (s.alloc n w ≡ (true, (s.alloc n w).1))
        × (stream (s.alloc n w).1 ≡ stream w)
        × (view (s.alloc n w).1 ≡ view w)
  pub handled :
      (m : Message) (o : Option (c.Payload)) (st : State s c)
      → let r = callback m o st in
        (r.0 ≡ (handler m o (view st.world)).0)
        × (view r.1.world ≡ (handler m o (view st.world)).1)
        × (stream r.1.world ≡ stream st.world)

module _ (s : Socket) (c : Codec) (callback : Callback s c) (View : Type 0) (view : s.World → View)
    (stream : s.World → List ℕ) where
  open s use {close}

  -- How the loop `out` over the requests ends, or goes on, when the contract says `t` of them.
  unfoldable pub Follows :
      (requests rounds val : ℕ) (rest : List ℕ) (out : Outcome × State s c)
      → Option Code × View × List (Request c)
      → Type 0
  Follows requests rounds val rest out (some ret, v, left) =
      (st' : State s c) × (out ≡ (returned ret, record st' { world = close st'.world }))
      × (view st'.world ≡ v)
      × (stream st'.world ≡ stream_of c left ++ rest)
  Follows requests rounds val rest out (none, v, left) =
      (st' : State s c) × (out ≡ serve s c callback requests rounds val st')
      × (view st'.world ≡ v)
      × (stream st'.world ≡ rest)

module _ (s : Socket) (c : Codec) (callback : Callback s c) (View : Type 0) (view : s.World → View)
    (stream : s.World → List ℕ) (handler : Message → Option (c.Payload) → View → Code × View)
    (serves : Serves s c callback View view stream handler) where
  open s use {World, recv, alloc, close}
  open c use {Payload, packed_size, pack}
  open serves use {received, allocated, handled}

  delivered :
      (bs rest : List ℕ) (w : World)
      → stream w ≡ bs ++ rest
      → (w' : World) × Delivers s bs w w' × (stream w' ≡ rest) × (view w' ≡ view w)
  delivered [] rest w e = (w, refl, e, refl)
  delivered (b ∷ bs) rest w e =
      let (got_b, left, same) = received (b ∷ []) (bs ++ rest) w e in
      let (w', d, left', same') = delivered bs rest (recv 1 w).1 left in
      (w', ((recv 1 w).1, got_b, d), left', same' ∙ same)

  no_zero : {n : ℕ} → ¬ (suc n ≡ 0)
  no_zero = omega arith

  empty_lem : (bs : List ℕ) → length bs ≡ 0 → bs ≡ []
  empty_lem [] e = refl
  empty_lem (b ∷ bs) e = elim (no_zero e) [ ]

  -- One request is read: its callback runs in a state with the same view.
  read_one :
      (r : Request c) (rest : List ℕ) (rounds val : ℕ) (st : State s c)
      → IsRequest c r
      → stream st.world ≡ request_bytes c r ++ rest
      → (st' : State s c) × (read_request s c callback (suc rounds) val st
          ≡ (returned (callback r.0 r.1 st').0, (callback r.0 r.1 st').1))
        × (stream st'.world ≡ rest)
        × (view st'.world ≡ view st.world)
  read_one (m, none) rest rounds val st sh e =
      let (w, d, left, same) = delivered (request_bytes c (m, none)) rest st.world e in
      (
        record st { world = w },
        read_request-message_write_bare s c callback m rounds val st w sh d,
        left,
        same,
      )
  read_one (m, some p) rest rounds val st (sh, size, small, decodes) e =
      let (w₁, d, left₁, same₁) =
        delivered (encode_header (rpc_id (write_form m)) (packed_size m p)) (pack m p ++ rest)
          st.world (e ∙ rw append_assoc refl) in
      elim (Bool-cases (packed_size m p == 0)) [
        | inl zero_size ↦
            let no_size : packed_size m p ≡ 0 = (==_iff (packed_size m p) 0).0 zero_size in
            let no_bytes : pack m p ≡ [] = empty_lem (pack m p) (sym size ∙ no_size) in
            (
              record st { world = w₁ },
              read_request-message_write_empty s c callback m p rounds val st w₁ sh
                  (ap (c.unpack m) (sym no_bytes) ∙ decodes) (rw no_size at d),
              left₁ ∙ ap (λ bs. bs ++ rest) no_bytes,
              same₁,
            )
        | inr some_size ↦
            let nz : packed_size m p ≢ 0 =
              λ z. absurd (let yes = (==_iff (packed_size m p) 0).1 z in cc (yes, some_size)) in
            let (has_block, left₂, same₂) = allocated (packed_size m p) w₁ in
            let w₂ = (alloc (packed_size m p) w₁).1 in
            let (got_p, left₃, same₃) = received (pack m p) rest w₂ (left₂ ∙ left₁) in
            let w₃ = (recv (length (pack m p)) w₂).1 in
            (
              record { world = w₃; blocks = st.blocks + 1 },
              read_request-message_write s c callback m p rounds val st w₁ w₂ w₃ sh size nz small
                  decodes d has_block (ap (λ n. recv n w₂) size ∙ got_p),
              left₃,
              same₃ ∙ same₂ ∙ same₁,
            )
      ]

  abbrev more : List (Request c) → ℕ → ℕ
  more [] n = n
  more (r ∷ rs) n = suc (more rs n)

  more_lem : (rs : List (Request c)) (n : ℕ) → more rs n ≡ length rs + n
  more_lem [] n = omega arith
  more_lem (r ∷ rs) n = omega (arith, more_lem rs n)

  serve-more :
      (rs : List (Request c)) (requests rounds val : ℕ) (rest : List ℕ) (st : State s c)
      → All (IsRequest c) rs
      → stream st.world ≡ stream_of c rs ++ rest
      → Follows s c callback View view stream requests
          (suc rounds)
          val
          rest
          (serve s c callback (more rs requests) (suc rounds) val st)
          (session c handler rs (view st.world))
  unfolding Follows session
  serve-more [] requests rounds val rest st ok e = (st, refl, refl, e)
  serve-more ((m, o) ∷ rs) requests rounds val rest st (ok, oks) e =
      let (st₁, read, left₁, same₁) =
        read_one (m, o) (stream_of c rs ++ rest) rounds val st ok (e ∙ rw append_assoc refl) in
      let (code, view₂, left₂) = handled m o st₁ in
      let r = callback m o st₁ in
      let same_code : r.0 ≡ (handler m o (view st.world)).0 =
        code ∙ ap (λ v. (handler m o v).0) same₁ in
      let same_view : view r.1.world ≡ (handler m o (view st.world)).1 =
        view₂ ∙ ap (λ v. (handler m o v).1) same₁ in
      elim (Bool-cases (is_nonzero r.0)) [
        | inl ends ↦
            let ends' : is_nonzero (handler m o (view st.world)).0 ≡ true =
              sym (ap is_nonzero same_code) ∙ ends in
            rw ends' (
              r.1,
              serve_ends s c callback (more rs requests) (suc rounds) val st r.1 r.0 read ends
                  ∙ ap (λ ret. (returned ret, record r.1 { world = close r.1.world })) same_code,
              same_view,
              left₂ ∙ left₁,
            )
        | inr goes_on ↦
            let goes_on' : is_nonzero (handler m o (view st.world)).0 ≡ false =
              sym (ap is_nonzero same_code) ∙ goes_on in
            rw
              (
                goes_on',
                serve_goes_on s c callback (more rs requests) (suc rounds) val st r.1 r.0 read
                    goes_on,
                ← same_view,
              )
              (serve-more rs requests rounds val rest r.1 oks (left₂ ∙ left₁))
      ]

  -- The inner loop of esphome_rpc_service does what its contract says: the requests of a client that has
  -- sent them back to back, each as its Write function puts it on the wire, are handled once each, in
  -- their order, up to the first whose handler returns another number than 0; that number ends the loop,
  -- the connection is closed, and what follows is not read. With no such number the loop goes on after
  -- the last request. It is supposed that every read yields the bytes asked for, that the heap has a
  -- block for each payload, that protobuf-c decodes what it encodes, and that the callbacks act on the
  -- view as the handler does, and leave the stream. A payload may be empty, has less than 2 ^ 32 bytes,
  -- and just as many as protobuf-c has said it would have.
  pub serve-session :
      (rs : List (Request c)) (requests rounds val : ℕ) (rest : List ℕ) (st : State s c)
      → All (IsRequest c) rs
      → stream st.world ≡ stream_of c rs ++ rest
      → Follows s c callback View view stream requests
          (suc rounds)
          val
          rest
          (serve s c callback (length rs + requests) (suc rounds) val st)
          (session c handler rs (view st.world))
  serve-session rs requests rounds val rest st ok e =
      rw (← more_lem rs requests) (serve-more rs requests rounds val rest st ok e)
