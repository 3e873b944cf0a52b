-- ===== src/Rpc/Service/Read.antt =====
-- esphome_read_request and the inner loop of esphome_rpc_service: on a message that was written, on a
-- number of no message, and on a closed connection.
use zephyr_esphome.Prelude.{
  ℕ, zero, suc, ◌+◌, ◌<◌, ◌^◌, ◌≡◌, ◌≢◌, refl, sym, ap, ◌∙◌, List, [], true, false, none, some,
  length, arith, Code, neg, enotsup,
}
use zephyr_esphome.Rpc.Socket.{Socket, got, Delivers, IsClosed}
use zephyr_esphome.Rpc.Header.{encode_header, header, read_header}
use zephyr_esphome.Rpc.Header.Laws.{read_header-encode_header, read_header_closed}
use zephyr_esphome.Rpc.Messages.{Message, write_form}
use zephyr_esphome.Rpc.Messages.Agreement.{
  rpc_id-lt, dispatch-write_form, read_shape-write_form, is_served, dispatch-eq-none,
}
use zephyr_esphome.Rpc.Messages.Form.{packed, bare, rpc_id, shape}
use zephyr_esphome.Rpc.Service.{
  Codec, State, Callback, returned, blocked, message_read, handle_message, read_payload, read_body,
  read_request, serve,
}

module _ (s : Socket) (c : Codec) (callback : Callback s c) where
  open s use {World, recv, alloc, close}
  open c use {Payload, unpack, packed_size, pack}

  -- A message that is selected by its number and decodes is passed to its callback.
  handle_packed :
      (m : Message) (p : Payload) (bytes : List ℕ) (st : State s c)
      → shape (write_form m) ≡ packed
      → unpack m bytes ≡ some p
      → handle_message s c callback (rpc_id (write_form m)) bytes st ≡ callback m (some p) st
  unfolding handle_message message_read
  handle_packed m p bytes st sh u = ground (arith, dispatch-write_form m, read_shape-write_form m)

  handle_bare :
      (m : Message) (bytes : List ℕ) (st : State s c)
      → shape (write_form m) ≡ bare
      → handle_message s c callback (rpc_id (write_form m)) bytes st ≡ callback m none st
  unfolding handle_message message_read
  handle_bare m bytes st sh = ground (arith, dispatch-write_form m, read_shape-write_form m)

  body_lem :
      (id len : ℕ) (bs : List ℕ) (st : State s c) (w w' : World)
      → len ≢ 0
      → length bs ≡ len
      → alloc len st.world ≡ (true, w)
      → recv len w ≡ (got bs, w')
      → read_body s c callback id len st
        ≡ handle_message s c callback id bs (record { world = w'; blocks = st.blocks + 1 })
  unfolding read_body read_payload
  body_lem id len bs st w w' nz l a r = ground (arith)

  pub header_lem :
      (rounds val id len : ℕ) (st : State s c) (w : World)
      → read_header s rounds val st.world ≡ (header id len, w)
      → let r = read_body s c callback id len (record st { world = w }) in
        read_request s c callback rounds val st ≡ (returned r.0, r.1)
  unfolding read_request
  header_lem rounds val id len st w h = ground (arith, h)

  -- A message with a payload that its Write function has put on the wire is handled at the other
  -- end: if the socket delivers the header that was written byte by byte, the heap has memory, the
  -- socket fills the block, and protobuf-c decodes what it has encoded, esphome_read_request
  -- returns what the callback of this very message returns for the payload sent. The payload is not
  -- empty and below 4 GiB.
  pub read_request-message_write :
      (m : Message) (p : Payload) (rounds val : ℕ) (st : State s c) (w₁ w₂ w₃ : World)
      → shape (write_form m) ≡ packed
      → packed_size m p ≡ length (pack m p)
      → packed_size m p ≢ 0
      → packed_size m p < 2 ^ 32
      → unpack m (pack m p) ≡ some p
      → Delivers s (encode_header (rpc_id (write_form m)) (packed_size m p)) st.world w₁
      → alloc (packed_size m p) w₁ ≡ (true, w₂)
      → recv (packed_size m p) w₂ ≡ (got (pack m p), w₃)
      → let r = callback m (some p) (record { world = w₃; blocks = st.blocks + 1 }) in
        read_request s c callback (suc rounds) val st ≡ (returned r.0, r.1)
  read_request-message_write m p rounds val st w₁ w₂ w₃ sh sz nz lt u d a r =
      let id = rpc_id (write_form m) in
      let st₁ : State s c = record st { world = w₁ } in
      let st₃ : State s c = record { world = w₃; blocks = st.blocks + 1 } in
      let h =
        read_header-encode_header s rounds val id (packed_size m p) st.world w₁
          (omega (arith, rpc_id-lt m)) lt d in
      header_lem (suc rounds) val id (packed_size m p) st w₁ h
      ∙ ap (λ (t : Code × State s c). (returned t.0, t.1))
          (body_lem id (packed_size m p) (pack m p) st₁ w₂ w₃ nz (sym sz) a r
            ∙ handle_packed m p (pack m p) st₃ sh u)

  -- So is one whose payload is encoded in no bytes, such as a request with only initial values: nothing is taken
  -- from the heap for it.
  pub read_request-message_write_empty :
      (m : Message) (p : Payload) (rounds val : ℕ) (st : State s c) (w : World)
      → shape (write_form m) ≡ packed
      → unpack m [] ≡ some p
      → Delivers s (encode_header (rpc_id (write_form m)) 0) st.world w
      → let r = callback m (some p) (record st { world = w }) in
        read_request s c callback (suc rounds) val st ≡ (returned r.0, r.1)
  unfolding read_body
  read_request-message_write_empty m p rounds val st w sh u d =
      let id = rpc_id (write_form m) in
      let st₁ : State s c = record st { world = w } in
      let h =
        read_header-encode_header s rounds val id 0 st.world w (omega (arith, rpc_id-lt m))
          (omega arith) d in
      header_lem (suc rounds) val id 0 st w h
      ∙ ap (λ (t : Code × State s c). (returned t.0, t.1)) (handle_packed m p [] st₁ sh u)

  -- A message without a payload is handled too, with nothing taken from the heap.
  pub read_request-message_write_bare :
      (m : Message) (rounds val : ℕ) (st : State s c) (w : World)
      → shape (write_form m) ≡ bare
      → Delivers s (encode_header (rpc_id (write_form m)) 0) st.world w
      → let r = callback m none (record st { world = w }) in
        read_request s c callback (suc rounds) val st ≡ (returned r.0, r.1)
  unfolding read_body
  read_request-message_write_bare m rounds val st w sh d =
      let id = rpc_id (write_form m) in
      let st₁ : State s c = record st { world = w } in
      let h =
        read_header-encode_header s rounds val id 0 st.world w (omega (arith, rpc_id-lt m))
          (omega arith) d in
      header_lem (suc rounds) val id 0 st w h
      ∙ ap (λ (t : Code × State s c). (returned t.0, t.1)) (handle_bare m [] st₁ sh)

  -- A number that no message has is answered by -ENOTSUP, which ends the connection.
  pub serve_unsupported :
      (requests rounds val id : ℕ) (st : State s c) (w : World)
      → is_served id ≡ false
      → read_header s rounds val st.world ≡ (header id 0, w)
      → serve s c callback (suc requests) rounds val st
        ≡ (returned (neg enotsup), record st { world = close w })
  unfolding serve read_request read_body handle_message
  serve_unsupported requests rounds val id st w h e = ground (arith, e, (dispatch-eq-none id).1 h)

  -- Once the peer has closed the connection, the loop that serves it never ends, and the connection
  -- is not closed: for any number of requests and of rounds it still waits for the first byte of a
  -- header, and has changed nothing.
  pub serve_closed :
      (requests rounds val : ℕ) (st : State s c)
      → IsClosed s st.world
      → serve s c callback requests rounds val st ≡ (blocked, st)
  unfolding serve read_request
  serve_closed zero rounds val st h = refl
  serve_closed (suc requests) rounds val st h =
      ground (arith, read_header_closed s rounds val st.world h)
