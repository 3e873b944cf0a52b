-- ===== src/Rpc/Service/Leak.antt =====
-- The blocks of the heap that esphome_read_request takes for payloads.
use zephyr_esphome.Prelude.{
  ℕ, ◌+◌, ◌≡◌, ◌≢◌, refl, ap, ◌∙◌, List, true, Option, none, some, arith, Option-cases, inl, inr,
}
use zephyr_esphome.Rpc.Socket.{Socket, Recv, lost, got}
use zephyr_esphome.Rpc.Header.{header, read_header}
use zephyr_esphome.Rpc.Messages.{Message, read_shape, dispatch}
use zephyr_esphome.Rpc.Messages.Form.{Shape, packed, bare}
use zephyr_esphome.Rpc.Service.{
  Codec, State, Callback, message_read, handle_message, read_payload, read_body, read_request,
}
use zephyr_esphome.Rpc.Service.Read.{header_lem}

-- The callbacks give back what they take.
module _ (s : Socket) (c : Codec) (callback : Callback s c)
    (keeps : (m : Message) (o : Option (c.Payload)) (st : State s c)
      → (callback m o st).1.blocks ≡ st.blocks) where
  open s use {World, recv, alloc}
  open c use {unpack}

  message-blocks :
      (m : Message) (bs : List ℕ) (st : State s c)
      → (message_read s c callback m bs st).1.blocks ≡ st.blocks
  unfolding message_read
  message-blocks m bs st = by_shape (read_shape m) refl (unpack m bs) refl
    where
      by_shape :
          (sh : Shape)
          → read_shape m ≡ sh
          → (o : Option (c.Payload)) → unpack m bs ≡ o
          → (message_read s c callback m bs st).1.blocks ≡ st.blocks
      by_shape packed e none u = rw (e, message_read) (rw (u, message_read) refl)
      by_shape packed e (some p) u =
          rw (e, message_read) (rw (u, message_read) (keeps m (some p) st))
      by_shape bare e o u = rw (e, message_read) (keeps m none st)

  handle-blocks :
      (id : ℕ) (bs : List ℕ) (st : State s c)
      → (handle_message s c callback id bs st).1.blocks ≡ st.blocks
  unfolding handle_message
  handle-blocks id bs st = elim (Option-cases (dispatch id)) [
    | inl e ↦ rw (e, handle_message) refl
    | inr (m, e) ↦ rw (e, handle_message) (message-blocks m bs st)
  ]

  payload-blocks :
      (id len : ℕ) (st : State s c) → (read_payload s c callback id len st).1.blocks ≡ st.blocks
  unfolding read_payload
  payload-blocks id len st = by_recv (recv len st.world).0 (recv len st.world).1 refl
    where
      by_recv :
          (r : Recv) (w : World)
          → recv len st.world ≡ (r, w)
          → (read_payload s c callback id len st).1.blocks ≡ st.blocks
      by_recv (lost n) w e = ground (arith, e)
      by_recv (got bs) w e = ground (arith, e, handle-blocks id bs (record st { world = w }))

  body-blocks :
      (id len : ℕ) (st : State s c) (w : World)
      → len ≢ 0
      → alloc len st.world ≡ (true, w)
      → (read_body s c callback id len st).1.blocks ≡ st.blocks + 1
  unfolding read_body
  body-blocks id len st w nz a =
      ground (arith, payload-blocks id len (record st { world = w; blocks = st.blocks + 1 }))

  -- Every request with a payload loses the block of its payload: if the callbacks give back what they
  -- take, one block more is taken after the request than before it, whether the request was handled
  -- or not, for every length but 0 for which the heap had memory.
  pub read_request_leaks :
      (rounds val id len : ℕ) (st : State s c) (w w' : World)
      → read_header s rounds val st.world ≡ (header id len, w)
      → len ≢ 0
      → alloc len w ≡ (true, w')
      → (read_request s c callback rounds val st).1.blocks ≡ st.blocks + 1
  read_request_leaks rounds val id len st w w' h nz a =
      ap (λ t. t.1.blocks) (header_lem s c callback rounds val id len st w h)
      ∙ body-blocks id len (record st { world = w }) w' nz a
