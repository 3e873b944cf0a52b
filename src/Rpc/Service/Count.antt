-- ===== src/Rpc/Service/Count.antt =====
-- What reading a request and writing a message leave as it is: every number that only zsock_accept
-- and zsock_close change, if the callbacks leave it too.
use zephyr_esphome.Prelude.{
  ℕ, zero, suc, ◌+◌, ◌%◌, ◌^◌, ◌≡◌, refl, ◌∙◌, List, [], ◌∷◌, Bool-cases, Option, none, some,
  Option-cases, inl, inr, ◌==◌, arith,
}
use zephyr_esphome.Rpc.Socket.{Socket, Recv, lost, got, Keeps}
use zephyr_esphome.Rpc.Varint.{Decoded, value, failed, unfinished, is_eof, read_decode_varint}
use zephyr_esphome.Rpc.Varint.Count.{read_decode_varint-count}
use zephyr_esphome.Rpc.Header.{
  Header, header_size, header, bad, waiting, read_start, read_rpc_id, read_len, read_header,
}
use zephyr_esphome.Rpc.Messages.{Message, read_shape, write_form, dispatch}
use zephyr_esphome.Rpc.Messages.Form.{Shape, packed, bare, WriteForm, form}
use zephyr_esphome.Rpc.Service.{
  Codec, State, Callback, rpc_send, write_packed, write_bare, write_as, message_write, message_read,
  handle_message, read_payload, read_body, read_request,
}

module _ (s : Socket) (count : s.World → ℕ) (keeps : Keeps s count) where
  read_start-count : (rounds : ℕ) (w : s.World) → count (read_start s rounds w).1 ≡ count w
  unfolding read_start
  read_start-count zero w = refl
  read_start-count (suc rounds) w = elim (Bool-cases (is_eof (s.recv 1 w).0)) [
    | inl eof ↦ rw (read_start, eof) (read_start-count rounds _ ∙ keeps.received 1 w)
    | inr some_byte ↦ rw (read_start, some_byte) (keeps.received 1 w)
  ]

  read_rpc_id-count : (val len : ℕ) (w : s.World) → count (read_rpc_id s val len w).1 ≡ count w
  unfolding read_rpc_id
  read_rpc_id-count val len w = by_result (read_decode_varint s val w).0 refl
    where
      by_result :
          (d : Decoded)
          → (read_decode_varint s val w).0 ≡ d
          → count (read_rpc_id s val len w).1 ≡ count w
      by_result (value v) e = rw (read_rpc_id, e) (read_decode_varint-count s count keeps val w)
      by_result (failed ret) e = rw (read_rpc_id, e) (read_decode_varint-count s count keeps val w)
      by_result unfinished e = rw (read_rpc_id, e) (read_decode_varint-count s count keeps val w)

  read_len-count : (val : ℕ) (w : s.World) → count (read_len s val w).1 ≡ count w
  unfolding read_len
  read_len-count val w = by_result (read_decode_varint s val w).0 refl
    where
      by_result :
          (d : Decoded) → (read_decode_varint s val w).0 ≡ d → count (read_len s val w).1 ≡ count w
      by_result (value v) e =
          rw (read_len, e)
            (read_rpc_id-count val (v % 2 ^ 32) _ ∙ read_decode_varint-count s count keeps val w)
      by_result (failed ret) e = rw (read_len, e) (read_decode_varint-count s count keeps val w)
      by_result unfinished e = rw (read_len, e) (read_decode_varint-count s count keeps val w)

  read_header-count :
      (rounds val : ℕ) (w : s.World) → count (read_header s rounds val w).1 ≡ count w
  unfolding read_header
  read_header-count rounds val w = by_byte (read_start s rounds w).0 refl
    where
      by_byte :
          (r : Recv)
          → (read_start s rounds w).0 ≡ r
          → count (read_header s rounds val w).1 ≡ count w
      by_byte (lost n) e = rw (read_header, e) (read_start-count rounds w)
      by_byte (got []) e = rw (read_header, e) (read_start-count rounds w)
      by_byte (got (b ∷ bs)) e = elim (Bool-cases (b % 256 == 0x00)) [
        | inl start ↦
            rw (read_header, e) (rw start (read_len-count val _ ∙ read_start-count rounds w))
        | inr other ↦ rw (read_header, e) (rw other (read_start-count rounds w))
      ]

  module _ (c : Codec) where
    write_as-count :
        (f : WriteForm) (m : Message) (p : c.Payload) (st : State s c)
        → count (write_as s c f m p st).1.world ≡ count st.world
    unfolding write_packed write_bare rpc_send
    write_as-count (form id packed) m p st =
        let size = c.packed_size m p + header_size id (c.packed_size m p) in
        elim (Bool-cases (s.alloc size st.world).0) [
          | inl has_out ↦
              rw has_out (keeps.released _ ∙ keeps.sent _ _ ∙ keeps.allocated size st.world)
          | inr no_out ↦ rw no_out (keeps.allocated size st.world)
        ]
    write_as-count (form id bare) m p st = keeps.sent _ _

    pub message_write-count :
        (m : Message) (p : c.Payload) (st : State s c)
        → count (message_write s c m p st).1.world ≡ count st.world
    unfolding message_write
    message_write-count m p st = write_as-count (write_form m) m p st

    module _ (callback : Callback s c)
        (handled : (m : Message) (o : Option (c.Payload)) (st : State s c)
          → count (callback m o st).1.world ≡ count st.world) where
      message-count :
          (m : Message) (bs : List ℕ) (st : State s c)
          → count (message_read s c callback m bs st).1.world ≡ count st.world
      unfolding message_read
      message-count m bs st = by_shape (read_shape m) refl (c.unpack m bs) refl
        where
          by_shape :
              (sh : Shape)
              → read_shape m ≡ sh
              → (o : Option (c.Payload)) → c.unpack m bs ≡ o
              → count (message_read s c callback m bs st).1.world ≡ count st.world
          by_shape packed e none u = rw (e, message_read) (rw (u, message_read) refl)
          by_shape packed e (some p) u =
              rw (e, message_read) (rw (u, message_read) (handled m (some p) st))
          by_shape bare e o u = rw (e, message_read) (handled m none st)

      handle-count :
          (id : ℕ) (bs : List ℕ) (st : State s c)
          → count (handle_message s c callback id bs st).1.world ≡ count st.world
      unfolding handle_message
      handle-count id bs st = elim (Option-cases (dispatch id)) [
        | inl e ↦ rw (e, handle_message) refl
        | inr (m, e) ↦ rw (e, handle_message) (message-count m bs st)
      ]

      payload-count :
          (id len : ℕ) (st : State s c)
          → count (read_payload s c callback id len st).1.world ≡ count st.world
      unfolding read_payload
      payload-count id len st = by_recv (s.recv len st.world).0 (s.recv len st.world).1 refl
        where
          by_recv :
              (r : Recv) (w : s.World)
              → s.recv len st.world ≡ (r, w)
              → count (read_payload s c callback id len st).1.world ≡ count st.world
          by_recv (lost n) w e = ground (arith, e, keeps.received len st.world)
          by_recv (got bs) w e =
              ground (
                arith,
                e,
                handle-count id bs (record st { world = w }),
                keeps.received len st.world,
              )

      body-count :
          (id len : ℕ) (st : State s c)
          → count (read_body s c callback id len st).1.world ≡ count st.world
      unfolding read_body
      body-count id len st =
          let w = (s.alloc len st.world).1 in
          ground (
            arith,
            keeps.allocated len st.world,
            handle-count id [] st,
            payload-count id len (record st { world = w; blocks = st.blocks + 1 }),
          )

      pub read_request-count :
          (rounds val : ℕ) (st : State s c)
          → count (read_request s c callback rounds val st).1.world ≡ count st.world
      unfolding read_request
      read_request-count rounds val st = by_header (read_header s rounds val st.world).0 refl
        where
          by_header :
              (h : Header)
              → (read_header s rounds val st.world).0 ≡ h
              → count (read_request s c callback rounds val st).1.world ≡ count st.world
          by_header (header id len) e =
              rw (read_request, e) (body-count id len _ ∙ read_header-count rounds val st.world)
          by_header (bad ret) e = rw (read_request, e) (read_header-count rounds val st.world)
          by_header waiting e = rw (read_request, e) (read_header-count rounds val st.world)
