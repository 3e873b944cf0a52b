-- ===== src/Rpc/Service/Write.antt =====
-- The Write functions of esphome_rpc.c: what they send, and the blocks that they take.
use zephyr_esphome.Prelude.{
  ℕ, zero, suc, ◌+◌, ◌<◌, ◌^◌, ◌≡◌, refl, sym, ap, List, [], ◌∷◌, ◌++◌, true, take, length,
  length-append, arith, success,
}
use zephyr_esphome.Rpc.Socket.{Socket}
use zephyr_esphome.Rpc.Header.{header_size, encode_header}
use zephyr_esphome.Rpc.Header.Laws.{length-encode_header, header_size_bare}
use zephyr_esphome.Rpc.Messages.{Message, write_form}
use zephyr_esphome.Rpc.Messages.Agreement.{rpc_id-lt}
use zephyr_esphome.Rpc.Messages.Form.{packed, bare, WriteForm, form, rpc_id, shape}
use zephyr_esphome.Rpc.Service.{
  Codec, State, rpc_send, write_packed, write_bare, write_as, message_write,
}

pub take-length {ℓ} : {A : Type ℓ} (xs : List A) (n : ℕ) → n ≡ length xs → take n xs ≡ xs
take-length [] zero e = refl
take-length [] (suc n) e = refl
take-length (x ∷ xs) zero e = absurd (omega arith)
take-length (x ∷ xs) (suc n) e = ap (λ ys. x ∷ ys) (take-length xs n (omega arith))

module _ (s : Socket) (c : Codec) where
  open s use {World, recv, send, alloc, release}
  open c use {Payload, unpack, packed_size, pack}

  -- The bytes of a message, and the size that its Write function computes for them.
  abbrev pub message_bytes : Message → Payload → List ℕ
  message_bytes m p = encode_header (rpc_id (write_form m)) (packed_size m p) ++ pack m p

  abbrev pub message_size : Message → Payload → ℕ
  message_size m p = packed_size m p + header_size (rpc_id (write_form m)) (packed_size m p)

  write_as-blocks :
      (f : WriteForm) (m : Message) (p : Payload) (st : State s c)
      → (write_as s c f m p st).1.blocks ≡ st.blocks
  unfolding write_packed write_bare rpc_send
  write_as-blocks (form id packed) m p st = ground arith
  write_as-blocks (form id bare) m p st = refl

  write_as_packed :
      (f : WriteForm) (m : Message) (p : Payload) (st : State s c) (w : World)
      → shape f ≡ packed
      → let size = packed_size m p + header_size (rpc_id f) (packed_size m p) in
        let bytes = encode_header (rpc_id f) (packed_size m p) ++ pack m p in
        length bytes ≡ size
        → alloc size st.world ≡ (true, w)
        → write_as s c f m p st ≡ (success, record st { world = release (send bytes w) })
  unfolding write_packed rpc_send
  write_as_packed (form id packed) m p st w sh fits a = ground (
    arith,
    take-length (encode_header id (packed_size m p) ++ pack m p)
        (packed_size m p + header_size id (packed_size m p)) (sym fits),
  )
  write_as_packed (form id bare) m p st w sh fits a = cc sh

  -- A Write function gives back every block that it takes.
  pub message_write-blocks :
      (m : Message) (p : Payload) (st : State s c) → (message_write s c m p st).1.blocks ≡ st.blocks
  unfolding message_write
  message_write-blocks m p st = write_as-blocks (write_form m) m p st

  -- With NAME__get_packed_size exact and below 4 GiB, what a Write function of a message with a payload
  -- allocates is as long as the header and the payload, and if the allocation succeeds it sends these
  -- two, whole and nothing more, and gives the block back.
  pub message_write_packed :
      (m : Message) (p : Payload) (st : State s c) (w : World)
      → shape (write_form m) ≡ packed
      → packed_size m p ≡ length (pack m p)
      → packed_size m p < 2 ^ 32
      → alloc (message_size m p) st.world ≡ (true, w)
      → (length (message_bytes m p) ≡ message_size m p)
        × (message_write s c m p st
            ≡ (success, record st { world = release (send (message_bytes m p) w) }))
  unfolding message_write
  message_write_packed m p st w sh e h a =
      let fits : length (message_bytes m p) ≡ message_size m p = omega (
        arith,
        length-append (encode_header (rpc_id (write_form m)) (packed_size m p)) (pack m p),
        length-encode_header (rpc_id (write_form m)) (packed_size m p) (omega (arith, rpc_id-lt m))
            h,
      ) in
      (fits, write_as_packed (write_form m) m p st w sh fits a)

  write_as_bare :
      (f : WriteForm) (m : Message) (p : Payload) (st : State s c)
      → shape f ≡ bare
      → rpc_id f < 128
      → (header_size (rpc_id f) 0 ≡ 3)
        × (write_as s c f m p st
            ≡ (success, record st { world = send (encode_header (rpc_id f) 0) st.world }))
  unfolding write_bare rpc_send
  write_as_bare (form id packed) m p st sh h = cc sh
  write_as_bare (form id bare) m p st sh h =
      let fits = (length-encode_header id 0 (omega arith) (omega arith)).0 in
      (header_size_bare id h, ground (arith, take-length (encode_header id 0) _ (sym fits)))

  -- A Write function of a message without a payload sends its header, which takes three of the eight
  -- bytes of `out`.
  pub message_write_bare :
      (m : Message) (p : Payload) (st : State s c)
      → shape (write_form m) ≡ bare
      → (header_size (rpc_id (write_form m)) 0 ≡ 3)
        × (message_write s c m p st ≡ (
          success,
          record st { world = send (encode_header (rpc_id (write_form m)) 0) st.world },
        ))
  unfolding message_write
  message_write_bare m p st sh = write_as_bare (write_form m) m p st sh (omega (arith, rpc_id-lt m))
