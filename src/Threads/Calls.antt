-- ===== src/Threads/Calls.antt =====
-- What one call of a thread that writes messages sends, and the blocks that it takes.
use zephyr_esphome.Prelude.{
  ℕ, ◌+◌, ◌≡◌, refl, sym, ap, ◌⊎◌, inl, inr, List, [], ◌∷◌, ◌++◌, map, take, length-append, arith,
}
use zephyr_esphome.Rpc.Socket.{Socket}
use zephyr_esphome.Rpc.Header.{header_size, encode_header}
use zephyr_esphome.Rpc.Header.Laws.{length-encode_header}
use zephyr_esphome.Rpc.Messages.{write_form}
use zephyr_esphome.Rpc.Messages.Agreement.{rpc_id-lt}
use zephyr_esphome.Rpc.Messages.Form.{Shape, packed, bare, rpc_id, shape}
use zephyr_esphome.Rpc.Service.{Codec, State, rpc_send}
use zephyr_esphome.Rpc.Service.Write.{message_size, message_bytes, take-length}
use zephyr_esphome.Api.Base.{Floats, Response, message_of, Structs}
use zephyr_esphome.Api.Listing.{Records, frame, frame_as}
use zephyr_esphome.Threads.Frames.{Phase, outside, filled, sent_block, Thread, begin, advance}

-- The blocks that a thread has.
abbrev pub in_hand : Phase → ℕ
in_hand outside = 0
in_hand (filled out) = 1
in_hand sent_block = 1

abbrev pub pending : Phase → List (List ℕ)
pending outside = []
pending (filled out) = out ∷ []
pending sent_block = []

module _ (s : Socket) (c : Codec) (f : Floats) (structs : Structs f c) where
  -- The frames that a thread has still to send.
  abbrev pub owed : Thread s c f structs → List (List ℕ)
  owed t = pending t.phase ++ map (frame s c f structs) t.left

module _ (s : Socket) (c : Codec) (f : Floats) (structs : Structs f c)
    (sent : s.World → List (List ℕ)) (records : Records s c f structs sent) where
  open s use {World, send, alloc, release}
  open records use {has_block, alloc_sent, release_sent, send_sent, exact, small}

  packed-frame :
      (r : Response f)
      → take
          (message_size s c (message_of r) (structs.payload r))
          (message_bytes s c (message_of r) (structs.payload r))
        ≡ frame_as s c f structs packed (message_of r) (structs.payload r)
  packed-frame r =
      let m = message_of r in
      let p = structs.payload r in
      take-length (message_bytes s c m p) (message_size s c m p) (
        omega (
          arith,
          exact r,
          length-append (encode_header (rpc_id (write_form m)) (c.packed_size m p)) (c.pack m p),
          length-encode_header (rpc_id (write_form m)) (c.packed_size m p)
              (omega (arith, rpc_id-lt m)) (small r),
        ))

  bare-frame :
      (r : Response f)
      → let id = rpc_id (write_form (message_of r)) in
        take (header_size id 0) (encode_header id 0)
        ≡ frame_as s c f structs bare (message_of r) (structs.payload r)
  bare-frame r =
      let id = rpc_id (write_form (message_of r)) in
      take-length (encode_header id 0) (header_size id 0)
        (sym (length-encode_header id 0 (omega (arith, rpc_id-lt (message_of r))) (omega arith)).0)

  -- What a call of a thread sends: nothing, or the next frame that it owes.
  abbrev pub Sends : (t t' : Thread s c f structs) → (st st' : State s c) → Type 0
  Sends t t' st st' =
      ((sent st'.world ≡ sent st.world) × (owed s c f structs t ≡ owed s c f structs t'))
      ⊎ ((x : List ℕ) × (sent st'.world ≡ sent st.world ++ (x ∷ []))
          × (owed s c f structs t ≡ x ∷ owed s c f structs t'))

  begin-Sends :
      (sh : Shape) (r : Response f) (rs : List (Response f)) (st : State s c)
      → shape (write_form (message_of r)) ≡ sh
      → let (ph, st') = begin s c f structs sh r st in
        Sends (record { left = r ∷ rs; phase = outside }) (record { left = rs; phase = ph }) st st'
  unfolding begin frame rpc_send
  begin-Sends packed r rs st e =
      let n = message_size s c (message_of r) (structs.payload r) in
      rw (has_block n st.world, e)
        (inl (
          alloc_sent n st.world,
          ap (λ x. x ∷ map (frame s c f structs) rs) (sym (packed-frame r)),
        ))
  begin-Sends bare r rs st e = rw e (
      inr
        (_, send_sent _ st.world, ap (λ x. x ∷ map (frame s c f structs) rs) (sym (bare-frame r))))

  pub at_phase-Sends :
      (rs : List (Response f)) (ph : Phase) (st : State s c)
      → let t : Thread s c f structs = record { left = rs; phase = ph } in
        let (t', st') = advance s c f structs t st in Sends t t' st st'
  unfolding advance rpc_send
  at_phase-Sends [] outside st = inl (refl, refl)
  at_phase-Sends (r ∷ rs) outside st = begin-Sends (shape (write_form (message_of r))) r rs st refl
  at_phase-Sends rs (filled out) st = inr (out, send_sent out st.world, refl)
  at_phase-Sends rs sent_block st = inl (release_sent st.world, refl)

  begin-blocks :
      (sh : Shape) (r : Response f) (st : State s c)
      → let (ph, st') = begin s c f structs sh r st in st'.blocks ≡ st.blocks + in_hand ph
  unfolding begin rpc_send
  begin-blocks packed r st =
      rw (has_block (message_size s c (message_of r) (structs.payload r)) st.world) refl
  begin-blocks bare r st = omega arith

  pub at_phase-blocks :
      (rs : List (Response f)) (ph : Phase) (st : State s c) (k : ℕ)
      → st.blocks ≡ k + in_hand ph
      → let (t', st') = advance s c f structs (record { left = rs; phase = ph }) st in
        st'.blocks ≡ k + in_hand t'.phase
  unfolding advance rpc_send
  at_phase-blocks [] outside st k e = e
  at_phase-blocks (r ∷ rs) outside st k e =
      omega (arith, e, begin-blocks (shape (write_form (message_of r))) r st)
  at_phase-blocks rs (filled out) st k e = e
  at_phase-blocks rs sent_block st k e = omega (arith, e)
