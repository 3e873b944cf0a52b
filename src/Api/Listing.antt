-- ===== src/Api/Listing.antt =====
-- What the handlers of api.c put on the wire: the frames of their responses, in order.
use zephyr_esphome.Prelude.{
  ℕ, ◌<◌, ◌^◌, ◌≡◌, refl, sym, ap, ◌∙◌, List, [], ◌∷◌, ◌++◌, map, true, length, Code, success,
}
use mathlib.Core.List.{append_assoc, append-nil}
use zephyr_esphome.Entity.{Entity}
use zephyr_esphome.Rpc.Socket.{Socket}
use zephyr_esphome.Rpc.Header.{encode_header}
use zephyr_esphome.Rpc.Messages.{Message, write_form}
use zephyr_esphome.Rpc.Messages.Form.{Shape, packed, bare, rpc_id, shape}
use zephyr_esphome.Rpc.Service.{Codec, State, message_write}
use zephyr_esphome.Rpc.Service.Write.{message_size, message_write_packed, message_write_bare}
use zephyr_esphome.Api.Base.{
  Floats, Response, list_entities_response, list_entities_done_response, message_of, Structs,
  Devices,
}
use zephyr_esphome.Api.{write, list_entity, list_entities, list_entities_request_cb}

module _ (s : Socket) (c : Codec) (f : Floats) (structs : Structs f c) where
  open s use {World, send, alloc, release}
  open c use {packed_size, pack}

  -- The frame of a response: the header, and the payload if the message has one.
  abbrev pub frame_as : Shape → Message → c.Payload → List ℕ
  frame_as packed m p = encode_header (rpc_id (write_form m)) (packed_size m p) ++ pack m p
  frame_as bare m p = encode_header (rpc_id (write_form m)) 0

  unfoldable pub frame : Response f → List ℕ
  frame r = frame_as (shape (write_form (message_of r))) (message_of r) (structs.payload r)

  -- The heap always has a block, protobuf-c's sizes are exact and below 4 GiB, and `sent` are the
  -- frames that zsock_send was called with.
  pub record Records (sent : World → List (List ℕ)) : Type 0 where
    pub has_block : (n : ℕ) (w : World) → (alloc n w).0 ≡ true
    pub alloc_sent : (n : ℕ) (w : World) → sent (alloc n w).1 ≡ sent w
    pub release_sent : (w : World) → sent (release w) ≡ sent w
    pub send_sent : (bs : List ℕ) (w : World) → sent (send bs w) ≡ sent w ++ (bs ∷ [])
    pub exact :
        (r : Response f)
        → packed_size (message_of r) (structs.payload r)
          ≡ length (pack (message_of r) (structs.payload r))
    pub small : (r : Response f) → packed_size (message_of r) (structs.payload r) < 2 ^ 32

  -- What a Write function did: it returned 0, sent one frame, and gave back its block.
  pub record Wrote (sent : World → List (List ℕ)) (bs : List (List ℕ)) (st : State s c)
      (e : Code × State s c) : Type 0 where
    pub returned_success : e.0 ≡ success
    pub frames : sent e.1.world ≡ sent st.world ++ bs
    pub blocks : e.1.blocks ≡ st.blocks

  module _ (devices : Devices f World) (sent : World → List (List ℕ)) (records : Records sent) where
    open records use {has_block, alloc_sent, release_sent, send_sent, exact, small}

    write_as-Wrote :
        (r : Response f) (st : State s c) (sh : Shape)
        → shape (write_form (message_of r)) ≡ sh
        → Wrote sent
            (frame_as sh (message_of r) (structs.payload r) ∷ [])
            st
            (message_write s c (message_of r) (structs.payload r) st)
    write_as-Wrote r st packed e =
        let m = message_of r in
        let p = structs.payload r in
        let n = message_size s c m p in
        let got_block : alloc n st.world ≡ (true, (alloc n st.world).1) =
          ap (λ b. (b, (alloc n st.world).1)) (has_block n st.world) in
        let done =
          (message_write_packed s c m p st (alloc n st.world).1 e (exact r) (small r)
            got_block).1 in
        rw done (record {
          returned_success = refl;
          frames =
              release_sent _
              ∙ send_sent _ _
              ∙ ap (λ t. t ++ (frame_as packed m p ∷ [])) (alloc_sent n st.world);
          blocks = refl;
        })
    write_as-Wrote r st bare e =
        let done = (message_write_bare s c (message_of r) (structs.payload r) st e).1 in
        rw done (record { returned_success = refl; frames = send_sent _ _; blocks = refl })

    -- Every response is sent as its frame.
    pub write-Wrote :
        (r : Response f) (st : State s c)
        → Wrote sent (frame r ∷ []) st (write s c f structs devices r st)
    unfolding write frame
    write-Wrote r st = write_as-Wrote r st (shape (write_form (message_of r))) refl

    abbrev pub entity_frame : Entity (devices.Dev) → List ℕ
    entity_frame e = frame (list_entities_response e.list_entity e.config e.key)

    entities-Wrote :
        (es : List (Entity (devices.Dev))) (st : State s c)
        → Wrote sent (map entity_frame es) st (success, list_entities s c f structs devices es st)
    unfolding list_entities list_entity
    entities-Wrote [] st = record {
      returned_success = refl;
      frames = sym (append-nil (sent st.world));
      blocks = refl;
    }
    entities-Wrote (e ∷ es) st =
        let one = write-Wrote (list_entities_response e.list_entity e.config e.key) st in
        let rest =
          entities-Wrote es
            (write s c f structs devices (list_entities_response e.list_entity e.config e.key)
              st).1 in
        record {
          returned_success = refl;
          frames =
              rest.frames ∙ ap (λ t. t ++ map entity_frame es) one.frames ∙ rw append_assoc refl;
          blocks = rest.blocks ∙ one.blocks;
        }

    -- ListEntitiesRequestCb sends one frame for each entity, in the order of the entities, with its
    -- configuration and its key, and then the frame of ListEntitiesDoneResponse, and returns 0. It is
    -- supposed that the heap always has a block, and that protobuf-c's sizes are exact and below 4 GiB.
    pub list_entities_request_cb-Wrote :
        (es : List (Entity (devices.Dev))) (st : State s c)
        → Wrote sent
            (map entity_frame es ++ (frame list_entities_done_response ∷ []))
            st
            (list_entities_request_cb s c f structs devices es st)
    unfolding list_entities_request_cb
    list_entities_request_cb-Wrote es st =
        let all = entities-Wrote es st in
        let done =
          write-Wrote list_entities_done_response (list_entities s c f structs devices es st) in
        record {
          returned_success = done.returned_success;
          frames =
              done.frames
              ∙ ap (λ t. t ++ (frame list_entities_done_response ∷ [])) all.frames
              ∙ rw append_assoc refl;
          blocks = done.blocks ∙ all.blocks;
        }
