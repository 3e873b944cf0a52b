-- ===== src/Api/Session.antt =====
-- The session with a client: the password, the end of the connection, and the heap under the
-- program's own handlers.
use zephyr_esphome.Prelude.{
  ℕ, suc, ◌+◌, ◌≡◌, ◌≢◌, ◌↔◌, refl, List, [], ◌∷◌, ◌++◌, Bool, true, not, Option, some, same_bytes,
  not-same_bytes, neg, enotconn,
}
use zephyr_esphome.Entity.{Entity}
use zephyr_esphome.Rpc.Socket.{Socket, Delivers}
use zephyr_esphome.Rpc.Header.{encode_header, header, read_header}
use zephyr_esphome.Rpc.Messages.{Message, write_form, session}
use zephyr_esphome.Rpc.Messages.Session.{SessionMessage}
use zephyr_esphome.Rpc.Service.{Codec, State, returned, read_request, serve}
use zephyr_esphome.Rpc.Service.Write.{message_write-blocks}
use zephyr_esphome.Rpc.Service.Leak.{read_request_leaks}
use zephyr_esphome.Rpc.Service.Arrival.{serve_bare}
use zephyr_esphome.Api.Base.{
  Config, Floats, connect_response, disconnect_response, message_of, Structs, Devices,
}
use zephyr_esphome.Api.{
  write, connect_request_cb, disconnect_request_cb, session_callback, api_callback,
}
use zephyr_esphome.Api.Keeps.{api_callback-keeps}
use zephyr_esphome.Api.Listing.{Records, Wrote, frame, write-Wrote}

module _ (s : Socket) (c : Codec) (f : Floats) (structs : Structs f c)
    (devices : Devices f (s.World)) (config : Config) where
  open devices use {Dev}

  module _ (es : List (Entity Dev)) where
    api_callback-blocks :
        (m : Message) (o : Option (c.Payload)) (st : State s c)
        → (api_callback s c f structs devices config es m o st).1.blocks ≡ st.blocks
    api_callback-blocks =
        api_callback-keeps s c f structs devices config (λ st. st.blocks)
          (unfold write in (λ r st. message_write-blocks s c (message_of r) (structs.payload r) st))
          (λ d v st. refl) (λ d st. refl) es

    -- With the handlers of the program every request with a payload loses the block of its payload,
    -- whether it is handled or not, for every length but 0 for which the heap has memory.
    pub read_request-api_callback_leaks :
        (rounds val id len : ℕ) (st : State s c) (w w' : s.World)
        → read_header s rounds val st.world ≡ (header id len, w)
        → len ≢ 0
        → s.alloc len w ≡ (true, w')
        → (read_request s c (api_callback s c f structs devices config es) rounds val st).1.blocks
          ≡ st.blocks + 1
    read_request-api_callback_leaks =
        read_request_leaks s c (api_callback s c f structs devices config es) api_callback-blocks

  module _ (sent : s.World → List (List ℕ)) (records : Records s c f structs sent) where
    -- ConnectRequestCb answers with invalid_password set just when the password given is not the one of
    -- the configuration, which has one, and returns 0 either way, so that the connection goes on. It is supposed that
    -- the heap always has a block, and that protobuf-c's sizes are exact and below 4 GiB.
    pub connect_request_cb-Wrote :
        (password : List ℕ) (p : c.Payload) (st : State s c)
        → config.password ≡ some password
        → (invalid : Bool) × ((invalid ≡ true) ↔ (password ≢ structs.password p))
          × Wrote s c f structs sent
              (frame s c f structs (connect_response invalid) ∷ [])
              st
              (connect_request_cb s c f structs devices config p st)
    unfolding connect_request_cb
    connect_request_cb-Wrote password p st e = (
      not (same_bytes password (structs.password p)),
      not-same_bytes password (structs.password p),
      rw e (
          write-Wrote s c f structs devices sent records
            (connect_response (not (same_bytes password (structs.password p)))) st),
    )

    -- A DisconnectRequest that arrives is answered by DisconnectResponse, and ends the connection with
    -- -ENOTCONN. It is supposed that the heap always has a block, and that protobuf-c's sizes are exact
    -- and below 4 GiB.
    pub serve_disconnect :
        (es : List (Entity Dev)) (requests rounds val : ℕ) (st : State s c) (w : s.World)
        → Delivers s (encode_header 5 0) st.world w
        → (st' : State s c) × (serve s c
              (api_callback s c f structs devices config es)
              (suc requests)
              (suc rounds)
              val
              st
            ≡ (returned (neg enotconn), record st' { world = s.close st'.world }))
          × (sent st'.world ≡ sent w ++ (frame s c f structs disconnect_response ∷ []))
          × (st'.blocks ≡ st.blocks)
    unfolding write_form api_callback session_callback disconnect_request_cb
    serve_disconnect es requests rounds val st w d =
        let answer =
          write-Wrote s c f structs devices sent records disconnect_response
            (record st { world = w }) in
        (
          (write s c f structs devices disconnect_response (record st { world = w })).1,
          serve_bare s c (api_callback s c f structs devices config es)
              (session SessionMessage.disconnect_request) requests rounds val st
              (write s c f structs devices disconnect_response (record st { world = w })).1 w
              (neg enotconn) refl d refl refl,
          answer.frames,
          answer.blocks,
        )
