-- ===== src/Tests/Contract.antt =====
-- A whole connection to the device, at a concrete input.
use zephyr_esphome.Prelude.{
  ℕ, ◌≡◌, refl, ap, List, [], ◌∷◌, ◌++◌, Option, none, some, true, false, drop, length, arith, Code,
  neg, enotconn, success,
}
use zephyr_esphome.Entity.{promoted, hash_round, fnv1_hash, entity_init, find_device_entity_by_key}
use zephyr_esphome.Rpc.Socket.{got}
use zephyr_esphome.Rpc.Varint.{varint_encode}
use zephyr_esphome.Rpc.Header.{encode_header}
use zephyr_esphome.Rpc.Messages.{Message, session, light, write_form}
use zephyr_esphome.Rpc.Messages.Session.{SessionMessage}
use zephyr_esphome.Rpc.Messages.Light.{LightMessage}
use zephyr_esphome.Rpc.Service.{State, returned, serve}
use zephyr_esphome.Rpc.Service.Contract.{Request, stream_of, Follows, Serves, serve-session}
use zephyr_esphome.Rpc.Service.Contract
use zephyr_esphome.Switch.{on}
use zephyr_esphome.Api.Base.{connect_response, switch_state_response, disconnect_response}
use zephyr_esphome.Api.{api_callback}
use zephyr_esphome.Api.Listing.{frame}
use zephyr_esphome.Api.Device.{Desk, respond}
use zephyr_esphome.Api.Shows.{Shows}
use zephyr_esphome.Api.Contract.{Reads, serve-respond}
use zephyr_esphome.Tests.Wire.{wire, plain, take-append, drop-append}
use zephyr_esphome.Tests.Wire
use zephyr_esphome.Tests.Entity.{leds}
use zephyr_esphome.Tests.Board.{
  board, floats, structs, devices, config, state, secret, board-Records,
}

abbrev lamp : Desk ℕ Code
lamp = record { set_state = λ dev v d. v; get_state = λ dev d. d; press = λ dev d. (success, d) }

board-Shows :
    Shows board plain floats devices Code lamp (λ w. w.lamp) (λ w. w.frames) (λ w. w.incoming)
board-Shows = record {
  sends = λ bs w. (refl, refl);
  allocs = λ n w. (refl, refl);
  releases = λ w. (refl, refl);
  sets = λ dev v w. (refl, refl, refl);
  gets = λ dev w. refl;
  presses = λ dev w. (refl, refl, refl, refl);
}

board-Reads : Reads board Code (λ w. w.lamp) (λ w. w.frames) (λ w. w.incoming)
board-Reads = record {
  received = λ bs rest w e. rw e (
      (
        ap (λ (x : List ℕ). (got x, record w { incoming = drop (length bs) (bs ++ rest) }))
            (take-append bs rest),
        drop-append bs rest,
        refl,
        refl,
      ));
}

-- A client that gives no password, gives the password, switches "led2" on and disconnects, and a byte too many.
abbrev requests : List (Request plain)
requests =
    (session SessionMessage.connect_request, some [])
    ∷ (session SessionMessage.connect_request, some secret)
    ∷ (light LightMessage.switch_command_request, some (86 ∷ 191 ∷ 176 ∷ 78 ∷ 1 ∷ []))
    ∷ (session SessionMessage.disconnect_request, none)
    ∷ []

abbrev visit : List ℕ
visit = 0 ∷ 0 ∷ 3 ∷ 0 ∷ 2 ∷ 3 ∷ 1 ∷ 2 ∷ 0 ∷ 5 ∷ 33 ∷ 86 ∷ 191 ∷ 176 ∷ 78 ∷ 1 ∷ 0 ∷ 0 ∷ 5 ∷ 9 ∷ []

serve-respond_example :
    (st' : State board plain) × (serve board plain
        (api_callback board plain floats structs devices config (entity_init true 9 leds))
        4
        1
        7
        (state visit)
      ≡ (returned (neg enotconn), record st' { world = board.close st'.world }))
    × (◌≡◌ {A = List (List ℕ) × Code}
        (st'.world.frames, st'.world.lamp)
        (
          frame board plain floats structs (connect_response true)
              ∷ frame board plain floats structs (connect_response false)
              ∷ frame board plain floats structs (switch_state_response 1320206166 on)
              ∷ frame board plain floats structs disconnect_response
              ∷ [],
          on,
        ))
    × (st'.world.incoming ≡ 9 ∷ [])
unfolding Follows Contract.session respond find_device_entity_by_key entity_init fnv1_hash
    hash_round promoted write_form encode_header varint_encode
serve-respond_example =
    serve-respond board plain floats structs devices (λ w. w.frames) board-Records Code lamp
      (λ w. w.lamp) (λ w. w.incoming) board-Shows board-Reads config (entity_init true 9 leds)
      requests 0 0 7 (9 ∷ []) (state visit)
      (
        (refl, refl, omega arith, refl),
        ((refl, refl, omega arith, refl), ((refl, refl, omega arith, refl), (refl, tt))),
      )
      refl

-- Handlers that send a payload back, and end the connection without one.
abbrev echo : Message → Option (List ℕ) → List ℕ → Code × List ℕ
echo m none sent = (neg enotconn, sent)
echo m (some p) sent = (success, sent ++ p)

abbrev echoing : Message → Option (List ℕ) → State wire plain → Code × State wire plain
echoing m none st = (neg enotconn, st)
echoing m (some p) st = (success, record st { world = wire.send p st.world })

echoing_lem :
    (m : Message) (o : Option (List ℕ)) (st : State wire plain)
    → let r = echoing m o st in
      (r.0 ≡ (echo m o st.world.sent).0)
      × (r.1.world.sent ≡ (echo m o st.world.sent).1)
      × (r.1.world.incoming ≡ st.world.incoming)
echoing_lem m none st = (refl, refl, refl)
echoing_lem m (some p) st = (refl, refl, refl)

echoing-Serves : Serves wire plain echoing (List ℕ) (λ w. w.sent) (λ w. w.incoming) echo
echoing-Serves = record {
  received = λ bs rest w e. rw e (
      (
        ap (λ (x : List ℕ). (got x, record w { incoming = drop (length bs) (bs ++ rest) }))
            (take-append bs rest),
        drop-append bs rest,
        refl,
      ));
  allocated = λ n w. (refl, refl, refl);
  handled = echoing_lem;
}

serve-session_example :
    (st' : State wire plain) × (serve wire plain echoing 4 1 7 (Wire.state visit)
      ≡ (returned (neg enotconn), record st' { world = wire.close st'.world }))
    × (st'.world.sent ≡ 1 ∷ 2 ∷ 86 ∷ 191 ∷ 176 ∷ 78 ∷ 1 ∷ [])
    × (st'.world.incoming ≡ 9 ∷ [])
unfolding Follows Contract.session write_form encode_header varint_encode
serve-session_example =
    serve-session wire plain echoing (List ℕ) (λ w. w.sent) (λ w. w.incoming) echo echoing-Serves
      requests 0 0 7 (9 ∷ []) (Wire.state visit)
      (
        (refl, refl, omega arith, refl),
        ((refl, refl, omega arith, refl), ((refl, refl, omega arith, refl), (refl, tt))),
      )
      refl
