-- ===== src/Api/Answers.antt =====
-- The handlers of api.c against the contract of the device: their responses on the wire, and the state
-- of the switches and buttons.
use zephyr_esphome.Prelude.{
  ℕ, ◌≡◌, refl, sym, ap, ◌∙◌, List, [], ◌∷◌, ◌++◌, map, Option, none, some, arith, Code, success,
  Option-cases, inl, inr,
}
use mathlib.Core.List.{append_assoc, append-nil, map-append}
use zephyr_esphome.Entity.{Entity, find_device_entity_by_key}
use zephyr_esphome.Rpc.Socket.{Socket}
use zephyr_esphome.Rpc.Messages.{Message, session, cover, light, home, lock, write_form}
use zephyr_esphome.Rpc.Messages.Session.{SessionMessage}
use zephyr_esphome.Rpc.Messages.Light.{LightMessage}
use zephyr_esphome.Rpc.Messages.Home.{HomeMessage}
use zephyr_esphome.Rpc.Messages.Lock.{LockMessage}
use zephyr_esphome.Rpc.Service.{Codec, State, message_write, weak_callback}
use zephyr_esphome.Switch.{switch_get_state}
use zephyr_esphome.Api.Base.{
  Config, Floats, Response, list_entities_done_response, switch_state_response, disconnect_response,
  message_of, Structs, Devices,
}
use zephyr_esphome.Api.{
  write, uses_password, invalid_password, hello_request_cb, connect_request_cb,
  device_info_request_cb, list_entity, list_entities, list_entities_request_cb,
  switch_command_request_cb, button_command_request_cb, disconnect_request_cb, session_callback,
  light_callback, home_callback, lock_callback, api_callback,
}
use zephyr_esphome.Api.Listing.{Records, frame, write-Wrote}
use zephyr_esphome.Api.Device.{
  Desk, asks_password, is_wrong, listing, switched, pressed, in_session, of_light, of_home, of_lock,
  respond,
}
use zephyr_esphome.Api.Shows.{Shows, write_as-same}

module _ (s : Socket) (c : Codec) (f : Floats) (structs : Structs f c)
    (devices : Devices f (s.World)) (sent : s.World → List (List ℕ))
    (records : Records s c f structs sent) (D : Type 0) (desk : Desk (devices.Dev) D)
    (state : s.World → D) (stream : s.World → List ℕ)
    (shows : Shows s c f devices D desk state sent stream) where
  open devices use {Dev}
  open shows use {sends, allocs, releases, sets, gets, presses}

  -- A handler has given the answer: its result, the frames of its responses, and the state.
  unfoldable pub Did : Code × List (Response f) × D → State s c → Code × State s c → Type 0
  Did (ret, rs, d) st e =
      (e.0 ≡ ret)
      × (sent e.1.world ≡ sent st.world ++ map (frame s c f structs) rs)
      × (state e.1.world ≡ d)
      × (stream e.1.world ≡ stream st.world)

  nothing-Did : (ret : Code) (st : State s c) → Did (ret, [], state st.world) st (ret, st)
  unfolding Did
  nothing-Did ret st = (refl, sym (append-nil (sent st.world)), refl, refl)

  write-Did :
      (r : Response f) (st : State s c)
      → Did (success, r ∷ [], state st.world) st (write s c f structs devices r st)
  unfolding Did write message_write
  write-Did r st =
      let wrote = write-Wrote s c f structs devices sent records r st in
      (
        wrote.returned_success,
        wrote.frames,
        write_as-same s c state (λ bs w. (sends bs w).0) (λ n w. (allocs n w).0)
            (λ w. (releases w).0) (write_form (message_of r)) (message_of r) (structs.payload r) st,
        write_as-same s c stream (λ bs w. (sends bs w).1) (λ n w. (allocs n w).1)
            (λ w. (releases w).1) (write_form (message_of r)) (message_of r) (structs.payload r) st,
      )

  -- The result is another one.
  with_result :
      (ret ret' : Code) (rs : List (Response f)) (d : D) (st : State s c) (e : Code × State s c)
      → Did (ret, rs, d) st e
      → Did (ret', rs, d) st (ret', e.1)
  unfolding Did
  with_result ret ret' rs d st e (_, frames, at_d, left) = (refl, frames, at_d, left)

  -- An answer that goes on.
  then-Did :
      (ret ret' : Code) (rs rs' : List (Response f)) (d d' : D) (st : State s c)
      (e e' : Code × State s c)
      → Did (ret, rs, d) st e
      → Did (ret', rs', d') e.1 e'
      → Did (ret', rs ++ rs', d') st e'
  unfolding Did
  then-Did ret ret' rs rs' d d' st e e' (_, frames, _, left) (code, frames', at_d', left') = (
    code,
    frames'
        ∙ ap (λ t. t ++ map (frame s c f structs) rs') frames
        ∙ rw (append_assoc, map-append) refl,
    at_d',
    left' ∙ left,
  )

  then-write :
      (ret : Code) (rs : List (Response f)) (r : Response f) (d : D) (st : State s c)
      (e : Code × State s c)
      → Did (ret, rs, d) st e
      → Did (success, rs ++ (r ∷ []), d) st (write s c f structs devices r e.1)
  unfolding Did
  then-write ret rs r d st e did =
      then-Did ret success rs (r ∷ []) d d st e (write s c f structs devices r e.1) did
        (rw did.2 at (write-Did r e.1))

  entities-Did :
      (es : List (Entity Dev)) (st : State s c)
      → Did
          (success, map (listing c f structs desk) es, state st.world)
          st
          (success, list_entities s c f structs devices es st)
  unfolding list_entities list_entity Did
  entities-Did [] st = nothing-Did success st
  entities-Did (e ∷ es) st =
      let one = write-Did (listing c f structs desk e) st in
      let st' = (write s c f structs devices (listing c f structs desk e) st).1 in
      then-Did success success (listing c f structs desk e ∷ []) (map (listing c f structs desk) es)
        (state st.world) (state st.world) st (success, st')
        (success, list_entities s c f structs devices es st') (refl, one.1, one.2, one.3)
        (rw one.2 at (entities-Did es st'))

  -- What was done before may have changed the state only.
  moved :
      (a : Code × List (Response f) × D) (st st' : State s c) (e : Code × State s c)
      → sent st'.world ≡ sent st.world
      → stream st'.world ≡ stream st.world
      → Did a st' e
      → Did a st e
  unfolding Did
  moved (ret, rs, d) st st' e same left (code, frames, at_d, left') =
      (code, frames ∙ ap (λ t. t ++ map (frame s c f structs) rs) same, at_d, left' ∙ left)

  switch_command-Did :
      (es : List (Entity Dev)) (p : c.Payload) (st : State s c)
      → Did
          (switched c f structs desk
            (structs.switch_key p)
            (structs.switch_state p)
            (find_device_entity_by_key (structs.switch_key p) es)
            (state st.world))
          st
          (switch_command_request_cb s c f structs devices es p st)
  unfolding switch_command_request_cb switch_get_state
  switch_command-Did es p st =
      elim (Option-cases (find_device_entity_by_key (structs.switch_key p) es)) [
        | inl none_has ↦ rw (none_has, switch_command_request_cb) (nothing-Did _ st)
        | inr (dev, has) ↦
            let w = ((devices.switch dev).set_state (structs.switch_state p) st.world).1 in
            let st' : State s c = record st { world = w } in
            let (at_d, same, left) = sets dev (structs.switch_state p) st.world in
            rw (has, switch_command_request_cb, ← at_d, ← gets dev w)
              (moved _ st st' _ same left (
                write-Did
                  (switch_state_response (structs.switch_key p) ((devices.switch dev).get_state w))
                  st'))
      ]

  button_command-Did :
      (es : List (Entity Dev)) (p : c.Payload) (st : State s c)
      → Did
          (pressed c f structs desk
            (find_device_entity_by_key (structs.button_key p) es)
            (state st.world))
          st
          (button_command_request_cb s c f structs devices es p st)
  unfolding button_command_request_cb Did
  button_command-Did es p st =
      elim (Option-cases (find_device_entity_by_key (structs.button_key p) es)) [
        | inl none_has ↦ rw (none_has, button_command_request_cb) (nothing-Did _ st)
        | inr (dev, has) ↦
            let (code, at_d, same, left) = presses dev st.world in
            rw (has, button_command_request_cb)
              ((code, same ∙ sym (append-nil (sent st.world)), at_d, left))
      ]

  module _ (config : Config) (es : List (Entity Dev)) where
    uses_password_lem :
        (password : Option (List ℕ))
        → uses_password s c f structs devices password ≡ asks_password password
    uses_password_lem none = refl
    uses_password_lem (some []) = refl
    uses_password_lem (some (b ∷ bs)) = ground arith

    is_wrong_lem :
        (given : List ℕ)
        → invalid_password s c f structs devices config given ≡ is_wrong config.password given
    is_wrong_lem given = elim (Option-cases config.password) [
      | inl none_set ↦ rw none_set refl
      | inr (password, set) ↦ rw set refl
    ]

    session-Did :
        (m : SessionMessage) (o : Option (c.Payload)) (st : State s c)
        → Did
            (in_session c f structs desk config es m o (state st.world))
            st
            (session_callback s c f structs devices config es m o st)
    unfolding session_callback hello_request_cb connect_request_cb device_info_request_cb
        disconnect_request_cb list_entities_request_cb weak_callback
    session-Did SessionMessage.hello_request o st = write-Did _ st
    session-Did SessionMessage.connect_request (some p) st =
        rw (← is_wrong_lem (structs.password p)) (write-Did _ st)
    session-Did SessionMessage.disconnect_request o st =
        with_result _ _ _ _ st _ (write-Did disconnect_response st)
    session-Did SessionMessage.ping_request o st = write-Did _ st
    session-Did SessionMessage.device_info_request o st =
        rw (← uses_password_lem config.password) (write-Did _ st)
    session-Did SessionMessage.list_entities_request o st =
        then-write success (map (listing c f structs desk) es) list_entities_done_response
          (state st.world) st _ (entities-Did es st)
    session-Did SessionMessage.subscribe_states_request o st = nothing-Did _ st
    session-Did m o st = nothing-Did _ st

    light-Did :
        (m : LightMessage) (o : Option (c.Payload)) (st : State s c)
        → Did
            (of_light c f structs desk config es m o (state st.world))
            st
            (light_callback s c f structs devices config es m o st)
    unfolding light_callback weak_callback
    light-Did LightMessage.switch_command_request (some p) st = switch_command-Did es p st
    light-Did LightMessage.light_command_request o st = nothing-Did _ st
    light-Did m o st = nothing-Did _ st

    home-Did :
        (m : HomeMessage) (o : Option (c.Payload)) (st : State s c)
        → Did
            (of_home c f structs desk config es m o (state st.world))
            st
            (home_callback s c f structs devices config es m o st)
    unfolding home_callback weak_callback
    home-Did HomeMessage.subscribe_homeassistant_services_request o st = nothing-Did _ st
    home-Did HomeMessage.subscribe_homeassistant_states_request o st = nothing-Did _ st
    home-Did m o st = nothing-Did _ st

    lock-Did :
        (m : LockMessage) (o : Option (c.Payload)) (st : State s c)
        → Did
            (of_lock c f structs desk config es m o (state st.world))
            st
            (lock_callback s c f structs devices config es m o st)
    unfolding lock_callback weak_callback
    lock-Did LockMessage.button_command_request (some p) st = button_command-Did es p st
    lock-Did m o st = nothing-Did _ st

    -- Every handler of the program gives the answer of the contract.
    pub api_callback-Did :
        (m : Message) (o : Option (c.Payload)) (st : State s c)
        → Did
            (respond c f structs desk config es m o (state st.world))
            st
            (api_callback s c f structs devices config es m o st)
    unfolding api_callback respond weak_callback
    api_callback-Did (session m) o st = session-Did m o st
    api_callback-Did (light m) o st = light-Did m o st
    api_callback-Did (home m) o st = home-Did m o st
    api_callback-Did (lock m) o st = lock-Did m o st
    api_callback-Did (cover m) o st = nothing-Did _ st
    api_callback-Did m o st = nothing-Did _ st
