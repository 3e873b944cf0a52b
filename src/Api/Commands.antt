-- ===== src/Api/Commands.antt =====
-- SwitchCommandRequestCb of api.c, from the request on the wire to the switch and the answer.
use zephyr_esphome.Prelude.{
  ℕ, suc, ◌≡◌, refl, ap, ◌∙◌, List, ◌∷◌, ◌++◌, Bool, none, some, if◌then◌else◌, Code, neg, enodev,
  is_nonzero,
}
use zephyr_esphome.Entity.{Entity, fnv1_hash, entity_init, find_device_entity_by_key}
use zephyr_esphome.Entity.Registry.{Lacks, find-entity_init, find-entity_init-none}
use zephyr_esphome.Rpc.Socket.{Socket}
use zephyr_esphome.Rpc.Messages.{Message, light}
use zephyr_esphome.Rpc.Messages.Light.{LightMessage}
use zephyr_esphome.Rpc.Service.{Codec, State, returned, read_request, serve}
use zephyr_esphome.Rpc.Service.Arrival.{Arrives, arrived, read_request-Arrives, serve-Arrives}
use zephyr_esphome.Switch.{SwitchApi, switch_get_state}
use zephyr_esphome.Switch.Laws.{IsSwitch}
use zephyr_esphome.Api.Base.{Config, Floats, switch_state_response, Structs, Devices}
use zephyr_esphome.Api.{write, switch_command_request_cb, api_callback, light_callback}

abbrev pub switch_command : Message
switch_command = light LightMessage.switch_command_request

module _ (s : Socket) (c : Codec) (f : Floats) (structs : Structs f c)
    (devices : Devices f (s.World)) (config : Config) where
  open devices use {Dev, switch}
  open structs use {switch_key, switch_state}

  -- The state that a switch reports after a command: the one commanded, or the old one on an error.
  abbrev pub reported : SwitchApi (s.World) → Code → s.World → Code
  reported api v w = if is_nonzero (api.set_state v w).0 then api.get_state w else v

  command_found :
      (es : List (Entity Dev)) (p : c.Payload) (dev : Dev) (st : State s c)
      → IsSwitch (switch dev)
      → find_device_entity_by_key (switch_key p) es ≡ some dev
      → switch_command_request_cb s c f structs devices es p st
        ≡ write s c f structs devices
            (switch_state_response (switch_key p) (reported (switch dev) (switch_state p) st.world))
            (record st { world = ((switch dev).set_state (switch_state p) st.world).1 })
  unfolding switch_command_request_cb switch_get_state
  command_found es p dev st laws e =
      rw (switch_command_request_cb, e, laws.recorded (switch_state p) st.world) refl

  command_unknown :
      (es : List (Entity Dev)) (p : c.Payload) (st : State s c)
      → find_device_entity_by_key (switch_key p) es ≡ none
      → switch_command_request_cb s c f structs devices es p st ≡ (neg enodev, st)
  unfolding switch_command_request_cb
  command_unknown es p st e = rw (switch_command_request_cb, e) refl

  module _ (signed : Bool) (api_dev : Dev) (front back : List (Entity Dev)) (e : Entity Dev) where
    abbrev pub entities : List (Entity Dev)
    entities = entity_init signed api_dev (front ++ (e ∷ back))

    -- A command for a switch, by the hash of its name, that arrives whole, commands this switch: the
    -- answer is what the Write function of SwitchStateResponse makes of the key and of the state
    -- commanded, or of the old state if the switch returned an error, which is not told otherwise. It
    -- is supposed that the entities before it have other hashes, and that the switch knows the state
    -- that was last set with success.
    pub read_request-switch_command :
        (p : c.Payload) (rounds val : ℕ) (st : State s c) (w : s.World)
        → Lacks signed api_dev (fnv1_hash signed e.config.object_id) front
        → IsSwitch (switch e.dev)
        → switch_key p ≡ fnv1_hash signed e.config.object_id
        → Arrives s c switch_command p st.world w
        → let after = record (arrived s c st w) {
          world = ((switch e.dev).set_state (switch_state p) w).1;
        } in
          let r =
            write s c f structs devices
              (switch_state_response (switch_key p) (reported (switch e.dev) (switch_state p) w))
              after in
          read_request s c (api_callback s c f structs devices config entities) (suc rounds) val st
          ≡ (returned r.0, r.1)
    unfolding api_callback light_callback
    read_request-switch_command p rounds val st w first laws key a =
        read_request-Arrives s c (api_callback s c f structs devices config entities) switch_command
          p rounds val st w a
        ∙ ap (λ (t : Code × State s c). (returned t.0, t.1))
            (command_found entities p e.dev (arrived s c st w) laws
              (rw key (find-entity_init signed api_dev front back e first)))

  -- A command with a key that no entity's name has for its hash changes no device and sends nothing:
  -- serving the connection ends with -ENODEV, and the connection is closed.
  pub serve_unknown_key :
      (signed : Bool) (api_dev : Dev) (es : List (Entity Dev)) (p : c.Payload)
      (requests rounds val : ℕ) (st : State s c) (w : s.World)
      → Lacks signed api_dev (switch_key p) es
      → Arrives s c switch_command p st.world w
      → serve s c
          (api_callback s c f structs devices config (entity_init signed api_dev es))
          (suc requests)
          (suc rounds)
          val
          st
        ≡ (returned (neg enodev), record (arrived s c st w) { world = s.close w })
  unfolding api_callback light_callback
  serve_unknown_key signed api_dev es p requests rounds val st w none_has a =
      let unknown = (find-entity_init-none signed api_dev (switch_key p) es).1 none_has in
      serve-Arrives s c (api_callback s c f structs devices config (entity_init signed api_dev es))
        switch_command p requests rounds val st (arrived s c st w) w (neg enodev) a
        (command_unknown (entity_init signed api_dev es) p (arrived s c st w) unknown) refl
