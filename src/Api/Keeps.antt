-- ===== src/Api/Keeps.antt =====
-- What the handlers of api.c leave as it is: every number of the state that the Write functions, a
-- switch that is commanded and a button that is pressed leave.
use zephyr_esphome.Prelude.{
  ℕ, ◌≡◌, refl, ◌∙◌, List, [], ◌∷◌, Option, some, Option-cases, inl, inr, Code,
}
use zephyr_esphome.Entity.{Entity, find_device_entity_by_key}
use zephyr_esphome.Rpc.Socket.{Socket}
use zephyr_esphome.Rpc.Messages.{Message, session, cover, light, home, lock}
use zephyr_esphome.Rpc.Messages.Session.{SessionMessage}
use zephyr_esphome.Rpc.Messages.Light.{LightMessage}
use zephyr_esphome.Rpc.Messages.Home.{HomeMessage}
use zephyr_esphome.Rpc.Messages.Lock.{LockMessage}
use zephyr_esphome.Rpc.Service.{Codec, State, weak_callback}
use zephyr_esphome.Api.Base.{Config, Floats, Response, Structs, Devices}
use zephyr_esphome.Api.{
  write, hello_request_cb, connect_request_cb, device_info_request_cb, list_entity, list_entities,
  list_entities_request_cb, switch_command_request_cb, button_command_request_cb,
  disconnect_request_cb, session_callback, light_callback, home_callback, lock_callback,
  api_callback,
}

module _ (s : Socket) (c : Codec) (f : Floats) (structs : Structs f c)
    (devices : Devices f (s.World)) (config : Config) (measure : State s c → ℕ)
    (written : (r : Response f) (st : State s c)
      → measure (write s c f structs devices r st).1 ≡ measure st)
    (commanded : (d : devices.Dev) (v : Code) (st : State s c)
      → measure (record st { world = ((devices.switch d).set_state v st.world).1 }) ≡ measure st)
    (pressed : (d : devices.Dev) (st : State s c)
      → measure (record st { world = (devices.on_press d st.world).1 }) ≡ measure st) where
  open devices use {Dev}

  entities-keeps :
      (es : List (Entity Dev)) (st : State s c)
      → measure (list_entities s c f structs devices es st) ≡ measure st
  unfolding list_entities list_entity
  entities-keeps [] st = refl
  entities-keeps (e ∷ es) st = entities-keeps es _ ∙ written _ st

  switch_command-keeps :
      (es : List (Entity Dev)) (p : c.Payload) (st : State s c)
      → measure (switch_command_request_cb s c f structs devices es p st).1 ≡ measure st
  unfolding switch_command_request_cb
  switch_command-keeps es p st =
      elim (Option-cases (find_device_entity_by_key (structs.switch_key p) es)) [
        | inl e ↦ rw (switch_command_request_cb, e) refl
        | inr (dev, e) ↦
            rw (switch_command_request_cb, e)
              (written _ _ ∙ commanded dev (structs.switch_state p) st)
      ]

  button_command-keeps :
      (es : List (Entity Dev)) (p : c.Payload) (st : State s c)
      → measure (button_command_request_cb s c f structs devices es p st).1 ≡ measure st
  unfolding button_command_request_cb
  button_command-keeps es p st =
      elim (Option-cases (find_device_entity_by_key (structs.button_key p) es)) [
        | inl e ↦ rw (button_command_request_cb, e) refl
        | inr (dev, e) ↦ rw (button_command_request_cb, e) (pressed dev st)
      ]

  module _ (es : List (Entity Dev)) where
    session-keeps :
        (m : SessionMessage) (o : Option (c.Payload)) (st : State s c)
        → measure (session_callback s c f structs devices config es m o st).1 ≡ measure st
    unfolding session_callback hello_request_cb connect_request_cb device_info_request_cb
        disconnect_request_cb list_entities_request_cb weak_callback
    session-keeps SessionMessage.hello_request o st = written _ st
    session-keeps SessionMessage.connect_request (some p) st = written _ st
    session-keeps SessionMessage.disconnect_request o st = written _ st
    session-keeps SessionMessage.ping_request o st = written _ st
    session-keeps SessionMessage.device_info_request o st = written _ st
    session-keeps SessionMessage.list_entities_request o st = written _ _ ∙ entities-keeps es st
    session-keeps SessionMessage.subscribe_states_request o st = refl
    session-keeps m o st = refl

    light-keeps :
        (m : LightMessage) (o : Option (c.Payload)) (st : State s c)
        → measure (light_callback s c f structs devices config es m o st).1 ≡ measure st
    unfolding light_callback weak_callback
    light-keeps LightMessage.switch_command_request (some p) st = switch_command-keeps es p st
    light-keeps LightMessage.light_command_request o st = refl
    light-keeps m o st = refl

    home-keeps :
        (m : HomeMessage) (o : Option (c.Payload)) (st : State s c)
        → measure (home_callback s c f structs devices config es m o st).1 ≡ measure st
    unfolding home_callback weak_callback
    home-keeps HomeMessage.subscribe_homeassistant_services_request o st = refl
    home-keeps HomeMessage.subscribe_homeassistant_states_request o st = refl
    home-keeps m o st = refl

    lock-keeps :
        (m : LockMessage) (o : Option (c.Payload)) (st : State s c)
        → measure (lock_callback s c f structs devices config es m o st).1 ≡ measure st
    unfolding lock_callback weak_callback
    lock-keeps LockMessage.button_command_request (some p) st = button_command-keeps es p st
    lock-keeps m o st = refl

    pub api_callback-keeps :
        (m : Message) (o : Option (c.Payload)) (st : State s c)
        → measure (api_callback s c f structs devices config es m o st).1 ≡ measure st
    unfolding api_callback weak_callback
    api_callback-keeps (session m) o st = session-keeps m o st
    api_callback-keeps (light m) o st = light-keeps m o st
    api_callback-keeps (home m) o st = home-keeps m o st
    api_callback-keeps (lock m) o st = lock-keeps m o st
    api_callback-keeps (cover m) o st = refl
    api_callback-keeps m o st = refl
