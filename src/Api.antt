-- ===== src/Api.antt =====
-- api.c: the handlers of the requests, over the Write functions of esphome_rpc.c, the entities and
-- their devices.
pub mod Base
pub mod Version
pub mod Commands
pub mod Listing
pub mod Keeps
pub mod Connections
pub mod Pin
pub mod Session
pub mod Device
pub mod Shows
pub mod Answers
pub mod Contract
use zephyr_esphome.Prelude.{
  same_bytes, ℕ, zero, suc, ◌+◌, ◌/◌, ◌%◌, List, [], ◌∷◌, ◌++◌, Bool, true, false, not, ◌&&◌,
  Option, none, some, ltb, leb, ◌==◌, if◌then◌else◌, Code, neg, enodev, enotsup, enotconn, success,
}
use zephyr_esphome.Entity.{Entity, find_device_entity_by_key}
use zephyr_esphome.Rpc.Messages.{
  Message, session, cover, light, home, climate, lock, bluetooth, gatt, voice, alarm, time, update,
}
use zephyr_esphome.Rpc.Messages.Session.{SessionMessage}
use zephyr_esphome.Rpc.Messages.Light.{LightMessage}
use zephyr_esphome.Rpc.Messages.Home.{HomeMessage}
use zephyr_esphome.Rpc.Messages.Lock.{LockMessage}
use zephyr_esphome.Rpc.Service.{Codec, State, Callback, weak_callback, message_write}
use zephyr_esphome.Rpc.Socket.{Socket}
use zephyr_esphome.Switch.{switch_get_state}
use Base.{
  Config, Floats, Response, hello_response, connect_response, device_info_response,
  list_entities_response, list_entities_done_response, switch_state_response, ping_response,
  disconnect_response, message_of, Structs, Devices,
}
use Version.{get_version}

module _ (s : Socket) (c : Codec) (f : Floats) (structs : Structs f c)
    (devices : Devices f (s.World)) where
  open devices use {Dev, switch, on_press}

  -- NAMEWrite(dev, &response)
  unfoldable pub write : Response f → State s c → Code × State s c
  write r = message_write s c (message_of r) (structs.payload r)

  unfoldable pub hello_request_cb : Config → State s c → Code × State s c
  hello_request_cb config = write (
      hello_response config.name config.server_info config.api_version_major
        config.api_version_minor)

  -- strcmp(config->password, request->password), where there is a password
  abbrev pub invalid_password : Config → List ℕ → Bool
  invalid_password config given = elim config.password [
    | none ↦ false
    | some password ↦ not (same_bytes password given)
  ]

  unfoldable pub connect_request_cb : Config → c.Payload → State s c → Code × State s c
  connect_request_cb config request =
      write (connect_response (invalid_password config (structs.password request)))

  -- `config->password && strlen(config->password)`
  abbrev pub uses_password : Option (List ℕ) → Bool
  uses_password none = false
  uses_password (some []) = false
  uses_password (some (b ∷ bs)) = true

  unfoldable pub device_info_request_cb : Config → State s c → Code × State s c
  device_info_request_cb config = write (
      device_info_response (record {
        uses_password = uses_password config.password;
        name = config.name;
        esphome_version = get_version config.api_version_major config.api_version_minor 32;
        compilation_time = config.compilation_time;
        project_name = config.project_name;
        project_version = config.project_version;
        model = config.model;
        manufacturer = config.manufacturer;
      }))

  -- esphome_switch_list_entity, esphome_sensor_list_entity and esphome_button_list_entity: each writes
  -- one response, and returns 0 whatever the Write function returns.
  unfoldable pub list_entity : Entity Dev → State s c → Code × State s c
  list_entity e st =
      let (ret, st') = write (list_entities_response e.list_entity e.config e.key) st in
      (success, st')

  -- The loop over the entities.
  unfoldable pub list_entities : List (Entity Dev) → State s c → State s c
  list_entities [] st = st
  list_entities (e ∷ es) st = let (ret, st') = list_entity e st in list_entities es st'

  unfoldable pub list_entities_request_cb : List (Entity Dev) → State s c → Code × State s c
  list_entities_request_cb es st = write list_entities_done_response (list_entities es st)

  -- The results of esphome_switch_set_state and esphome_switch_get_state are dropped.
  unfoldable pub switch_command_request_cb :
      List (Entity Dev) → c.Payload → State s c → Code × State s c
  switch_command_request_cb es request st =
      elim (find_device_entity_by_key (structs.switch_key request) es) [
        | none ↦ (neg enodev, st)
        | some dev ↦
            let (ret, w) = (switch dev).set_state (structs.switch_state request) st.world in
            let (ret', state) = switch_get_state (switch dev) w in
            write (switch_state_response (structs.switch_key request) state)
              (record st { world = w })
      ]

  unfoldable pub button_command_request_cb :
      List (Entity Dev) → c.Payload → State s c → Code × State s c
  button_command_request_cb es request st =
      elim (find_device_entity_by_key (structs.button_key request) es) [
        | none ↦ (neg enodev, st)
        | some dev ↦ let (ret, w) = on_press dev st.world in (ret, record st { world = w })
      ]

  -- The result of DisconnectResponseWrite is dropped.
  unfoldable pub disconnect_request_cb : State s c → Code × State s c
  disconnect_request_cb st = let (ret, st') = write disconnect_response st in (neg enotconn, st')

  -- The NAMECb functions of the program, by family: those that api.c defines, and the weak ones.
  module _ (config : Config) (es : List (Entity Dev)) where
    unfoldable pub session_callback :
        SessionMessage → Option (c.Payload) → State s c → Code × State s c
    session_callback SessionMessage.hello_request o = hello_request_cb config
    session_callback SessionMessage.connect_request (some p) = connect_request_cb config p
    session_callback SessionMessage.disconnect_request o = disconnect_request_cb
    session_callback SessionMessage.ping_request o = write ping_response
    session_callback SessionMessage.device_info_request o = device_info_request_cb config
    session_callback SessionMessage.list_entities_request o = list_entities_request_cb es
    session_callback SessionMessage.subscribe_states_request o = λ st. (success, st)
    session_callback m o = weak_callback s c (session m) o

    unfoldable pub light_callback : LightMessage → Option (c.Payload) → State s c → Code × State s c
    light_callback LightMessage.switch_command_request (some p) = switch_command_request_cb es p
    light_callback LightMessage.light_command_request o = λ st. (neg enotsup, st)
    light_callback m o = weak_callback s c (light m) o

    unfoldable pub home_callback : HomeMessage → Option (c.Payload) → State s c → Code × State s c
    home_callback HomeMessage.subscribe_homeassistant_services_request o = λ st. (success, st)
    home_callback HomeMessage.subscribe_homeassistant_states_request o = λ st. (success, st)
    home_callback m o = weak_callback s c (home m) o

    unfoldable pub lock_callback : LockMessage → Option (c.Payload) → State s c → Code × State s c
    lock_callback LockMessage.button_command_request (some p) = button_command_request_cb es p
    lock_callback m o = weak_callback s c (lock m) o

    unfoldable pub api_callback : Callback s c
    api_callback (session m) = session_callback m
    api_callback (light m) = light_callback m
    api_callback (home m) = home_callback m
    api_callback (lock m) = lock_callback m
    api_callback (cover m) = weak_callback s c (cover m)
    api_callback (climate m) = weak_callback s c (climate m)
    api_callback (bluetooth m) = weak_callback s c (bluetooth m)
    api_callback (gatt m) = weak_callback s c (gatt m)
    api_callback (voice m) = weak_callback s c (voice m)
    api_callback (alarm m) = weak_callback s c (alarm m)
    api_callback (time m) = weak_callback s c (time m)
    api_callback (update m) = weak_callback s c (update m)
