-- ===== src/Api/Device.antt =====
-- What the device promises its clients: the answers to each request, as a function of the state of its
-- switches and buttons alone.
use zephyr_esphome.Prelude.{
  ℕ, List, [], ◌∷◌, ◌++◌, Bool, false, not, length, ◌==◌, same_bytes, map, Option, none, some, Code,
  neg, enodev, enotsup, enotconn, success, minus_one,
}
use zephyr_esphome.Entity.{Entity, find_device_entity_by_key}
use zephyr_esphome.Rpc.Messages.{Message, session, light, home, lock}
use zephyr_esphome.Rpc.Messages.Session.{SessionMessage}
use zephyr_esphome.Rpc.Messages.Light.{LightMessage}
use zephyr_esphome.Rpc.Messages.Home.{HomeMessage}
use zephyr_esphome.Rpc.Messages.Lock.{LockMessage}
use zephyr_esphome.Rpc.Service.{Codec}
use zephyr_esphome.Api.Base.{
  Config, DeviceInfo, Floats, Response, hello_response, connect_response, device_info_response,
  list_entities_response, list_entities_done_response, switch_state_response, ping_response,
  disconnect_response, Structs,
}
use zephyr_esphome.Api.Version.{get_version}

-- The switches and buttons `Dev` of a device, as functions of a state `D`.
pub record Desk (Dev D : Type 0) : Type 0 where
  pub set_state : Dev → Code → D → D
  pub get_state : Dev → D → Code
  pub press : Dev → D → Code × D

-- Whether a client needs a password: an empty one is none.
abbrev pub asks_password : Option (List ℕ) → Bool
asks_password none = false
asks_password (some password) = not (length password == 0)

-- Whether a client has given a password that is not the one of the device.
abbrev pub is_wrong : Option (List ℕ) → (given : List ℕ) → Bool
is_wrong none given = false
is_wrong (some password) given = not (same_bytes password given)

module _ (c : Codec) (f : Floats) (structs : Structs f c) {Dev D : Type 0} (desk : Desk Dev D) where
  -- The result of a request, the responses to it, and the state after it.
  abbrev pub Answer : Type 0
  Answer = Code × List (Response f) × D

  abbrev pub listing : Entity Dev → Response f
  listing e = list_entities_response e.list_entity e.config e.key

  abbrev pub device_info : Config → DeviceInfo
  device_info config = record {
    uses_password = asks_password config.password;
    name = config.name;
    esphome_version = get_version config.api_version_major config.api_version_minor 32;
    compilation_time = config.compilation_time;
    project_name = config.project_name;
    project_version = config.project_version;
    model = config.model;
    manufacturer = config.manufacturer;
  }

  -- A switch answers with the state that it has then.
  abbrev pub switched : (key : ℕ) → Code → Option Dev → D → Answer
  switched key v none d = (neg enodev, [], d)
  switched key v (some dev) d =
      let d' = desk.set_state dev v d in
      (success, switch_state_response key (desk.get_state dev d') ∷ [], d')

  -- A button does not answer.
  abbrev pub pressed : Option Dev → D → Answer
  pressed none d = (neg enodev, [], d)
  pressed (some dev) d = let (ret, d') = desk.press dev d in (ret, [], d')

  module _ (config : Config) (es : List (Entity Dev)) where
    abbrev pub in_session : SessionMessage → Option (c.Payload) → D → Answer
    in_session SessionMessage.hello_request o d = (
      success,
      hello_response config.name config.server_info config.api_version_major
            config.api_version_minor
          ∷ [],
      d,
    )
    in_session SessionMessage.connect_request (some p) d =
        (success, connect_response (is_wrong config.password (structs.password p)) ∷ [], d)
    in_session SessionMessage.disconnect_request o d = (neg enotconn, disconnect_response ∷ [], d)
    in_session SessionMessage.ping_request o d = (success, ping_response ∷ [], d)
    in_session SessionMessage.device_info_request o d =
        (success, device_info_response (device_info config) ∷ [], d)
    in_session SessionMessage.list_entities_request o d =
        (success, map listing es ++ (list_entities_done_response ∷ []), d)
    in_session SessionMessage.subscribe_states_request o d = (success, [], d)
    in_session m o d = (minus_one, [], d)

    abbrev pub of_light : LightMessage → Option (c.Payload) → D → Answer
    of_light LightMessage.switch_command_request (some p) d =
        switched (structs.switch_key p) (structs.switch_state p)
          (find_device_entity_by_key (structs.switch_key p) es) d
    of_light LightMessage.light_command_request o d = (neg enotsup, [], d)
    of_light m o d = (minus_one, [], d)

    abbrev pub of_home : HomeMessage → Option (c.Payload) → D → Answer
    of_home HomeMessage.subscribe_homeassistant_services_request o d = (success, [], d)
    of_home HomeMessage.subscribe_homeassistant_states_request o d = (success, [], d)
    of_home m o d = (minus_one, [], d)

    abbrev pub of_lock : LockMessage → Option (c.Payload) → D → Answer
    of_lock LockMessage.button_command_request (some p) d =
        pressed (find_device_entity_by_key (structs.button_key p) es) d
    of_lock m o d = (minus_one, [], d)

    -- The contract of a request.
    unfoldable pub respond : Message → Option (c.Payload) → D → Answer
    respond (session m) o d = in_session m o d
    respond (light m) o d = of_light m o d
    respond (home m) o d = of_home m o d
    respond (lock m) o d = of_lock m o d
    respond m o d = (minus_one, [], d)
