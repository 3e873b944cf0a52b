-- ===== src/Api/Base.antt =====
-- What the handlers of api.c are written with: the configuration of the device, the responses, and
-- the devices of Zephyr that the entities stand for.
use zephyr_esphome.Prelude.{ℕ, List, Option, Bool, Code}
use zephyr_esphome.Entity.{EntityConfig, EntityKind, switch_entity, sensor_entity, button_entity}
use zephyr_esphome.Rpc.Service.{Codec}
use zephyr_esphome.Rpc.Messages.{Message, session, light, lock}
use zephyr_esphome.Rpc.Messages.Session.{SessionMessage}
use zephyr_esphome.Rpc.Messages.Light.{LightMessage}
use zephyr_esphome.Rpc.Messages.Lock.{LockMessage}
use zephyr_esphome.Switch.{SwitchApi}

-- struct esphome_config. `none` is NULL.
pub record Config : Type 0 where
  pub name : List ℕ
  pub friendly_name : List ℕ
  pub server_info : List ℕ
  pub api_version_major : ℕ
  pub api_version_minor : ℕ
  pub compilation_time : List ℕ
  pub project_name : Option (List ℕ)
  pub project_version : Option (List ℕ)
  pub model : Option (List ℕ)
  pub manufacturer : Option (List ℕ)
  pub password : Option (List ℕ)
  pub port : ℕ

-- A float, as far as the code makes one. `zero` is the initial value of a field.
pub record Floats : Type 1 where
  pub Float : Type 0
  pub zero_float : Float
  -- (float)ns / NSEC_PER_SEC
  pub seconds : ℕ → Float

-- The fields that DeviceInfoRequestCb sets.
pub record DeviceInfo : Type 0 where
  pub uses_password : Bool
  pub name : List ℕ
  pub esphome_version : List ℕ
  pub compilation_time : List ℕ
  pub project_name : Option (List ℕ)
  pub project_version : Option (List ℕ)
  pub model : Option (List ℕ)
  pub manufacturer : Option (List ℕ)

-- The structs that the handlers pass to the Write functions, with the fields that they set; the other
-- fields are as in the initialiser.
pub data Response (f : Floats) : Type 0 where
  hello_response : (name server_info : List ℕ) (major minor : ℕ) → Response f
  connect_response : (invalid_password : Bool) → Response f
  device_info_response : DeviceInfo → Response f
  list_entities_response : EntityKind → EntityConfig → (key : ℕ) → Response f
  list_entities_done_response : Response f
  switch_state_response : (key : ℕ) (state : Code) → Response f
  sensor_state_response : (key : ℕ) (state : f.Float) → Response f
  ping_response : Response f
  disconnect_response : Response f

abbrev pub list_message : EntityKind → Message
list_message switch_entity = light LightMessage.list_entities_switch_response
list_message sensor_entity = light LightMessage.list_entities_sensor_response
list_message button_entity = lock LockMessage.list_entities_button_response

-- The Write function that a struct is passed to.
abbrev pub message_of : {f : Floats} → Response f → Message
message_of (hello_response name info major minor) = session SessionMessage.hello_response
message_of (connect_response invalid) = session SessionMessage.connect_response
message_of (device_info_response info) = session SessionMessage.device_info_response
message_of (list_entities_response kind config key) = list_message kind
message_of list_entities_done_response = session SessionMessage.list_entities_done_response
message_of (switch_state_response key state) = light LightMessage.switch_state_response
message_of (sensor_state_response key state) = light LightMessage.sensor_state_response
message_of ping_response = session SessionMessage.ping_response
message_of disconnect_response = session SessionMessage.disconnect_response

-- The generated structs of api.pb-c.h: how a response stands for a payload of the codec, and the
-- fields of the requests that the handlers read.
pub record Structs (f : Floats) (c : Codec) : Type 0 where
  pub payload : Response f → c.Payload
  -- ConnectRequest.password
  pub password : c.Payload → List ℕ
  -- SwitchCommandRequest.key, SwitchCommandRequest.state
  pub switch_key : c.Payload → ℕ
  pub switch_state : c.Payload → Code
  -- ButtonCommandRequest.key
  pub button_key : c.Payload → ℕ

-- The devices of Zephyr, over the state `World` that they share with the sockets.
pub record Devices (f : Floats) (World : Type 0) : Type 1 where
  pub Dev : Type 0
  -- dev->api of a switch
  pub switch : Dev → SwitchApi World
  -- config->on_press of a button
  pub on_press : Dev → World → Code × World
  -- api->read of a sensor: the result, and what it stores in `*state`
  pub read : Dev → World → (Code × Option (f.Float)) × World
