-- ===== src/Rpc/Messages/Light.antt =====
-- The messages of esphome_rpc.c for lights, sensors, switches and text sensors.
use zephyr_esphome.Prelude.{ℕ, List, [], ◌∷◌}
use zephyr_esphome.Rpc.Messages.Form.{Shape, packed, WriteForm, form}

pub data LightMessage : Type 0 where
  list_entities_light_response : LightMessage
  light_state_response : LightMessage
  light_command_request : LightMessage
  list_entities_sensor_response : LightMessage
  sensor_state_response : LightMessage
  list_entities_switch_response : LightMessage
  switch_state_response : LightMessage
  switch_command_request : LightMessage
  list_entities_text_sensor_response : LightMessage
  text_sensor_state_response : LightMessage

-- The Read functions: which decode a payload.
unfoldable pub read_shape : LightMessage → Shape
read_shape list_entities_light_response = packed
read_shape light_state_response = packed
read_shape light_command_request = packed
read_shape list_entities_sensor_response = packed
read_shape sensor_state_response = packed
read_shape list_entities_switch_response = packed
read_shape switch_state_response = packed
read_shape switch_command_request = packed
read_shape list_entities_text_sensor_response = packed
read_shape text_sensor_state_response = packed

-- The Write functions: the number in the header, and which encode a payload.
unfoldable pub write_form : LightMessage → WriteForm
write_form list_entities_light_response = form 15 packed
write_form light_state_response = form 24 packed
write_form light_command_request = form 32 packed
write_form list_entities_sensor_response = form 16 packed
write_form sensor_state_response = form 25 packed
write_form list_entities_switch_response = form 17 packed
write_form switch_state_response = form 26 packed
write_form switch_command_request = form 33 packed
write_form list_entities_text_sensor_response = form 18 packed
write_form text_sensor_state_response = form 27 packed

-- The cases of the switch in esphome_read_request.
unfoldable pub cases : List (ℕ × LightMessage)
cases =
    (15, list_entities_light_response)
    ∷ (24, light_state_response)
    ∷ (32, light_command_request)
    ∷ (16, list_entities_sensor_response)
    ∷ (25, sensor_state_response)
    ∷ (17, list_entities_switch_response)
    ∷ (26, switch_state_response)
    ∷ (33, switch_command_request)
    ∷ (18, list_entities_text_sensor_response)
    ∷ (27, text_sensor_state_response)
    ∷ []
