-- ===== src/Rpc/Messages/Cover.antt =====
-- The messages of esphome_rpc.c for binary sensors, covers and fans.
use zephyr_esphome.Prelude.{ℕ, List, [], ◌∷◌}
use zephyr_esphome.Rpc.Messages.Form.{Shape, packed, WriteForm, form}

pub data CoverMessage : Type 0 where
  list_entities_binary_sensor_response : CoverMessage
  binary_sensor_state_response : CoverMessage
  list_entities_cover_response : CoverMessage
  cover_state_response : CoverMessage
  cover_command_request : CoverMessage
  list_entities_fan_response : CoverMessage
  fan_state_response : CoverMessage
  fan_command_request : CoverMessage

-- The Read functions: which decode a payload.
unfoldable pub read_shape : CoverMessage → Shape
read_shape list_entities_binary_sensor_response = packed
read_shape binary_sensor_state_response = packed
read_shape list_entities_cover_response = packed
read_shape cover_state_response = packed
read_shape cover_command_request = packed
read_shape list_entities_fan_response = packed
read_shape fan_state_response = packed
read_shape fan_command_request = packed

-- The Write functions: the number in the header, and which encode a payload.
unfoldable pub write_form : CoverMessage → WriteForm
write_form list_entities_binary_sensor_response = form 12 packed
write_form binary_sensor_state_response = form 21 packed
write_form list_entities_cover_response = form 13 packed
write_form cover_state_response = form 22 packed
write_form cover_command_request = form 30 packed
write_form list_entities_fan_response = form 14 packed
write_form fan_state_response = form 23 packed
write_form fan_command_request = form 31 packed

-- The cases of the switch in esphome_read_request.
unfoldable pub cases : List (ℕ × CoverMessage)
cases =
    (12, list_entities_binary_sensor_response)
    ∷ (21, binary_sensor_state_response)
    ∷ (13, list_entities_cover_response)
    ∷ (22, cover_state_response)
    ∷ (30, cover_command_request)
    ∷ (14, list_entities_fan_response)
    ∷ (23, fan_state_response)
    ∷ (31, fan_command_request)
    ∷ []
