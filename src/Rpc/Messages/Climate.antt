-- ===== src/Rpc/Messages/Climate.antt =====
-- The messages of esphome_rpc.c for cameras, climates, numbers and selects.
use zephyr_esphome.Prelude.{ℕ, List, [], ◌∷◌}
use zephyr_esphome.Rpc.Messages.Form.{Shape, packed, WriteForm, form}

pub data ClimateMessage : Type 0 where
  list_entities_camera_response : ClimateMessage
  camera_image_response : ClimateMessage
  camera_image_request : ClimateMessage
  list_entities_climate_response : ClimateMessage
  climate_state_response : ClimateMessage
  climate_command_request : ClimateMessage
  list_entities_number_response : ClimateMessage
  number_state_response : ClimateMessage
  number_command_request : ClimateMessage
  list_entities_select_response : ClimateMessage
  select_state_response : ClimateMessage
  select_command_request : ClimateMessage

-- The Read functions: which decode a payload.
unfoldable pub read_shape : ClimateMessage → Shape
read_shape list_entities_camera_response = packed
read_shape camera_image_response = packed
read_shape camera_image_request = packed
read_shape list_entities_climate_response = packed
read_shape climate_state_response = packed
read_shape climate_command_request = packed
read_shape list_entities_number_response = packed
read_shape number_state_response = packed
read_shape number_command_request = packed
read_shape list_entities_select_response = packed
read_shape select_state_response = packed
read_shape select_command_request = packed

-- The Write functions: the number in the header, and which encode a payload.
unfoldable pub write_form : ClimateMessage → WriteForm
write_form list_entities_camera_response = form 43 packed
write_form camera_image_response = form 44 packed
write_form camera_image_request = form 45 packed
write_form list_entities_climate_response = form 46 packed
write_form climate_state_response = form 47 packed
write_form climate_command_request = form 48 packed
write_form list_entities_number_response = form 49 packed
write_form number_state_response = form 50 packed
write_form number_command_request = form 51 packed
write_form list_entities_select_response = form 52 packed
write_form select_state_response = form 53 packed
write_form select_command_request = form 54 packed

-- The cases of the switch in esphome_read_request.
unfoldable pub cases : List (ℕ × ClimateMessage)
cases =
    (43, list_entities_camera_response)
    ∷ (44, camera_image_response)
    ∷ (45, camera_image_request)
    ∷ (46, list_entities_climate_response)
    ∷ (47, climate_state_response)
    ∷ (48, climate_command_request)
    ∷ (49, list_entities_number_response)
    ∷ (50, number_state_response)
    ∷ (51, number_command_request)
    ∷ (52, list_entities_select_response)
    ∷ (53, select_state_response)
    ∷ (54, select_command_request)
    ∷ []
