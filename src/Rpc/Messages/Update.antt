-- ===== src/Rpc/Messages/Update.antt =====
-- The messages of esphome_rpc.c for dates with times, and updates.
use zephyr_esphome.Prelude.{ℕ, List, [], ◌∷◌}
use zephyr_esphome.Rpc.Messages.Form.{Shape, packed, WriteForm, form}

pub data UpdateMessage : Type 0 where
  list_entities_date_time_response : UpdateMessage
  date_time_state_response : UpdateMessage
  date_time_command_request : UpdateMessage
  list_entities_update_response : UpdateMessage
  update_state_response : UpdateMessage
  update_command_request : UpdateMessage

-- The Read functions: which decode a payload.
unfoldable pub read_shape : UpdateMessage → Shape
read_shape list_entities_date_time_response = packed
read_shape date_time_state_response = packed
read_shape date_time_command_request = packed
read_shape list_entities_update_response = packed
read_shape update_state_response = packed
read_shape update_command_request = packed

-- The Write functions: the number in the header, and which encode a payload.
unfoldable pub write_form : UpdateMessage → WriteForm
write_form list_entities_date_time_response = form 112 packed
write_form date_time_state_response = form 113 packed
write_form date_time_command_request = form 114 packed
write_form list_entities_update_response = form 116 packed
write_form update_state_response = form 117 packed
write_form update_command_request = form 118 packed

-- The cases of the switch in esphome_read_request.
unfoldable pub cases : List (ℕ × UpdateMessage)
cases =
    (112, list_entities_date_time_response)
    ∷ (113, date_time_state_response)
    ∷ (114, date_time_command_request)
    ∷ (116, list_entities_update_response)
    ∷ (117, update_state_response)
    ∷ (118, update_command_request)
    ∷ []
