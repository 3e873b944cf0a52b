-- ===== src/Rpc/Messages/Lock.antt =====
-- The messages of esphome_rpc.c for locks, buttons and media players.
use zephyr_esphome.Prelude.{ℕ, List, [], ◌∷◌}
use zephyr_esphome.Rpc.Messages.Form.{Shape, packed, WriteForm, form}

pub data LockMessage : Type 0 where
  list_entities_lock_response : LockMessage
  lock_state_response : LockMessage
  lock_command_request : LockMessage
  list_entities_button_response : LockMessage
  button_command_request : LockMessage
  list_entities_media_player_response : LockMessage
  media_player_state_response : LockMessage
  media_player_command_request : LockMessage

-- The Read functions: which decode a payload.
unfoldable pub read_shape : LockMessage → Shape
read_shape list_entities_lock_response = packed
read_shape lock_state_response = packed
read_shape lock_command_request = packed
read_shape list_entities_button_response = packed
read_shape button_command_request = packed
read_shape list_entities_media_player_response = packed
read_shape media_player_state_response = packed
read_shape media_player_command_request = packed

-- The Write functions: the number in the header, and which encode a payload.
unfoldable pub write_form : LockMessage → WriteForm
write_form list_entities_lock_response = form 58 packed
write_form lock_state_response = form 59 packed
write_form lock_command_request = form 60 packed
write_form list_entities_button_response = form 61 packed
write_form button_command_request = form 62 packed
write_form list_entities_media_player_response = form 63 packed
write_form media_player_state_response = form 64 packed
write_form media_player_command_request = form 65 packed

-- The cases of the switch in esphome_read_request.
unfoldable pub cases : List (ℕ × LockMessage)
cases =
    (58, list_entities_lock_response)
    ∷ (59, lock_state_response)
    ∷ (60, lock_command_request)
    ∷ (61, list_entities_button_response)
    ∷ (62, button_command_request)
    ∷ (63, list_entities_media_player_response)
    ∷ (64, media_player_state_response)
    ∷ (65, media_player_command_request)
    ∷ []
