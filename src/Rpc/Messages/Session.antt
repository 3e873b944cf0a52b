-- ===== src/Rpc/Messages/Session.antt =====
-- The messages of esphome_rpc.c for the session with a client.
use zephyr_esphome.Prelude.{ℕ, List, [], ◌∷◌}
use zephyr_esphome.Rpc.Messages.Form.{Shape, packed, bare, WriteForm, form}

pub data SessionMessage : Type 0 where
  hello_request : SessionMessage
  hello_response : SessionMessage
  connect_request : SessionMessage
  connect_response : SessionMessage
  disconnect_request : SessionMessage
  disconnect_response : SessionMessage
  ping_request : SessionMessage
  ping_response : SessionMessage
  device_info_request : SessionMessage
  device_info_response : SessionMessage
  list_entities_request : SessionMessage
  list_entities_done_response : SessionMessage
  subscribe_states_request : SessionMessage

-- The Read functions: which decode a payload.
unfoldable pub read_shape : SessionMessage → Shape
read_shape hello_request = packed
read_shape hello_response = packed
read_shape connect_request = packed
read_shape connect_response = packed
read_shape disconnect_request = bare
read_shape disconnect_response = bare
read_shape ping_request = bare
read_shape ping_response = bare
read_shape device_info_request = bare
read_shape device_info_response = packed
read_shape list_entities_request = bare
read_shape list_entities_done_response = bare
read_shape subscribe_states_request = bare

-- The Write functions: the number in the header, and which encode a payload.
unfoldable pub write_form : SessionMessage → WriteForm
write_form hello_request = form 1 packed
write_form hello_response = form 2 packed
write_form connect_request = form 3 packed
write_form connect_response = form 4 packed
write_form disconnect_request = form 5 bare
write_form disconnect_response = form 6 bare
write_form ping_request = form 7 bare
write_form ping_response = form 8 bare
write_form device_info_request = form 9 bare
write_form device_info_response = form 10 packed
write_form list_entities_request = form 11 bare
write_form list_entities_done_response = form 19 bare
write_form subscribe_states_request = form 20 bare

-- The cases of the switch in esphome_read_request.
unfoldable pub cases : List (ℕ × SessionMessage)
cases =
    (1, hello_request)
    ∷ (2, hello_response)
    ∷ (3, connect_request)
    ∷ (4, connect_response)
    ∷ (5, disconnect_request)
    ∷ (6, disconnect_response)
    ∷ (7, ping_request)
    ∷ (8, ping_response)
    ∷ (9, device_info_request)
    ∷ (10, device_info_response)
    ∷ (11, list_entities_request)
    ∷ (19, list_entities_done_response)
    ∷ (20, subscribe_states_request)
    ∷ []
