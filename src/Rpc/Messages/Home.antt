-- ===== src/Rpc/Messages/Home.antt =====
-- The messages of esphome_rpc.c for logs, Home Assistant, the time and services.
use zephyr_esphome.Prelude.{ℕ, List, [], ◌∷◌}
use zephyr_esphome.Rpc.Messages.Form.{Shape, packed, bare, WriteForm, form}

pub data HomeMessage : Type 0 where
  subscribe_logs_request : HomeMessage
  subscribe_logs_response : HomeMessage
  subscribe_homeassistant_services_request : HomeMessage
  homeassistant_service_response : HomeMessage
  subscribe_homeassistant_states_request : HomeMessage
  subscribe_homeassistant_state_response : HomeMessage
  homeassistant_state_response : HomeMessage
  get_time_request : HomeMessage
  get_time_response : HomeMessage
  list_entities_services_response : HomeMessage
  execute_service_request : HomeMessage

-- The Read functions: which decode a payload.
unfoldable pub read_shape : HomeMessage → Shape
read_shape subscribe_logs_request = packed
read_shape subscribe_logs_response = packed
read_shape subscribe_homeassistant_services_request = bare
read_shape homeassistant_service_response = packed
read_shape subscribe_homeassistant_states_request = bare
read_shape subscribe_homeassistant_state_response = packed
read_shape homeassistant_state_response = packed
read_shape get_time_request = bare
read_shape get_time_response = packed
read_shape list_entities_services_response = packed
read_shape execute_service_request = packed

-- The Write functions: the number in the header, and which encode a payload.
unfoldable pub write_form : HomeMessage → WriteForm
write_form subscribe_logs_request = form 28 packed
write_form subscribe_logs_response = form 29 packed
write_form subscribe_homeassistant_services_request = form 34 bare
write_form homeassistant_service_response = form 35 packed
write_form subscribe_homeassistant_states_request = form 38 bare
write_form subscribe_homeassistant_state_response = form 39 packed
write_form homeassistant_state_response = form 40 packed
write_form get_time_request = form 36 bare
write_form get_time_response = form 37 packed
write_form list_entities_services_response = form 41 packed
write_form execute_service_request = form 42 packed

-- The cases of the switch in esphome_read_request.
unfoldable pub cases : List (ℕ × HomeMessage)
cases =
    (28, subscribe_logs_request)
    ∷ (29, subscribe_logs_response)
    ∷ (34, subscribe_homeassistant_services_request)
    ∷ (35, homeassistant_service_response)
    ∷ (38, subscribe_homeassistant_states_request)
    ∷ (39, subscribe_homeassistant_state_response)
    ∷ (40, homeassistant_state_response)
    ∷ (36, get_time_request)
    ∷ (37, get_time_response)
    ∷ (41, list_entities_services_response)
    ∷ (42, execute_service_request)
    ∷ []
