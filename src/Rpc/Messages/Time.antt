-- ===== src/Rpc/Messages/Time.antt =====
-- The messages of esphome_rpc.c for times, events and valves.
use zephyr_esphome.Prelude.{ℕ, List, [], ◌∷◌}
use zephyr_esphome.Rpc.Messages.Form.{Shape, packed, WriteForm, form}

pub data TimeMessage : Type 0 where
  list_entities_time_response : TimeMessage
  time_state_response : TimeMessage
  time_command_request : TimeMessage
  list_entities_event_response : TimeMessage
  event_response : TimeMessage
  list_entities_valve_response : TimeMessage
  valve_state_response : TimeMessage
  valve_command_request : TimeMessage

-- The Read functions: which decode a payload.
unfoldable pub read_shape : TimeMessage → Shape
read_shape list_entities_time_response = packed
read_shape time_state_response = packed
read_shape time_command_request = packed
read_shape list_entities_event_response = packed
read_shape event_response = packed
read_shape list_entities_valve_response = packed
read_shape valve_state_response = packed
read_shape valve_command_request = packed

-- The Write functions: the number in the header, and which encode a payload.
unfoldable pub write_form : TimeMessage → WriteForm
write_form list_entities_time_response = form 103 packed
write_form time_state_response = form 104 packed
write_form time_command_request = form 105 packed
write_form list_entities_event_response = form 107 packed
write_form event_response = form 108 packed
write_form list_entities_valve_response = form 109 packed
write_form valve_state_response = form 110 packed
write_form valve_command_request = form 111 packed

-- The cases of the switch in esphome_read_request.
unfoldable pub cases : List (ℕ × TimeMessage)
cases =
    (103, list_entities_time_response)
    ∷ (104, time_state_response)
    ∷ (105, time_command_request)
    ∷ (107, list_entities_event_response)
    ∷ (108, event_response)
    ∷ (109, list_entities_valve_response)
    ∷ (110, valve_state_response)
    ∷ (111, valve_command_request)
    ∷ []
