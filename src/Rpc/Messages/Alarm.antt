-- ===== src/Rpc/Messages/Alarm.antt =====
-- The messages of esphome_rpc.c for alarm panels, texts and dates.
use zephyr_esphome.Prelude.{ℕ, List, [], ◌∷◌}
use zephyr_esphome.Rpc.Messages.Form.{Shape, packed, WriteForm, form}

pub data AlarmMessage : Type 0 where
  list_entities_alarm_control_panel_response : AlarmMessage
  alarm_control_panel_state_response : AlarmMessage
  alarm_control_panel_command_request : AlarmMessage
  list_entities_text_response : AlarmMessage
  text_state_response : AlarmMessage
  text_command_request : AlarmMessage
  list_entities_date_response : AlarmMessage
  date_state_response : AlarmMessage
  date_command_request : AlarmMessage

-- The Read functions: which decode a payload.
unfoldable pub read_shape : AlarmMessage → Shape
read_shape list_entities_alarm_control_panel_response = packed
read_shape alarm_control_panel_state_response = packed
read_shape alarm_control_panel_command_request = packed
read_shape list_entities_text_response = packed
read_shape text_state_response = packed
read_shape text_command_request = packed
read_shape list_entities_date_response = packed
read_shape date_state_response = packed
read_shape date_command_request = packed

-- The Write functions: the number in the header, and which encode a payload.
unfoldable pub write_form : AlarmMessage → WriteForm
write_form list_entities_alarm_control_panel_response = form 94 packed
write_form alarm_control_panel_state_response = form 95 packed
write_form alarm_control_panel_command_request = form 96 packed
write_form list_entities_text_response = form 97 packed
write_form text_state_response = form 98 packed
write_form text_command_request = form 99 packed
write_form list_entities_date_response = form 100 packed
write_form date_state_response = form 101 packed
write_form date_command_request = form 102 packed

-- The cases of the switch in esphome_read_request.
unfoldable pub cases : List (ℕ × AlarmMessage)
cases =
    (94, list_entities_alarm_control_panel_response)
    ∷ (95, alarm_control_panel_state_response)
    ∷ (96, alarm_control_panel_command_request)
    ∷ (97, list_entities_text_response)
    ∷ (98, text_state_response)
    ∷ (99, text_command_request)
    ∷ (100, list_entities_date_response)
    ∷ (101, date_state_response)
    ∷ (102, date_command_request)
    ∷ []
