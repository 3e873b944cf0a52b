-- ===== src/Rpc/Messages/Voice.antt =====
-- The messages of esphome_rpc.c for the voice assistant.
use zephyr_esphome.Prelude.{ℕ, List, [], ◌∷◌}
use zephyr_esphome.Rpc.Messages.Form.{Shape, packed, bare, WriteForm, form}

pub data VoiceMessage : Type 0 where
  subscribe_voice_assistant_request : VoiceMessage
  voice_assistant_request : VoiceMessage
  voice_assistant_response : VoiceMessage
  voice_assistant_event_response : VoiceMessage
  voice_assistant_audio : VoiceMessage
  voice_assistant_timer_event_response : VoiceMessage
  voice_assistant_announce_request : VoiceMessage
  voice_assistant_announce_finished : VoiceMessage
  voice_assistant_configuration_request : VoiceMessage
  voice_assistant_configuration_response : VoiceMessage
  voice_assistant_set_configuration : VoiceMessage

-- The Read functions: which decode a payload.
unfoldable pub read_shape : VoiceMessage → Shape
read_shape subscribe_voice_assistant_request = packed
read_shape voice_assistant_request = packed
read_shape voice_assistant_response = packed
read_shape voice_assistant_event_response = packed
read_shape voice_assistant_audio = packed
read_shape voice_assistant_timer_event_response = packed
read_shape voice_assistant_announce_request = packed
read_shape voice_assistant_announce_finished = packed
read_shape voice_assistant_configuration_request = bare
read_shape voice_assistant_configuration_response = packed
read_shape voice_assistant_set_configuration = packed

-- The Write functions: the number in the header, and which encode a payload.
unfoldable pub write_form : VoiceMessage → WriteForm
write_form subscribe_voice_assistant_request = form 89 packed
write_form voice_assistant_request = form 90 packed
write_form voice_assistant_response = form 91 packed
write_form voice_assistant_event_response = form 92 packed
write_form voice_assistant_audio = form 106 packed
write_form voice_assistant_timer_event_response = form 115 packed
write_form voice_assistant_announce_request = form 119 packed
write_form voice_assistant_announce_finished = form 120 packed
write_form voice_assistant_configuration_request = form 121 bare
write_form voice_assistant_configuration_response = form 122 packed
write_form voice_assistant_set_configuration = form 123 packed

-- The cases of the switch in esphome_read_request.
unfoldable pub cases : List (ℕ × VoiceMessage)
cases =
    (89, subscribe_voice_assistant_request)
    ∷ (90, voice_assistant_request)
    ∷ (91, voice_assistant_response)
    ∷ (92, voice_assistant_event_response)
    ∷ (106, voice_assistant_audio)
    ∷ (115, voice_assistant_timer_event_response)
    ∷ (119, voice_assistant_announce_request)
    ∷ (120, voice_assistant_announce_finished)
    ∷ (121, voice_assistant_configuration_request)
    ∷ (122, voice_assistant_configuration_response)
    ∷ (123, voice_assistant_set_configuration)
    ∷ []
