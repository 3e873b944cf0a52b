-- ===== src/Tests/Rpc.antt =====
-- Runs of esphome_rpc.c, and its theorems at concrete inputs.
use zephyr_esphome.Rpc.Socket.{Socket, lost}
use zephyr_esphome.Rpc.Varint.Lost.{read_decode_varint_lost}
use zephyr_esphome.Prelude.{
  ℕ, ◌+◌, ◌≡◌, refl, List, [], ◌∷◌, true, false, some, length, arith, success,
}
use zephyr_esphome.Rpc.Varint.{varint_encode, value, read_decode_varint}
use zephyr_esphome.Rpc.Varint.Encode.{groups, varint_encode-groups}
use zephyr_esphome.Rpc.Varint.Decode.{IsU64Result, read_decode_varint-IsU64Result}
use zephyr_esphome.Rpc.Varint.RoundTrip.{read_decode_varint-varint_encode}
use zephyr_esphome.Rpc.Header.{
  header_size, encode_header, read_header, read_start, read_len, read_rpc_id,
}
use zephyr_esphome.Rpc.Messages.{Message, session, light, read_shape, write_form, dispatch}
use zephyr_esphome.Rpc.Messages.Session.{SessionMessage}
use zephyr_esphome.Rpc.Messages.Light.{LightMessage}
use zephyr_esphome.Rpc.Messages.Agreement.{dispatch-write_form}
use zephyr_esphome.Rpc.Service.{
  State, returned, blocked, message_write, write_packed, rpc_send, read_body, read_payload,
  handle_message, message_read, read_request, serve,
}
use zephyr_esphome.Rpc.Service.Read.{read_request-message_write, serve_closed}
use zephyr_esphome.Tests.Wire.{Wire, wire, plain, accepting, on_wire, state}

encode_300 : (varint_encode 300 true).out ≡ 0xac ∷ 0x02 ∷ []
unfolding varint_encode
encode_300 = refl

read_300 :
    read_decode_varint wire 7 (on_wire (0xac ∷ 0x02 ∷ 5 ∷ [])) ≡ (value 300, on_wire (5 ∷ []))
unfolding read_decode_varint
read_300 = refl

varint_encode-groups_example :
    varint_encode 300 false ≡ record { count = 0 + length (groups 9 300); out = [] }
varint_encode-groups_example = varint_encode-groups 300 false (omega arith)

read_decode_varint-IsU64Result_example :
    IsU64Result (read_decode_varint wire 7 (on_wire (0xac ∷ 0x02 ∷ []))).0
read_decode_varint-IsU64Result_example =
    read_decode_varint-IsU64Result wire 7 (on_wire (0xac ∷ 0x02 ∷ []))

abbrev after_two : Wire
after_two = on_wire (5 ∷ [])

read_decode_varint-varint_encode_example :
    read_decode_varint wire 7 (on_wire (0xac ∷ 0x02 ∷ 5 ∷ [])) ≡ (value 300, after_two)
unfolding varint_encode
read_decode_varint-varint_encode_example =
    read_decode_varint-varint_encode wire 300 7 (on_wire (0xac ∷ 0x02 ∷ 5 ∷ [])) after_two
      (omega arith) (_, refl, (_, refl, refl))

-- A switch command: message 33, with a payload of two bytes.
abbrev command : List ℕ
command = 0 ∷ 2 ∷ 33 ∷ 13 ∷ 7 ∷ []

abbrev switch_command : Message
switch_command = light LightMessage.switch_command_request

dispatch-write_form_example : dispatch 33 ≡ some switch_command
unfolding write_form
dispatch-write_form_example = dispatch-write_form switch_command

sends : (message_write wire plain switch_command (13 ∷ 7 ∷ []) (state [])).1.world.sent ≡ command
unfolding message_write write_packed rpc_send write_form encode_header header_size varint_encode
sends = refl

abbrev ping : Message
ping = session SessionMessage.ping_request

-- What is left of the state after the command: the block of its payload.
abbrev handled : State wire plain
handled = record { world = on_wire []; blocks = 1 }

runs : read_request wire plain accepting 1 7 (state command) ≡ (returned success, handled)
unfolding read_request read_body read_payload handle_message message_read dispatch read_shape
    read_header read_start read_len read_rpc_id read_decode_varint
runs = refl

read_request-message_write_example :
    read_request wire plain accepting 1 7 (state command) ≡ (returned success, handled)
unfolding encode_header varint_encode write_form
read_request-message_write_example =
    read_request-message_write wire plain accepting switch_command (13 ∷ 7 ∷ []) 0 7 (state command)
      (on_wire (13 ∷ 7 ∷ [])) (on_wire (13 ∷ 7 ∷ [])) (on_wire []) refl refl (λ e. omega (arith, e))
      (omega arith) refl (_, refl, (_, refl, (_, refl, refl))) refl refl

serve_closed_example : serve wire plain accepting 5 9 7 (state []) ≡ (blocked, state [])
serve_closed_example = serve_closed wire plain accepting 5 9 7 (state []) refl

-- Every read fails with -1.
abbrev dead : Socket
dead = record wire { recv = λ n w. (lost 0, w) }

read_decode_varint_lost_example : read_decode_varint dead 7 (on_wire []) ≡ (value 7, on_wire [])
read_decode_varint_lost_example =
    read_decode_varint_lost dead 7 0 (on_wire []) (on_wire []) refl (omega arith)
