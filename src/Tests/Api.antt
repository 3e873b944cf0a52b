-- ===== src/Tests/Api.antt =====
-- Runs of api.c and of the sensors, and their theorems at concrete inputs.
use zephyr_esphome.Prelude.{false, Code}
use zephyr_esphome.Api.Pin.{Obeys, read_request-gpio_switch}
use zephyr_esphome.Tests.Board.{one_pin, one_pin-IsDriven, place, pin_devices}
use zephyr_esphome.Prelude.{
  ℕ, ◌+◌, ◌≤◌, ◌≡◌, ◌≢◌, ◌↔◌, refl, List, [], ◌∷◌, ◌++◌, map, Bool, true, success, arith,
}
use zephyr_esphome.Entity.{Entity, promoted, hash_round, fnv1_hash, entity_init}
use zephyr_esphome.Rpc.Varint.{varint_encode, read_decode_varint}
use zephyr_esphome.Rpc.Header.{
  header_size, encode_header, read_header, read_start, read_len, read_rpc_id,
}
use zephyr_esphome.Rpc.Messages.{write_form}
use zephyr_esphome.Rpc.Service.{
  State, returned, message_write, write_packed, rpc_send, read_request,
}
use zephyr_esphome.Rpc.Service.Arrival.{Arrives}
use zephyr_esphome.Switch.{on}
use zephyr_esphome.Api.Base.{
  connect_response, list_entities_done_response, switch_state_response, sensor_state_response,
}
use zephyr_esphome.Api.{write, api_callback, connect_request_cb, list_entities_request_cb}
use zephyr_esphome.Api.Commands.{switch_command, read_request-switch_command}
use zephyr_esphome.Api.Listing.{Wrote, frame, entity_frame, list_entities_request_cb-Wrote}
use zephyr_esphome.Api.Session.{read_request-api_callback_leaks, connect_request_cb-Wrote}
use zephyr_esphome.Rpc.Listen.{accept_loop}
use zephyr_esphome.Api.Connections.{accept_loop-one_more}
use zephyr_esphome.Api.Version.{digits, decimal, version, get_version}
use zephyr_esphome.Sensor.{device_read_temperature, sensor_send_state, sensor_round}
use zephyr_esphome.Sensor.Report.{reports, sensor_round-reports, temperature_unsampled}
use zephyr_esphome.Tests.Wire.{plain}
use zephyr_esphome.Tests.Entity.{led, entity, leds}
use zephyr_esphome.Tests.Board.{
  Board, board, floats, structs, lamp-IsSwitch, broken, devices, secret, config, state,
  board-Records, board-Opens,
}

-- "led2", switched on.
abbrev command : List ℕ
command = 86 ∷ 191 ∷ 176 ∷ 78 ∷ 1 ∷ []

abbrev request : List ℕ
request = 0 ∷ 5 ∷ 33 ∷ command

abbrev read_all : Board
read_all = (state []).world

command-Arrives : Arrives board plain switch_command command (state request).world read_all
unfolding write_form encode_header varint_encode
command-Arrives = record {
  headed = (state command).world;
  with_block = (state command).world;
  has_payload = refl;
  sized = refl;
  nonempty = λ e. omega (arith, e);
  small = omega arith;
  decoded = refl;
  header = (_, refl, (_, refl, (_, refl, refl)));
  block = refl;
  body = refl;
}

-- The lamp is on, the answer says so, and the block of the payload is lost.
abbrev switched : State board plain
switched = record {
  world = record {
    incoming = [];
    frames = frame board plain floats structs (switch_state_response 1320206166 on) ∷ [];
    lamp = on;
    connections = 1;
    pin = false;
  };
  blocks = 1;
}

read_request-switch_command_example :
    read_request board plain
      (api_callback board plain floats structs devices config (entity_init true 9 leds))
      1
      7
      (state request)
    ≡ (returned success, switched)
unfolding fnv1_hash hash_round promoted write frame write_form message_write write_packed rpc_send
    encode_header header_size varint_encode
read_request-switch_command_example =
    read_request-switch_command board plain floats structs devices config true 9
      (entity 1 (led 0x31) ∷ []) [] (entity 2 (led 0x32)) command 0 7 (state request) read_all
      (λ e. omega (arith, e), tt) lamp-IsSwitch refl command-Arrives

-- A command for a key that no name has.
abbrev stray : List ℕ
stray = 1 ∷ 0 ∷ 0 ∷ 0 ∷ 1 ∷ []

stray-Arrives : Arrives board plain switch_command stray (state (0 ∷ 5 ∷ 33 ∷ stray)).world read_all
unfolding write_form encode_header varint_encode
stray-Arrives = record {
  headed = (state stray).world;
  with_block = (state stray).world;
  has_payload = refl;
  sized = refl;
  nonempty = λ e. omega (arith, e);
  small = omega arith;
  decoded = refl;
  header = (_, refl, (_, refl, (_, refl, refl)));
  block = refl;
  body = refl;
}

list_entities_request_cb-Wrote_example :
    Wrote board plain floats structs
      (λ w. w.frames)
      (map (entity_frame board plain floats structs devices (λ w. w.frames) board-Records) leds
        ++ (frame board plain floats structs list_entities_done_response ∷ []))
      (state [])
      (list_entities_request_cb board plain floats structs devices leds (state []))
list_entities_request_cb-Wrote_example =
    list_entities_request_cb-Wrote board plain floats structs devices (λ w. w.frames) board-Records
      leds (state [])

-- The wrong password.
connect_request_cb-Wrote_example :
    (invalid : Bool) × ((invalid ≡ true) ↔ (secret ≢ (1 ∷ 3 ∷ [])))
    × Wrote board plain floats structs
        (λ w. w.frames)
        (frame board plain floats structs (connect_response invalid) ∷ [])
        (state [])
        (connect_request_cb board plain floats structs devices config (1 ∷ 3 ∷ []) (state []))
connect_request_cb-Wrote_example =
    connect_request_cb-Wrote board plain floats structs devices config (λ w. w.frames) board-Records
      secret (1 ∷ 3 ∷ []) (state []) refl

read_request-api_callback_leaks_example :
    (read_request board plain
      (api_callback board plain floats structs devices config leds)
      1
      7
      (state request)).1.blocks
    ≡ 0 + 1
unfolding read_header read_start read_len read_rpc_id read_decode_varint
read_request-api_callback_leaks_example =
    read_request-api_callback_leaks board plain floats structs devices config leds 1 7 33 5
      (state request) (state command).world (state command).world refl (λ e. omega (arith, e)) refl

get_version_run : get_version 1 10 32 ≡ 0x31 ∷ 0x2e ∷ 0x31 ∷ 0x30 ∷ []
unfolding get_version version decimal digits
get_version_run = refl

-- A lamp and the thermometer.
abbrev sensors : List (Entity ℕ)
sensors = entity 1 (led 0x31) ∷ entity 3 (led 0x32) ∷ []

quiet : (d : ℕ) (w : Board) → (devices.read d w).1.frames ≡ w.frames
unfolding device_read_temperature
quiet d w = ground arith

sensor_round-reports_example :
    (sensor_round board plain floats structs devices sensors (state [])).world.frames
    ≡ []
      ++ reports board plain floats structs devices (λ w. w.frames) board-Records sensors (state [])
sensor_round-reports_example =
    sensor_round-reports board plain floats structs devices (λ w. w.frames) board-Records quiet
      sensors (state [])

temperature_unsampled_example :
    (sensor_send_state board plain floats structs devices
      (entity 3 (led 0x32))
      (state [])).world.frames
    ≡ [] ++ (frame board plain floats structs (sensor_state_response 0 0) ∷ [])
temperature_unsampled_example =
    temperature_unsampled board plain floats structs devices (λ w. w.frames) board-Records quiet
      broken (entity 3 (led 0x32)) (state []) (λ w. refl) refl

-- The first client switches the lamp and leaves.
abbrev visits : State board plain
visits = state (request ++ (0 ∷ 0 ∷ 5 ∷ []))

accept_loop-one_more_example :
    (accept_loop board plain
      (api_callback board plain floats structs devices config (entity_init true 9 leds))
      2
      3
      4
      7
      visits).1.world.connections
    ≤ 1 + 1
accept_loop-one_more_example =
    accept_loop-one_more board plain floats structs devices config (entity_init true 9 leds)
      (λ w. w.connections) 2 3 4 7 visits board-Opens
      (record { commanded = λ d v w. refl; pressed = λ d w. refl })

-- The lamp is on the pin.
read_request-gpio_switch_example :
    (st : Code) × (w : Board) × Obeys board plain floats structs pin_devices config one_pin place tt
      (λ l q. l)
      one_pin-IsDriven
      st
      on
      read_all
      w
    × (let r =
          write board plain floats structs pin_devices
            (switch_state_response 1320206166 st)
            (record { world = w; blocks = 1 }) in
        read_request board plain
          (api_callback board plain floats structs pin_devices config
            (entity_init true 9 (entity 1 (led 0x31) ∷ entity 2 (led 0x32) ∷ [])))
          1
          7
          (state request)
        ≡ (returned r.0, r.1))
unfolding fnv1_hash hash_round promoted
read_request-gpio_switch_example =
    read_request-gpio_switch board plain floats structs pin_devices config one_pin place tt
      (λ l q. l) one_pin-IsDriven true 9 (entity 1 (led 0x31) ∷ []) [] (entity 2 (led 0x32)) command
      0 7 (state request) read_all (λ e. omega (arith, e), tt) refl refl command-Arrives
