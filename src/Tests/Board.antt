-- ===== src/Tests/Board.antt =====
-- A device with a lamp that is switched and a thermometer, and a wire that keeps the frames apart and
-- counts the connections.
use zephyr_esphome.Switch.Pins.{Gpio, gpio_switch}
use zephyr_esphome.Switch.Pins.Levels.{IsDriven}
use zephyr_esphome.Api.Pin.{Place, at_place}
use zephyr_esphome.Prelude.{
  ℕ, ◌+◌, ◌-◌, ◌*◌, ◌/◌, ◌^◌, ◌<◌, refl, List, [], ◌∷◌, ◌++◌, Bool, true, false, none, some, take,
  drop, length, ◌==◌, if◌then◌else◌, Code, int, pos, negsuc, neg, neg_eof, eio, success, is_nonzero,
  arith,
}
use zephyr_esphome.Rpc.Socket.{Socket, got}
use zephyr_esphome.Rpc.Service.{State}
use zephyr_esphome.Switch.{SwitchApi, off}
use zephyr_esphome.Switch.Laws.{IsSwitch}
use zephyr_esphome.Api.Base.{
  Config, Floats, Response, hello_response, connect_response, device_info_response,
  list_entities_response, list_entities_done_response, switch_state_response, sensor_state_response,
  ping_response, disconnect_response, Structs, Devices,
}
use zephyr_esphome.Api.Listing.{Records}
use zephyr_esphome.Rpc.Listen.Connections.{Opens}
use zephyr_esphome.Sensor.{Sampling, device_read_temperature}
use zephyr_esphome.Tests.Wire.{plain}
use zephyr_esphome.Tests.Entity.{led}

pub record Board : Type 0 where
  pub incoming : List ℕ
  pub frames : List (List ℕ)
  pub lamp : Code
  pub connections : ℕ
  pub pin : Bool

abbrev pub board : Socket
board = record {
  World = Board;
  recv = λ n w. (got (take n w.incoming), record w { incoming = drop n w.incoming });
  send = λ bs w. record w { frames = w.frames ++ (bs ∷ []) };
  accept = λ w. (true, record w { connections = w.connections + 1 });
  close = λ w. record w { connections = w.connections - 1 };
  alloc = λ n w. (true, w);
  release = λ w. w;
}

abbrev pub floats : Floats
floats = record { Float = ℕ; zero_float = 0; seconds = λ ns. ns / 1000000000 }

abbrev pub byte_of : Code → ℕ
byte_of (int (pos n)) = n
byte_of (int (negsuc n)) = 255
byte_of (neg e) = 255
byte_of neg_eof = 1

abbrev pub byte_of_bool : Bool → ℕ
byte_of_bool true = 1
byte_of_bool false = 0

-- The fields by which the responses here differ.
abbrev pub payload : Response floats → List ℕ
payload (hello_response name info major minor) = 16 ∷ major ∷ 24 ∷ minor ∷ []
payload (connect_response invalid) = 8 ∷ byte_of_bool invalid ∷ []
payload (device_info_response info) = 8 ∷ byte_of_bool info.uses_password ∷ []
payload (list_entities_response kind config key) = 21 ∷ key ∷ []
payload list_entities_done_response = []
payload (switch_state_response key state) = 13 ∷ key ∷ 16 ∷ byte_of state ∷ []
payload (sensor_state_response key state) = 13 ∷ key ∷ 21 ∷ state ∷ []
payload ping_response = []
payload disconnect_response = []

-- A number of four bytes, the lowest first, and one that follows.
abbrev pub key_of : List ℕ → ℕ
key_of (a ∷ b ∷ c ∷ d ∷ bs) = a + b * 2 ^ 8 + c * 2 ^ 16 + d * 2 ^ 24
key_of bs = 0

abbrev pub state_of : List ℕ → Code
state_of (a ∷ b ∷ c ∷ d ∷ v ∷ bs) = int (pos v)
state_of bs = off

abbrev pub structs : Structs floats plain
structs = record {
  payload = payload;
  password = λ p. p;
  switch_key = key_of;
  switch_state = state_of;
  button_key = key_of;
}

abbrev pub lamp_switch : SwitchApi Board
lamp_switch = record {
  set_state = λ v w. (success, record w { lamp = v });
  get_state = λ w. w.lamp;
}

pub lamp-IsSwitch : IsSwitch lamp_switch
lamp-IsSwitch = record { recorded = λ v w. refl }

-- A thermometer that cannot be read.
abbrev pub broken : Sampling floats Board
broken = record {
  Value = ℕ;
  ready = λ w. true;
  trigger_set = λ w. w;
  fetch = λ w. (neg eio, w);
  channel_get = λ w. ((success, 21), w);
  to_float = λ v. v;
}

-- The device 3 is the thermometer, the others show whether the lamp is on.
abbrev pub devices : Devices floats Board
devices = record {
  Dev = ℕ;
  switch = λ d. lamp_switch;
  on_press = λ d w. (success, w);
  read = λ d w.
      if d == 3
      then device_read_temperature floats broken w
      else ((success, some (byte_of w.lamp)), w);
}

abbrev pub secret : List ℕ
secret = 1 ∷ 2 ∷ []

abbrev pub config : Config
config = record {
  name = led 0x31;
  friendly_name = led 0x31;
  server_info = [];
  api_version_major = 1;
  api_version_minor = 10;
  compilation_time = [];
  project_name = none;
  project_version = none;
  model = none;
  manufacturer = none;
  password = some secret;
  port = 6053;
}

abbrev pub state : List ℕ → State board plain
state bs = record {
  world = record { incoming = bs; frames = []; lamp = off; connections = 1; pin = false };
  blocks = 0;
}

small_payload : (r : Response floats) → length (payload r) < 2 ^ 32
small_payload (hello_response name info major minor) = omega arith
small_payload (connect_response invalid) = omega arith
small_payload (device_info_response info) = omega arith
small_payload (list_entities_response kind config key) = omega arith
small_payload list_entities_done_response = omega arith
small_payload (switch_state_response key st) = omega arith
small_payload (sensor_state_response key st) = omega arith
small_payload ping_response = omega arith
small_payload disconnect_response = omega arith

pub board-Records : Records board plain floats structs (λ w. w.frames)
board-Records = record {
  has_block = λ n w. refl;
  alloc_sent = λ n w. refl;
  release_sent = λ n. refl;
  send_sent = λ bs w. refl;
  exact = λ r. refl;
  small = small_payload;
}

pub board-Opens : Opens board (λ w. w.connections)
board-Opens = record {
  accepted = λ w. refl;
  closed = λ w. refl;
  keeps = record {
    received = λ n w. refl;
    sent = λ bs w. refl;
    allocated = λ n w. refl;
    released = λ w. refl;
  };
}

-- The one pin of the board.
abbrev pub one_pin : Gpio
one_pin = record {
  World = Bool;
  Pin = Unit {0};
  configure_low = λ q w. (success, false);
  set = λ q v w. (success, is_nonzero v);
  sleep = λ w. w;
}

pub one_pin-IsDriven : IsDriven one_pin (λ w q. w)
one_pin-IsDriven = record {
  set_own = λ q v w e. refl;
  set_other = λ q r v w n. absurd (n refl);
  slept = λ q w. refl;
}

abbrev pub place : Place Board one_pin
place = record {
  get = λ w. record { state = w.lamp; world = w.pin };
  put = λ d w. record w { lamp = d.state; pin = d.world };
  get-put = λ d w. refl;
}

-- The devices of the board, where the lamp is on the pin.
abbrev pub pin_devices : Devices floats Board
pin_devices = record devices { switch = λ d. at_place one_pin place (gpio_switch one_pin tt) }
