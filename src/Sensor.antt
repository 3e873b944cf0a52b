-- ===== src/Sensor.antt =====
-- sensor.h, sensor/sensor.c, sensor/temperature.c and sensor/timestamp.c: sensors that are read once a
-- second, and reported to the client of the API.
pub mod Report
use zephyr_esphome.Prelude.{
  ℕ, zero, suc, List, [], ◌∷◌, Bool, true, false, Option, none, some, if◌then◌else◌, Code, neg,
  enodev, is_nonzero, success,
}
use zephyr_esphome.Entity.{Entity}
use zephyr_esphome.Rpc.Socket.{Socket}
use zephyr_esphome.Rpc.Service.{Codec, State}
use zephyr_esphome.Api.Base.{Floats, sensor_state_response, Structs, Devices}
use zephyr_esphome.Api.{write}

-- What sensor/temperature.c uses of Zephyr's sensors, over their state `World`.
pub record Sampling (f : Floats) (World : Type 0) : Type 1 where
  pub Value : Type 0
  -- device_is_ready
  pub ready : World → Bool
  -- sensor_trigger_set with sensor_temperature_handler; its result is dropped
  pub trigger_set : World → World
  -- sensor_sample_fetch
  pub fetch : World → Code × World
  -- sensor_channel_get(..., SENSOR_CHAN_AMBIENT_TEMP, ...)
  pub channel_get : World → (Code × Value) × World
  -- sensor_value_to_float
  pub to_float : Value → f.Float

-- struct esphome_sensor_api, and the flag of struct esphome_sensor_data. `none` is NULL.
pub record SensorApi (f : Floats) (World : Type 0) : Type 0 where
  pub init : Option (World → Code × World)
  pub read : World → (Code × Option (f.Float)) × World

pub record SensorData : Type 0 where
  pub data_rdy : Bool

-- The flag is read nowhere.
unfoldable pub sensor_temperature_handler : SensorData → SensorData
sensor_temperature_handler d = record d { data_rdy = true }

-- esphome_sensor_init
unfoldable pub sensor_init :
    {f : Floats} {World : Type 0} → SensorApi f World → World → Code × World
sensor_init api w = elim api.init [ none ↦ (success, w) | some init ↦ init w ]

module _ (f : Floats) {World : Type 0} where
  module _ (sensor : Sampling f World) where
    -- The result, and what is stored in `*state`.
    unfoldable pub device_read_temperature : World → (Code × Option (f.Float)) × World
    device_read_temperature w =
        let (ret, w') = sensor.fetch w in
        let ((ret', value), w'') = sensor.channel_get w' in
        if is_nonzero ret
        then ((ret, none), w')
        else if is_nonzero ret'
        then ((ret', none), w'')
        else ((ret', some (sensor.to_float value)), w'')

    unfoldable pub device_init_temperature : World → Code × World
    device_init_temperature w =
        if sensor.ready w then (success, sensor.trigger_set w) else (neg enodev, w)

    abbrev pub temperature_sensor : SensorApi f World
    temperature_sensor = record {
      init = some device_init_temperature;
      read = device_read_temperature;
    }

  -- `uptime` is k_ticks_to_ns_floor64(k_uptime_ticks()).
  unfoldable pub device_read_timestamp :
      (uptime : World → ℕ) → World → (Code × Option (f.Float)) × World
  device_read_timestamp uptime w = ((success, some (f.seconds (uptime w))), w)

  abbrev pub timestamp_sensor : (uptime : World → ℕ) → SensorApi f World
  timestamp_sensor uptime = record { init = none; read = device_read_timestamp uptime }

module _ (s : Socket) (c : Codec) (f : Floats) (structs : Structs f c)
    (devices : Devices f (s.World)) where
  -- esphome_sensor_send_state: the results of the reading and of the writing are dropped, and what
  -- the reading does not store is as SENSOR_STATE_RESPONSE__INIT has it.
  unfoldable pub sensor_send_state : Entity (devices.Dev) → State s c → State s c
  sensor_send_state e st =
      let ((ret, state), w) = devices.read e.dev st.world in
      let response =
        sensor_state_response e.key (elim state [ none ↦ f.zero_float | some v ↦ v ]) in
      let (ret', st') = write s c f structs devices response (record st { world = w }) in st'

  -- One round of esphome_sensor_service, over the entities of the sensors.
  unfoldable pub sensor_round : List (Entity (devices.Dev)) → State s c → State s c
  sensor_round [] st = st
  sensor_round (e ∷ es) st = sensor_round es (sensor_send_state e st)

  -- The loop of esphome_sensor_service, for `rounds` rounds; `sleep` is k_sleep(K_MSEC(1000)).
  unfoldable pub sensor_service :
      (sleep : s.World → s.World) (rounds : ℕ) → List (Entity (devices.Dev)) → State s c → State s c
  sensor_service sleep zero es st = st
  sensor_service sleep (suc rounds) es st =
      let st' = sensor_round es st in
      sensor_service sleep rounds es (record st' { world = sleep st'.world })
