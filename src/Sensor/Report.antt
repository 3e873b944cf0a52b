-- ===== src/Sensor/Report.antt =====
-- What the thread of the sensors puts on the wire.
use zephyr_esphome.Prelude.{
  ℕ, ◌≡◌, refl, sym, ap, ◌∙◌, List, [], ◌∷◌, ◌++◌, true, Option, none, some, is_nonzero,
}
use mathlib.Core.List.{append_assoc, append-nil}
use zephyr_esphome.Entity.{Entity}
use zephyr_esphome.Rpc.Socket.{Socket}
use zephyr_esphome.Rpc.Service.{Codec, State}
use zephyr_esphome.Api.Base.{Floats, sensor_state_response, Structs, Devices}
use zephyr_esphome.Api.{write}
use zephyr_esphome.Api.Listing.{Records, frame, write-Wrote}
use zephyr_esphome.Sensor.{Sampling, device_read_temperature, sensor_send_state, sensor_round}

module _ (s : Socket) (c : Codec) (f : Floats) (structs : Structs f c)
    (devices : Devices f (s.World)) (sent : s.World → List (List ℕ))
    (records : Records s c f structs sent) where
  open devices use {Dev, read}

  -- What a reading leaves in the response.
  abbrev pub reading : Option (f.Float) → f.Float
  reading none = f.zero_float
  reading (some v) = v

  -- The frame of a sensor: its key, and what a reading of it leaves in this state.
  abbrev pub report : Entity Dev → State s c → List ℕ
  report e st =
      frame s c f structs (sensor_state_response e.key (reading (read e.dev st.world).0.1))

  -- The state after the reading of a sensor, and the writing of what it left.
  abbrev pub reported : Entity Dev → State s c → State s c
  reported e st =
      let response = sensor_state_response e.key (reading (read e.dev st.world).0.1) in
      (write s c f structs devices response (record st { world = (read e.dev st.world).1 })).1

  -- The frames of the sensors, one each, in their order: each sensor is read once, in the state that the
  -- sensors before it have left.
  abbrev pub reports : List (Entity Dev) → State s c → List (List ℕ)
  reports [] st = []
  reports (e ∷ es) st = report e st ∷ reports es (reported e st)

  module _ (quiet : (d : Dev) (w : s.World) → sent (read d w).1 ≡ sent w) where
    send_state-sent :
        (e : Entity Dev) (st : State s c)
        → sent (sensor_send_state s c f structs devices e st).world
          ≡ sent st.world
            ++ (frame s c f structs
                  (sensor_state_response e.key (reading (read e.dev st.world).0.1))
                ∷ [])
    unfolding sensor_send_state
    send_state-sent e st =
        let response = sensor_state_response e.key (reading (read e.dev st.world).0.1) in
        let after = record st { world = (read e.dev st.world).1 } in
        (write-Wrote s c f structs devices sent records response after).frames
        ∙ ap (λ t. t ++ (frame s c f structs response ∷ [])) (quiet e.dev st.world)

    -- A round of the thread of the sensors sends one frame for each sensor, in their order, with its
    -- key and what this round's reading of it left, which is taken after the sensors before it were read
    -- and reported. It is supposed that the heap always has a block, that protobuf-c's sizes are exact and
    -- below 4 GiB, and that a reading sends nothing.
    pub sensor_round-reports :
        (es : List (Entity Dev)) (st : State s c)
        → sent (sensor_round s c f structs devices es st).world ≡ sent st.world ++ reports es st
    unfolding sensor_round sensor_send_state
    sensor_round-reports [] st = sym (append-nil (sent st.world))
    sensor_round-reports (e ∷ es) st =
        sensor_round-reports es (reported e st)
        ∙ ap (λ t. t ++ reports es (reported e st)) (send_state-sent e st)
        ∙ rw append_assoc refl

    -- A temperature that could not be sampled is reported as the initial value of the field, which is 0:
    -- the error is dropped. It is supposed that the heap always has a block, that protobuf-c's sizes are
    -- exact and below 4 GiB, and that a reading sends nothing.
    pub temperature_unsampled :
        (sensor : Sampling f (s.World)) (e : Entity Dev) (st : State s c)
        → ((w : s.World) → read e.dev w ≡ device_read_temperature f sensor w)
        → is_nonzero (sensor.fetch st.world).0 ≡ true
        → sent (sensor_send_state s c f structs devices e st).world
          ≡ sent st.world ++ (frame s c f structs (sensor_state_response e.key f.zero_float) ∷ [])
    unfolding device_read_temperature
    temperature_unsampled sensor e st driver failed =
        let missing : (read e.dev st.world).0.1 ≡ none =
          ap (λ t. t.0.1) (driver st.world) ∙ rw failed refl in
        send_state-sent e st
        ∙ ap
            (λ v.
              sent st.world ++ (frame s c f structs (sensor_state_response e.key (reading v)) ∷ []))
            missing
