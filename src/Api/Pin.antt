-- ===== src/Api/Pin.antt =====
-- A command over the wire for a switch on one pin: from SwitchCommandRequestCb of api.c to
-- esphome_gpio_switch_set_state of switch/gpio.c.
use zephyr_esphome.Prelude.{
  ℕ, suc, ◌≡◌, refl, ap, ◌∙◌, ◌⊎◌, inl, inr, List, Bool, true, false, Bool-cases, Code, is_nonzero,
  is_negative,
}
use zephyr_esphome.Entity.{Entity, fnv1_hash}
use zephyr_esphome.Entity.Registry.{Lacks}
use zephyr_esphome.Rpc.Socket.{Socket}
use zephyr_esphome.Rpc.Service.{Codec, State, returned, read_request}
use zephyr_esphome.Rpc.Service.Arrival.{Arrives, arrived}
use zephyr_esphome.Switch.{SwitchApi}
use zephyr_esphome.Switch.Laws.{IsSwitch}
use zephyr_esphome.Switch.Pins.{Gpio, Device, gpio_switch, gpio_switch_set_state}
use zephyr_esphome.Switch.Pins.Levels.{IsDriven, gpio_switch-IsSwitch, negative-is_nonzero}
use zephyr_esphome.Api.Base.{Config, Floats, switch_state_response, Structs, Devices}
use zephyr_esphome.Api.{write, api_callback}
use zephyr_esphome.Api.Commands.{switch_command, reported, entities, read_request-switch_command}

-- Where a device with pins lies in the state that the sockets and the devices share.
pub record Place (World : Type 0) (g : Gpio) : Type 0 where
  pub get : World → Device g
  pub put : Device g → World → World
  pub get-put : (d : Device g) (w : World) → get (put d w) ≡ d

module _ {World : Type 0} (g : Gpio) (place : Place World g) where
  -- The switch of the device, over the shared state.
  abbrev pub at_place : SwitchApi (Device g) → SwitchApi World
  at_place api = record {
    set_state = λ v w. let (ret, d) = api.set_state v (place.get w) in (ret, place.put d w);
    get_state = λ w. api.get_state (place.get w);
  }

  at_place-IsSwitch : (api : SwitchApi (Device g)) → IsSwitch api → IsSwitch (at_place api)
  at_place-IsSwitch api laws = record {
    recorded = λ v w.
        ap api.get_state (place.get-put (api.set_state v (place.get w)).1 w)
        ∙ laws.recorded v (place.get w);
  }

module _ (s : Socket) (c : Codec) (f : Floats) (structs : Structs f c)
    (devices : Devices f (s.World)) (config : Config) (g : Gpio) (place : Place (s.World) g)
    (pin : g.Pin) (level : g.World → g.Pin → Bool) (driven : IsDriven g level) where
  open devices use {Dev, switch}
  open structs use {switch_key, switch_state}

  -- What a switch that is told `v` reports, and what becomes of its pin. Where the call of
  -- gpio_pin_set_dt does not fail, it reports `v`, and the pin has this level; where it fails, it reports the
  -- state that it had, and keeps it.
  abbrev pub Obeys : (state : Code) → Code → (w w' : s.World) → Type 0
  Obeys state v w w' =
      let ret = (g.set pin v (place.get w).world).0 in
      ((is_negative ret ≡ false)
        × (state ≡ v)
        × ((place.get w').state ≡ v)
        × (level (place.get w').world pin ≡ is_nonzero v))
      ⊎ ((is_negative ret ≡ true)
          × (state ≡ (place.get w).state)
          × ((place.get w').state ≡ (place.get w).state))

  pin-Obeys :
      (api : SwitchApi (s.World)) (v : Code) (w : s.World)
      → api ≡ at_place g place (gpio_switch g pin)
      → Obeys (reported s c f structs devices config api v w) v w (api.set_state v w).1
  unfolding gpio_switch_set_state
  pin-Obeys api v w e = elim (Bool-cases (is_negative (g.set pin v (place.get w).world).0)) [
    | inl failure ↦ inr (
      failure,
      rw (e, failure, negative-is_nonzero (g.set pin v (place.get w).world).0 failure) refl,
      rw (e, failure, place.get-put) refl,
    )
    | inr done ↦ inl (
      done,
      rw (e, done) refl,
      rw (e, done, place.get-put) refl,
      rw (e, done, place.get-put) (driven.set_own pin v (place.get w).world done),
    )
  ]

  -- A command for a switch on a pin, by the hash of its name, that arrives whole, ends in one of two
  -- ways: where the call of gpio_pin_set_dt does not fail, the pin has the level of the state commanded and
  -- the answer reports this state; where it fails, the answer reports the state that the switch had before,
  -- which it keeps. It is supposed that the entities before it have other hashes, and that a call of
  -- gpio_pin_set_dt that does not fail sets its pin.
  pub read_request-gpio_switch :
      (signed : Bool) (api_dev : Dev) (front back : List (Entity Dev)) (e : Entity Dev)
      (p : c.Payload) (rounds val : ℕ) (st : State s c) (w : s.World)
      → Lacks signed api_dev (fnv1_hash signed e.config.object_id) front
      → switch e.dev ≡ at_place g place (gpio_switch g pin)
      → switch_key p ≡ fnv1_hash signed e.config.object_id
      → Arrives s c switch_command p st.world w
      → (state : Code) × (w' : s.World) × Obeys state (switch_state p) w w'
        × (let r =
              write s c f structs devices
                (switch_state_response (switch_key p) state)
                (record (arrived s c st w) { world = w' }) in
            read_request s c
              (api_callback s c f structs devices config
                (entities s c f structs devices config signed api_dev front back e))
              (suc rounds)
              val
              st
            ≡ (returned r.0, r.1))
  read_request-gpio_switch signed api_dev front back e p rounds val st w first is_pin key a = (
    reported s c f structs devices config (switch e.dev) (switch_state p) w,
    ((switch e.dev).set_state (switch_state p) w).1,
    pin-Obeys (switch e.dev) (switch_state p) w is_pin,
    read_request-switch_command s c f structs devices config signed api_dev front back e p rounds
        val st w first
        (rw is_pin (at_place-IsSwitch g place (gpio_switch g pin) (gpio_switch-IsSwitch g pin))) key
        a,
  )
