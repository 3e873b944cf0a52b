-- ===== src/Tests/Bridge.antt =====
-- The switch on a bridge at every moment, at concrete inputs: two pins, of which the second may stay high.
use zephyr_esphome.Prelude.{
  ◌≡◌, ◌≢◌, refl, [], ◌∷◌, Bool, true, false, if◌then◌else◌, Code, neg, eio, einval, success,
  is_nonzero, is_negative, arith,
}
use zephyr_esphome.Switch.{on, off}
use zephyr_esphome.Switch.Pins.{Gpio, hbridge_gpios, hbridge_set_state}
use zephyr_esphome.Switch.Pins.Levels.{IsDriven}
use zephyr_esphome.Switch.Pins.Pulse.{napping, hbridge_set_state-napping}
use zephyr_esphome.Switch.Pins.Shorts.{hbridge_set_state_shorts}
use zephyr_esphome.Switch.Pins.Bridge.{watched, IsSteady, command_all, command_all-watched}

abbrev Levels : Type 0
Levels = Bool × Bool

-- `sticky` says whether the second pin, `true`, fails to go low.
abbrev set_pin : (sticky : Bool) → Bool → Code → Levels → Code × Levels
set_pin sticky false v (a, b) = (success, (is_nonzero v, b))
set_pin true true v (a, b) = if is_nonzero v then (success, (a, true)) else (neg eio, (a, b))
set_pin false true v (a, b) = (success, (a, is_nonzero v))

abbrev pins : Bool → Gpio
pins sticky = record {
  World = Levels;
  Pin = Bool;
  configure_low = λ q. set_pin sticky q off;
  set = set_pin sticky;
  sleep = λ w. w;
}

abbrev level : Levels → Bool → Bool
level (a, b) false = a
level (a, b) true = b

own :
    (sticky q : Bool) (v : Code) (w : Levels)
    → is_negative (set_pin sticky q v w).0 ≡ false
    → level (set_pin sticky q v w).1 q ≡ is_nonzero v
own sticky false v (a, b) e = refl
own true true v (a, b) e = ground arith
own false true v (a, b) e = refl

other :
    (sticky q r : Bool) (v : Code) (w : Levels)
    → q ≢ r
    → level (set_pin sticky q v w).1 r ≡ level w r
other sticky false false v w n = absurd (n refl)
other sticky false true v (a, b) n = refl
other true true false v (a, b) n = ground arith
other false true false v (a, b) n = refl
other sticky true true v w n = absurd (n refl)

steady : (sticky : Bool) → IsSteady (pins sticky) level false true
unfolding IsSteady
steady sticky false v (a, b) e = cc e
steady true true v (a, b) e = ground arith
steady false true v (a, b) e = cc e

pins-IsDriven : (sticky : Bool) → IsDriven (pins sticky) level
pins-IsDriven sticky = record {
  set_own = own sticky;
  set_other = other sticky;
  slept = λ q w. refl;
}

command_all-watched_example :
    (command_all
      (pins false)
      level
      false
      true
      (on ∷ off ∷ on ∷ [])
      (record { state = neg einval; world = ((false, false), false) })).world.1
    ≡ false
command_all-watched_example =
    command_all-watched (pins false) level false true (pins-IsDriven false) (steady false)
      (λ e. cc e) (on ∷ off ∷ on ∷ []) (neg einval) (false, false) refl refl

hbridge_set_state-napping_example :
    let w =
      (hbridge_set_state
        (napping (pins false) level false true)
        false
        true
        on
        (record { state = neg einval; world = ((false, false), []) })).1.world in
    (w.1 ≡ (true, false) ∷ []) × (level w.0 false ≡ false) × (level w.0 true ≡ false)
unfolding hbridge_set_state hbridge_gpios
hbridge_set_state-napping_example =
    hbridge_set_state-napping (pins false) level false true (pins-IsDriven false) (λ e. cc e) on
      (record { state = neg einval; world = ((false, false), []) }) refl

-- The second pin stays high after the pulse, and the next command sets the first one beside it.
hbridge_set_state_shorts_example :
    let bridge = watched (pins true) level false true in
    let failed =
      hbridge_set_state bridge false true off
        (record { state = neg einval; world = ((false, false), false) }) in
    (is_negative failed.0 ≡ true)
    × ((hbridge_set_state bridge false true on failed.1).1.world.1 ≡ true)
unfolding hbridge_gpios
hbridge_set_state_shorts_example =
    hbridge_set_state_shorts (pins true) level false true (pins-IsDriven true) (steady true)
      (λ e. cc e) (neg einval) (false, false) refl refl refl refl
