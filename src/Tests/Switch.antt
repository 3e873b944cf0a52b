-- ===== src/Tests/Switch.antt =====
-- Runs of the switches and of the networks, and their theorems at concrete inputs: two pins whose
-- levels are two Booleans.
use zephyr_esphome.Prelude.{
  ℕ, ◌≡◌, ◌≢◌, refl, List, [], ◌∷◌, some, Bool, true, false, Code, neg, einval, eio, success,
  is_nonzero, is_negative,
}
use zephyr_esphome.Switch.{
  on, off, switch_get_state, switch_turn_on, switch_turn_off, switch_toggle,
}
use zephyr_esphome.Switch.Pins.{
  Gpio, Device, gpio_switch_init, gpio_switch_set_state, gpio_switch, hbridge_init,
}
use zephyr_esphome.Switch.Pins.Levels.{IsDriven}
use zephyr_esphome.Wifi.{initial, get_next}
use zephyr_esphome.Wifi.Turns.{after}

-- The pin `false` is the first one. `works` says whether the second can be set.
record Levels : Type 0 where
  pub first : Bool
  pub second : Bool

abbrev level : Levels → Bool → Bool
level w false = w.first
level w true = w.second

abbrev set_pin : (works : Bool) → Bool → Code → Levels → Code × Levels
set_pin works false v w = (success, record w { first = is_nonzero v })
set_pin true true v w = (success, record w { second = is_nonzero v })
set_pin false true v w = (neg eio, w)

abbrev board : Bool → Gpio
board works = record {
  World = Levels;
  Pin = Bool;
  configure_low = λ q. set_pin works q off;
  set = set_pin works;
  sleep = λ w. w;
}

set_own_board :
    (works q : Bool) (v : Code) (w : Levels)
    → is_negative (set_pin works q v w).0 ≡ false
    → level (set_pin works q v w).1 q ≡ is_nonzero v
set_own_board works false v w e = refl
set_own_board true true v w e = refl
set_own_board false true v w e = cc

set_other_board :
    (works q r : Bool) (v : Code) (w : Levels) → q ≢ r → level (set_pin works q v w).1 r ≡ level w r
set_other_board works false false v w n = absurd (n refl)
set_other_board works false true v w n = refl
set_other_board true true false v w n = refl
set_other_board true true true v w n = absurd (n refl)
set_other_board false true r v w n = refl

board-IsDriven : (works : Bool) → IsDriven (board works) level
board-IsDriven works = record {
  set_own = set_own_board works;
  set_other = set_other_board works;
  slept = λ q w. refl;
}

abbrev low : Levels
low = record { first = false; second = false }

abbrev fresh : (works : Bool) → Device (board works)
fresh works = record { state = neg einval; world = low }

abbrev lit : Device (board true)
lit = record { state = on; world = record { first = true; second = false } }

toggle_run :
    switch_toggle (gpio_switch (board true) false) lit
    ≡ (success, record { state = off; world = low })
unfolding switch_toggle switch_get_state switch_turn_on switch_turn_off gpio_switch_set_state
toggle_run = refl

init_run : gpio_switch_init (board true) false lit ≡ (success, fresh true)
unfolding gpio_switch_init
init_run = refl

hbridge_init_fails : hbridge_init (board false) false true (fresh false) ≡ (neg eio, fresh false)
unfolding hbridge_init
hbridge_init_fails = refl

abbrev nets : List ℕ
nets = 10 ∷ 20 ∷ 30 ∷ []

third_then_first : (get_next (after 3 (initial nets))).0 ≡ some 10
unfolding get_next after initial
third_then_first = refl
