-- ===== src/Switch/Pins.antt =====
-- switch/gpio.c and switch/hbridge.c: a switch on one pin, and one that drives a bridge by a pulse on
-- one of two pins.
pub mod Levels
pub mod Pulse
pub mod Bridge
pub mod Shorts
use zephyr_esphome.Prelude.{
  Bool, true, false, if◌then◌else◌, Code, neg, einval, success, is_nonzero, is_negative,
}
use zephyr_esphome.Switch.{SwitchApi, on, off}

-- What the code uses of Zephyr: the pins, over a state `World` that only they read.
pub record Gpio : Type 1 where
  pub World : Type 0
  pub Pin : Type 0
  -- gpio_pin_configure_dt(pin, GPIO_OUTPUT_LOW)
  pub configure_low : Pin → World → Code × World
  -- gpio_pin_set_dt(pin, value)
  pub set : Pin → Code → World → Code × World
  -- k_sleep(K_MSEC(config->wait_time))
  pub sleep : World → World

module _ (g : Gpio) where
  open g use {World, Pin, configure_low, set, sleep}

  -- A device: the state that it has recorded, and the pins.
  pub record Device : Type 0 where
    pub state : Code
    pub world : World

  unfoldable pub gpio_switch_init : Pin → Device → Code × Device
  gpio_switch_init pin d =
      let (ret, w) = configure_low pin d.world in
      if is_nonzero ret
      then (ret, record d { world = w })
      else (success, record { state = neg einval; world = w })

  unfoldable pub gpio_switch_set_state : Pin → Code → Device → Code × Device
  gpio_switch_set_state pin state d =
      let (ret, w) = set pin state d.world in
      if is_negative ret
      then (ret, record d { world = w })
      else (success, record { state = state; world = w })

  abbrev pub gpio_switch : Pin → SwitchApi Device
  gpio_switch pin = record {
    set_state = gpio_switch_set_state pin;
    get_state = λ (d : Device). d.state;
  }

  module _ (on_pin off_pin : Pin) where
    unfoldable pub hbridge_init : Device → Code × Device
    hbridge_init d =
        let (ret, w) = configure_low on_pin d.world in
        let (ret', w') = configure_low off_pin w in
        if is_nonzero ret
        then (ret, record d { world = w })
        else if is_nonzero ret'
        then (ret', record d { world = w' })
        else (success, record { state = neg einval; world = w' })

    -- esphome_switch_hbridge_gpios
    unfoldable pub hbridge_gpios : (on_value off_value : Code) → World → Code × World
    hbridge_gpios on_value off_value w =
        let (ret, w') = set on_pin on_value w in
        let (ret', w'') = set off_pin off_value w' in
        if is_negative ret
        then (ret, w')
        else if is_negative ret'
        then (ret', w'')
        else (success, w'')

    -- `!state`
    abbrev pub not_state : Code → Code
    not_state state = if is_nonzero state then off else on

    unfoldable pub hbridge_set_state : Code → Device → Code × Device
    hbridge_set_state state d =
        let (ret, w) = hbridge_gpios state (not_state state) d.world in
        let (ret', w') = hbridge_gpios off off (sleep w) in
        if is_negative ret
        then (ret, record d { world = w })
        else if is_negative ret'
        then (ret', record d { world = w' })
        else (success, record { state = state; world = w' })

    abbrev pub hbridge_switch : SwitchApi Device
    hbridge_switch = record { set_state = hbridge_set_state; get_state = λ (d : Device). d.state }
