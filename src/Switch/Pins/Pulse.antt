-- ===== src/Switch/Pins/Pulse.antt =====
-- The pulse of switch/hbridge.c: the levels of the two pins while esphome_switch_hbridge_set_state sleeps.
use zephyr_esphome.Prelude.{
  ◌≡◌, ◌≢◌, refl, ap, ◌∙◌, inl, inr, List, [], ◌∷◌, ◌++◌, Bool, false, not, Code, is_nonzero,
  is_negative, Bool-cases, arith,
}
use zephyr_esphome.Switch.{off}
use zephyr_esphome.Switch.Pins.{Gpio, Device, hbridge_gpios, not_state, hbridge_set_state}
use zephyr_esphome.Switch.Pins.Levels.{IsDriven, hbridge_set_state-level, negative-is_nonzero}

module _ (g : Gpio) (level : g.World → g.Pin → Bool) (on_pin off_pin : g.Pin) where
  -- The same pins with a record of the levels of the two at every k_sleep.
  abbrev pub napping : Gpio
  napping = record {
    World = g.World × List (Bool × Bool);
    Pin = g.Pin;
    configure_low = λ q w. let (ret, w') = g.configure_low q w.0 in (ret, (w', w.1));
    set = λ q v w. let (ret, w') = g.set q v w.0 in (ret, (w', w.1));
    sleep = λ w. (g.sleep w.0, w.1 ++ ((level w.0 on_pin, level w.0 off_pin) ∷ []));
  }

  gpios_naps :
      (a b : Code) (w : g.World × List (Bool × Bool))
      → (hbridge_gpios napping on_pin off_pin a b w).1.1 ≡ w.1
  unfolding hbridge_gpios
  gpios_naps a b w = ground arith

  napping-IsDriven : IsDriven g level → IsDriven napping (λ w q. level w.0 q)
  napping-IsDriven driven = record {
    set_own = λ q v w. driven.set_own q v w.0;
    set_other = λ q r v w. driven.set_other q r v w.0;
    slept = λ q w. driven.slept q w.0;
  }

  -- The levels at the sleep are those between the two calls of esphome_switch_hbridge_gpios.
  set_state_naps :
      (v : Code) (d : Device napping)
      → is_nonzero (hbridge_set_state napping on_pin off_pin v d).0 ≡ false
      → let w =
          (hbridge_gpios napping on_pin off_pin v (not_state napping on_pin off_pin v) d.world).1 in
        (hbridge_set_state napping on_pin off_pin v d).1.world.1
        ≡ d.world.1 ++ ((level w.0 on_pin, level w.0 off_pin) ∷ [])
  unfolding hbridge_set_state
  set_state_naps v d e =
      let r = hbridge_gpios napping on_pin off_pin v (not_state napping on_pin off_pin v) d.world in
      let r' = hbridge_gpios napping on_pin off_pin off off (napping.sleep r.1) in
      elim (Bool-cases (is_negative r.0)) [
        | inl failed ↦
            (let e' = rw failed at e in
              absurd (let n = negative-is_nonzero r.0 failed in cc (e', n)))
        | inr done ↦ elim (Bool-cases (is_negative r'.0)) [
          | inl failed ↦
              (let e' = rw (done, failed) at e in
                absurd (let n = negative-is_nonzero r'.0 failed in cc (e', n)))
          | inr done' ↦
              rw (done, done')
                (gpios_naps off off (napping.sleep r.1)
                  ∙ ap (λ t. t ++ ((level r.1.0 on_pin, level r.1.0 off_pin) ∷ []))
                      (gpios_naps v (not_state napping on_pin off_pin v) d.world))
        ]
      ]

  -- When esphome_switch_hbridge_set_state returns 0, it has slept once, with the first pin at the level
  -- of the new state and the second at the other level, and both are low when it returns, if the pins are two. It is
  -- supposed that a call of gpio_pin_set_dt that does not fail sets its pin, and that neither another
  -- pin's call nor time changes a pin.
  pub hbridge_set_state-napping :
      IsDriven g level
      → on_pin ≢ off_pin
      → (v : Code) (d : Device napping)
      → is_nonzero (hbridge_set_state napping on_pin off_pin v d).0 ≡ false
      → let w = (hbridge_set_state napping on_pin off_pin v d).1.world in
        (w.1 ≡ d.world.1 ++ ((is_nonzero v, not (is_nonzero v)) ∷ []))
        × (level w.0 on_pin ≡ false)
        × (level w.0 off_pin ≡ false)
  hbridge_set_state-napping driven apart v d e =
      let ((high, low), (low_on, low_off)) =
        hbridge_set_state-level napping on_pin off_pin (λ w q. level w.0 q)
          (napping-IsDriven driven) apart v d e in
      (set_state_naps v d e ∙ rw (high, low) refl, low_on, low_off)
