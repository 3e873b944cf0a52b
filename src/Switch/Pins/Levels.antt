-- ===== src/Switch/Pins/Levels.antt =====
-- The switches of switch/gpio.c and switch/hbridge.c as switches, and the levels that they leave on
-- their pins.
use zephyr_esphome.Prelude.{
  ◌≡◌, ◌≢◌, refl, sym, ◌∙◌, inl, inr, Bool, true, false, Code, is_nonzero, is_negative, not,
  Bool-cases, arith,
}
use zephyr_esphome.Switch.{off}
use zephyr_esphome.Switch.Laws.{IsSwitch}
use zephyr_esphome.Switch.Pins.{
  Gpio, Device, gpio_switch_set_state, gpio_switch, hbridge_gpios, not_state, hbridge_set_state,
  hbridge_switch,
}

-- No error is 0.
pub negative-is_nonzero : (c : Code) → is_negative c ≡ true → is_nonzero c ≡ true
negative-is_nonzero c e = ground arith

-- What gpio_pin_set_dt does to the levels of the pins: a call that does not fail sets its own pin, and
-- no call changes another pin. Time changes none.
pub record IsDriven (g : Gpio) (level : g.World → g.Pin → Bool) : Type 0 where
  pub set_own :
      (q : g.Pin) (v : Code) (w : g.World)
      → is_negative (g.set q v w).0 ≡ false
      → level (g.set q v w).1 q ≡ is_nonzero v
  pub set_other :
      (q r : g.Pin) (v : Code) (w : g.World) → q ≢ r → level (g.set q v w).1 r ≡ level w r
  pub slept : (q : g.Pin) (w : g.World) → level (g.sleep w) q ≡ level w q

module _ (g : Gpio) where
  -- The switch on one pin knows the state that was last set with success: after a set_state that
  -- returns an error the state is as before.
  pub gpio_switch-IsSwitch : (pin : g.Pin) → IsSwitch (gpio_switch g pin)
  unfolding gpio_switch_set_state
  gpio_switch-IsSwitch pin = record {
    recorded = λ v d. elim (Bool-cases (is_negative (g.set pin v d.world).0)) [
      | inl failed ↦ rw (failed, negative-is_nonzero (g.set pin v d.world).0 failed) refl
      | inr done ↦ rw done refl
    ];
  }

  module _ (on_pin off_pin : g.Pin) where
    -- The switch on a bridge knows the state that was last set with success: after a set_state that
    -- returns an error the state is as before.
    pub hbridge_switch-IsSwitch : IsSwitch (hbridge_switch g on_pin off_pin)
    unfolding hbridge_set_state
    hbridge_switch-IsSwitch = record {
      recorded = λ v d.
          let (ret, w) = hbridge_gpios g on_pin off_pin v (not_state g on_pin off_pin v) d.world in
          let (ret', w') = hbridge_gpios g on_pin off_pin off off (g.sleep w) in
          elim (Bool-cases (is_negative ret)) [
            | inl failed ↦ rw (failed, negative-is_nonzero ret failed) refl
            | inr done ↦ elim (Bool-cases (is_negative ret')) [
              | inl failed ↦ rw (done, failed, negative-is_nonzero ret' failed) refl
              | inr done' ↦ rw (done, done') refl
            ]
          ];
    }

    -- Both pins as they were set.
    pub gpios-level :
        (level : g.World → g.Pin → Bool)
        → IsDriven g level
        → on_pin ≢ off_pin
        → (v v' : Code) (w : g.World)
        → is_negative (hbridge_gpios g on_pin off_pin v v' w).0 ≡ false
        → (level (hbridge_gpios g on_pin off_pin v v' w).1 on_pin ≡ is_nonzero v)
          × (level (hbridge_gpios g on_pin off_pin v v' w).1 off_pin ≡ is_nonzero v')
    unfolding hbridge_gpios
    gpios-level level driven apart v v' w e = elim (Bool-cases (is_negative (g.set on_pin v w).0)) [
      | inl failed ↦ (let e' = rw failed at e in absurd (ground arith))
      | inr done ↦ elim (Bool-cases (is_negative (g.set off_pin v' (g.set on_pin v w).1).0)) [
        | inl failed ↦ (let e' = rw (done, failed) at e in absurd (ground arith))
        | inr done' ↦
            rw (done, done')
              (
                driven.set_other off_pin on_pin v' _ (λ h. apart (sym h))
                    ∙ driven.set_own on_pin v w done,
                driven.set_own off_pin v' _ done',
              )
      ]
    ]

    -- The world between the two calls of esphome_switch_hbridge_gpios, and the one after both.
    abbrev pub pulsed : Code → g.World → g.World
    pulsed v w = (hbridge_gpios g on_pin off_pin v (not_state g on_pin off_pin v) w).1

    -- When esphome_switch_hbridge_set_state returns 0, the pin of the new state was high and the other
    -- low after the first call of esphome_switch_hbridge_gpios, and both are low when it returns, if the pins are two. It is supposed that a
    -- call of gpio_pin_set_dt that does not fail sets its pin, and that neither another pin's call nor
    -- time changes a pin.
    pub hbridge_set_state-level :
        (level : g.World → g.Pin → Bool)
        → IsDriven g level
        → on_pin ≢ off_pin
        → (v : Code) (d : Device g) → is_nonzero (hbridge_set_state g on_pin off_pin v d).0 ≡ false
        → ((level (pulsed v d.world) on_pin ≡ is_nonzero v)
            × (level (pulsed v d.world) off_pin ≡ not (is_nonzero v)))
          × ((level (hbridge_set_state g on_pin off_pin v d).1.world on_pin ≡ false)
              × (level (hbridge_set_state g on_pin off_pin v d).1.world off_pin ≡ false))
    unfolding hbridge_set_state
    hbridge_set_state-level level driven apart v d e =
        let (ret, w) = hbridge_gpios g on_pin off_pin v (not_state g on_pin off_pin v) d.world in
        let (ret', w') = hbridge_gpios g on_pin off_pin off off (g.sleep w) in
        elim (Bool-cases (is_negative ret)) [
          | inl failed ↦ (let e' = rw failed at e in absurd (ground arith))
          | inr done ↦ elim (Bool-cases (is_negative ret')) [
            | inl failed ↦ (let e' = rw (done, failed) at e in absurd (ground arith))
            | inr done' ↦
                let (high, low) =
                  gpios-level level driven apart v (not_state g on_pin off_pin v) d.world done in
                (
                  (high, low ∙ ground arith),
                  rw (done, done') (gpios-level level driven apart off off (g.sleep w) done'),
                )
          ]
        ]

    -- When the state is to be on, the first pin is set and the second pin fails, the error is returned
    -- and the state is kept, but the first pin stays high. It is supposed that a call of
    -- gpio_pin_set_dt that does not fail sets its pin, and that another pin's call does not change a
    -- pin; the pins are two.
    pub hbridge_set_state_energised :
        (level : g.World → g.Pin → Bool)
        → IsDriven g level
        → on_pin ≢ off_pin
        → (v : Code) (d : Device g) → is_nonzero v ≡ true
        → is_negative (g.set on_pin v d.world).0 ≡ false
        → is_negative (g.set off_pin off (g.set on_pin v d.world).1).0 ≡ true
        → ((hbridge_set_state g on_pin off_pin v d).0
            ≡ (g.set off_pin off (g.set on_pin v d.world).1).0)
          × ((hbridge_set_state g on_pin off_pin v d).1.state ≡ d.state)
          × (level (hbridge_set_state g on_pin off_pin v d).1.world on_pin ≡ true)
    unfolding hbridge_set_state hbridge_gpios
    hbridge_set_state_energised level driven apart v d high done failed =
        rw (high, done, failed, failed)
          (
            refl,
            refl,
            driven.set_other off_pin on_pin off _ (λ h. apart (sym h))
                ∙ driven.set_own on_pin v d.world done
                ∙ high,
          )
