-- ===== src/Switch/Pins/Shorts.antt =====
-- The switch of switch/hbridge.c after a pin that stays high.
use zephyr_esphome.Prelude.{
  ◌≡◌, ◌≢◌, refl, ◌∙◌, inl, inr, Bool, true, false, ◌||◌, Code, is_negative, Bool-cases, arith,
}
use zephyr_esphome.Switch.{on, off}
use zephyr_esphome.Switch.Pins.{Gpio, Device, hbridge_gpios, not_state, hbridge_set_state}
use zephyr_esphome.Switch.Pins.Levels.{IsDriven, gpios-level}
use zephyr_esphome.Switch.Pins.Bridge.{both, watched, IsSteady, set_on}

module _ (g : Gpio) (level : g.World → g.Pin → Bool) (on_pin off_pin : g.Pin) where
  abbrev pub bridge : Gpio
  bridge = watched g level on_pin off_pin

  module _ (driven : IsDriven g level) (steady : IsSteady g level on_pin off_pin)
      (apart : on_pin ≢ off_pin) where
    -- What the witness has seen stays.
    gpios-seen :
        (a b : Code) (w : g.World × Bool)
        → w.1 ≡ true
        → (hbridge_gpios bridge on_pin off_pin a b w).1.1 ≡ true
    unfolding hbridge_gpios
    gpios-seen a b w seen = ground (arith, seen)

    gpios_short :
        (w : g.World × Bool) (b : Code)
        → level w.0 off_pin ≡ true
        → is_negative (g.set on_pin on w.0).0 ≡ false
        → (hbridge_gpios bridge on_pin off_pin on b w).1.1 ≡ true
    unfolding hbridge_gpios
    gpios_short w b high done =
        let (own, other) = set_on g level on_pin off_pin driven steady apart on w.0 in
        let own₁ = rw done at own in ground (arith, own₁, other, high, done)

    set_state_short :
        (d : Device bridge)
        → level d.world.0 off_pin ≡ true
        → is_negative (g.set on_pin on d.world.0).0 ≡ false
        → (hbridge_set_state bridge on_pin off_pin on d).1.world.1 ≡ true
    unfolding hbridge_set_state
    set_state_short d high done =
        let seen = gpios_short d.world (not_state bridge on_pin off_pin on) high done in
        let w =
          (hbridge_gpios bridge on_pin off_pin on (not_state bridge on_pin off_pin on) d.world).1 in
        let slept : (bridge.sleep w).1 ≡ true = ground (arith, seen) in
        let seen' = gpios-seen off off (bridge.sleep w) slept in
        let r =
          hbridge_gpios bridge on_pin off_pin on (not_state bridge on_pin off_pin on) d.world in
        elim (Bool-cases (is_negative r.0)) [
          | inl failed ↦ rw failed seen
          | inr done' ↦
              elim (Bool-cases
                (is_negative (hbridge_gpios bridge on_pin off_pin off off (bridge.sleep w)).0)) [
                  | inl failed ↦ rw (done', failed) seen'
                  | inr done'' ↦ rw (done', done'') seen'
                ]
        ]

    -- The second pin cannot be set.
    gpios_stuck :
        (a b : Code) (w : g.World × Bool)
        → let first = g.set on_pin a w.0 in
          let second = g.set off_pin b first.1 in
          is_negative first.0 ≡ false
          → is_negative second.0 ≡ true
          → (seen : Bool) × (hbridge_gpios bridge on_pin off_pin a b w
              ≡ (second.0, (second.1, seen)))
    unfolding hbridge_gpios
    gpios_stuck a b w done failed =
        let first = (g.set on_pin a w.0).1 in
        (
          (w.1 || both g level on_pin off_pin first)
              || both g level on_pin off_pin (g.set off_pin b first).1,
          rw (done, failed) refl,
        )

    bridge-IsDriven : IsDriven bridge (λ w q. level w.0 q)
    bridge-IsDriven = record {
      set_own = λ q v w. driven.set_own q v w.0;
      set_other = λ q r v w. driven.set_other q r v w.0;
      slept = λ q w. driven.slept q w.0;
    }

    -- When a command to switch off fails in its last call, after the pulse, the next command to switch on
    -- makes both pins high, if its first call does not fail. It is supposed that a call of
    -- gpio_pin_set_dt sets its pin, or leaves it when it fails, and that neither another pin's call nor
    -- time changes a pin.
    pub hbridge_set_state_shorts :
        (state : Code) (w : g.World)
        → let phase = hbridge_gpios bridge on_pin off_pin off on (w, false) in
          let pulse = g.sleep phase.1.0 in
          let lowered = g.set on_pin off pulse in
          let stuck = g.set off_pin off lowered.1 in
          is_negative phase.0 ≡ false
          → is_negative lowered.0 ≡ false
          → is_negative stuck.0 ≡ true
          → is_negative (g.set on_pin on stuck.1).0 ≡ false
          → let failed =
              hbridge_set_state bridge on_pin off_pin off
                (record { state = state; world = (w, false) }) in
            (is_negative failed.0 ≡ true)
            × ((hbridge_set_state bridge on_pin off_pin on failed.1).1.world.1 ≡ true)
    unfolding hbridge_set_state IsSteady
    hbridge_set_state_shorts state w one two three four =
        let phase = hbridge_gpios bridge on_pin off_pin off on (w, false) in
        let pulse = g.sleep phase.1.0 in
        let lowered = g.set on_pin off pulse in
        let stuck = g.set off_pin off lowered.1 in
        let (_, high) =
          gpios-level bridge on_pin off_pin (λ w q. level w.0 q) bridge-IsDriven apart off on
            (w, false) one in
        let still : level stuck.1 off_pin ≡ true =
          steady off_pin off lowered.1 three
          ∙ driven.set_other on_pin off_pin off pulse apart
          ∙ driven.slept off_pin phase.1.0
          ∙ high in
        let (seen, ended) = gpios_stuck off off (bridge.sleep phase.1) two three in
        let d : Device bridge = record { state = state; world = (stuck.1, seen) } in
        rw (one, ended, three) ((three, set_state_short d still four))
