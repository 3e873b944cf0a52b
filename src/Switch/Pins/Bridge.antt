-- ===== src/Switch/Pins/Bridge.antt =====
-- The two pins of switch/hbridge.c at every moment: whether both are high at once, which would short the
-- bridge.
use zephyr_esphome.Prelude.{
  List, [], ◌∷◌, ◌≡◌, ◌≢◌, refl, sym, ap, ◌∙◌, inl, inr, Bool, true, false, ◌&&◌, ◌||◌, Code,
  is_nonzero, is_negative, Bool-cases, arith, if◌then◌else◌,
}
use zephyr_esphome.Switch.{off}
use zephyr_esphome.Switch.Pins.{Gpio, Device, hbridge_gpios, not_state, hbridge_set_state}
use zephyr_esphome.Switch.Pins.Levels.{IsDriven}

module _ (g : Gpio) (level : g.World → g.Pin → Bool) (on_pin off_pin : g.Pin) where
  abbrev pub both : g.World → Bool
  both w = level w on_pin && level w off_pin

  -- The same pins with a witness: whether both were high after any call.
  abbrev pub watched : Gpio
  watched = record {
    World = g.World × Bool;
    Pin = g.Pin;
    configure_low = λ q w. let (ret, w') = g.configure_low q w.0 in (ret, (w', w.1 || both w'));
    set = λ q v w. let (ret, w') = g.set q v w.0 in (ret, (w', w.1 || both w'));
    sleep = λ w. let w' = g.sleep w.0 in (w', w.1 || both w');
  }

  -- A call of gpio_pin_set_dt that fails leaves its pin.
  unfoldable pub IsSteady : Type 0
  IsSteady =
      (q : g.Pin) (v : Code) (w : g.World)
      → is_negative (g.set q v w).0 ≡ true
      → level (g.set q v w).1 q ≡ level w q

  module _ (driven : IsDriven g level) (steady : IsSteady) (apart : on_pin ≢ off_pin) where
    -- The levels after a call for the first pin, and for the second.
    pub set_on :
        (v : Code) (w : g.World)
        → (level (g.set on_pin v w).1 on_pin
            ≡ (if is_negative (g.set on_pin v w).0 then level w on_pin else is_nonzero v))
          × (level (g.set on_pin v w).1 off_pin ≡ level w off_pin)
    unfolding IsSteady
    set_on v w = elim (Bool-cases (is_negative (g.set on_pin v w).0)) [
      | inl failed ↦
          (rw failed (steady on_pin v w failed), driven.set_other on_pin off_pin v w apart)
      | inr done ↦
          (rw done (driven.set_own on_pin v w done), driven.set_other on_pin off_pin v w apart)
    ]

    set_off :
        (v : Code) (w : g.World)
        → (level (g.set off_pin v w).1 off_pin
            ≡ (if is_negative (g.set off_pin v w).0 then level w off_pin else is_nonzero v))
          × (level (g.set off_pin v w).1 on_pin ≡ level w on_pin)
    unfolding IsSteady
    set_off v w = elim (Bool-cases (is_negative (g.set off_pin v w).0)) [
      | inl failed ↦ (
        rw failed (steady off_pin v w failed),
        driven.set_other off_pin on_pin v w (λ e. apart (sym e)),
      )
      | inr done ↦ (
        rw done (driven.set_own off_pin v w done),
        driven.set_other off_pin on_pin v w (λ e. apart (sym e)),
      )
    ]

    -- One call of esphome_switch_hbridge_gpios, with the levels before it.
    gpios_apart :
        (a b : Code) (w : g.World)
        → both w ≡ false
        → is_nonzero a && level w off_pin ≡ false
        → is_nonzero a && is_nonzero b ≡ false
        → let r = hbridge_gpios watched on_pin off_pin a b (w, false) in
          (r.1.1 ≡ false)
          × (is_negative r.0 ≡ false
              → (level r.1.0 on_pin ≡ is_nonzero a) × (level r.1.0 off_pin ≡ is_nonzero b))
    unfolding hbridge_gpios
    gpios_apart a b w now first second =
        let (own, other) = set_on a w in
        let w' = (g.set on_pin a w).1 in
        let (own', other') = set_off b w' in
        elim (Bool-cases (is_negative (g.set on_pin a w).0)) [
          | inl failed ↦
              (let own₁ = rw failed at own in rw failed ((rw (own₁, other) now, λ ok. cc ok)))
          | inr done ↦ elim (Bool-cases (is_negative (g.set off_pin b w').0)) [
            | inl failed ↦
                (let own₁ = rw done at own in
                  let own₂ = rw failed at own' in
                  rw (done, failed) ((rw (own₂, other', own₁, other, first) refl, λ ok. cc ok)))
            | inr done' ↦
                (let own₁ = rw done at own in
                  let own₂ = rw done' at own' in
                  rw (done, done')
                    ((rw (own₂, other', own₁, other, first) second, λ ok. (other' ∙ own₁, own₂))))
          ]
        ]

    -- Both pins are low.
    abbrev pub AreLow : g.World → Type 0
    AreLow w = (level w on_pin ≡ false) × (level w off_pin ≡ false)

    not_state-apart :
        (v : Code) → is_nonzero v && is_nonzero (not_state watched on_pin off_pin v) ≡ false
    not_state-apart v = ground arith

    set_state_apart :
        (v state : Code) (w : g.World)
        → AreLow w
        → let r =
            hbridge_set_state watched on_pin off_pin v
              (record { state = state; world = (w, false) }) in
          (r.1.world.1 ≡ false) × (is_negative r.0 ≡ false → AreLow r.1.world.0)
    unfolding hbridge_set_state
    set_state_apart v state w (low_on, low_off) =
        let v' = not_state watched on_pin off_pin v in
        let (flag, levels) =
          gpios_apart v v' w (rw low_on refl) (rw low_off ground arith) (not_state-apart v) in
        let r = hbridge_gpios watched on_pin off_pin v v' (w, false) in
        elim (Bool-cases (is_negative r.0)) [
          | inl failed ↦ rw failed ((flag, λ ok. cc ok))
          | inr done ↦
              let (high, other) = levels done in
              let slept : both (g.sleep r.1.0) ≡ false =
                rw (driven.slept on_pin r.1.0, driven.slept off_pin r.1.0, high, other)
                  (not_state-apart v) in
              let (flag', levels') = gpios_apart off off (g.sleep r.1.0) slept refl refl in
              let world : watched.sleep r.1 ≡ (g.sleep r.1.0, false) = rw (slept, flag) refl in
              let r' = hbridge_gpios watched on_pin off_pin off off (g.sleep r.1.0, false) in
              rw (done, world)
                (elim (Bool-cases (is_negative r'.0)) [
                  | inl failed ↦ rw failed ((flag', λ ok. cc ok))
                  | inr done' ↦ rw done' ((flag', λ ok. levels' done'))
                ])
        ]

  -- Commands one after another, up to the first that fails.
  unfoldable pub command_all : List Code → Device watched → Device watched
  command_all [] d = d
  command_all (v ∷ vs) d =
      let (ret, d') = hbridge_set_state watched on_pin off_pin v d in
      let later = command_all vs d' in if is_negative ret then d' else later

  module _ (driven : IsDriven g level) (steady : IsSteady) (apart : on_pin ≢ off_pin) where
    -- At no moment of any commands, the first that fails included, are both pins of the bridge high, if
    -- they are two and low before. It is supposed that a call of gpio_pin_set_dt sets its pin, or leaves it when it fails,
    -- and that neither another pin's call nor time changes a pin.
    pub command_all-watched :
        (vs : List Code) (state : Code) (w : g.World)
        → level w on_pin ≡ false
        → level w off_pin ≡ false
        → (command_all vs (record { state = state; world = (w, false) })).world.1 ≡ false
    unfolding command_all
    command_all-watched [] state w low_on low_off = refl
    command_all-watched (v ∷ vs) state w low_on low_off =
        let (ret, d) =
          hbridge_set_state watched on_pin off_pin v
            (record { state = state; world = (w, false) }) in
        let (flag, at_rest) = set_state_apart driven steady apart v state w (low_on, low_off) in
        elim (Bool-cases (is_negative ret)) [
          | inl failed ↦ rw failed flag
          | inr done ↦
              let (low_on', low_off') = at_rest done in
              let same : record d { world = (d.world.0, false) } ≡ d =
                ap (λ (b : Bool). record d { world = (d.world.0, b) }) (sym flag) in
              rw (done, ← same) (command_all-watched vs d.state d.world.0 low_on' low_off')
        ]
