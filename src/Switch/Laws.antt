-- ===== src/Switch/Laws.antt =====
-- What a switch promises, and what follows for esphome_switch_toggle.
use zephyr_esphome.Prelude.{
  ◌≡◌, refl, inl, inr, Bool, true, false, if◌then◌else◌, not, Code, is_nonzero, is_negative,
  Bool-cases,
}
use zephyr_esphome.Switch.{
  SwitchApi, on, off, switch_get_state, switch_turn_on, switch_turn_off, switch_toggle,
}

-- A switch knows the state that was last set with success.
pub record IsSwitch {S : Type 0} (api : SwitchApi S) : Type 0 where
  pub recorded :
      (v : Code) (s : S)
      → api.get_state (api.set_state v s).1
        ≡ (if is_nonzero (api.set_state v s).0 then api.get_state s else v)

abbrev pub of_bool : Bool → Code
of_bool true = on
of_bool false = off

module _ {S : Type 0} (api : SwitchApi S) where
  -- A switch whose state is an error, as before the first command, is not toggled: the error is
  -- returned and nothing is set.
  pub toggle_unset :
      (s : S) → is_negative (api.get_state s) ≡ true → switch_toggle api s ≡ (api.get_state s, s)
  unfolding switch_toggle switch_get_state
  toggle_unset s e = rw (e, e) refl

  -- Of a switch that knows the state last set with success, and whose state is no error,
  -- esphome_switch_toggle leaves the other state if it returns 0, and else the state as it was.
  pub toggle-get_state :
      IsSwitch api
      → (s : S) → is_negative (api.get_state s) ≡ false
      → api.get_state (switch_toggle api s).1 ≡ (
          if is_nonzero (switch_toggle api s).0
          then api.get_state s
          else of_bool (not (is_nonzero (api.get_state s))))
  unfolding switch_toggle switch_get_state switch_turn_on switch_turn_off
  toggle-get_state laws s e = elim (Bool-cases (is_nonzero (api.get_state s))) [
    | inl high ↦ rw (e, high) (laws.recorded off s)
    | inr low ↦ rw (e, low) (laws.recorded on s)
  ]
