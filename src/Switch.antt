-- ===== src/Switch.antt =====
-- switch.h: the interface of a switch, and what the functions of the API make of it.
pub mod Laws
pub mod Pins
use zephyr_esphome.Prelude.{
  Bool, true, false, if◌then◌else◌, Code, int, pos, success, is_nonzero, is_negative,
}

-- struct esphome_switch_component_api, over the state `S` of a device.
pub record SwitchApi (S : Type 0) : Type 0 where
  pub set_state : Code → S → Code × S
  pub get_state : S → Code

-- `true` and `false` where an int is expected
abbrev pub on : Code
on = int (pos 1)

abbrev pub off : Code
off = int (pos 0)

module _ {S : Type 0} (api : SwitchApi S) where
  -- esphome_switch_get_state: the result, and `*state`.
  unfoldable pub switch_get_state : S → Code × Code
  switch_get_state s =
      let state = api.get_state s in (if is_negative state then state else success, state)

  unfoldable pub switch_turn_on : S → Code × S
  switch_turn_on s = api.set_state on s

  unfoldable pub switch_turn_off : S → Code × S
  switch_turn_off s = api.set_state off s

  -- esphome_switch_toggle
  unfoldable pub switch_toggle : S → Code × S
  switch_toggle s =
      let (ret, state) = switch_get_state s in
      if is_negative ret
      then (ret, s)
      else if is_nonzero state
      then switch_turn_off s
      else switch_turn_on s
