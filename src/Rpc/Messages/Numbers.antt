-- ===== src/Rpc/Messages/Numbers.antt =====
-- The numbers of the messages of esphome_rpc.c: what goes on the wire for each of them, and back.
use zephyr_esphome.Prelude.{ℕ, ◌≡◌, sym, ◌∙◌, true, none, some, Bool-cases, Option-cases, inl, inr}
use mathlib.Core.Bool.{Bool-set}
use mathlib.Core.Equiv.{IsEquiv, iso_to_equiv}
use mathlib.Core.HLevel.{Σ_prop_path}
use zephyr_esphome.Rpc.Messages.{Message, write_form, dispatch}
use zephyr_esphome.Rpc.Messages.Form.{rpc_id}
use zephyr_esphome.Rpc.Messages.Agreement.{
  dispatch-write_form, write_form-dispatch, is_served, dispatch-eq-none,
}

-- A number from 1 to 123 that is none of 55, 56 and 57.
abbrev pub Served : Type 0
Served = (k : ℕ) × (is_served k ≡ true)

pub rpc_id-is_served : (m : Message) → is_served (rpc_id (write_form m)) ≡ true
rpc_id-is_served m = elim (Bool-cases (is_served (rpc_id (write_form m)))) [
  | inl served ↦ served
  | inr unserved ↦
      let selects = dispatch-write_form m in
      let none_selected = (dispatch-eq-none (rpc_id (write_form m))).1 unserved in
      absurd (let e : none ≡ some m = sym none_selected ∙ selects in cc e)
]

-- The number that the Write function of a message puts into the header.
unfoldable pub number : Message → Served
number m = (rpc_id (write_form m), rpc_id-is_served m)

selected : (k : ℕ) → is_served k ≡ true → (m : Message) × (dispatch k ≡ some m)
selected k e = elim (Option-cases (dispatch k)) [
  | inl nothing ↦ absurd (let unserved = (dispatch-eq-none k).0 nothing in cc (e, unserved))
  | inr (m, found) ↦ (m, found)
]

-- The message that the switch of esphome_read_request selects.
unfoldable message_with : Served → Message
message_with (k, e) = (selected k e).0

message_with-number : (m : Message) → message_with (number m) ≡ m
unfolding number message_with
message_with-number m =
    let (m', found) = selected (rpc_id (write_form m)) (rpc_id-is_served m) in
    let e : some m' ≡ some m = sym found ∙ dispatch-write_form m in cc e

number-message_with : (n : Served) → number (message_with n) ≡ n
unfolding number message_with
number-message_with (k, e) =
    Σ_prop_path (λ k. Bool-set (is_served k) true) (write_form-dispatch k (selected k e).1).0

-- The messages are just the numbers that the protocol has: the Write functions give each message
-- a number from 1 to 123 that is none of 55, 56 and 57, no two messages the same one, and every such
-- number is the number of a message.
pub number-IsEquiv : IsEquiv number
number-IsEquiv =
    (iso_to_equiv (record {
      fun = number;
      inv = message_with;
      rinv = number-message_with;
      linv = message_with-number;
    })).1
