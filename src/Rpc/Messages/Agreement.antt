-- ===== src/Rpc/Messages/Agreement.antt =====
-- The Read functions, the Write functions and the switch of esphome_read_request, compared: their
-- messages, numbers and payloads.
use zephyr_esphome.Prelude.{
  ℕ, ◌<◌, ◌≡◌, ◌↔◌, refl, List, [], ◌∷◌, Option, none, some, ◌==◌, Bool, true, false, not, arith,
  inl, inr, leb, ltb, ◌&&◌, Bool-cases, holds_below, holds_below_lem, Option-cases, ltb→lt, ==_iff,
  ◌∙◌,
}
use zephyr_esphome.Rpc.Messages.Form.{rpc_id, shape}
use zephyr_esphome.Rpc.Messages.Session.{SessionMessage}
use zephyr_esphome.Rpc.Messages.Cover.{CoverMessage}
use zephyr_esphome.Rpc.Messages.Light.{LightMessage}
use zephyr_esphome.Rpc.Messages.Home.{HomeMessage}
use zephyr_esphome.Rpc.Messages.Climate.{ClimateMessage}
use zephyr_esphome.Rpc.Messages.Lock.{LockMessage}
use zephyr_esphome.Rpc.Messages.Bluetooth.{BluetoothMessage}
use zephyr_esphome.Rpc.Messages.Gatt.{GattMessage}
use zephyr_esphome.Rpc.Messages.Voice.{VoiceMessage}
use zephyr_esphome.Rpc.Messages.Alarm.{AlarmMessage}
use zephyr_esphome.Rpc.Messages.Time.{TimeMessage}
use zephyr_esphome.Rpc.Messages.Update.{UpdateMessage}
use zephyr_esphome.Rpc.Messages.{
  Message, session, cover, light, home, climate, lock, bluetooth, gatt, voice, alarm, time, update,
  read_shape, write_form, find_case, dispatch_table, dispatch,
}

-- The switch of esphome_read_request passes every message on to its own Read function: for each of
-- the 120 messages, the number that its Write function puts into the header selects this message.
pub dispatch-write_form : (m : Message) → dispatch (rpc_id (write_form m)) ≡ some m
unfolding dispatch write_form
dispatch-write_form (session SessionMessage.hello_request) = refl
dispatch-write_form (session _) = refl
dispatch-write_form (cover CoverMessage.list_entities_binary_sensor_response) = refl
dispatch-write_form (cover _) = refl
dispatch-write_form (light LightMessage.list_entities_light_response) = refl
dispatch-write_form (light _) = refl
dispatch-write_form (home HomeMessage.subscribe_logs_request) = refl
dispatch-write_form (home _) = refl
dispatch-write_form (climate ClimateMessage.list_entities_camera_response) = refl
dispatch-write_form (climate _) = refl
dispatch-write_form (lock LockMessage.list_entities_lock_response) = refl
dispatch-write_form (lock _) = refl
dispatch-write_form (bluetooth BluetoothMessage.subscribe_bluetooth_le_advertisements_request) =
    refl
dispatch-write_form (bluetooth _) = refl
dispatch-write_form (gatt GattMessage.bluetooth_gatt_write_request) = refl
dispatch-write_form (gatt _) = refl
dispatch-write_form (voice VoiceMessage.subscribe_voice_assistant_request) = refl
dispatch-write_form (voice _) = refl
dispatch-write_form (alarm AlarmMessage.list_entities_alarm_control_panel_response) = refl
dispatch-write_form (alarm _) = refl
dispatch-write_form (time TimeMessage.list_entities_time_response) = refl
dispatch-write_form (time _) = refl
dispatch-write_form (update UpdateMessage.list_entities_date_time_response) = refl
dispatch-write_form (update _) = refl

-- A message is decoded when it is read just when it is encoded when it is written.
pub read_shape-write_form : (m : Message) → read_shape m ≡ shape (write_form m)
unfolding read_shape write_form
read_shape-write_form (session SessionMessage.hello_request) = refl
read_shape-write_form (session _) = refl
read_shape-write_form (cover CoverMessage.list_entities_binary_sensor_response) = refl
read_shape-write_form (cover _) = refl
read_shape-write_form (light LightMessage.list_entities_light_response) = refl
read_shape-write_form (light _) = refl
read_shape-write_form (home HomeMessage.subscribe_logs_request) = refl
read_shape-write_form (home _) = refl
read_shape-write_form (climate ClimateMessage.list_entities_camera_response) = refl
read_shape-write_form (climate _) = refl
read_shape-write_form (lock LockMessage.list_entities_lock_response) = refl
read_shape-write_form (lock _) = refl
read_shape-write_form (bluetooth BluetoothMessage.subscribe_bluetooth_le_advertisements_request) =
    refl
read_shape-write_form (bluetooth _) = refl
read_shape-write_form (gatt GattMessage.bluetooth_gatt_write_request) = refl
read_shape-write_form (gatt _) = refl
read_shape-write_form (voice VoiceMessage.subscribe_voice_assistant_request) = refl
read_shape-write_form (voice _) = refl
read_shape-write_form (alarm AlarmMessage.list_entities_alarm_control_panel_response) = refl
read_shape-write_form (alarm _) = refl
read_shape-write_form (time TimeMessage.list_entities_time_response) = refl
read_shape-write_form (time _) = refl
read_shape-write_form (update UpdateMessage.list_entities_date_time_response) = refl
read_shape-write_form (update _) = refl

-- Every entry of a table carries the number that its message is written with, and one below 124.
numbered : List (ℕ × Message) → Bool
numbered [] = true
numbered ((n, m) ∷ rest) = (rpc_id (write_form m) == n && ltb n 124) && numbered rest

table_numbered : numbered dispatch_table ≡ true
unfolding numbered write_form dispatch_table
table_numbered = refl

both : (a b c : Bool) → (a && b) && c ≡ true → (a ≡ true) × (b ≡ true) × (c ≡ true)
both true b c h = ground arith
both false b c h = cc

find_case_sound :
    (k : ℕ) (t : List (ℕ × Message)) {m : Message}
    → numbered t ≡ true
    → find_case k t ≡ some m
    → (rpc_id (write_form m) ≡ k) × (k < 124)
unfolding numbered find_case
find_case_sound k [] h e = cc
find_case_sound k ((n, m) ∷ rest) {m = m'} h e =
    let (same_id, low, others) = both (rpc_id (write_form m) == n) (ltb n 124) (numbered rest) h in
    elim (Bool-cases (n == k)) [
      | inl here ↦
          let at_k : n ≡ k = (==_iff n k).0 here in
          let e' : some m ≡ some m' = rw here at e in
          let found : m ≡ m' = cc e' in
          (rw (← found) ((==_iff _ n).0 same_id ∙ at_k), rw (← at_k) (ltb→lt n 124 low))
      | inr later ↦ find_case_sound k rest others (rw later at e)
    ]

-- A message that the switch selects is written with the number that selected it.
pub write_form-dispatch :
    (k : ℕ) {m : Message} → dispatch k ≡ some m → (rpc_id (write_form m) ≡ k) × (k < 124)
unfolding dispatch
write_form-dispatch k e = find_case_sound k dispatch_table table_numbered e

pub rpc_id-lt : (m : Message) → rpc_id (write_form m) < 124
rpc_id-lt m = (write_form-dispatch _ (dispatch-write_form m)).1

-- The numbers of the protocol, up to the newest one, but for 55, 56 and 57.
abbrev pub is_served : ℕ → Bool
is_served k = leb 1 k && leb k 123 && not (leb 55 k && leb k 57)

abbrev is_some : Option Message → Bool
is_some none = false
is_some (some m) = true

same : Bool → Bool → Bool
same true b = b
same false b = not b

table_serves : holds_below (λ k. same (is_some (dispatch k)) (is_served k)) 124 ≡ true
unfolding holds_below same dispatch
table_serves = refl

-- esphome_read_request answers -ENOTSUP to just the numbers that are 0, 55, 56, 57 or above 123.
pub dispatch-eq-none : (k : ℕ) → (dispatch k ≡ none) ↔ (is_served k ≡ false)
unfolding same
dispatch-eq-none k = elim (Bool-cases (ltb k 124)) [
  | inl below ↦ ground (
    arith,
    holds_below_lem (λ k. same (is_some (dispatch k)) (is_served k)) k 124 (ltb→lt k 124 below)
        table_serves,
  )
  | inr above ↦ (
    λ _. ground arith,
    λ _. elim (Option-cases (dispatch k)) [
      | inl e ↦ e
      | inr (m, e) ↦ absurd (ground (arith, write_form-dispatch k e))
    ],
  )
]
