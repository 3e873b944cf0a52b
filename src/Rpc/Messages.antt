-- ===== src/Rpc/Messages.antt =====
-- The messages of esphome_rpc.c: for each its Read and its Write function, and its case in the
-- switch of esphome_read_request. The children hold them in families, in the order of the source.
pub mod Form
pub mod Session
pub mod Cover
pub mod Light
pub mod Home
pub mod Climate
pub mod Lock
pub mod Bluetooth
pub mod Gatt
pub mod Voice
pub mod Alarm
pub mod Time
pub mod Update
pub mod Agreement
pub mod Numbers
use mathlib.Core.List.{map}
use zephyr_esphome.Prelude.{ℕ, List, [], ◌∷◌, ◌++◌, Option, none, some, ◌==◌, if◌then◌else◌}
use Form.{Shape, WriteForm}
use Session.{SessionMessage}
use Cover.{CoverMessage}
use Light.{LightMessage}
use Home.{HomeMessage}
use Climate.{ClimateMessage}
use Lock.{LockMessage}
use Bluetooth.{BluetoothMessage}
use Gatt.{GattMessage}
use Voice.{VoiceMessage}
use Alarm.{AlarmMessage}
use Time.{TimeMessage}
use Update.{UpdateMessage}

pub data Message : Type 0 where
  session : SessionMessage → Message
  cover : CoverMessage → Message
  light : LightMessage → Message
  home : HomeMessage → Message
  climate : ClimateMessage → Message
  lock : LockMessage → Message
  bluetooth : BluetoothMessage → Message
  gatt : GattMessage → Message
  voice : VoiceMessage → Message
  alarm : AlarmMessage → Message
  time : TimeMessage → Message
  update : UpdateMessage → Message

unfoldable pub read_shape : Message → Shape
unfolding Session.read_shape Cover.read_shape Light.read_shape Home.read_shape Climate.read_shape
    Lock.read_shape Bluetooth.read_shape Gatt.read_shape Voice.read_shape Alarm.read_shape
    Time.read_shape Update.read_shape
read_shape (session m) = Session.read_shape m
read_shape (cover m) = Cover.read_shape m
read_shape (light m) = Light.read_shape m
read_shape (home m) = Home.read_shape m
read_shape (climate m) = Climate.read_shape m
read_shape (lock m) = Lock.read_shape m
read_shape (bluetooth m) = Bluetooth.read_shape m
read_shape (gatt m) = Gatt.read_shape m
read_shape (voice m) = Voice.read_shape m
read_shape (alarm m) = Alarm.read_shape m
read_shape (time m) = Time.read_shape m
read_shape (update m) = Update.read_shape m

unfoldable pub write_form : Message → WriteForm
unfolding Session.write_form Cover.write_form Light.write_form Home.write_form Climate.write_form
    Lock.write_form Bluetooth.write_form Gatt.write_form Voice.write_form Alarm.write_form
    Time.write_form Update.write_form
write_form (session m) = Session.write_form m
write_form (cover m) = Cover.write_form m
write_form (light m) = Light.write_form m
write_form (home m) = Home.write_form m
write_form (climate m) = Climate.write_form m
write_form (lock m) = Lock.write_form m
write_form (bluetooth m) = Bluetooth.write_form m
write_form (gatt m) = Gatt.write_form m
write_form (voice m) = Voice.write_form m
write_form (alarm m) = Alarm.write_form m
write_form (time m) = Time.write_form m
write_form (update m) = Update.write_form m

-- The cases of one family, as cases of the whole switch.
abbrev tag : {A : Type 0} → (A → Message) → List (ℕ × A) → List (ℕ × Message)
tag f [] = []
tag f ((n, m) ∷ rest) = (n, f m) ∷ tag f rest

unfoldable pub dispatch_table : List (ℕ × Message)
unfolding Session.cases Cover.cases Light.cases Home.cases Climate.cases Lock.cases Bluetooth.cases
    Gatt.cases Voice.cases Alarm.cases Time.cases Update.cases
dispatch_table =
    tag session Session.cases
    ++ (tag cover Cover.cases
        ++ (tag light Light.cases
            ++ (tag home Home.cases
                ++ (tag climate Climate.cases
                    ++ (tag lock Lock.cases
                        ++ (tag bluetooth Bluetooth.cases
                            ++ (tag gatt Gatt.cases
                                ++ (tag voice Voice.cases
                                    ++ (tag alarm Alarm.cases
                                        ++ (tag time Time.cases
                                            ++ (tag update Update.cases)))))))))))

-- The first case with the number. The switch has each number once.
unfoldable pub find_case : ℕ → List (ℕ × Message) → Option Message
find_case k [] = none
find_case k ((n, m) ∷ rest) = if n == k then some m else find_case k rest

-- The switch of esphome_read_request; `none` is its default.
unfoldable pub dispatch : ℕ → Option Message
unfolding dispatch_table find_case
dispatch msg_id = find_case msg_id dispatch_table
