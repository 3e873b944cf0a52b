-- ===== src/Threads.antt =====
-- The threads of esphome_rpc_service, esphome_ota_service and esphome_sensor_service, and the
-- descriptors of the connections that they share: the sensors send to `rpc_data->socket`, whichever
-- connection has this descriptor.
pub mod Owners
pub mod Frames
pub mod Calls
pub mod Turns
pub mod Merged
pub mod Alone
use zephyr_esphome.Prelude.{
  ℕ, ◌≡◌, Bool, true, false, Option, none, some, ◌==◌, if◌then◌else◌, ℤ, pos, negsuc,
}

-- Whose connection a descriptor is.
pub data Owner : Type 0 where
  rpc_client ota_client : Owner

-- `owner` says of each descriptor whose connection it is, if it is one. `socket` is the field of
-- struct esphome_rpc_data, and starts as 0. `serving` says whether the thread of the API is between
-- zsock_accept and zsock_close, and `updating` is the descriptor of the connection that the thread of
-- the update is in.
pub record Descriptors : Type 0 where
  pub owner : ℕ → Option Owner
  pub socket : ℤ
  pub serving : Bool
  pub updating : Option ℕ

abbrev pub set_owner : ℕ → Option Owner → (ℕ → Option Owner) → ℕ → Option Owner
set_owner fd o owner i = if i == fd then o else owner i

abbrev pub boot : Descriptors
boot = record { owner = λ fd. none; socket = pos 0; serving = false; updating = none }

-- The calls of zsock_accept and zsock_close. A new connection has a descriptor that no open one has.
pub data Step (d : Descriptors) : Descriptors → Type 0 where
  rpc_accepts :
      (fd : ℕ)
      → d.serving ≡ false
      → d.owner fd ≡ none
      → Step d (record d {
        owner = set_owner fd (some rpc_client) d.owner;
        socket = pos fd;
        serving = true;
      })
  rpc_accept_fails : d.serving ≡ false → Step d (record d { socket = negsuc 0 })
  rpc_closes :
      (fd : ℕ)
      → d.serving ≡ true
      → d.socket ≡ pos fd
      → Step d (record d { owner = set_owner fd none d.owner; serving = false })
  ota_accepts :
      (fd : ℕ)
      → d.updating ≡ none
      → d.owner fd ≡ none
      → Step d (record d { owner = set_owner fd (some ota_client) d.owner; updating = some fd })
  ota_closes :
      (fd : ℕ)
      → d.updating ≡ some fd
      → Step d (record d { owner = set_owner fd none d.owner; updating = none })

pub data Reach : Descriptors → Type 0 where
  start : Reach boot
  later : {d d' : Descriptors} → Reach d → Step d d' → Reach d'

-- Where a frame of the thread of the sensors goes: the connection of `rpc_data->socket`.
unfoldable pub sensor_target : Descriptors → Option Owner
sensor_target d = elim d.socket [ pos fd ↦ d.owner fd | negsuc n ↦ none ]
