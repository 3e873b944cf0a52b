-- ===== src/Openthread.antt =====
-- openthread/srp.c and openthread/service.c: the device announces itself by the SRP client of
-- OpenThread as soon as it has a role in the network.
pub mod Names
pub mod Announced
use zephyr_esphome.Prelude.{
  ℕ, ◌+◌, List, [], ◌∷◌, ◌++◌, Bool, true, false, not, ◌&&◌, foldl, if◌then◌else◌, min, length,
  take, drop, Code, neg, enodev, success, minus_one,
}
use zephyr_esphome.Api.Base.{Config}

-- otDeviceRole
pub data Role : Type 0 where
  disabled detached child router leader : Role

abbrev pub has_role : Role → Bool
has_role child = true
has_role router = true
has_role leader = true
has_role disabled = false
has_role detached = false

-- What the code uses of OpenThread and of Zephyr, over their state `World`. A Boolean is whether a
-- call returned OT_ERROR_NONE, or something other than NULL. The buffers hold what they held before.
pub record Ot : Type 1 where
  pub World : Type 0
  -- openthread_get_default_instance
  pub has_instance : World → Bool
  -- otSrpClientSetCallback
  pub set_callback : World → World
  -- otSrpClientBuffersGetHostNameString
  pub host_name : World → List ℕ
  -- otSrpClientSetHostName, with what the buffer holds
  pub set_host_name : List ℕ → World → Bool × World
  -- otSrpClientEnableAutoHostAddress
  pub enable_auto_host_address : World → Bool × World
  -- otSrpClientBuffersAllocateService
  pub allocate_service : World → Bool × World
  -- otSrpClientBuffersGetServiceEntryInstanceNameString and ...ServiceNameString of the entry
  pub instance_name : World → List ℕ
  pub service_name : World → List ℕ
  -- otSrpClientAddService, with what the entry holds
  pub add_service : (port : ℕ) (instance_name service_name : List ℕ) → World → Bool × World
  -- otSrpClientEnableAutoStartMode
  pub enable_auto_start : World → World
  -- otThreadGetDeviceRole
  pub device_role : World → Role

-- "_esphomelib._tcp"
abbrev pub srp_service_name : List ℕ
srp_service_name =
    95 ∷ 101 ∷ 115 ∷ 112 ∷ 104 ∷ 111 ∷ 109 ∷ 101 ∷ 108 ∷ 105 ∷ 98 ∷ 46 ∷ 95 ∷ 116 ∷ 99 ∷ 112 ∷ []

-- `size = MIN(size, strlen(name) + 1); memcpy(buffer, name, size);`, with `size` the buffer's length.
unfoldable pub copy_name : (name buffer : List ℕ) → List ℕ
copy_name name buffer =
    let size = min (length buffer) (length name + 1) in
    take size (name ++ (0 ∷ [])) ++ drop size buffer

-- `init_done` is ot_srp_init_done. The last two count the calls of otSrpClientBuffersAllocateService
-- and of otSrpClientAddService that succeeded; no entry is ever given back.
pub record Srp (ot : Ot) : Type 0 where
  pub world : ot.World
  pub init_done : Bool
  pub entries : ℕ
  pub services : ℕ

module _ (ot : Ot) where
  -- ot_srp_init from the service entry on.
  unfoldable pub register : Config → Srp ot → Code × Srp ot
  register cfg st =
      let name = copy_name cfg.name (ot.instance_name st.world) in
      let service = copy_name srp_service_name (ot.service_name st.world) in
      let (added, w) = ot.add_service cfg.port name service st.world in
      if added
      then (
        success,
        record st { world = ot.enable_auto_start w; init_done = true; services = st.services + 1 },
      )
      else (minus_one, record st { world = w })

  unfoldable pub ot_srp_init : Config → Srp ot → Code × Srp ot
  ot_srp_init cfg st =
      let w₁ = ot.set_callback st.world in
      let (named, w₂) = ot.set_host_name (copy_name cfg.name (ot.host_name w₁)) w₁ in
      let (addressed, w₃) = ot.enable_auto_host_address w₂ in
      let (has_entry, w₄) = ot.allocate_service w₃ in
      if st.init_done
      then (success, st)
      else if not (ot.has_instance st.world)
      then (neg enodev, st)
      else if not named
      then (minus_one, record st { world = w₂ })
      else if not addressed
      then (minus_one, record st { world = w₃ })
      else if not has_entry
      then (minus_one, record st { world = w₄ })
      else register cfg (record st { world = w₄; entries = st.entries + 1 })

  -- `role_changed` is flags & OT_CHANGED_THREAD_ROLE. The result of ot_srp_init is dropped.
  unfoldable pub on_thread_state_changed : Config → (role_changed : Bool) → Srp ot → Srp ot
  on_thread_state_changed cfg role_changed st =
      if role_changed && has_role (ot.device_role st.world) then (ot_srp_init cfg st).1 else st

  -- A change of the state of the network: OpenThread's own state is then another one.
  pub record Change : Type 0 where
    pub world : ot.World
    pub role_changed : Bool

  unfoldable pub after_changes : Config → Srp ot → List Change → Srp ot
  after_changes cfg st [] = st
  after_changes cfg st (c ∷ cs) =
      let st' = on_thread_state_changed cfg c.role_changed (record st { world = c.world }) in
      after_changes cfg st' cs

  -- The program's start.
  abbrev pub initial : ot.World → Srp ot
  initial w = record { world = w; init_done = false; entries = 0; services = 0 }

-- esphome_ot_init: `ready` is whether the context and the radio are there, `registered` what
-- openthread_state_changed_cb_register returned.
unfoldable pub ot_init : (ready : Bool) (registered : Code) → Code
ot_init ready registered = if ready then registered else neg enodev
