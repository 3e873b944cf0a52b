-- ===== src/Openthread/Announced.antt =====
-- How often the device announces itself, and the service entries that it takes.
use zephyr_esphome.Prelude.{
  ℕ, ◌+◌, ◌≤◌, ◌≡◌, refl, ap, ◌∙◌, List, [], ◌∷◌, Bool, true, false, ◌&&◌, Bool-cases, inl, inr,
  if◌then◌else◌, length, All, arith,
}
use zephyr_esphome.Api.Base.{Config}
use zephyr_esphome.Openthread.{
  Ot, Srp, register, ot_srp_init, has_role, on_thread_state_changed, Change, after_changes, initial,
}

module _ (ot : Ot) (cfg : Config) where
  -- Once the device is announced it has one service, and before it none; every service has its entry.
  pub record IsAnnouncedOnce (st : Srp ot) : Type 0 where
    pub counted : st.services ≡ (if st.init_done then 1 else 0)
    pub has_entry : st.services ≤ st.entries

  init-IsAnnouncedOnce :
      (st : Srp ot) → IsAnnouncedOnce st → IsAnnouncedOnce (ot_srp_init ot cfg st).1
  unfolding ot_srp_init register
  init-IsAnnouncedOnce st i = record {
    counted = ground (arith, i.counted);
    has_entry = ground (arith, i.has_entry);
  }

  change-IsAnnouncedOnce :
      (role_changed : Bool) (st : Srp ot)
      → IsAnnouncedOnce st
      → IsAnnouncedOnce (on_thread_state_changed ot cfg role_changed st)
  unfolding on_thread_state_changed
  change-IsAnnouncedOnce role_changed st i =
      elim (Bool-cases (role_changed && has_role (ot.device_role st.world))) [
        | inl announces ↦ rw announces (init-IsAnnouncedOnce st i)
        | inr skips ↦ rw skips i
      ]

  changes-IsAnnouncedOnce :
      (st : Srp ot) (cs : List (Change ot))
      → IsAnnouncedOnce st
      → IsAnnouncedOnce (after_changes ot cfg st cs)
  unfolding after_changes
  changes-IsAnnouncedOnce st [] i = i
  changes-IsAnnouncedOnce st (c ∷ cs) i =
      let st₁ : Srp ot = record st { world = c.world } in
      changes-IsAnnouncedOnce (on_thread_state_changed ot cfg c.role_changed st₁) cs (
        change-IsAnnouncedOnce c.role_changed st₁
          (record { counted = i.counted; has_entry = i.has_entry }))

  -- However often the role in the network changes, and whatever OpenThread answers, the device
  -- registers its service once at most, just when it notes that it is done, and has taken an entry for
  -- it.
  pub after_changes-IsAnnouncedOnce :
      (w : ot.World) (cs : List (Change ot))
      → IsAnnouncedOnce (after_changes ot cfg (initial ot w) cs)
  after_changes-IsAnnouncedOnce w cs =
      changes-IsAnnouncedOnce (initial ot w) cs (record { counted = refl; has_entry = omega arith })

  -- OpenThread answers every call of ot_srp_init but the last, the registration of the service.
  pub record IsRefusing : Type 0 where
    pub instance_found : (w : ot.World) → ot.has_instance w ≡ true
    pub named : (bs : List ℕ) (w : ot.World) → (ot.set_host_name bs w).0 ≡ true
    pub addressed : (w : ot.World) → (ot.enable_auto_host_address w).0 ≡ true
    pub allocated : (w : ot.World) → (ot.allocate_service w).0 ≡ true
    pub refused :
        (port : ℕ) (name service : List ℕ) (w : ot.World)
        → (ot.add_service port name service w).0 ≡ false

  module _ (refusing : IsRefusing) where
    open refusing use {instance_found, named, addressed, allocated, refused}

    init_refused :
        (st : Srp ot)
        → st.init_done ≡ false
        → ((ot_srp_init ot cfg st).1.init_done ≡ false)
          × ((ot_srp_init ot cfg st).1.entries ≡ st.entries + 1)
    unfolding ot_srp_init register
    init_refused st idle =
        rw (idle, instance_found, named, addressed, allocated, refused) (refl, refl)

    announces :
        (role_changed : Bool) (st : Srp ot)
        → (role_changed && has_role (ot.device_role st.world)) ≡ true
        → on_thread_state_changed ot cfg role_changed st ≡ (ot_srp_init ot cfg st).1
    unfolding on_thread_state_changed
    announces role_changed st e = rw e refl

    -- While OpenThread refuses to register the service, and answers every call before it, each change to
    -- a role takes one more entry, and none is given back, if the device is not yet announced.
    pub refused-entries :
        (st : Srp ot) (cs : List (Change ot))
        → st.init_done ≡ false
        → All (λ (c : Change ot). (c.role_changed && has_role (ot.device_role c.world)) ≡ true) cs
        → (after_changes ot cfg st cs).entries ≡ st.entries + length cs
    unfolding after_changes
    refused-entries st [] idle a = omega arith
    refused-entries st (c ∷ cs) idle a =
        let st₁ : Srp ot = record st { world = c.world } in
        let (idle', one_more) = init_refused st₁ idle in
        ap (λ t. (after_changes ot cfg t cs).entries) (announces c.role_changed st₁ a.0)
        ∙ refused-entries (ot_srp_init ot cfg st₁).1 cs idle' a.1
        ∙ omega (arith, one_more)
