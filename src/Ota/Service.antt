-- ===== src/Ota/Service.antt =====
-- esphome_ota_service of esphome_ota.c: the connections that ask for an update, one after the other,
-- with one context of the flash writer for all of them.
pub mod Leftovers
use zephyr_esphome.Prelude.{
  ℕ, zero, suc, Bool, true, false, Option, none, some, [], if◌then◌else◌, Code, is_nonzero,
}
use zephyr_esphome.Rpc.Service.{Outcome, returned, blocked}
use zephyr_esphome.Rpc.Listen.{Net, start_listening}
use zephyr_esphome.Ota.Base.{Platform, ok, err, stuck, Run}
use zephyr_esphome.Ota.{ota_run}

-- What the thread uses of Zephyr beside `Platform`, over the same state.
pub record Server (p : Platform) : Type 0 where
  -- boot_is_img_confirmed, boot_write_img_confirmed
  pub is_confirmed : p.Peer → Bool
  pub write_confirmed : p.Peer → p.Peer
  -- flash_img_init
  pub flash_init : p.Peer → Code × p.Peer
  pub net : Net (p.Peer)
  -- zsock_accept: `false` is a negative result
  pub accept : p.Peer → Bool × p.Peer
  -- zsock_close
  pub close : p.Peer → p.Peer

module _ (p : Platform) (server : Server p) where
  open server use {is_confirmed, write_confirmed, flash_init, net, accept, close}

  -- What follows esphome_ota_run: its result is only logged, and the connection is closed.
  abbrev pub close_connection : Run p → Run p
  close_connection r = record r { peer = close r.peer }

  -- The loop over the connections, for `connections` calls of zsock_accept at most; `rounds` is that of
  -- esphome_ota_run. `blocked` is no result of the code: the thread still serves, or sys_reboot, which
  -- does not return, was called.
  unfoldable pub accept_loop : (connections rounds : ℕ) → Run p → Outcome × Run p
  accept_loop zero rounds r = (blocked, r)
  accept_loop (suc connections) rounds r =
      let (accepted, peer) = accept r.peer in
      let r₁ : Run p = record r { peer = peer } in
      let (result, r₂) = ota_run p rounds r₁ in
      let served = accept_loop connections rounds (close_connection r₂) in
      let skipped = accept_loop connections rounds r₁ in
      if accepted
      then (if r₂.rebooted
          then (blocked, r₂)
          else elim result [ ok u ↦ served | err ret ↦ served | stuck ↦ (blocked, r₂) ])
      else skipped

  abbrev pub confirm : p.Peer → p.Peer
  confirm w = if is_confirmed w then w else write_confirmed w

  -- esphome_ota_service. flash_img_init makes a context that has taken nothing.
  unfoldable pub ota_service : (connections rounds : ℕ) → Run p → Outcome × Run p
  ota_service connections rounds r =
      let (ret, w) = flash_init (confirm r.peer) in
      let (failure, w') = start_listening net w in
      if is_nonzero ret then (returned ret, record r { peer = w }) else elim failure [
        | some error ↦ (returned error, record r { peer = w'; written = []; closed = false })
        | none ↦
            accept_loop connections rounds (record r { peer = w'; written = []; closed = false })
      ]
