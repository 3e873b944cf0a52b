-- ===== src/Wifi/Connection/Idle.antt =====
-- The station while no work waits.
use zephyr_esphome.Prelude.{◌≡◌, refl, ◌∙◌, List, [], ◌∷◌, foldl, Bool, true, false, none, All}
use zephyr_esphome.Wifi.Connection.{
  Hook, on_connect, on_disconnect, Station, Report, connect_result, disconnect_result, other_event,
  call_hook, handle_wifi_connect_result, handle_wifi_disconnect_result, wifi_mgmt_event_handler,
}
use zephyr_esphome.Wifi.Connection.Retries.{fails}

module _ {ℓ} {A : Type ℓ} (connect_hook disconnect_hook : Bool) where
  hook_same :
      (b : Bool) (hook : Hook) (st : Station A)
      → ((call_hook b hook st).scheduled ≡ st.scheduled)
        × ((call_hook b hook st).requested ≡ st.requested)
  unfolding call_hook
  hook_same true hook st = (refl, refl)
  hook_same false hook st = (refl, refl)

  -- A report of success, or of another event, leaves a station without waiting work without it.
  handler_idle :
      (r : Report) (st : Station A)
      → fails r ≡ false
      → st.scheduled ≡ none
      → ((wifi_mgmt_event_handler connect_hook disconnect_hook r st).scheduled ≡ none)
        × ((wifi_mgmt_event_handler connect_hook disconnect_hook r st).requested ≡ st.requested)
  unfolding fails wifi_mgmt_event_handler handle_wifi_connect_result handle_wifi_disconnect_result
  handler_idle (connect_result status) st e i =
      rw e (let (kept, same) = hook_same connect_hook on_connect st in (kept ∙ i, same))
  handler_idle (disconnect_result status) st e i =
      rw e (let (kept, same) = hook_same disconnect_hook on_disconnect st in (kept ∙ i, same))
  handler_idle other_event st e i = (i, refl)

  -- While no work waits, no sequence of reports without a failure makes the station ask for a network
  -- again, or makes work wait: also not the end of the connection that is reported with status 0.
  pub stays_disconnected :
      (reports : List Report) (st : Station A)
      → st.scheduled ≡ none
      → All (λ r. fails r ≡ false) reports
      → ((foldl
            (λ t r. wifi_mgmt_event_handler connect_hook disconnect_hook r t)
            st
            reports).scheduled
          ≡ none)
        × ((foldl
              (λ t r. wifi_mgmt_event_handler connect_hook disconnect_hook r t)
              st
              reports).requested
            ≡ st.requested)
  stays_disconnected [] st i a = (i, refl)
  stays_disconnected (r ∷ reports) st i a =
      let (i', same) = handler_idle r st a.0 i in
      let (i'', same') =
        stays_disconnected reports (wifi_mgmt_event_handler connect_hook disconnect_hook r st) i'
          a.1 in
      (i'', same' ∙ same)
