-- ===== src/Wifi/Connection.antt =====
-- wifi/wifi.c: the connection as the events of the network manager and of the delayed work move it.
pub mod Retries
pub mod Idle
use zephyr_esphome.Prelude.{
  ℕ, List, [], ◌∷◌, ◌++◌, Bool, true, false, Option, none, some, ◌≡◌, if◌then◌else◌, Code,
  is_nonzero,
}
use zephyr_esphome.Wifi.{Credentials, initial, get_next}

-- The callbacks of the configuration that the code calls.
pub data Hook : Type 0 where
  on_connect on_disconnect : Hook

-- struct esphome_wifi_data with the credentials, and a record of the calls: `scheduled` is the delay
-- of the work while it waits, `requested` are the networks of the requests to connect, `none` for
-- parameters from outside the array, and `called` are the callbacks.
pub record Station {ℓ} (A : Type ℓ) : Type ℓ where
  pub credentials : Credentials A
  pub scheduled : Option ℕ
  pub requested : List (Option A)
  pub called : List Hook

-- What the network manager reports: NET_EVENT_WIFI_CONNECT_RESULT, NET_EVENT_WIFI_DISCONNECT_RESULT,
-- or any other event.
pub data Report : Type 0 where
  connect_result : (status : Code) → Report
  disconnect_result : (status : Code) → Report
  other_event : Report

module _ {ℓ} {A : Type ℓ} where
  -- k_work_schedule: work that waits already keeps its time.
  unfoldable pub schedule : ℕ → Station A → Station A
  schedule ms st = elim st.scheduled [ none ↦ record st { scheduled = some ms } | some t ↦ st ]

  -- `has_hook` says whether the device tree names the function.
  unfoldable pub call_hook : Bool → Hook → Station A → Station A
  call_hook has_hook hook st =
      if has_hook then record st { called = st.called ++ (hook ∷ []) } else st

  unfoldable pub handle_wifi_connect_result : Bool → Code → Station A → Station A
  handle_wifi_connect_result has_hook status st =
      if is_nonzero status then schedule 15000 st else call_hook has_hook on_connect st

  unfoldable pub handle_wifi_disconnect_result : Bool → Code → Station A → Station A
  handle_wifi_disconnect_result has_hook status st =
      if is_nonzero status then schedule 15000 st else call_hook has_hook on_disconnect st

  unfoldable pub wifi_connect : (fails : Bool) → Station A → Station A
  wifi_connect fails st =
      let (params, credentials) = get_next st.credentials in
      let st' : Station A = record st {
        credentials = credentials;
        requested = st.requested ++ (params ∷ []);
      } in
      if fails then schedule 15000 st' else st'

  -- wifi_disconnect logs a failure, and changes nothing here.
  unfoldable pub wifi_disconnect : (fails : Bool) → Station A → Station A
  wifi_disconnect fails st = st

  -- The work no longer waits when its function runs.
  unfoldable pub wifi_connect_work_cb :
      (disconnect_fails connect_fails : Bool) → Station A → Station A
  wifi_connect_work_cb disconnect_fails connect_fails st =
      wifi_connect connect_fails (wifi_disconnect disconnect_fails (record st { scheduled = none }))

  unfoldable pub esphome_wifi_init : Station A → Station A
  esphome_wifi_init = schedule 1000

  module _ (connect_hook disconnect_hook : Bool) where
    unfoldable pub wifi_mgmt_event_handler : Report → Station A → Station A
    wifi_mgmt_event_handler (connect_result status) = handle_wifi_connect_result connect_hook status
    wifi_mgmt_event_handler (disconnect_result status) =
        handle_wifi_disconnect_result disconnect_hook status
    wifi_mgmt_event_handler other_event = λ st. st

    -- What can happen: the network manager reports anything at any time, and the work runs only when
    -- it waits; whether its two requests fail is not the code's choice.
    pub data Step (st : Station A) : Station A → Type ℓ where
      report : (r : Report) → Step st (wifi_mgmt_event_handler r st)
      work :
          (ms : ℕ) (disconnect_fails connect_fails : Bool)
          → st.scheduled ≡ some ms
          → Step st (wifi_connect_work_cb disconnect_fails connect_fails st)

    -- The states that lie ahead of `st`.
    pub data Reach (st : Station A) : Station A → Type ℓ where
      here : Reach st st
      next : {t u : Station A} → Reach st t → Step t u → Reach st u

  -- The station before and after esphome_wifi_init.
  abbrev pub boot : List A → Station A
  boot nets = record { credentials = initial nets; scheduled = none; requested = []; called = [] }
