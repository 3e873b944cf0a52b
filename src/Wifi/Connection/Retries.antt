-- ===== src/Wifi/Connection/Retries.antt =====
-- Which networks the station asks for, and when it tries again.
use zephyr_esphome.Prelude.{
  ℕ, zero, suc, ◌%◌, ◌<◌, ◌≤◌, ◌≡◌, refl, sym, ap, ◌∙◌, inl, inr, List, [], ◌∷◌, ◌++◌, Bool, true,
  false, Bool-cases, Option, none, some, Option-cases, length, get_elem?, is_nonzero, arith,
}
use zephyr_esphome.Wifi.{initial, get_next}
use zephyr_esphome.Wifi.Turns.{after, get_next-after}
use zephyr_esphome.Wifi.Connection.{
  Hook, Station, Report, connect_result, disconnect_result, other_event, schedule, call_hook,
  handle_wifi_connect_result, handle_wifi_disconnect_result, wifi_connect, wifi_disconnect,
  wifi_connect_work_cb, esphome_wifi_init, wifi_mgmt_event_handler, Step, report, work, Reach, here,
  next, boot,
}

-- The time that the work waits, 0 if it does not.
abbrev pub delay : Option ℕ → ℕ
delay none = 0
delay (some ms) = ms

-- Whether a report tells of a failure.
unfoldable pub fails : Report → Bool
fails (connect_result status) = is_nonzero status
fails (disconnect_result status) = is_nonzero status
fails other_event = false

-- Whether a step is a failure: a report of one, or a request to connect that fails.
unfoldable pub failed {ℓ} :
    {A : Type ℓ} {connect_hook disconnect_hook : Bool} {st st' : Station A}
    → Step connect_hook disconnect_hook st st'
    → Bool
unfolding fails
failed (report r) = fails r
failed (work ms disconnect_fails connect_fails e) = connect_fails

module _ {ℓ} {A : Type ℓ} (connect_hook disconnect_hook : Bool) (nets : List A) where
  -- The first `n` networks of the round.
  pub turns : ℕ → List (Option A)
  turns zero = []
  turns (suc n) = turns n ++ (get_elem? nets (n % length nets) ∷ [])

  -- After `n` requests the station has asked for the networks in turn, and waits 15 s at most.
  pub record IsTurning (n : ℕ) (st : Station A) : Type ℓ where
    pub in_turn : st.credentials ≡ after n (initial nets)
    pub asked : st.requested ≡ turns n
    pub waits : delay st.scheduled ≤ 15000

  schedule-IsTurning :
      (n ms : ℕ) (st : Station A) → ms ≤ 15000 → IsTurning n st → IsTurning n (schedule ms st)
  unfolding schedule
  schedule-IsTurning n ms st h t = elim (Option-cases st.scheduled) [
    | inl idle ↦ rw (schedule, idle) (record { in_turn = t.in_turn; asked = t.asked; waits = h })
    | inr (k, e) ↦ rw (schedule, e) t
  ]

  hook-IsTurning :
      (n : ℕ) (b : Bool) (hook : Hook) (st : Station A)
      → IsTurning n st
      → IsTurning n (call_hook b hook st)
  unfolding call_hook
  hook-IsTurning n true hook st t = record { in_turn = t.in_turn; asked = t.asked; waits = t.waits }
  hook-IsTurning n false hook st t = t

  handler-IsTurning :
      (n : ℕ) (r : Report) (st : Station A)
      → IsTurning n st
      → IsTurning n (wifi_mgmt_event_handler connect_hook disconnect_hook r st)
  unfolding wifi_mgmt_event_handler handle_wifi_connect_result handle_wifi_disconnect_result
  handler-IsTurning n (connect_result status) st t = elim (Bool-cases (is_nonzero status)) [
    | inl failure ↦ rw failure (schedule-IsTurning n 15000 st (omega arith) t)
    | inr done ↦ rw done (hook-IsTurning n connect_hook _ st t)
  ]
  handler-IsTurning n (disconnect_result status) st t = elim (Bool-cases (is_nonzero status)) [
    | inl failure ↦ rw failure (schedule-IsTurning n 15000 st (omega arith) t)
    | inr done ↦ rw done (hook-IsTurning n disconnect_hook _ st t)
  ]
  handler-IsTurning n other_event st t = t

  module _ (some_net : 0 < length nets) (few : length nets < 256) where
    asked_next :
        (n : ℕ) (st : Station A)
        → IsTurning n st
        → IsTurning (suc n) (record st {
          credentials = (get_next st.credentials).1;
          scheduled = none;
          requested = st.requested ++ ((get_next st.credentials).0 ∷ []);
        })
    unfolding after turns
    asked_next n st t =
        let (a, e, yields, current) = get_next-after nets n some_net few in
        record {
          in_turn = ap (λ c. (get_next c).1) t.in_turn;
          asked = rw (t.asked, t.in_turn) (ap (λ o. turns n ++ (o ∷ [])) (yields ∙ sym e));
          waits = omega arith;
        }

    work-IsTurning :
        (n : ℕ) (disconnect_fails connect_fails : Bool) (st : Station A)
        → IsTurning n st
        → IsTurning (suc n) (wifi_connect_work_cb disconnect_fails connect_fails st)
    unfolding wifi_connect_work_cb wifi_disconnect wifi_connect
    work-IsTurning n d true st t =
        schedule-IsTurning (suc n) 15000 _ (omega arith) (asked_next n st t)
    work-IsTurning n d false st t = asked_next n st t

    step-IsTurning :
        {n : ℕ} {st st' : Station A}
        → IsTurning n st
        → Step connect_hook disconnect_hook st st'
        → (m : ℕ) × IsTurning m st'
    step-IsTurning {n} {st} t (report r) = (n, handler-IsTurning n r st t)
    step-IsTurning {n} {st} t (work ms d f e) = (suc n, work-IsTurning n d f st t)

    -- In every state that lies ahead of esphome_wifi_init, with 1 to 255 networks, the requests to
    -- connect were for the networks in turn, in the order of the list and again from its start, and the
    -- work waits for 15 s at most.
    pub Reach-IsTurning :
        {st : Station A}
        → Reach connect_hook disconnect_hook (esphome_wifi_init (boot nets)) st
        → (n : ℕ) × IsTurning n st
    unfolding esphome_wifi_init schedule after turns
    Reach-IsTurning here = (0, record { in_turn = refl; asked = refl; waits = omega arith })
    Reach-IsTurning (next r s) = step-IsTurning (Reach-IsTurning r).1 s

  schedule-scheduled : (ms : ℕ) (st : Station A) → (t : ℕ) × ((schedule ms st).scheduled ≡ some t)
  unfolding schedule
  schedule-scheduled ms st = elim (Option-cases st.scheduled) [
    | inl idle ↦ (ms, rw (schedule, idle) refl)
    | inr (t, e) ↦ (t, rw (schedule, e) e)
  ]

  report_failed :
      (r : Report) (st : Station A)
      → fails r ≡ true
      → (t : ℕ) × ((wifi_mgmt_event_handler connect_hook disconnect_hook r st).scheduled ≡ some t)
  unfolding fails wifi_mgmt_event_handler handle_wifi_connect_result handle_wifi_disconnect_result
  report_failed (connect_result status) st e = rw e (schedule-scheduled 15000 st)
  report_failed (disconnect_result status) st e = rw e (schedule-scheduled 15000 st)
  report_failed other_event st e = cc e

  step_failed :
      {st st' : Station A} (step : Step connect_hook disconnect_hook st st')
      → failed step ≡ true
      → (t : ℕ) × (st'.scheduled ≡ some t)
  unfolding failed wifi_connect_work_cb wifi_disconnect wifi_connect
  step_failed (report r) e = report_failed r _ e
  step_failed (work ms d f w) e = rw e (schedule-scheduled 15000 _)

  -- After a failure in a state that lies ahead of esphome_wifi_init (a report of one, or a request to
  -- connect that fails), the work waits to try again, for 15 s at most. There are 1 to 255 networks.
  pub Reach_retries :
      {st st' : Station A}
      → 0 < length nets
      → length nets < 256
      → Reach connect_hook disconnect_hook (esphome_wifi_init (boot nets)) st
      → (step : Step connect_hook disconnect_hook st st') → failed step ≡ true
      → (t : ℕ) × (st'.scheduled ≡ some t) × (t ≤ 15000)
  Reach_retries some_net few r step e =
      let (t, waits) = step_failed step e in
      let (n, turning) = Reach-IsTurning some_net few (next r step) in
      (t, waits, rw waits at turning.waits)
