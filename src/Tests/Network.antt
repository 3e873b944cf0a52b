-- ===== src/Tests/Network.antt =====
-- Runs of wifi.c and of the listening sockets, and their theorems at concrete inputs.
use zephyr_esphome.Api.Base.{Config}
use zephyr_esphome.Entity.Copy.{c_string}
use zephyr_esphome.Openthread.{
  Role, detached, child, router, leader, Ot, copy_name, register, ot_srp_init,
  on_thread_state_changed, Change, after_changes, initial,
}
use zephyr_esphome.Openthread.Names.{copy_name_lem}
use zephyr_esphome.Openthread.Announced.{
  IsAnnouncedOnce, after_changes-IsAnnouncedOnce, refused-entries,
}
use zephyr_esphome.Prelude.{replicate, ltb, if◌then◌else◌}
use zephyr_esphome.Prelude.{
  ℕ, ◌+◌, ◌-◌, ◌≤◌, ◌≡◌, refl, List, [], ◌∷◌, Bool, true, false, none, some, foldl, pos, neg, eio,
  success, arith,
}
use zephyr_esphome.Rpc.Listen.{Net}
use zephyr_esphome.Rpc.Listen.Connections.{Counts}
use zephyr_esphome.Threads.{
  set_owner, rpc_client, ota_client, Descriptors, boot, rpc_accepts, Reach, start, later,
  sensor_target,
}
use zephyr_esphome.Threads.Owners.{Reach-sensor_target, sensor_target_lost, Leads}
use zephyr_esphome.Wifi.Connection
use zephyr_esphome.Wifi.Connection.{
  Station, Report, connect_result, disconnect_result, other_event, wifi_mgmt_event_handler,
  esphome_wifi_init, schedule, handle_wifi_connect_result, wifi_connect_work_cb, here, next, report,
  work,
}
use zephyr_esphome.Wifi.Connection.Idle.{stays_disconnected}
use zephyr_esphome.Wifi.Connection.Retries.{
  IsTurning, Reach-IsTurning, Reach_retries, failed, fails,
}

abbrev nets : List ℕ
nets = 10 ∷ 20 ∷ []

-- After esphome_wifi_init, and after the first request, which has failed.
abbrev started : Station ℕ
started = esphome_wifi_init (Connection.boot nets)

-- The work runs, and its request to connect fails.
abbrev refused : Connection.Step true true started (wifi_connect_work_cb false true started)
unfolding esphome_wifi_init schedule
refused = work 1000 false true refl

Reach-IsTurning_example :
    (n : ℕ) × IsTurning true true nets n (wifi_connect_work_cb false true started)
Reach-IsTurning_example =
    Reach-IsTurning true true nets (omega arith) (omega arith) (next here refused)

Reach_retries_example :
    (t : ℕ) × ((wifi_connect_work_cb false true started).scheduled ≡ some t) × (t ≤ 15000)
unfolding failed refused
Reach_retries_example = Reach_retries true true nets (omega arith) (omega arith) here refused refl

abbrev connected : Station ℕ
connected = record (Connection.boot nets) { requested = some 10 ∷ [] }

abbrev lost_connection : List Report
lost_connection = disconnect_result success ∷ other_event ∷ []

stays_disconnected_example :
    ((foldl (λ t r. wifi_mgmt_event_handler true true r t) connected lost_connection).scheduled
      ≡ none)
    × ((foldl (λ t r. wifi_mgmt_event_handler true true r t) connected lost_connection).requested
        ≡ some 10 ∷ [])
unfolding fails
stays_disconnected_example =
    stays_disconnected true true lost_connection connected refl (refl, (refl, tt))

-- A network on which the number of open sockets is the state; a port can be taken.
abbrev net : (free : Bool) → Net ℕ
net free = record {
  open_server = λ w. (true, w + 1);
  v6only = λ w. (some true, w);
  clear_v6only = λ w. w;
  bind = λ w. (free, w);
  listen = λ w. (true, w);
  close_server = λ w. w - 1;
  errno = λ w. neg eio;
}

net-Counts : (free : Bool) → Counts (net free) (λ w. w)
net-Counts free = record {
  opened = λ w. refl;
  asked = λ w. refl;
  cleared = λ w. refl;
  bound = λ w. refl;
  listened = λ w. refl;
  closed = λ w. refl;
}

abbrev serving : Descriptors
serving = record boot {
  owner = set_owner 7 (some rpc_client) (λ fd. none);
  socket = pos 7;
  serving = true;
}

abbrev reached : Reach serving
reached = later start (rpc_accepts 7 refl refl)

Reach-sensor_target_example : sensor_target serving ≡ some rpc_client
Reach-sensor_target_example = Reach-sensor_target reached refl

sensor_target_lost_example :
    (d : Descriptors) × Leads serving d × (sensor_target d ≡ some ota_client)
sensor_target_lost_example = sensor_target_lost reached refl refl

-- An OpenThread whose buffers hold five bytes, and that refuses every service. Its state is the role.
abbrev refusing_ot : Ot
refusing_ot = record {
  World = Role;
  has_instance = λ w. true;
  set_callback = λ w. w;
  host_name = λ w. replicate 5 1;
  set_host_name = λ bs w. (true, w);
  enable_auto_host_address = λ w. (true, w);
  allocate_service = λ w. (true, w);
  instance_name = λ w. replicate 5 1;
  service_name = λ w. replicate 20 1;
  add_service = λ port name service w. (false, w);
  enable_auto_start = λ w. w;
  device_role = λ w. w;
}

abbrev config : Config
config = record {
  name = 101 ∷ 115 ∷ 112 ∷ [];
  friendly_name = [];
  server_info = [];
  api_version_major = 1;
  api_version_minor = 10;
  compilation_time = [];
  project_name = none;
  project_version = none;
  model = none;
  manufacturer = none;
  password = none;
  port = 6053;
}

abbrev changes : List (Change refusing_ot)
changes =
    record { world = child; role_changed = true }
    ∷ record { world = router; role_changed = true }
    ∷ []

refused-entries_example :
    (after_changes refusing_ot config (initial refusing_ot detached) changes).entries ≡ 0 + 2
refused-entries_example =
    refused-entries refusing_ot config
      (record {
        instance_found = λ w. refl;
        named = λ bs w. refl;
        addressed = λ w. refl;
        allocated = λ w. refl;
        refused = λ port name service w. refl;
      })
      (initial refusing_ot detached) changes refl (refl, (refl, tt))

-- The same, but services are taken.
abbrev willing_ot : Ot
willing_ot = record refusing_ot { add_service = λ port name service w. (true, w) }

announced_once :
    (after_changes willing_ot config (initial willing_ot detached) (
      record { world = child; role_changed = true }
      ∷ record { world = leader; role_changed = true }
      ∷ [])).services
    ≡ 1
unfolding after_changes on_thread_state_changed ot_srp_init register copy_name
announced_once = refl

after_changes-IsAnnouncedOnce_example : IsAnnouncedOnce willing_ot config (
    after_changes willing_ot config (initial willing_ot detached) (
      record { world = child; role_changed = true }
      ∷ record { world = leader; role_changed = true }
      ∷ []))
after_changes-IsAnnouncedOnce_example = after_changes-IsAnnouncedOnce willing_ot config detached (
    record { world = child; role_changed = true }
    ∷ record { world = leader; role_changed = true }
    ∷ [])

-- "esp" fits into a buffer of five bytes.
copy_name_lem_example :
    c_string (copy_name config.name (replicate 5 1)) ≡ (if ltb 3 5 then some config.name else none)
copy_name_lem_example =
    copy_name_lem config.name (replicate 5 1)
      ((λ e. omega (arith, e)), ((λ e. omega (arith, e)), ((λ e. omega (arith, e)), tt)))
