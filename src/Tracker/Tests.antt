-- ===== src/Tracker/Tests.antt =====
-- A network of two devices, of which one left three ticks ago.
use net_lanvas.Base.{ℕ, String, none, some, [], ◌∷◌, true, false, ◌≡◌, refl, ◌*◌}
use net_lanvas.Base.Table.{select, count}
use net_lanvas.Base.Keyed.{find_key}
use net_lanvas.Net.{Net, Status, new, online, DeviceState, Location}
use net_lanvas.Alerting.{Conn, is_severity, create_alert}
use net_lanvas.Tracker.{
  Tick, Process, track, visit_present, visit_unknown, visit_known, visit_stale, go_offline,
  distinct, present_macs, run_device_state_tracker, raise_alert, insert_new, touch, set_status,
  log_transition, check_flapping, offline_severity,
}
use net_lanvas.Tracker.Rows.{AreSeverities}
use net_lanvas.Tracker.Loops.{find_state}
use net_lanvas.Tracker.Runs.{IsIteration, expected, run_device_state_tracker_rows}
use net_lanvas.Tracker.Grace.{is_offline_row}

abbrev row : String → Status → ℕ → DeviceState
row mac status tick = record {
  mac_address = mac;
  status = status;
  last_seen = 100 * tick;
  last_seen_tick = some tick;
  last_status_change = 0;
}

abbrev here : Location
here = record {
  mac_address = "aa";
  switch_ip = "10.0.0.2";
  local_port = "3";
  local_port_name = none;
  link_speed = none;
  vlan_id = some 7;
  is_ambiguous = false;
}

abbrev net : Net
net = record {
  logical_nodes = [];
  next_node_id = 1;
  l2_interfaces = [];
  l3_bindings = [];
  endpoint_locations = here ∷ [];
  network_vlans = [];
  infrastructure_links = [];
  device_fingerprints = [];
  device_state = row "bb" online 5 ∷ [];
  device_state_transitions = [];
  device_findings = [];
  alerts = [];
  next_alert_id = 1;
}

abbrev conn : Conn
conn = record { net = net; committed = net; alerts_has_new = false }

abbrev process : Process
process = record {
  process_start_time = 0;
  initial_population_detected = some false;
  previous_tick_started_at = some 700;
}

abbrev at_tick : ℕ → Tick
at_tick n = record {
  tick = n;
  tick_started_at = 800;
  now = 800;
  monotonic = 800;
  setting = λ key. none;
  iteration = λ xs. xs;
}

severities : AreSeverities (λ key. none)
unfolding is_severity
severities = record { router = refl; infrastructure = refl; endpoint = refl }

in_order : IsIteration (λ xs. xs)
in_order = record { same = λ xs s. refl; once = λ xs d. d }

-- the new device has a row and an alert, the lost one is offline with an alert
two_alerts :
    let after = (run_device_state_tracker process (at_tick 8) conn).1.net in
    (find_state "aa" after.device_state
      ≡ some (record (row "aa" new 8) { last_status_change = 800 }))
    × (is_offline_row (find_state "bb" after.device_state) ≡ true)
    × (after.next_alert_id ≡ 3)
unfolding run_device_state_tracker track visit_present visit_unknown visit_known visit_stale
    go_offline distinct present_macs raise_alert create_alert is_severity insert_new touch
    set_status log_transition check_flapping offline_severity select find_key count
two_alerts = (refl, refl, refl)

run_device_state_tracker_rows_example :
    (find_state "bb" (run_device_state_tracker process (at_tick 8) conn).1.net.device_state
      ≡ expected process (at_tick 8) net "bb")
    × ((run_device_state_tracker process (at_tick 8) conn).1.committed
        ≡ (run_device_state_tracker process (at_tick 8) conn).1.net)
unfolding find_key
run_device_state_tracker_rows_example =
    run_device_state_tracker_rows process (at_tick 8) conn severities in_order (refl, tt) "bb"
