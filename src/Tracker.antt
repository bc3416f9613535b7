-- ===== src/Tracker.antt =====
-- Device presence (src/pollers/device_state_tracker.py), one tick of it. Its database connection
-- is that of `Alerting`; the module's globals and the tick's circumstances are records.
pub mod Texts
pub mod State
pub mod Rows
pub mod Loops
pub mod Ticks
pub mod Runs
pub mod Grace
mod Tests
pub use Texts.{friendly_name, device_context}
pub use State.{
  Process, Tick, device_type_of, flap_threshold, flap_window_seconds, infrastructure_device_types,
  initial_population_tick_window, is_offline, offline_grace_ticks, setting_or, severity_for,
  startup_grace_seconds, state_mac,
}
unfoldable pub use State.{
  check_flapping, in_initial_population, in_startup_grace, log_transition, offline_severity,
  reset_tick_baseline_if_needed,
}
use net_lanvas.Base.{
  ℕ, ◌+◌, String, Option, none, some, List, [], ◌∷◌, ◌++◌, map, Bool, true, false, not, ◌&&◌, leb,
  elem, if◌then◌else◌, eq_String,
}
use net_lanvas.Base.Table.{select}
use net_lanvas.Base.Keyed.{find_key, update_key}
use net_lanvas.Base.Number.{show}
use net_lanvas.Net.{Net, Status, new, online, offline, DeviceState, Binding, Location}
use net_lanvas.Alerting.{Conn, commit, rollback, Outcome, ok, raise, ◌>>=◌, NewAlert, create_alert}
use net_lanvas.Tracker.Texts.{find_node_of, concat}

abbrev pub done : Conn → Outcome (Unit {0})
done conn = ok tt conn

abbrev pub on_net : (Net → Net) → Conn → Conn
on_net f conn = record conn { net = f conn.net }

-- create_alert, whose result the tracker drops
unfoldable pub raise_alert : NewAlert → ℕ → Conn → Outcome (Unit {0})
unfolding create_alert
raise_alert a now conn = create_alert a now conn >>= λ id after. ok tt after

abbrev pub first_row : String → Tick → DeviceState
first_row mac t = record {
  mac_address = mac;
  status = new;
  last_seen = t.now;
  last_seen_tick = some t.tick;
  last_status_change = t.now;
}

unfoldable pub insert_new : Tick → String → Net → Net
insert_new t mac net = record net { device_state = net.device_state ++ first_row mac t ∷ [] }

unfoldable pub touch : Tick → String → Net → Net
unfolding update_key
touch t mac net = record net {
  device_state =
      update_key state_mac mac (λ r. record r { last_seen = t.now; last_seen_tick = some t.tick })
        net.device_state;
}

unfoldable pub set_status : Tick → String → Status → Net → Net
unfolding update_key
set_status t mac status net = record net {
  device_state =
      update_key state_mac mac (λ r. record r { status = status; last_status_change = t.now })
        net.device_state;
}

abbrev pub new_device_alert : Net → String → NewAlert
new_device_alert net mac = record {
  alert_type = "new_device";
  severity = "info";
  title = concat ("New device discovered: " ∷ friendly_name net mac ∷ []);
  detail = some (
      concat
        (mac ∷ " was seen on the network for the first time" ∷ device_context net mac ∷ "." ∷ []));
  mac_address = some mac;
  is_resolution = false;
}

abbrev pub online_alert : Net → String → NewAlert
online_alert net mac = record {
  alert_type = "device_online";
  severity = "info";
  title = concat (friendly_name net mac ∷ " is back online" ∷ []);
  detail = some (concat (mac ∷ " reappeared on the network" ∷ device_context net mac ∷ "." ∷ []));
  mac_address = some mac;
  is_resolution = true;
}

abbrev pub offline_alert : (String → Option String) → Net → String → NewAlert
offline_alert setting net mac = record {
  alert_type = "device_offline";
  severity = offline_severity setting net mac;
  title = concat (friendly_name net mac ∷ " went offline" ∷ []);
  detail = some (
      concat (
        mac
        ∷ " has not been seen for "
        ∷ show offline_grace_ticks
        ∷ " consecutive polling cycles"
        ∷ device_context net mac
        ∷ "."
        ∷ []));
  mac_address = some mac;
  is_resolution = false;
}

-- `if not suppress: create_alert(...)`, the alert's texts read from the tables as they stand
abbrev pub alert_unless : Bool → (Net → NewAlert) → ℕ → Conn → Outcome (Unit {0})
alert_unless suppress alert now conn =
    if suppress then done conn else raise_alert (alert conn.net) now conn

module _ (t : Tick) where
  abbrev pub tick_or : Option ℕ → ℕ
  tick_or none = t.tick
  tick_or (some tick) = tick

  -- status IN ('new', 'online') AND (tick - COALESCE(last_seen_tick, tick)) >= grace
  abbrev pub is_stale : DeviceState → Bool
  is_stale r =
      not (is_offline r.status) && leb (tick_or r.last_seen_tick + offline_grace_ticks) t.tick

module _ (t : Tick) (suppress_alerts suppress_new : Bool) where
  -- the branch of a MAC that has no row yet
  pub visit_unknown : String → Conn → Outcome (Unit {0})
  unfolding insert_new log_transition
  visit_unknown mac conn =
      alert_unless suppress_new (λ net. new_device_alert net mac) t.now
        (on_net (λ net. log_transition mac none new t.now (insert_new t mac net)) conn)

  -- the branches on the status that the row had before this tick
  pub visit_known : String → Status → Conn → Outcome (Unit {0})
  unfolding touch set_status log_transition check_flapping
  visit_known mac new conn = done (
      on_net
        (λ net.
          log_transition mac (some new) online t.now (set_status t mac online (touch t mac net)))
        conn)
  visit_known mac online conn = done (on_net (touch t mac) conn)
  visit_known mac offline conn =
      alert_unless suppress_alerts (λ net. online_alert net mac) t.now
        (on_net
          (λ net.
            log_transition mac (some offline) online t.now
              (set_status t mac online (touch t mac net)))
          conn)
      >>= λ _ after. done (on_net (check_flapping mac t.now) after)

  abbrev pub visit_by : String → Option DeviceState → Conn → Outcome (Unit {0})
  visit_by mac none conn = visit_unknown mac conn
  visit_by mac (some row) conn = visit_known mac row.status conn

  -- the first loop; `existing` is the table as it was before the loop
  pub visit_present : List DeviceState → List String → Conn → Outcome (Unit {0})
  visit_present existing [] conn = done conn
  visit_present existing (mac ∷ macs) conn =
      visit_by mac (find_key state_mac mac existing) conn >>= λ _ after.
      visit_present existing macs after

  pub go_offline : String → Status → Conn → Outcome (Unit {0})
  unfolding set_status log_transition check_flapping
  go_offline mac status conn =
      alert_unless suppress_alerts (λ net. offline_alert t.setting net mac) t.now
        (on_net
          (λ net. log_transition mac (some status) offline t.now (set_status t mac offline net))
          conn)
      >>= λ _ after. done (on_net (check_flapping mac t.now) after)

  -- the second loop, over the rows that were stale when it began
  pub visit_stale : List String → List DeviceState → Conn → Outcome (Unit {0})
  visit_stale present [] conn = done conn
  visit_stale present (r ∷ stale) conn =
      (if elem r.mac_address present then done conn else go_offline r.mac_address r.status conn)
      >>= λ _ after. visit_stale present stale after

  unfoldable pub track : List String → Conn → Outcome (Unit {0})
  track present conn = visit_present conn.net.device_state present conn >>= λ _ seen.
      visit_stale present (select (is_stale t) seen.net.device_state) seen >>= λ _ after.
      done (commit after)

abbrev pub add_text : String → List String → List String
add_text s xs = if elem s xs then xs else s ∷ xs

-- the members of a set that is built from a list
unfoldable pub distinct : List String → List String
distinct [] = []
distinct (s ∷ rest) = add_text s (distinct rest)

abbrev pub cutoff : Option ℕ → ℕ → ℕ
cutoff none tick_started_at = tick_started_at
cutoff (some previous) tick_started_at = previous

-- every MAC with a location, or with a binding refreshed since the previous tick began
unfoldable pub present_macs : Process → Tick → Net → List String
unfolding distinct
present_macs p t net = distinct (
    map (λ (l : Location). l.mac_address) net.endpoint_locations
    ++ map (λ (b : Binding). b.mac_address)
        (select
          (λ (b : Binding). leb (cutoff p.previous_tick_started_at t.tick_started_at) b.last_seen)
          net.l3_bindings))

-- `except Exception: conn.rollback()`
abbrev pub after_exception : Outcome (Unit {0}) → Conn
after_exception (ok _ conn) = conn
after_exception (raise conn) = rollback conn

unfoldable pub run_device_state_tracker : Process → Tick → Conn → Process × Conn
unfolding reset_tick_baseline_if_needed in_startup_grace in_initial_population
run_device_state_tracker p t conn =
    let begun = on_net (reset_tick_baseline_if_needed t.tick) conn in
    let (suppress_new, p') = in_initial_population p begun.net t.tick in
    (
      record p' { previous_tick_started_at = some t.tick_started_at },
      after_exception (
          track t (in_startup_grace p t.monotonic) suppress_new
            (t.iteration (present_macs p t begun.net)) begun),
    )
