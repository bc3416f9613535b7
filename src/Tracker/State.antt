-- ===== src/Tracker/State.antt =====
-- The tracker's constants, its globals and a tick's arguments, and what it reads and writes besides
-- the device's row (src/pollers/device_state_tracker.py): the baseline, the two graces, the severity
-- of an alert, the log of transitions and the flapping finding.
use net_lanvas.Base.{
  ℕ, ◌+◌, String, Option, none, some, List, [], ◌∷◌, ◌++◌, Bool, true, false, ◌&&◌, ltb, leb,
  nat_eq, elem, length, if◌then◌else◌, ◌==◌, eq_String, eq_ℕ, ◌/◌,
}
use net_lanvas.Base.Table.{count, update}
use net_lanvas.Base.Number.{show}
use net_lanvas.Net.{Net, Status, offline, DeviceState, Transition, Finding, Node}
use net_lanvas.Tracker.Texts.{friendly_name, device_context, find_node_of, concat}

abbrev pub offline_grace_ticks : ℕ
offline_grace_ticks = 3

abbrev pub flap_window_seconds : ℕ
flap_window_seconds = 1800

abbrev pub flap_threshold : ℕ
flap_threshold = 4

abbrev pub startup_grace_seconds : ℕ
startup_grace_seconds = 180

abbrev pub initial_population_tick_window : ℕ
initial_population_tick_window = 3

-- the module's globals
pub record Process : Type 0 where
  pub process_start_time : ℕ
  pub initial_population_detected : Option Bool
  pub previous_tick_started_at : Option ℕ

-- A tick's arguments, and what it reads from outside: the two clocks, the settings of config.db,
-- and the order in which a set of texts is iterated.
pub record Tick : Type 0 where
  pub tick : ℕ
  pub tick_started_at : ℕ
  pub now : ℕ
  pub monotonic : ℕ
  pub setting : String → Option String
  pub iteration : List String → List String

-- monotonic() - _PROCESS_START_TIME < STARTUP_GRACE_SECONDS
unfoldable pub in_startup_grace : Process → ℕ → Bool
in_startup_grace p monotonic = ltb monotonic (p.process_start_time + startup_grace_seconds)

abbrev pub state_mac : DeviceState → String
state_mac r = r.mac_address

unfoldable pub reset_tick_baseline_if_needed : ℕ → Net → Net
unfolding update
reset_tick_baseline_if_needed tick net =
    if leb tick 1
    then record net {
      device_state =
          update (λ _. true) (λ r. record r { last_seen_tick = some tick }) net.device_state;
    }
    else net

abbrev population_checked : Option Bool → Net → Bool
population_checked none net = nat_eq (length net.device_state) 0
population_checked (some detected) net = detected

unfoldable pub in_initial_population : Process → Net → ℕ → Bool × Process
in_initial_population p net tick =
    let detected = population_checked p.initial_population_detected net in
    (
      detected && leb tick initial_population_tick_window,
      record p { initial_population_detected = some detected },
    )

abbrev pub infrastructure_device_types : List String
infrastructure_device_types =
    "Switch" ∷ "Access Point" ∷ "Unmanaged Switch" ∷ "Docker Host" ∷ "Server" ∷ "Printer" ∷ []

-- config._get_setting(key, default)
abbrev pub setting_or : Option String → String → String
setting_or none default = default
setting_or (some value) default = value

abbrev pub severity_for : (String → Option String) → Option String → String
severity_for setting none = setting_or (setting "SEVERITY_OFFLINE_ENDPOINT") "low"
severity_for setting (some device_type) =
    if device_type == "Router"
    then setting_or (setting "SEVERITY_OFFLINE_ROUTER") "critical"
    else if elem device_type infrastructure_device_types
    then setting_or (setting "SEVERITY_OFFLINE_INFRASTRUCTURE") "high"
    else setting_or (setting "SEVERITY_OFFLINE_ENDPOINT") "low"

abbrev pub device_type_of : Option Node → Option String
device_type_of none = none
device_type_of (some n) = n.device_type

unfoldable pub offline_severity : (String → Option String) → Net → String → String
unfolding find_node_of
offline_severity setting net mac = severity_for setting (device_type_of (find_node_of net mac))

unfoldable pub log_transition : String → Option Status → Status → ℕ → Net → Net
log_transition mac from to now net = record net {
  device_state_transitions =
      net.device_state_transitions
      ++ record { mac_address = mac; from_status = from; to_status = to; transitioned_at = now }
        ∷ [];
}

abbrev pub is_offline : Status → Bool
is_offline offline = true
is_offline _ = false

abbrev recent_offline : String → ℕ → Transition → Bool
recent_offline mac now t =
    t.mac_address == mac
    && is_offline t.to_status
    && leb now (t.transitioned_at + flap_window_seconds)

abbrev is_flapping_of : String → Finding → Bool
is_flapping_of mac f = f.mac_address == mac && f.finding_type == "flapping"

-- INSERT ... ON CONFLICT(mac_address, finding_type) DO UPDATE
abbrev upsert_flapping : String → String → ℕ → List Finding → List Finding
upsert_flapping mac detail now findings =
    if nat_eq (count (is_flapping_of mac) findings) 0
    then findings
      ++ record {
        mac_address = mac;
        finding_type = "flapping";
        severity = "low";
        detail = detail;
        first_detected = now;
        last_confirmed = now;
        resolved_at = none;
      }
        ∷ []
    else update (is_flapping_of mac) (λ f. record f { last_confirmed = now; detail = detail })
        findings

unfoldable pub check_flapping : String → ℕ → Net → Net
unfolding count update
check_flapping mac now net =
    let times = count (recent_offline mac now) net.device_state_transitions in
    if ltb times flap_threshold then net else record net {
      device_findings =
          upsert_flapping mac
            (concat (
              friendly_name net mac
              ∷ " has changed online/offline state "
              ∷ show times
              ∷ " times in the last "
              ∷ show (flap_window_seconds / 60)
              ∷ " minutes"
              ∷ device_context net mac
              ∷ "."
              ∷ []))
            now net.device_findings;
    }
