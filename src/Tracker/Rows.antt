-- ===== src/Tracker/Rows.antt =====
-- What each step of a tick does to the table device_state, where the configured severities are
-- on the scale: then no step raises.
use net_lanvas.Base.{
  ℕ, String, Option, none, some, List, [], ◌∷◌, ◌++◌, Bool, true, false, ◌≡◌, refl, arith, elem,
  ◌==◌, eq_String, Bool-cases, inl, inr, ◌∙◌,
}
use net_lanvas.Base.Keyed.{update_key}
use net_lanvas.Net.{Net, Status, new, online, offline, DeviceState}
use net_lanvas.Alerting.{Conn, Outcome, ok, ◌>>=◌, NewAlert, is_severity}
use net_lanvas.Tracker.{
  Tick, state_mac, setting_or, offline_severity, raise_alert, alert_unless, first_row,
  check_flapping, visit_known, visit_unknown, visit_by, go_offline, device_type_of, severity_for,
  find_node_of, infrastructure_device_types, offline_alert, online_alert, new_device_alert,
}

abbrev pub IsSeverity : String → Type 0
IsSeverity s = is_severity s ≡ true

info-IsSeverity : IsSeverity "info"
unfolding is_severity
info-IsSeverity = refl

-- the severities that an administrator may have set are on the scale
pub record AreSeverities (setting : String → Option String) : Type 0 where
  pub router : IsSeverity (setting_or (setting "SEVERITY_OFFLINE_ROUTER") "critical")
  pub infrastructure : IsSeverity (setting_or (setting "SEVERITY_OFFLINE_INFRASTRUCTURE") "high")
  pub endpoint : IsSeverity (setting_or (setting "SEVERITY_OFFLINE_ENDPOINT") "low")

severity_for-IsSeverity :
    (setting : String → Option String) (device_type : Option String)
    → AreSeverities setting
    → IsSeverity (severity_for setting device_type)
severity_for-IsSeverity setting none h = h.endpoint
severity_for-IsSeverity setting (some device_type) h = elim (Bool-cases (device_type == "Router")) [
  | inl e ↦ rw e h.router
  | inr e ↦ rw e (elim (Bool-cases (elem device_type infrastructure_device_types)) [
    | inl i ↦ rw i h.infrastructure
    | inr i ↦ rw i h.endpoint
  ])
]

pub offline_severity-IsSeverity :
    (setting : String → Option String) (net : Net) (mac : String)
    → AreSeverities setting
    → IsSeverity (offline_severity setting net mac)
unfolding offline_severity
offline_severity-IsSeverity setting net mac h =
    severity_for-IsSeverity setting (device_type_of (find_node_of net mac)) h

-- `o` returned, and left the table as `rows`
abbrev pub Leaves : Outcome (Unit {0}) → List DeviceState → Type 0
Leaves o rows = (conn : Conn) × (o ≡ ok tt conn) × (conn.net.device_state ≡ rows)

pub Leaves-bind :
    (o : Outcome (Unit {0})) (f : Unit {0} → Conn → Outcome (Unit {0}))
    (rows rows' : List DeviceState)
    → Leaves o rows
    → ((conn : Conn) → conn.net.device_state ≡ rows → Leaves (f tt conn) rows')
    → Leaves (o >>= f) rows'
Leaves-bind o f rows rows' (conn, e, r) k = rw e (k conn r)

raise_alert-Leaves :
    (a : NewAlert) (now : ℕ) (conn : Conn)
    → IsSeverity a.severity
    → Leaves (raise_alert a now conn) conn.net.device_state
unfolding raise_alert
raise_alert-Leaves a now conn h = rw h (_, refl, refl)

alert_unless-Leaves :
    (suppress : Bool) (alert : Net → NewAlert) (now : ℕ) (conn : Conn)
    → IsSeverity (alert conn.net).severity
    → Leaves (alert_unless suppress alert now conn) conn.net.device_state
alert_unless-Leaves true alert now conn h = (conn, refl, refl)
alert_unless-Leaves false alert now conn h = raise_alert-Leaves (alert conn.net) now conn h

device_state-check_flapping :
    (mac : String) (now : ℕ) (net : Net)
    → (check_flapping mac now net).device_state ≡ net.device_state
unfolding check_flapping
device_state-check_flapping mac now net = ground arith

module _ (t : Tick) where
  abbrev pub touched : DeviceState → DeviceState
  touched r = record r { last_seen = t.now; last_seen_tick = some t.tick }

  abbrev pub with_status : Status → DeviceState → DeviceState
  with_status status r = record r { status = status; last_status_change = t.now }

  abbrev pub known_rows : String → Status → List DeviceState → List DeviceState
  known_rows mac online rows = update_key state_mac mac touched rows
  known_rows mac _ rows =
      update_key state_mac mac (with_status online) (update_key state_mac mac touched rows)

  abbrev pub visited_rows : String → Option DeviceState → List DeviceState → List DeviceState
  visited_rows mac none rows = rows ++ first_row mac t ∷ []
  visited_rows mac (some r) rows = known_rows mac r.status rows

  abbrev pub offline_rows : String → List DeviceState → List DeviceState
  offline_rows mac rows = update_key state_mac mac (with_status offline) rows

  module _ (suppress_alerts suppress_new : Bool) where
    visit_known-Leaves :
        (mac : String) (status : Status) (conn : Conn)
        → Leaves
            (visit_known t suppress_alerts suppress_new mac status conn)
            (known_rows mac status conn.net.device_state)
    unfolding visit_known
    visit_known-Leaves mac new conn = (_, refl, refl)
    visit_known-Leaves mac online conn = (_, refl, refl)
    visit_known-Leaves mac offline conn =
        Leaves-bind _ _ _ _
          (alert_unless-Leaves suppress_alerts (λ net. online_alert net mac) t.now _
            info-IsSeverity)
          (λ after e. (_, refl, device_state-check_flapping mac t.now after.net ∙ e))

    pub visit_by-Leaves :
        (mac : String) (found : Option DeviceState) (conn : Conn)
        → Leaves
            (visit_by t suppress_alerts suppress_new mac found conn)
            (visited_rows mac found conn.net.device_state)
    unfolding visit_unknown
    visit_by-Leaves mac none conn =
        alert_unless-Leaves suppress_new (λ net. new_device_alert net mac) t.now _ info-IsSeverity
    visit_by-Leaves mac (some r) conn = visit_known-Leaves mac r.status conn

    pub go_offline-Leaves :
        (mac : String) (status : Status) (conn : Conn)
        → AreSeverities t.setting
        → Leaves
            (go_offline t suppress_alerts suppress_new mac status conn)
            (offline_rows mac conn.net.device_state)
    unfolding go_offline
    go_offline-Leaves mac status conn h =
        Leaves-bind _ _ _ _
          (alert_unless-Leaves suppress_alerts (λ net. offline_alert t.setting net mac) t.now _
            (offline_severity-IsSeverity t.setting _ mac h))
          (λ after e. (_, refl, device_state-check_flapping mac t.now after.net ∙ e))
