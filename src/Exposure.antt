-- ===== src/Exposure.antt =====
-- Devices that answer to a default SNMP community, or that speak SNMPv3 and are managed without it
-- (src/pollers/snmp_default_community_detector.py, src/pollers/snmp_v3_available_detector.py).
-- `severity` is the setting that each run reads, and the order of the set of addresses is that of
-- the list.
pub mod Runs
pub mod Events
pub mod Separate
mod Tests
use net_lanvas.Base.{
  ℕ, String, Option, none, some, List, [], ◌∷◌, ◌++◌, Bool, true, false, not, any, ltb, nat_eq,
  ◌&&◌, ◌||◌, if◌then◌else◌, map, eq_String, eq_ℕ, ◌==◌,
}
use net_lanvas.Base.Table.{select, find, update}
use net_lanvas.Base.Keyed.{find_key}
use net_lanvas.Base.Dict.{get}
use net_lanvas.Base.Text.{append, codes, codes_eq, lower}
use net_lanvas.Net.{Net, Interface, Binding, Finding}
use net_lanvas.Alerting.{Conn, Outcome, ok, raise, NewAlert, create_alert, commit, rollback}
use net_lanvas.Tracker.Texts.{friendly_name, find_interface, concat}
use net_lanvas.Unification.{of_node}
use net_lanvas.Credential.{
  CredentialCache, Cached, credential, unresponsive, waiting, community_of, v2c, v3,
}

abbrev pub default_communities : List String
default_communities = "public" ∷ "private" ∷ []

-- community.lower() in DEFAULT_COMMUNITIES
unfoldable pub is_default : String → Bool
is_default community = any (λ word. codes_eq (lower community) (codes word)) default_communities

-- s < t by code points, which is the order of ORDER BY
abbrev is_before : List ℕ → List ℕ → Bool
is_before xs [] = false
is_before [] (y ∷ ys) = true
is_before (x ∷ xs) (y ∷ ys) = ltb x y || (nat_eq x y && is_before xs ys)

abbrev lowest : String → List String → String
lowest mac [] = mac
lowest mac (other ∷ macs) = lowest (if is_before (codes other) (codes mac) then other else mac) macs

unfoldable pub canonical_mac : Net → String → String
canonical_mac net mac = elim (find_interface net mac) [
  | none ↦ mac
  | some i ↦ elim i.node_id [
    | none ↦ mac
    | some id ↦ lowest mac (map Interface.mac_address (select (of_node id) net.l2_interfaces))
  ]
]

abbrev pub is_of : String → String → Finding → Bool
is_of mac finding_type f = f.mac_address == mac && f.finding_type == finding_type

unfoldable pub find_finding : String → String → Net → Option Finding
find_finding mac finding_type net = find (is_of mac finding_type) net.device_findings

abbrev pub is_open : Option Finding → Bool
is_open none = false
is_open (some f) = elim f.resolved_at [ none ↦ true | some t ↦ false ]

-- The row after INSERT ... ON CONFLICT(mac_address, finding_type) DO UPDATE.
abbrev pub confirmed : ℕ → String → Finding → Finding
confirmed now detail f = record f { last_confirmed = now; resolved_at = none; detail = detail }

abbrev pub fresh_row : ℕ → String → String → String → String → Finding
fresh_row now mac finding_type severity detail = record {
  mac_address = mac;
  finding_type = finding_type;
  severity = severity;
  detail = detail;
  first_detected = now;
  last_confirmed = now;
  resolved_at = none;
}

abbrev pub upserted :
    ℕ → String → String → String → String → Option Finding → List Finding → List Finding
upserted now mac finding_type severity detail (some f) findings =
    update (is_of mac finding_type) (confirmed now detail) findings
upserted now mac finding_type severity detail none findings =
    findings ++ fresh_row now mac finding_type severity detail ∷ []

abbrev pub upsert_finding : ℕ → String → String → String → String → Net → Net
upsert_finding now mac finding_type severity detail net = record net {
  device_findings =
      upserted now mac finding_type severity detail (find_finding mac finding_type net)
        net.device_findings;
}

abbrev pub resolve_finding : ℕ → String → String → Net → Net
resolve_finding now mac finding_type net = record net {
  device_findings =
      update (is_of mac finding_type) (λ f. record f { resolved_at = some now })
        net.device_findings;
}

-- What a detector says of an address: its texts, from the address and the device's name.
pub record Kind : Type 0 where
  pub finding_type : String
  pub resolved_type : String
  pub finding : String
  pub title : String → String
  pub detail : String
  pub resolved_title : String → String
  pub resolved_detail : String

abbrev pub on_net : (Net → Net) → Conn → Conn
on_net f conn = record conn { net = f conn.net }

abbrev pub opened : Kind → String → String → Net → NewAlert
opened k severity mac net = record {
  alert_type = k.finding_type;
  severity = severity;
  title = k.title (friendly_name net mac);
  detail = some k.detail;
  mac_address = some mac;
  is_resolution = false;
}

abbrev pub closed : Kind → String → Net → NewAlert
closed k mac net = record {
  alert_type = k.resolved_type;
  severity = "info";
  title = k.resolved_title (friendly_name net mac);
  detail = some k.resolved_detail;
  mac_address = some mac;
  is_resolution = true;
}

-- The body that the three detectors share, for one device that is exposed or not.
unfoldable pub observe : Kind → String → ℕ → String → Bool → Conn → Outcome ℕ
observe k severity now mac is_exposed conn =
    let was_active = is_open (find_finding mac k.finding_type conn.net) in
    let seen = on_net (upsert_finding now mac k.finding_type severity k.finding) conn in
    let gone = on_net (resolve_finding now mac k.finding_type) conn in
    if is_exposed
    then (if was_active then ok 0 seen else create_alert (opened k severity mac seen.net) now seen)
    else if was_active
    then create_alert (closed k mac gone.net) now gone
    else ok 0 conn

-- the same for the binding of an address, where there is one
abbrev pub observe_binding : Kind → String → ℕ → Bool → Conn → Option Binding → Outcome ℕ
observe_binding k severity now is_exposed conn none = ok 0 conn
observe_binding k severity now is_exposed conn (some b) =
    observe k severity now (canonical_mac conn.net b.mac_address) is_exposed conn

unfoldable pub observe_ip : Kind → String → ℕ → String → Bool → Conn → Outcome ℕ
observe_ip k severity now ip is_exposed conn =
    observe_binding k severity now is_exposed conn
      (find_key Binding.ip_address ip conn.net.l3_bindings)

-- the end of a run: commit, or rollback where it raised
abbrev pub settle : Outcome ℕ → Conn
settle (ok n conn) = commit conn
settle (raise conn) = rollback conn

-- One address of a run: what is said of it, and whether it is exposed.
pub record Sighting : Type 0 where
  pub ip : String
  pub kind : Kind
  pub is_exposed : Bool

unfoldable pub observe_all : String → ℕ → List Sighting → Conn → Outcome ℕ
observe_all severity now [] conn = ok 0 conn
observe_all severity now (s ∷ sightings) conn =
    elim (observe_ip s.kind severity now s.ip s.is_exposed conn) [
      | ok n after ↦ observe_all severity now sightings after
      | raise after ↦ raise after
    ]
