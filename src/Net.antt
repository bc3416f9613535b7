-- ===== src/Net.antt =====
-- The tables of network.db (src/engine/database.py), each the list of its rows. Times are in
-- seconds. A column that no modelled statement reads or writes is left out.
pub mod Pseudo
use net_lanvas.Base.{ℕ, String, Option, List, Bool}

-- logical_nodes
pub record Node : Type 0 where
  pub id : ℕ
  pub hostname : Option String
  pub device_type : Option String
  pub weld_confidence : ℕ
  pub os_family : Option String
  pub hostname_source_priority : ℕ

-- l2_interfaces
pub record Interface : Type 0 where
  pub mac_address : String
  pub node_id : Option ℕ
  pub vendor : Option String
  pub is_virtual : Bool
  pub category : Option String
  pub market_segment : Option String

-- l3_bindings
pub record Binding : Type 0 where
  pub ip_address : String
  pub mac_address : String
  pub discovery_source : String
  pub http_header : Option String
  pub last_seen : ℕ

-- endpoint_locations
pub record Location : Type 0 where
  pub mac_address : String
  pub switch_ip : String
  pub local_port : String
  pub local_port_name : Option String
  pub link_speed : Option String
  pub vlan_id : Option ℕ
  pub is_ambiguous : Bool

-- network_vlans
pub record Vlan : Type 0 where
  pub vlan_id : ℕ
  pub vlan_name : Option String

-- infrastructure_links
pub record Link : Type 0 where
  pub local_switch_ip : String
  pub local_port : ℕ
  pub local_port_name : Option String
  pub link_speed : Option String
  pub remote_system_name : Option String
  pub vlan_id : Option ℕ
  pub is_ambiguous : Bool

-- device_fingerprints
pub record Fingerprint : Type 0 where
  pub mac_address : String
  pub snmp_sysdescr : Option String

pub data Status : Type 0 where
  new online offline : Status

-- device_state
pub record DeviceState : Type 0 where
  pub mac_address : String
  pub status : Status
  pub last_seen : ℕ
  pub last_seen_tick : Option ℕ
  pub last_status_change : ℕ

-- device_state_transitions
pub record Transition : Type 0 where
  pub mac_address : String
  pub from_status : Option Status
  pub to_status : Status
  pub transitioned_at : ℕ

-- device_findings
pub record Finding : Type 0 where
  pub mac_address : String
  pub finding_type : String
  pub severity : String
  pub detail : String
  pub first_detected : ℕ
  pub last_confirmed : ℕ
  pub resolved_at : Option ℕ

-- alerts
pub record Alert : Type 0 where
  pub id : ℕ
  pub alert_type : String
  pub severity : String
  pub mac_address : Option String
  pub title : String
  pub detail : Option String
  pub is_resolution : Bool
  pub created_at : ℕ
  pub email_dispatched_at : Option ℕ
  pub webhook_dispatched_at : Option ℕ

-- network.db. An AUTOINCREMENT column has the id that it gives out next beside its table.
pub record Net : Type 0 where
  pub logical_nodes : List Node
  pub next_node_id : ℕ
  pub l2_interfaces : List Interface
  pub l3_bindings : List Binding
  pub endpoint_locations : List Location
  pub network_vlans : List Vlan
  pub infrastructure_links : List Link
  pub device_fingerprints : List Fingerprint
  pub device_state : List DeviceState
  pub device_state_transitions : List Transition
  pub device_findings : List Finding
  pub alerts : List Alert
  pub next_alert_id : ℕ
