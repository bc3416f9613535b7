-- ===== src/Hostname/Tests.antt =====
-- Runs of the hostname writer.
use net_lanvas.Base.{none, some, [], ◌∷◌, true, false, ◌≡◌, refl, arith, eq_ℕ}
use net_lanvas.Base.Text.{strip}
use net_lanvas.Base.Table.{find}
use net_lanvas.Base.Keyed.{find_key}
use net_lanvas.Net.{Node, Net}
use net_lanvas.Hostname.{is_usable_hostname, set_hostname_by_node_id}
use net_lanvas.Hostname.Priority.{find_node, set_hostname_by_node_id_comm}

usable : is_usable_hostname "  nas-01 " ≡ true
unfolding is_usable_hostname strip
usable = refl

junk : is_usable_hostname " LocalHost" ≡ false
unfolding is_usable_hostname strip
junk = refl

injected : is_usable_hostname "nas\nERROR" ≡ false
unfolding is_usable_hostname strip
injected = refl

abbrev pub node : Node
node = record {
  id = 3;
  hostname = some "nas";
  device_type = some "Server";
  weld_confidence = 80;
  os_family = none;
  hostname_source_priority = 30;
}

abbrev pub net : Net
net = record {
  logical_nodes = node ∷ [];
  next_node_id = 4;
  l2_interfaces = [];
  l3_bindings = [];
  endpoint_locations = [];
  network_vlans = [];
  infrastructure_links = [];
  device_fingerprints = [];
  device_state = [];
  device_state_transitions = [];
  device_findings = [];
  alerts = [];
  next_alert_id = 1;
}

refused : (set_hostname_by_node_id 3 "other" 10 net).0 ≡ false
unfolding set_hostname_by_node_id is_usable_hostname strip find_key find
refused = refl

-- An equal priority overwrites.
refreshed : (set_hostname_by_node_id 3 "other" 30 net).0 ≡ true
unfolding set_hostname_by_node_id is_usable_hostname strip find_key find
refreshed = refl

set_hostname_by_node_id_comm_example :
    find_node 3 (set_hostname_by_node_id 3 "a" 40 (set_hostname_by_node_id 3 "b" 50 net).1).1
    ≡ find_node 3 (set_hostname_by_node_id 3 "b" 50 (set_hostname_by_node_id 3 "a" 40 net).1).1
set_hostname_by_node_id_comm_example =
    set_hostname_by_node_id_comm 3 3 "a" "b" 40 50 net 3 (λ e. omega (arith, e))

found : find_node 3 net ≡ some node
unfolding find_key find
found = refl
