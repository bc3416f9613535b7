-- ===== src/Unification/Consolidation.antt =====
-- A verified switch takes the place of its stand-in (src/engine/unification.py:
-- run_verified_switch_consolidation_pass).
pub mod Gone
mod Tests
use net_lanvas.Base.{
  ℕ, suc, String, Option, none, some, List, [], ◌∷◌, Bool, true, false, not, ◌&&◌, ◌||◌, nat_eq,
  elem, any, map, if◌then◌else◌, eq_ℕ, eq_String, eq_pair, ◌==◌, is_some, is_empty,
}
use net_lanvas.Base.Table.{select, delete, update, find}
use net_lanvas.Base.Keyed.{find_key, delete_key}
use net_lanvas.Base.Text.{starts_with}
use net_lanvas.Net.{
  Interface, Binding, Location, Link, Fingerprint, DeviceState, Transition, Finding, Net,
}
use net_lanvas.Net.Pseudo.{pseudo_mac_prefix, is_physical, cast_int, pseudo_ip}
use net_lanvas.Inventory.{Device}
use net_lanvas.Hostname.{is_text}
use net_lanvas.Unification.{node_of_mac, delete_node}

abbrev pub add_port : String × String → List (String × String) → List (String × String)
add_port port ports = port ∷ delete (λ p. p == port) ports

-- SELECT DISTINCT switch_ip, local_port
unfoldable pub ports_of : List Location → List (String × String)
ports_of [] = []
ports_of (l ∷ locations) =
    let rest = ports_of locations in
    if is_physical l.local_port then add_port (l.switch_ip, l.local_port) rest else rest

-- verified.get(mac) not in (None, "Endpoint")
abbrev pub is_real_type : Option String → Bool
is_real_type none = false
is_real_type (some device_type) = not (device_type == "Endpoint")

abbrev pub is_real : List Device → String → Bool
is_real devices mac = elim (find_key Device.mac_address mac devices) [
  | none ↦ false
  | some d ↦ is_real_type d.human.confirmed_device_type
]

abbrev pub is_at_port : String → String → Location → Bool
is_at_port switch_ip port l =
    l.switch_ip == switch_ip && nat_eq (cast_int l.local_port) (cast_int port)

abbrev pub sibling_macs : String → String → Net → List String
sibling_macs switch_ip port net =
    map Location.mac_address (select (is_at_port switch_ip port) net.endpoint_locations)

-- the address of the stand-in for the port, where there is one
abbrev pub pseudo_mac_at : String → Net → Option String
pseudo_mac_at ip net = elim (find_key Binding.ip_address ip net.l3_bindings) [
  | none ↦ none
  | some b ↦ if starts_with b.mac_address pseudo_mac_prefix then some b.mac_address else none
]

-- DELETE FROM l2_interfaces WHERE mac_address = ?, with ON DELETE CASCADE
unfoldable pub delete_interface : String → Net → Net
delete_interface mac net = record net {
  l2_interfaces = delete_key Interface.mac_address mac net.l2_interfaces;
  l3_bindings = delete_key Binding.mac_address mac net.l3_bindings;
  device_fingerprints = delete_key Fingerprint.mac_address mac net.device_fingerprints;
  device_state = delete_key DeviceState.mac_address mac net.device_state;
  device_state_transitions = delete_key Transition.mac_address mac net.device_state_transitions;
  device_findings = delete_key Finding.mac_address mac net.device_findings;
}

abbrev pub leads_to : String → Link → Bool
leads_to ip l = is_text ip l.remote_system_name

abbrev pub starts_at : String → Link → Bool
starts_at ip l = l.local_switch_ip == ip

-- Moving the links of one switch to another breaks UNIQUE(local_switch_ip, local_port).
abbrev pub collides : String → String → List Link → Bool
collides from to links =
    not (from == to)
    && any
        (λ (l : Link).
          starts_at from l
          && any (λ (k : Link). starts_at to k && nat_eq k.local_port l.local_port) links)
        links

abbrev pub delete_found : Option ℕ → Net → Net
delete_found none net = net
delete_found (some id) net = delete_node id net

-- the six writes for one port
unfoldable pub replaced : String → String → String → Net → Net
replaced pseudo_ip pseudo_mac real_ip net = delete_found (node_of_mac net pseudo_mac) (
    delete_interface pseudo_mac (record net {
      infrastructure_links =
          update (leads_to pseudo_ip) (λ l. record l { remote_system_name = some real_ip })
            (update (starts_at pseudo_ip) (λ l. record l { local_switch_ip = real_ip })
              net.infrastructure_links);
      l3_bindings = delete_key Binding.ip_address pseudo_ip net.l3_bindings;
    }))

-- `none` stands for IntegrityError
abbrev pub replace : String → String → String → Net → Option Net
replace pseudo_ip pseudo_mac real_ip net =
    if collides pseudo_ip real_ip net.infrastructure_links
    then none
    else some (replaced pseudo_ip pseudo_mac real_ip net)

-- the address of the verified switch at a port, where it has a node
abbrev pub real_ip_of : Option String → Net → Option String
real_ip_of none net = none
real_ip_of (some mac) net =
    if is_some (node_of_mac net mac)
    then elim (find_key Binding.mac_address mac net.l3_bindings) [
      | none ↦ none
      | some b ↦ some b.ip_address
    ]
    else none

-- what is to be replaced at a port: the stand-in's two addresses and the switch's
unfoldable pub stand_in : List Device → String × String → Net → Option (String × String × String)
stand_in devices (switch_ip, port) net = elim (pseudo_ip switch_ip port) [
  | none ↦ none
  | some ip ↦ elim (pseudo_mac_at ip net) [
    | none ↦ none
    | some mac ↦ elim (real_ip_of (find (is_real devices) (sibling_macs switch_ip port net)) net) [
      | none ↦ none
      | some real_ip ↦ some (ip, mac, real_ip)
    ]
  ]
]

abbrev pub counted : ℕ → Option Net → Option (ℕ × Net)
counted n none = none
counted n (some net) = some (n, net)

unfoldable pub consolidate : ℕ → Net → Option (String × String × String) → Option (ℕ × Net)
consolidate consolidated net none = some (consolidated, net)
consolidate consolidated net (some (ip, mac, real_ip)) =
    counted (suc consolidated) (replace ip mac real_ip net)

unfoldable pub consolidate_all : List Device → List (String × String) → ℕ → Net → Option (ℕ × Net)
consolidate_all devices [] consolidated net = some (consolidated, net)
consolidate_all devices (port ∷ ports) consolidated net =
    elim (consolidate consolidated net (stand_in devices port net)) [
      | none ↦ none
      | some (n, net') ↦ consolidate_all devices ports n net'
    ]

-- `none` where a write raises, so that nothing is committed. The inventory is `none` where it
-- cannot be read.
unfoldable pub run_verified_switch_consolidation_pass :
    Option (List Device) → Net → Option (ℕ × Net)
run_verified_switch_consolidation_pass none net = some (0, net)
run_verified_switch_consolidation_pass (some devices) net =
    if any (λ (d : Device). is_some d.human.confirmed_device_type) devices
    then consolidate_all devices (ports_of net.endpoint_locations) 0 net
    else some (0, net)
