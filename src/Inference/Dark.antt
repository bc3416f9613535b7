-- ===== src/Inference/Dark.antt =====
-- Ports behind which a switch is hidden (src/engine/inference_engine.py:
-- run_dark_matter_detection): the two queries and what is ambiguous. Groups are visited in the
-- order of their first rows.
pub mod Identity
pub mod Links
pub mod Pass
pub mod Safe
pub mod Rows
pub mod Hides
use net_lanvas.Base.{
  ℕ, suc, ◌+◌, String, Option, none, some, List, [], ◌∷◌, Bool, true, false, not, ◌&&◌, ◌||◌, ltb,
  nat_eq, any, elem, map, if◌then◌else◌, eq_ℕ, eq_String, eq_pair, ◌==◌, is_some, length,
}
use net_lanvas.Base.Table.{select, update, count, find}
use net_lanvas.Base.Keyed.{find_key}
use net_lanvas.Net.{Node, Interface, Binding, Location, Link, Net}
use net_lanvas.Net.Pseudo.{pseudo_mac_prefix, is_physical, cast_int}
use net_lanvas.Hostname.{is_one_of, is_text}
use net_lanvas.Unification.{node_of_mac}
use net_lanvas.Unification.Consolidation.{ports_of, is_at_port}
use net_lanvas.Unification.Snapshot.{text_lt}
use net_lanvas.Inference.Pseudo.{like_prefix}

abbrev pub Port : Type 0
Port = String × String

-- a row of the group of a port
abbrev pub in_group : Port → Location → Bool
in_group (switch_ip, port) l = l.switch_ip == switch_ip && l.local_port == port

-- a link of the port: CAST(local_port AS INTEGER) is the number that the column holds
abbrev pub is_link_of : Port → Link → Bool
is_link_of (switch_ip, port) l =
    l.local_switch_ip == switch_ip && nat_eq l.local_port (cast_int port)

abbrev pub type_of_node : Option ℕ → Net → Option String
type_of_node none net = none
type_of_node (some id) net = elim (find_key Node.id id net.logical_nodes) [
  | none ↦ none
  | some n ↦ n.device_type
]

abbrev pub type_of_mac : String → Net → Option String
type_of_mac mac net = type_of_node (node_of_mac net mac) net

abbrev pub binding_of : Option String → Net → Option Binding
binding_of none net = none
binding_of (some ip) net = find_key Binding.ip_address ip net.l3_bindings

abbrev pub is_wap_type : Option String → Bool
is_wap_type device_type = is_one_of ("Access Point" ∷ "Switch / WAP" ∷ []) device_type

-- COUNT(*) of the wireless clients of an access point
abbrev pub wlan_count : String → Net → ℕ
wlan_count ip net = count (in_group (ip, "WLAN")) net.endpoint_locations

abbrev pub mark_links : Port → Net → Net
mark_links port net = record net {
  infrastructure_links =
      update (is_link_of port) (λ l. record l { is_ambiguous = true }) net.infrastructure_links;
}

abbrev pub mark_locations : Port → Bool → Net → Net
mark_locations (switch_ip, port) ambiguous net = record net {
  endpoint_locations =
      update (is_at_port switch_ip port) (λ l. record l { is_ambiguous = ambiguous })
        net.endpoint_locations;
}

-- more addresses at the port than the access point explains
abbrev pub is_crowded : Port → String → Net → Bool
is_crowded port ip net = ltb (wlan_count ip net + 1) (count (in_group port) net.endpoint_locations)

-- the ports that are ambiguous so far, and the tables
abbrev pub Marks : Type 0
Marks = List Port × Net

abbrev pub judge_target : Port → Option Binding → Marks → Marks
judge_target port none marks = marks
judge_target port (some b) (ambiguous, net) =
    if is_wap_type (type_of_mac b.mac_address net) && is_crowded port b.ip_address net
    then (port ∷ ambiguous, mark_locations port true (mark_links port net))
    else (ambiguous, net)

-- the first link of the port, with what it leads to
abbrev pub judge_link : Port → Option Link → Marks → Marks
judge_link port none (ambiguous, net) = (ambiguous, mark_locations port false net)
judge_link port (some l) (ambiguous, net) =
    judge_target port (binding_of l.remote_system_name net) (ambiguous, net)

unfoldable pub judge : Port → Marks → Marks
judge port (ambiguous, net) =
    judge_link port (find (is_link_of port) net.infrastructure_links) (ambiguous, net)

unfoldable pub judge_all : List Port → Marks → Marks
judge_all [] marks = marks
judge_all (port ∷ ports) marks = judge_all ports (judge port marks)

-- remote_system_name NOT LIKE '02:ff:%', which a NULL does not satisfy
abbrev pub is_real_end : Option String → Bool
is_real_end none = false
is_real_end (some name) = not (like_prefix pseudo_mac_prefix name)

abbrev pub explains : Port → Link → Bool
explains port l = is_link_of port l && not l.is_ambiguous && is_real_end l.remote_system_name

-- a confirmed access point was seen at the port
abbrev pub has_access_point : Port → Net → Bool
has_access_point port net =
    any
      (λ (l : Location). in_group port l && is_text "Access Point" (type_of_mac l.mac_address net))
      net.endpoint_locations

abbrev pub add_node : Option ℕ → List ℕ → List ℕ
add_node none ids = ids
add_node (some id) ids = if elem id ids then ids else id ∷ ids

-- the distinct nodes of some locations
unfoldable pub nodes_at : List Location → Net → List ℕ
nodes_at [] net = []
nodes_at (l ∷ locations) net = add_node (node_of_mac net l.mac_address) (nodes_at locations net)

unfoldable pub is_anomaly : Net → Port → Bool
is_anomaly net port =
    not (any (explains port) net.infrastructure_links)
    && not (has_access_point port net)
    && ltb 1 (length (nodes_at (select (in_group port) net.endpoint_locations) net))

abbrev pub later : Option String → Option String → Option String
later none t = t
later (some s) none = some s
later (some s) (some t) = if text_lt s t then some t else some s

-- MAX(column)
unfoldable pub max_of : (Location → Option String) → List Location → Option String
max_of column [] = none
max_of column (l ∷ locations) = later (column l) (max_of column locations)

unfoldable pub anomalies : Net → List Port
anomalies net = select (is_anomaly net) (ports_of net.endpoint_locations)
