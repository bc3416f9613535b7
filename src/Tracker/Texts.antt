-- ===== src/Tracker/Texts.antt =====
-- What the tracker's alerts say of a device: `_friendly_name` and `_device_context`.
use net_lanvas.Base.{
  ℕ, String, Option, none, some, List, [], ◌∷◌, map, Bool, false, not, ◌&&◌, leb, nat_eq, take,
  if◌then◌else◌, ◌==◌, eq_String, eq_ℕ, ◌++◌,
}
use net_lanvas.Base.Table.{select, find}
use net_lanvas.Base.Keyed.{find_key}
use net_lanvas.Base.Text.{append, is_blank}
use net_lanvas.Base.Number.{show, parse_ipv4}
use net_lanvas.Net.{Net, Interface, Node, Binding, Location, Vlan}

unfoldable pub concat : List String → String
concat [] = ""
concat (s ∷ rest) = append s (concat rest)

-- sep.join(parts)
abbrev pub join : String → List String → String
join sep [] = ""
join sep (s ∷ []) = s
join sep (s ∷ t ∷ rest) = append s (append sep (join sep (t ∷ rest)))

abbrev pub interface_mac : Interface → String
interface_mac i = i.mac_address

abbrev pub node_id : Node → ℕ
node_id n = n.id

unfoldable pub find_interface : Net → String → Option Interface
find_interface net mac = find_key interface_mac mac net.l2_interfaces

abbrev node_of : Net → Option ℕ → Option Node
node_of net none = none
node_of net (some id) = find_key node_id id net.logical_nodes

-- the node that LEFT JOIN puts beside an interface
abbrev node_beside : Net → Option Interface → Option Node
node_beside net none = none
node_beside net (some i) = node_of net i.node_id

unfoldable pub find_node_of : Net → String → Option Node
unfolding find_interface
find_node_of net mac = node_beside net (find_interface net mac)

abbrev text_of : Option String → String
text_of none = ""
text_of (some s) = s

abbrev hostname_of : Option Node → String
hostname_of none = ""
hostname_of (some n) = text_of n.hostname

abbrev name_by_vendor : String → String → String
name_by_vendor mac vendor =
    if is_blank vendor then mac else concat (vendor ∷ " device (" ∷ mac ∷ ")" ∷ [])

abbrev name_of : Net → String → Option Interface → String
name_of net mac none = mac
name_of net mac (some i) =
    let hostname = hostname_of (node_of net i.node_id) in
    if is_blank hostname then name_by_vendor mac (text_of i.vendor) else hostname

unfoldable pub friendly_name : Net → String → String
unfolding find_interface
friendly_name net mac = name_of net mac (find_interface net mac)

-- ipaddress.ip_address(ip) in DOCKER_BRIDGE_RANGE, which is 172.16.0.0/12; a text that is no
-- IPv4 address is not in it
unfoldable pub in_docker_range : String → Bool
unfolding parse_ipv4
in_docker_range ip = elim (parse_ipv4 ip) [
  | none ↦ false
  | some q ↦ nat_eq q.a 172 && leb 16 q.b && leb q.b 31
]

insert_by_recency : Binding → List Binding → List Binding
insert_by_recency a [] = a ∷ []
insert_by_recency a (b ∷ rows) =
    let rest = insert_by_recency a rows in
    if leb b.last_seen a.last_seen then a ∷ b ∷ rows else b ∷ rest

-- ORDER BY last_seen DESC; rows of one second keep their order
unfoldable pub by_recency : List Binding → List Binding
unfolding insert_by_recency
by_recency [] = []
by_recency (a ∷ rows) = insert_by_recency a (by_recency rows)

pub real_ips : Net → String → List String
real_ips net mac =
    let rows =
      take 20 (by_recency (select (λ (b : Binding). b.mac_address == mac) net.l3_bindings)) in
    take 5 (select (λ ip. not (in_docker_range ip)) (map (λ (b : Binding). b.ip_address) rows))

abbrev vlan_named : ℕ → Option Vlan → String
vlan_named id none = concat ("VLAN " ∷ show id ∷ [])
vlan_named id (some v) =
    if is_blank (text_of v.vlan_name)
    then concat ("VLAN " ∷ show id ∷ [])
    else concat ("VLAN " ∷ show id ∷ " (" ∷ text_of v.vlan_name ∷ ")" ∷ [])

abbrev vlan_part : Net → Option ℕ → List String
vlan_part net none = []
vlan_part net (some id) =
    vlan_named id (find (λ (v : Vlan). nat_eq v.vlan_id id) net.network_vlans) ∷ []

abbrev ap_name : Net → String → Option Binding → String
ap_name net switch_ip none = switch_ip
ap_name net switch_ip (some b) = friendly_name net b.mac_address

abbrev ap_part : Net → Location → List String
ap_part net l =
    if l.local_port == "WLAN" && not (is_blank l.switch_ip)
    then concat (
        "AP: "
        ∷ ap_name net l.switch_ip
            (find (λ (b : Binding). b.ip_address == l.switch_ip) net.l3_bindings)
        ∷ [])
      ∷ []
    else []

abbrev location_parts : Net → Option Location → List String
location_parts net none = []
location_parts net (some l) = vlan_part net l.vlan_id ++ ap_part net l

abbrev ip_part : List String → List String
ip_part [] = []
ip_part (ip ∷ ips) = concat ("IP: " ∷ join ", " (ip ∷ ips) ∷ []) ∷ []

abbrev as_suffix : List String → String
as_suffix [] = ""
as_suffix (part ∷ parts) = append " -- " (join " / " (part ∷ parts))

unfoldable pub device_context : Net → String → String
unfolding real_ips friendly_name by_recency in_docker_range
device_context net mac = as_suffix (
    ip_part (real_ips net mac)
    ++ location_parts net (find_key (λ (l : Location). l.mac_address) mac net.endpoint_locations))
