-- ===== src/Inference/Wap/Pass.antt =====
-- The pass over segments with mobile clients (src/engine/inference_engine.py: run_wap_inference).
use net_lanvas.Base.{
  ℕ, suc, ◌+◌, ◌*◌, ◌-◌, ◌/◌, ◌%◌, String, Option, none, some, List, [], ◌∷◌, ◌++◌, Bool, false,
  not, ◌&&◌, ◌||◌, ltb, nat_eq, any, elem, map, if◌then◌else◌, eq_ℕ, eq_String, ◌==◌, length,
}
use net_lanvas.Base.Table.{select, update}
use net_lanvas.Base.Keyed.{find_key, has_key}
use net_lanvas.Base.Dict.{Dict, get_or, put}
use net_lanvas.Base.Bytes.{hex_byte}
use net_lanvas.Base.Crc.{crc32}
use net_lanvas.Base.Utf8.{encode_ascii}
use net_lanvas.Base.Text.{append, is_blank}
use net_lanvas.Base.Number.{show}
use net_lanvas.Net.{Node, Interface, Binding, Net}
use net_lanvas.Hostname.{is_text, is_ignored}
use net_lanvas.Unification.{of_node}
use net_lanvas.Unification.Classify.{is_none_of}
use net_lanvas.Inference.Pseudo.{is_expired, pseudo_interface, bind, node_at, remove}
use net_lanvas.Inference.Wap.{
  Segment, vlan, subnet, eq_Segment, Subnet, SubnetRow, subnets_of, segment_for_ip, Lookups,
  is_mobile, is_mobile_vendor, wap_pseudo_mac_prefix,
}

-- the addresses of an interface's bindings
abbrev pub ips_of : Interface → Net → List String
ips_of i net =
    map Binding.ip_address (select (has_key Binding.mac_address i.mac_address) net.l3_bindings)

unfoldable pub ips_of_all : List Interface → Net → List String
ips_of_all [] net = []
ips_of_all (i ∷ interfaces) net = ips_of i net ++ ips_of_all interfaces net

unfoldable pub confirmed_ips : List Node → Net → List String
confirmed_ips [] net = []
confirmed_ips (n ∷ nodes) net =
    let rest = confirmed_ips nodes net in
    if is_text "Access Point" n.device_type
    then ips_of_all (select (of_node n.id) net.l2_interfaces) net ++ rest
    else rest

abbrev pub confirmed_segments : List (Subnet × Segment) → Net → List (Option Segment)
confirmed_segments subnets net =
    map (λ ip. segment_for_ip ip subnets) (confirmed_ips net.logical_nodes net)

-- segment in confirmed_segments
unfoldable pub is_confirmed : Segment → List (Option Segment) → Bool
is_confirmed segment [] = false
is_confirmed segment (none ∷ segments) = is_confirmed segment segments
is_confirmed segment (some s ∷ segments) = s == segment || is_confirmed segment segments

abbrev pub known_types : List String
known_types = "Access Point" ∷ "Router" ∷ "Switch" ∷ "Switch / WAP" ∷ []

-- what the candidates' query asks of a node, and the test of its name
abbrev pub is_mobile_node : Lookups → Node → Bool
is_mobile_node look n = elim n.hostname [
  | none ↦ false
  | some hostname ↦
      is_none_of known_types n.device_type && not (is_blank hostname) && is_mobile look hostname
]

-- the devices of each segment: nodes with an address
abbrev pub Devices : Type 0
Devices = Dict ℕ String

abbrev pub add_device :
    Option Segment
    → List (Option Segment)
    → ℕ
    → String
    → Dict Segment Devices
    → Dict Segment Devices
add_device none confirmed node_id mac found = found
add_device (some segment) confirmed node_id mac found =
    if is_confirmed segment confirmed
    then found
    else put segment (put node_id mac (get_or segment [] found)) found

-- the rows of the candidates' query: a node, an address and an IP address
abbrev pub Client : Type 0
Client = ℕ × String × String

abbrev pub clients_of : ℕ → Interface → Net → List Client
clients_of id i net = map (λ ip. (id, i.mac_address, ip)) (ips_of i net)

unfoldable pub clients_of_all : ℕ → List Interface → Net → List Client
clients_of_all id [] net = []
clients_of_all id (i ∷ interfaces) net = clients_of id i net ++ clients_of_all id interfaces net

unfoldable pub mobile_clients : Lookups → List Node → Net → List Client
mobile_clients look [] net = []
mobile_clients look (n ∷ nodes) net =
    let rest = mobile_clients look nodes net in
    if is_mobile_node look n
    then clients_of_all n.id
        (select (λ (i : Interface). of_node n.id i && not i.is_virtual) net.l2_interfaces) net
      ++ rest
    else rest

unfoldable pub by_segment :
    List (Subnet × Segment)
    → List (Option Segment)
    → List Client
    → Dict Segment Devices
    → Dict Segment Devices
by_segment subnets confirmed [] found = found
by_segment subnets confirmed ((id, mac, ip) ∷ clients) found =
    by_segment subnets confirmed clients
      (add_device (segment_for_ip ip subnets) confirmed id mac found)

abbrev pub wap_confidence_cap : ℕ
wap_confidence_cap = 45

-- 15 for the first device, 10 for each further one, 10 where a vendor agrees, and 45 at most
unfoldable pub confidence_of : Lookups → Devices → ℕ
confidence_of look devices =
    let base = 15 + 10 * (length devices - 1) in
    let bonus =
      if any (λ (d : ℕ × String). is_mobile_vendor (look.vendor_of d.1)) devices then 10 else 0 in
    if ltb wap_confidence_cap (base + bonus) then wap_confidence_cap else base + bonus

abbrev pub segment_text : Segment → String
segment_text (vlan n) = show n
segment_text (subnet text) = text

abbrev pub segment_label : Segment → String
segment_label (vlan n) = append "VLAN " (show n)
segment_label (subnet text) = text

unfoldable pub seed_of : Segment → ℕ
seed_of segment = crc32 (encode_ascii (segment_text segment))

abbrev pub wap_mac : ℕ → String
wap_mac seed = append wap_pseudo_mac_prefix (
    append (hex_byte (seed / 16777216 % 256)) (
      append ":" (
        append (hex_byte (seed / 65536 % 256)) (
          append ":" (append (hex_byte (seed / 256 % 256)) (append ":" (hex_byte (seed % 256))))))))

abbrev pub wap_ip : ℕ → String
wap_ip seed = append "169.254." (append (show (seed / 256 % 256)) (append "." (show (seed % 256))))

abbrev pub unverified : String
unverified = "Access Point (Unverified)"

abbrev pub wap_node : ℕ → ℕ → String → Node
wap_node id confidence name = record {
  id = id;
  hostname = some name;
  device_type = some unverified;
  weld_confidence = confidence;
  os_family = none;
  hostname_source_priority = 0;
}

abbrev pub is_own : ℕ → Node → Bool
is_own id n = nat_eq n.id id && is_text unverified n.device_type && not (is_ignored n)

abbrev pub refresh : Option ℕ → ℕ → String → Net → Net
refresh none confidence name net = net
refresh (some id) confidence name net = record net {
  logical_nodes =
      update (is_own id) (λ n. record n { weld_confidence = confidence; hostname = some name })
        net.logical_nodes;
}

-- the interface of the inferred access point, which may be there
abbrev pub place_node : Option Interface → String → ℕ → String → Net → Net
place_node none mac confidence name net = record net {
  logical_nodes = net.logical_nodes ++ wap_node net.next_node_id confidence name ∷ [];
  next_node_id = suc net.next_node_id;
  l2_interfaces =
      net.l2_interfaces
      ++ pseudo_interface mac net.next_node_id "Netlanvas Inferred Wireless Access Point" ∷ [];
}
place_node (some i) mac confidence name net = refresh i.node_id confidence name net

unfoldable pub place : Lookups → ℕ → Segment → Devices → Net → Net
place look now segment devices net =
    let seed = seed_of segment in
    let mac = wap_mac seed in
    bind (wap_ip seed) mac "WAP_INFERENCE" now (
      place_node (find_key Interface.mac_address mac net.l2_interfaces) mac
        (confidence_of look devices) (append "Inferred WAP (" (append (segment_label segment) ")"))
        net)

unfoldable pub place_all : Lookups → ℕ → Dict Segment Devices → Net → Net
place_all look now [] net = net
place_all look now ((segment, devices) ∷ found) net =
    place_all look now found (place look now segment devices net)

abbrev pub is_unverified : ℕ → Net → Bool
is_unverified id net = elim (find_key Node.id id net.logical_nodes) [
  | none ↦ false
  | some n ↦ is_text unverified n.device_type
]

abbrev pub retire_node : Option ℕ → String → String → Net → Net
retire_node none mac ip net = net
retire_node (some id) mac ip net = if is_unverified id net then remove mac ip id net else net

unfoldable pub retire : List String → Binding → Net → Net
retire active b net =
    if elem b.mac_address active
    then net
    else retire_node (node_at b.mac_address net) b.mac_address b.ip_address net

unfoldable pub retire_all : List String → List Binding → Net → Net
retire_all active [] net = net
retire_all active (b ∷ expired) net = retire_all active expired (retire active b net)

unfoldable pub run_wap_inference : Lookups → List SubnetRow → ℕ → Net → Net
run_wap_inference look rows now net =
    let subnets = subnets_of rows in
    let found =
      by_segment subnets (confirmed_segments subnets net)
        (mobile_clients look net.logical_nodes net) [] in
    let placed = place_all look now found net in
    let active = map (λ (e : Segment × Devices). wap_mac (seed_of e.0)) found in
    retire_all active (select (is_expired wap_pseudo_mac_prefix now) placed.l3_bindings) placed
