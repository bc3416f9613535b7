-- ===== src/Unification.antt =====
-- The passes that give every interface a node (src/engine/unification.py). Foreign keys are on in
-- each of them, so that a node that is deleted takes its rows along. Rows are visited in the order
-- of their tables.
pub mod Links
pub mod Assigned
pub mod Classify
pub mod Hardware
pub mod Heuristic
pub mod Candidates
pub mod Snapshot
pub mod Consolidation
pub mod Engine
pub mod Tests
use net_lanvas.Base.{
  ℕ, zero, suc, ◌+◌, String, Option, none, some, List, [], ◌∷◌, ◌++◌, Bool, true, false, not, ◌&&◌,
  ◌||◌, leb, ltb, nat_eq, elem, map, if◌then◌else◌, eq_ℕ, eq_String, ◌==◌, is_some,
}
use net_lanvas.Base.Table.{select, delete, update}
use net_lanvas.Base.Keyed.{find_key, update_key, delete_key}
use net_lanvas.Base.Text.{append, starts_with, is_blank}
use net_lanvas.Base.Number.{parse_hex}
use net_lanvas.Net.{
  Node, Interface, Binding, Location, Fingerprint, DeviceState, Transition, Finding, Net,
}
use Prim.Native.Char.{code}

abbrev pub without_colons : String → String
without_colons String.[] = ""
without_colons (String.◌∷◌ c s) =
    let rest = without_colons s in if nat_eq (code c) b':' then rest else String.◌∷◌ c rest

-- `none` stands for ValueError. A text that Python's int reads and that is not made of digits,
-- such as one with an underscore, is no MAC address.
unfoldable pub mac_to_int : String → Option ℕ
mac_to_int mac_str = parse_hex (without_colons mac_str)

-- abs(a - b) <= 16
abbrev pub within_16 : Option ℕ → Option ℕ → Bool
within_16 (some a) (some b) = leb a (b + 16) && leb b (a + 16)
within_16 _ _ = false

unfoldable pub is_proximate : String → String → Bool
is_proximate mac_a mac_b = within_16 (mac_to_int mac_a) (mac_to_int mac_b)

abbrev pub is_id : ℕ → Option ℕ → Bool
is_id id none = false
is_id id (some k) = nat_eq k id

abbrev pub of_node : ℕ → Interface → Bool
of_node id i = is_id id i.node_id

-- DELETE FROM logical_nodes WHERE id = ?, with ON DELETE CASCADE over interfaces and what refers
-- to them
unfoldable pub delete_node : ℕ → Net → Net
delete_node id net =
    let macs = map Interface.mac_address (select (of_node id) net.l2_interfaces) in
    record net {
      logical_nodes = delete_key Node.id id net.logical_nodes;
      l2_interfaces = delete (of_node id) net.l2_interfaces;
      l3_bindings = delete (λ (b : Binding). elem b.mac_address macs) net.l3_bindings;
      device_fingerprints =
          delete (λ (f : Fingerprint). elem f.mac_address macs) net.device_fingerprints;
      device_state = delete (λ (s : DeviceState). elem s.mac_address macs) net.device_state;
      device_state_transitions =
          delete (λ (t : Transition). elem t.mac_address macs) net.device_state_transitions;
      device_findings = delete (λ (f : Finding). elem f.mac_address macs) net.device_findings;
    }

abbrev pub node_of_mac : Net → String → Option ℕ
node_of_mac net mac = elim (find_key Interface.mac_address mac net.l2_interfaces) [
  | none ↦ none
  | some i ↦ i.node_id
]

abbrev pub add_row : String → Option ℕ → List (String × ℕ) → List (String × ℕ)
add_row mac none rows = rows
add_row mac (some id) rows =
    if elem mac (map (λ (r : String × ℕ). r.0) rows) then rows else (mac, id) ∷ rows

-- the addresses in the router's own ARP cache, each once, with their nodes
unfoldable pub arp_rows : Net → List Binding → List (String × ℕ)
arp_rows net [] = []
arp_rows net (b ∷ rest) =
    let rows = arp_rows net rest in
    if b.discovery_source == "ROUTER_ARP_CACHE"
    then add_row b.mac_address (node_of_mac net b.mac_address) rows
    else rows

abbrev pub is_weld : String × ℕ → String × ℕ → Bool
is_weld (mac_a, node_a) (mac_b, node_b) = not (nat_eq node_a node_b) && is_proximate mac_a mac_b

-- the inner loop: the node of the first later row to weld with
unfoldable pub weld_partner : String × ℕ → List (String × ℕ) → Option ℕ
weld_partner row [] = none
weld_partner row (other ∷ rows) =
    let rest = weld_partner row rows in if is_weld row other then some other.1 else rest

-- the outer loop: the first pair to weld
unfoldable pub weld_pair : List (String × ℕ) → Option (ℕ × ℕ)
weld_pair [] = none
weld_pair (row ∷ rows) = elim (weld_partner row rows) [
  | some node_b ↦ some (row.1, node_b)
  | none ↦ weld_pair rows
]

unfoldable pub merge : ℕ → ℕ → Net → Net
merge keeper loser net = delete_node loser (record net {
  l2_interfaces =
      update (of_node loser) (λ i. record i { node_id = some keeper }) net.l2_interfaces;
})

abbrev pub merge_pair : ℕ × ℕ → Net → Net
merge_pair (node_a, node_b) net =
    if ltb node_a node_b then merge node_a node_b net else merge node_b node_a net

-- at most `rounds` merges, each on the tables as the one before left them
unfoldable pub weld_rounds : ℕ → ℕ → Net → ℕ × Net
weld_rounds zero merges net = (merges, net)
weld_rounds (suc rounds) merges net = elim (weld_pair (arp_rows net net.l3_bindings)) [
  | none ↦ (merges, net)
  | some pair ↦ weld_rounds rounds (suc merges) (merge_pair pair net)
]

unfoldable pub run_arp_confirmed_weld_pass : Net → ℕ × Net
run_arp_confirmed_weld_pass net = weld_rounds 5 0 net

abbrev pub vendor_or_unknown : Option String → String
vendor_or_unknown none = "Unknown"
vendor_or_unknown (some vendor) = if is_blank vendor then "Unknown" else vendor

abbrev pub new_endpoint : ℕ → Option String → Node
new_endpoint id vendor = record {
  id = id;
  hostname = some (append "Device (" (append (vendor_or_unknown vendor) ")"));
  device_type = some "Endpoint";
  weld_confidence = 100;
  os_family = none;
  hostname_source_priority = 0;
}

-- the body of the loop of run_singleton_pass
unfoldable pub adopt : Interface → Net → Net
adopt orphan net = record net {
  logical_nodes = net.logical_nodes ++ new_endpoint net.next_node_id orphan.vendor ∷ [];
  next_node_id = suc net.next_node_id;
  l2_interfaces =
      update_key Interface.mac_address orphan.mac_address
        (λ i. record i { node_id = some net.next_node_id }) net.l2_interfaces;
}

unfoldable pub adopt_all : List Interface → ℕ → Net → ℕ × Net
adopt_all [] created net = (created, net)
adopt_all (orphan ∷ orphans) created net = adopt_all orphans (suc created) (adopt orphan net)

-- node_id IS NULL
abbrev pub is_orphan : Interface → Bool
is_orphan i = not (is_some i.node_id)

unfoldable pub run_singleton_pass : Net → ℕ × Net
run_singleton_pass net = adopt_all (select is_orphan net.l2_interfaces) 0 net
