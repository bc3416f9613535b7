-- ===== src/Unification/Heuristic.antt =====
-- The pass that welds hosts with one address (src/engine/unification.py: run_heuristic_pass). The
-- groups of the GROUP BY are visited in the order of their first rows.
use net_lanvas.Base.{
  ℕ, suc, ◌+◌, ◌≤◌, String, none, some, List, [], ◌∷◌, ◌++◌, Bool, false, ltb, elem, map, ◌==◌,
  eq_ℕ, eq_String, ◌≡◌, refl, arith, eq_iff, length,
}
use net_lanvas.Base.Table.{select, delete, count, find}
use net_lanvas.Base.Keyed.{find_key, update_key, has_key, IsPrimary}
use net_lanvas.Base.Text.{append}
use net_lanvas.Net.{Node, Interface, Binding, Net}

-- GROUP BY ip_address HAVING COUNT(mac_address) > 1, for one row
abbrev pub is_repeated : List Binding → Binding → Bool
is_repeated bindings b = ltb 1 (count (has_key Binding.ip_address b.ip_address) bindings)

abbrev pub add_ip : String → List String → List String
add_ip ip ips = ip ∷ delete (λ i. i == ip) ips

abbrev pub distinct_ips : List Binding → List String
distinct_ips [] = []
distinct_ips (b ∷ rest) = add_ip b.ip_address (distinct_ips rest)

abbrev pub aggregated : ℕ → String → Node
aggregated id ip = record {
  id = id;
  hostname = some (append "Multi-homed Host: " ip);
  device_type = some "Aggregated Node";
  weld_confidence = 80;
  os_family = none;
  hostname_source_priority = 0;
}

-- the node of the group, made where no interface of the group has one
abbrev pub group_node : String → List Interface → Net → ℕ × Net
group_node ip (i ∷ rest) net = elim i.node_id [
  | some id ↦ (id, net)
  | none ↦ group_node ip rest net
]
group_node ip [] net = (
  net.next_node_id,
  record net {
    logical_nodes = net.logical_nodes ++ aggregated net.next_node_id ip ∷ [];
    next_node_id = suc net.next_node_id;
  },
)

abbrev pub weld_macs : ℕ → List String → List Interface → List Interface
weld_macs id [] interfaces = interfaces
weld_macs id (mac ∷ macs) interfaces =
    weld_macs id macs
      (update_key Interface.mac_address mac (λ i. record i { node_id = some id }) interfaces)

unfoldable pub weld_group : String → ℕ → Net → ℕ × Net
weld_group ip welded net =
    let macs = map Binding.mac_address (select (has_key Binding.ip_address ip) net.l3_bindings) in
    let (id, net') = group_node ip (select (λ i. elem i.mac_address macs) net.l2_interfaces) net in
    (welded + length macs, record net' { l2_interfaces = weld_macs id macs net'.l2_interfaces })

unfoldable pub weld_groups : List String → ℕ → Net → ℕ × Net
weld_groups [] welded net = (welded, net)
weld_groups (ip ∷ ips) welded net =
    let (welded', net') = weld_group ip welded net in weld_groups ips welded' net'

unfoldable pub run_heuristic_pass : Net → ℕ × Net
run_heuristic_pass net =
    weld_groups (distinct_ips (select (is_repeated net.l3_bindings) net.l3_bindings)) 0 net

unique-count :
    (ip : String) (bs : List Binding)
    → IsPrimary Binding.ip_address bs
    → (count (has_key Binding.ip_address ip) bs ≤ 1)
      × (find_key Binding.ip_address ip bs ≡ none → count (has_key Binding.ip_address ip) bs ≡ 0)
unfolding count find_key find
unique-count ip [] h = (omega arith, λ e. refl)
unique-count ip (b ∷ bs) h = (
  ground (arith, unique-count ip bs h.1, h.0, eq_iff b.ip_address ip),
  λ e. ground (arith, unique-count ip bs h.1),
)

select-none :
    (p : Binding → Bool) (bs : List Binding) → ((b : Binding) → p b ≡ false) → select p bs ≡ []
unfolding select
select-none p [] h = refl
select-none p (b ∷ bs) h = ground (arith, h b, select-none p bs h)

-- The heuristic pass never does anything: l3_bindings has its address as primary key, so that no
-- address has two rows to weld.
pub run_heuristic_pass-idle :
    (net : Net) → IsPrimary Binding.ip_address net.l3_bindings → run_heuristic_pass net ≡ (0, net)
unfolding run_heuristic_pass weld_groups
run_heuristic_pass-idle net h =
    rw
      (select-none (is_repeated net.l3_bindings) net.l3_bindings
        (λ b. ground (arith, unique-count b.ip_address net.l3_bindings h)))
      refl
