-- ===== src/Inference.antt =====
-- The inference engine (src/engine/inference_engine.py): the sweep of orphaned nodes. Foreign keys
-- are on, and times are seconds.
pub mod Orphans
pub mod Pseudo
pub mod Wap
pub mod Dark
pub mod Tests
use net_lanvas.Base.{
  ℕ, ◌+◌, ◌*◌, String, Option, none, some, List, [], ◌∷◌, Bool, true, false, not, ltb, ◌&&◌, ◌||◌,
  if◌then◌else◌, eq_ℕ, eq_String, ◌==◌, is_some, is_empty, map,
}
use net_lanvas.Base.Table.{select}
use net_lanvas.Base.Keyed.{find_key}
use net_lanvas.Net.{Node, Interface, Binding, Location, DeviceState, Net}
use net_lanvas.Unification.{of_node, delete_node}

abbrev pub orphan_node_purge_age_seconds : ℕ
orphan_node_purge_age_seconds = 12 * 60 * 60

-- the addresses of a node's interfaces that are not virtual
unfoldable pub macs_of : ℕ → Net → List String
macs_of id net =
    map Interface.mac_address
      (select (λ (i : Interface). of_node id i && not i.is_virtual) net.l2_interfaces)

-- What is left of a node: a binding or location of one of its addresses, or the time at which
-- one of them was last seen, if there is one.
pub data Trace : Type 0 where
  located : Trace
  last_seen_at : (newest_last_seen : Option ℕ) → Trace

abbrev pub newest : Option ℕ → Option DeviceState → Option ℕ
newest old none = old
newest none (some row) = some row.last_seen
newest (some t) (some row) = if ltb t row.last_seen then some row.last_seen else some t

-- the loop over the addresses of a node
unfoldable pub trace : List String → Option ℕ → Net → Trace
trace [] newest_last_seen net = last_seen_at newest_last_seen
trace (mac ∷ macs) newest_last_seen net =
    let rest =
      trace macs (newest newest_last_seen (find_key DeviceState.mac_address mac net.device_state))
        net in
    if is_some (find_key Binding.mac_address mac net.l3_bindings)
      || is_some (find_key Location.mac_address mac net.endpoint_locations)
    then located
    else rest

abbrev pub is_due : ℕ → Trace → Bool
is_due now located = false
is_due now (last_seen_at none) = false
is_due now (last_seen_at (some t)) = ltb (t + orphan_node_purge_age_seconds) now

-- the dict of nodes with their addresses
unfoldable pub nodes_with_macs : List Node → Net → List (ℕ × List String)
nodes_with_macs [] net = []
nodes_with_macs (n ∷ nodes) net =
    let rest = nodes_with_macs nodes net in
    if is_empty (macs_of n.id net) then rest else (n.id, macs_of n.id net) ∷ rest

abbrev pub sweep_node : ℕ → ℕ → List String → Net → Net
sweep_node now id macs net = if is_due now (trace macs none net) then delete_node id net else net

unfoldable pub sweep : ℕ → List (ℕ × List String) → Net → Net
sweep now [] net = net
sweep now ((id, macs) ∷ nodes) net = sweep now nodes (sweep_node now id macs net)

unfoldable pub run_orphan_node_sweep : ℕ → Net → Net
run_orphan_node_sweep now net = sweep now (nodes_with_macs net.logical_nodes net) net
