-- ===== src/Inference/Dark/Pass.antt =====
-- The stand-ins are placed and purged (src/engine/inference_engine.py:
-- run_dark_matter_detection, run_inference_cycle).
use net_lanvas.Base.{
  ℕ, suc, String, Option, none, some, List, [], ◌∷◌, ◌++◌, Bool, true, false, not, ◌&&◌, ◌||◌,
  nat_eq, any, elem, if◌then◌else◌, eq_ℕ, eq_String, eq_pair, ◌==◌,
}
use net_lanvas.Base.Table.{select, update, delete}
use net_lanvas.Base.Keyed.{find_key, update_key, delete_key}
use net_lanvas.Base.Text.{is_blank}
use net_lanvas.Net.{Node, Interface, Binding, Net}
use net_lanvas.Net.Pseudo.{pseudo_mac_prefix}
use net_lanvas.Hostname.{is_text, is_ignored}
use net_lanvas.Unification.Consolidation.{
  delete_interface, delete_found, leads_to, ports_of, is_at_port,
}
use net_lanvas.Inference.{run_orphan_node_sweep}
use net_lanvas.Inference.Pseudo.{pseudo_interface, bind, is_expired}
use net_lanvas.Inference.Wap.{Lookups, SubnetRow}
use net_lanvas.Inference.Wap.Pass.{run_wap_inference}
use net_lanvas.Inference.Dark.Identity.{Identity, identity}
use net_lanvas.Inference.Dark.Links.{uplink, downstream, link_downstream}
use net_lanvas.Inference.Dark.{Port, type_of_mac, judge_all, anomalies}

-- network.db with its table oui_index
pub record State : Type 0 where
  pub net : Net
  pub oui_index : List (String × String)

abbrev pub add_oui : String → String → List (String × String) → List (String × String)
add_oui oui vendor index =
    if any (λ (row : String × String). row.0 == oui) index
    then index
    else index ++ (oui, vendor) ∷ []

abbrev pub is_router_ip : String → Net → Bool
is_router_ip ip net = elim (find_key Binding.ip_address ip net.l3_bindings) [
  | none ↦ false
  | some b ↦ is_text "Router" (type_of_mac b.mac_address net)
]

abbrev pub stand_in_node : ℕ → String → Node
stand_in_node id name = record {
  id = id;
  hostname = some name;
  device_type = some "Unmanaged Switch";
  weld_confidence = 50;
  os_family = none;
  hostname_source_priority = 0;
}

-- not hostname or hostname in ('UM Switch', 'Orphaned Endpoints')
abbrev pub is_default_name : Option String → Bool
is_default_name none = true
is_default_name (some hostname) =
    is_blank hostname || elem hostname ("UM Switch" ∷ "Orphaned Endpoints" ∷ [])

-- the node that is renamed; the trigger drops the UPDATE of a core node
abbrev pub is_renamed : ℕ → Node → Bool
is_renamed id n = nat_eq n.id id && is_default_name n.hostname && not (is_ignored n)

abbrev pub rename : Option ℕ → String → Net → Net
rename none name net = net
rename (some id) name net = record net {
  logical_nodes = update (is_renamed id) (λ n. record n { hostname = some name }) net.logical_nodes;
}

abbrev pub place_stand_in : Option Interface → String → String → String → Net → Net
place_stand_in none mac name vendor net = record net {
  logical_nodes = net.logical_nodes ++ stand_in_node net.next_node_id name ∷ [];
  next_node_id = suc net.next_node_id;
  l2_interfaces = net.l2_interfaces ++ pseudo_interface mac net.next_node_id vendor ∷ [];
}
place_stand_in (some i) mac name vendor net =
    let renamed = rename i.node_id name net in
    record renamed {
      l2_interfaces =
          update_key Interface.mac_address mac (λ x. record x { vendor = some vendor })
            renamed.l2_interfaces;
    }

-- the body of the loop over the anomalies
unfoldable pub place : ℕ → List Port → Port → Identity → State → State
place now ambiguous_ports port who s =
    let (switch_ip, local_port) = port in
    let ambiguous = elem port ambiguous_ports in
    let router = is_router_ip switch_ip s.net in
    let name = if router then "Orphaned Endpoints" else "UM Switch" in
    let vendor =
      if router then "Netlanvas Orphan Catcher" else "Netlanvas Inferred Unmanaged Switch" in
    let placed =
      place_stand_in (find_key Interface.mac_address who.mac s.net.l2_interfaces) who.mac name
        vendor s.net in
    let linked =
      uplink port who.ip ambiguous (bind who.ip who.mac "DARK_MATTER_INFERENCE" now placed) in
    record {
      net =
          link_downstream who.ip 1 ambiguous
            (downstream (select (is_at_port switch_ip local_port) linked.endpoint_locations) linked)
            linked;
      oui_index = add_oui who.oui vendor s.oui_index;
    }

-- the loop, with the addresses of the stand-ins that are current
unfoldable pub place_all :
    ℕ → List Port → List Port → List String → State → Option (List String × State)
place_all now ambiguous_ports [] active s = some (active, s)
place_all now ambiguous_ports (port ∷ ports) active s = elim (identity port) [
  | none ↦ none
  | some who ↦
      place_all now ambiguous_ports ports (who.mac ∷ active) (place now ambiguous_ports port who s)
]

abbrev pub purge_interface : Option Interface → Binding → Net → Net
purge_interface none b net = net
purge_interface (some i) b net = delete_found i.node_id (
    delete_interface b.mac_address
      (record net { l3_bindings = delete_key Binding.ip_address b.ip_address net.l3_bindings }))

unfoldable pub purge : List String → Binding → Net → Net
purge active b net =
    if elem b.mac_address active
    then net
    else purge_interface (find_key Interface.mac_address b.mac_address net.l2_interfaces) b
        (record net {
          infrastructure_links = delete (leads_to b.ip_address) net.infrastructure_links;
        })

unfoldable pub purge_all : List String → List Binding → Net → Net
purge_all active [] net = net
purge_all active (b ∷ expired) net = purge_all active expired (purge active b net)

abbrev pub purged : ℕ → Option (List String × State) → Option State
purged now none = none
purged now (some (active, s)) = some (record s {
  net = purge_all active (select (is_expired pseudo_mac_prefix now) s.net.l3_bindings) s.net;
})

-- `none` where a ValueError ends the pass, so that nothing is committed
unfoldable pub run_dark_matter_detection : ℕ → State → Option State
run_dark_matter_detection now s =
    let (ambiguous, judged) = judge_all (ports_of s.net.endpoint_locations) ([], s.net) in
    purged now (place_all now ambiguous (anomalies judged) [] (record s { net = judged }))

-- What the database holds once the connection is closed.
abbrev pub committed : State → Option State → State
committed before none = before
committed before (some after) = after

abbrev pub then_wap : Lookups → List SubnetRow → ℕ → State → Option State → State
then_wap look rows now before none = before
then_wap look rows now before (some s) = record s {
  net = run_orphan_node_sweep now (run_wap_inference look rows now s.net);
}

-- An error ends the cycle.
unfoldable pub run_inference_cycle : Lookups → List SubnetRow → ℕ → State → State
run_inference_cycle look rows now s = then_wap look rows now s (run_dark_matter_detection now s)
