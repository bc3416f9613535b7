-- ===== src/Inference/Dark/Links.antt =====
-- The links of a stand-in (src/engine/inference_engine.py: run_dark_matter_detection).
use net_lanvas.Base.{
  ℕ, suc, String, Option, none, some, List, [], ◌∷◌, ◌++◌, Bool, ◌&&◌, nat_eq, any, map,
  if◌then◌else◌, eq_ℕ, eq_String, eq_pair, ◌==◌,
}
use net_lanvas.Base.Table.{select, update}
use net_lanvas.Base.Keyed.{has_key}
use net_lanvas.Net.{Binding, Location, Link, Net}
use net_lanvas.Net.Pseudo.{cast_int}
use net_lanvas.Hostname.{is_one_of}
use net_lanvas.Inference.Dark.{Port, in_group, type_of_mac, max_of}

abbrev pub is_at : String → ℕ → Link → Bool
is_at switch_ip port l = l.local_switch_ip == switch_ip && nat_eq l.local_port port

-- INSERT ... ON CONFLICT(local_switch_ip, local_port) DO UPDATE
unfoldable pub link : Link → (Link → Link) → Net → Net
link row f net = record net {
  infrastructure_links =
      if any (is_at row.local_switch_ip row.local_port) net.infrastructure_links
      then update (is_at row.local_switch_ip row.local_port) f net.infrastructure_links
      else net.infrastructure_links ++ row ∷ [];
}

-- the row of a stand-in's link, and its update, from the locations of the port
abbrev pub uplink_row : Port → String → Bool → List Location → Link
uplink_row (switch_ip, port) ip ambiguous at_port = record {
  local_switch_ip = switch_ip;
  local_port = cast_int port;
  local_port_name = max_of Location.local_port_name at_port;
  link_speed = max_of Location.link_speed at_port;
  remote_system_name = some ip;
  vlan_id = none;
  is_ambiguous = ambiguous;
}

abbrev pub uplinked : String → Bool → List Location → Link → Link
uplinked ip ambiguous at_port l = record l {
  local_port_name = max_of Location.local_port_name at_port;
  link_speed = max_of Location.link_speed at_port;
  remote_system_name = some ip;
  is_ambiguous = ambiguous;
}

abbrev pub uplink : Port → String → Bool → Net → Net
uplink port ip ambiguous net =
    let at_port = select (in_group port) net.endpoint_locations in
    link (uplink_row port ip ambiguous at_port) (uplinked ip ambiguous at_port) net

abbrev pub downlink : String → ℕ → String → Option ℕ → Bool → Net → Net
downlink ip sim_port target_ip target_vlan ambiguous net =
    link
      (record {
        local_switch_ip = ip;
        local_port = sim_port;
        local_port_name = none;
        link_speed = none;
        remote_system_name = some target_ip;
        vlan_id = target_vlan;
        is_ambiguous = ambiguous;
      })
      (λ l. record l {
        remote_system_name = some target_ip;
        vlan_id = target_vlan;
        is_ambiguous = ambiguous;
      })
      net

abbrev pub infrastructure_types : List String
infrastructure_types = "Access Point" ∷ "Switch" ∷ "Router" ∷ "Switch / WAP" ∷ []

-- what hangs off the port: the addresses and VLANs of its infrastructure
unfoldable pub downstream : List Location → Net → List (String × Option ℕ)
downstream [] net = []
downstream (l ∷ locations) net =
    let rest = downstream locations net in
    if is_one_of infrastructure_types (type_of_mac l.mac_address net)
    then map (λ (b : Binding). (b.ip_address, l.vlan_id))
        (select (has_key Binding.mac_address l.mac_address) net.l3_bindings)
      ++ rest
    else rest

unfoldable pub link_downstream : String → ℕ → Bool → List (String × Option ℕ) → Net → Net
link_downstream ip sim_port ambiguous [] net = net
link_downstream ip sim_port ambiguous ((target_ip, target_vlan) ∷ targets) net =
    let same = target_ip == ip in
    link_downstream ip (if same then sim_port else suc sim_port) ambiguous targets
      (if same then net else downlink ip sim_port target_ip target_vlan ambiguous net)
