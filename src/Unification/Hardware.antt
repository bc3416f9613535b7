-- ===== src/Unification/Hardware.antt =====
-- The pass that welds unnamed interfaces to infrastructure (src/engine/unification.py:
-- run_hardware_weld_pass).
use net_lanvas.Base.{
  ℕ, suc, String, Option, none, some, List, [], ◌∷◌, ◌++◌, Bool, true, false, not, ◌&&◌, ◌||◌, map,
  if◌then◌else◌, eq_ℕ, eq_String, is_some,
}
use net_lanvas.Base.Table.{select}
use net_lanvas.Base.Keyed.{find_key, update_key}
use net_lanvas.Base.Text.{starts_with}
use net_lanvas.Net.{Node, Interface, Location, Net}
use net_lanvas.Hostname.{is_one_of}
use net_lanvas.Unification.{mac_to_int, within_16, of_node, node_of_mac}
use net_lanvas.Unification.Classify.{contains, like}

abbrev pub infra_types : List String
infra_types = "Switch" ∷ "Router" ∷ "Access Point" ∷ "Switch / WAP" ∷ []

-- a row of the first query of run_hardware_weld_pass
pub record Base : Type 0 where
  pub node_id : ℕ
  pub hostname : Option String
  pub base_mac : String

abbrev pub bases_of : Node → List Interface → List Base
bases_of n interfaces =
    map
      (λ (i : Interface). record {
        node_id = n.id;
        hostname = n.hostname;
        base_mac = i.mac_address;
      })
      (select (of_node n.id) interfaces)

unfoldable pub infra_nodes : List Node → List Interface → List Base
infra_nodes [] interfaces = []
infra_nodes (n ∷ nodes) interfaces =
    let rest = infra_nodes nodes interfaces in
    if is_one_of infra_types n.device_type || like n.hostname "MikroTik"
    then bases_of n interfaces ++ rest
    else rest

abbrev pub is_routerboard : Option String → Bool
is_routerboard none = false
is_routerboard (some hostname) = contains hostname "Routerboard"

-- is_virtual where the ghost is welded to the base, and `none` where it is not
unfoldable pub weld_kind : String → Base → Option Bool
weld_kind ghost base =
    if not (is_some (mac_to_int ghost)) || not (is_some (mac_to_int base.base_mac))
    then none
    else if within_16 (mac_to_int ghost) (mac_to_int base.base_mac)
    then some false
    else if starts_with ghost "04:f4:bc:" && is_routerboard base.hostname
    then some true
    else none

-- the first base that the ghost is welded to
unfoldable pub find_base : String → List Base → Option (ℕ × Bool)
find_base ghost [] = none
find_base ghost (base ∷ bases) = elim (weld_kind ghost base) [
  | some is_virtual ↦ some (base.node_id, is_virtual)
  | none ↦ find_base ghost bases
]

abbrev pub weld_interface : String → ℕ × Bool → List Interface → List Interface
weld_interface ghost (node_id, is_virtual) interfaces =
    if is_some (find_key Interface.mac_address ghost interfaces)
    then update_key Interface.mac_address ghost
        (λ i. record i { node_id = some node_id; is_virtual = is_virtual }) interfaces
    else interfaces
      ++ (record {
        mac_address = ghost;
        node_id = some node_id;
        vendor = none;
        is_virtual = is_virtual;
        category = none;
        market_segment = none;
      })
        ∷ []

unfoldable pub weld_ghosts : List Base → List String → ℕ → List Interface → ℕ × List Interface
weld_ghosts bases [] welds interfaces = (welds, interfaces)
weld_ghosts bases (ghost ∷ ghosts) welds interfaces = elim (find_base ghost bases) [
  | none ↦ weld_ghosts bases ghosts welds interfaces
  | some target ↦ weld_ghosts bases ghosts (suc welds) (weld_interface ghost target interfaces)
]

unfoldable pub run_hardware_weld_pass : Net → ℕ × Net
run_hardware_weld_pass net =
    let ghosts = map Location.mac_address (
      select (λ (l : Location). not (is_some (node_of_mac net l.mac_address)))
        net.endpoint_locations) in
    let (welds, interfaces) =
      weld_ghosts (infra_nodes net.logical_nodes net.l2_interfaces) ghosts 0 net.l2_interfaces in
    (welds, record net { l2_interfaces = interfaces })
