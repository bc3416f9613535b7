-- ===== src/Unification/Tests.antt =====
-- Runs of the unification passes.
use net_lanvas.Base.{
  ℕ, String, Option, none, some, [], ◌∷◌, false, ◌≡◌, refl, arith, eq_ℕ, eq_String,
}
use net_lanvas.Base.Table.{find, select, update, delete}
use net_lanvas.Base.Keyed.{find_key, delete_key}
use net_lanvas.Base.Number.{parse_hex}
use net_lanvas.Net.{Node, Interface, Binding, Net}
use net_lanvas.Unification.{
  run_arp_confirmed_weld_pass, weld_rounds, weld_pair, weld_partner, is_proximate, mac_to_int,
  arp_rows, merge, delete_node,
}
use net_lanvas.Unification.Engine.{Databases, run_unification_engine}
use net_lanvas.Unification.Engine.Assigned.{AllAssigned, run_unification_engine-AreAssigned}
use net_lanvas.Unification.Links.{AreLinked}
use net_lanvas.Unification.Heuristic.{run_heuristic_pass, run_heuristic_pass-idle}

abbrev pub router : ℕ → Node
router id = record {
  id = id;
  hostname = some "gw";
  device_type = some "Router";
  weld_confidence = 100;
  os_family = none;
  hostname_source_priority = 0;
}

abbrev pub interface : String → Option ℕ → Interface
interface mac node_id = record {
  mac_address = mac;
  node_id = node_id;
  vendor = none;
  is_virtual = false;
  category = none;
  market_segment = none;
}

abbrev pub binding : String → String → Binding
binding ip mac = record {
  ip_address = ip;
  mac_address = mac;
  discovery_source = "ROUTER_ARP_CACHE";
  http_header = none;
  last_seen = 100;
}

-- two addresses of one router on two nodes, and an interface with no node
abbrev pub net : Net
net = record {
  logical_nodes = router 1 ∷ router 2 ∷ [];
  next_node_id = 3;
  l2_interfaces =
      interface "02:00:00:00:00:10" (some 1)
      ∷ interface "02:00:00:00:00:12" (some 2)
      ∷ interface "06:00:00:00:00:01" none
      ∷ [];
  l3_bindings =
      binding "10.0.1.1" "02:00:00:00:00:10" ∷ binding "10.0.2.1" "02:00:00:00:00:12" ∷ [];
  endpoint_locations = [];
  network_vlans = [];
  infrastructure_links = [];
  device_fingerprints = [];
  device_state = [];
  device_state_transitions = [];
  device_findings = [];
  alerts = [];
  next_alert_id = 1;
}

pub linked : AreLinked net
unfolding find_key find
linked = (λ k e. ground arith, (λ k e. ground arith, (λ k e. ground arith, tt)))

abbrev databases : Databases
databases = record { net = net; candidates = []; inventory = some [] }

welded : (run_arp_confirmed_weld_pass net).0 ≡ 1
unfolding run_arp_confirmed_weld_pass weld_rounds weld_pair weld_partner is_proximate mac_to_int
    parse_hex arp_rows merge delete_node find_key find select update delete delete_key
welded = refl

run_unification_engine-AreAssigned_example :
    AreLinked (run_unification_engine (λ mac. false) 100 databases).net
    × AllAssigned (run_unification_engine (λ mac. false) 100 databases).net
unfolding find_key find
run_unification_engine-AreAssigned_example =
    run_unification_engine-AreAssigned (λ mac. false) 100 databases linked (refl, (refl, tt))

run_heuristic_pass-idle_example : run_heuristic_pass net ≡ (0, net)
unfolding find_key find
run_heuristic_pass-idle_example = run_heuristic_pass-idle net (refl, (refl, tt))
