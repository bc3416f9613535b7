-- ===== src/Inference/Tests.antt =====
-- Runs of the inference engine.
use net_lanvas.Base.{ℕ, String, none, some, [], ◌∷◌, ◌++◌, false, arith, ◌≡◌, refl, eq_ℕ, eq_String}
use net_lanvas.Base.Table.{find, select, delete, update}
use net_lanvas.Base.Keyed.{find_key, delete_key, update_key}
use net_lanvas.Net.{Node, Interface, Binding, Location, DeviceState, Net, offline}
use net_lanvas.Hostname.Tests.{node, net}
use net_lanvas.Unification.{delete_node}
use net_lanvas.Inference.{macs_of, trace, run_orphan_node_sweep, nodes_with_macs, sweep}
use net_lanvas.Hostname.Priority.{find_node}
use net_lanvas.Base.Crc.{crc32}
use net_lanvas.Base.Dict.{get_or, put}
use net_lanvas.Base.Number.{parse_ipv4, parse_int, show}
use net_lanvas.Base.Text.{split_on}
use net_lanvas.Inference.Pseudo.{bind}
use net_lanvas.Inference.Wap.{
  Lookups, subnets_of, parse_subnet, segment_for_ip, first_segment, after_word, search_mobile,
  eq_Segment,
}
use net_lanvas.Inference.Wap.Pass.{
  wap_node, run_wap_inference, ips_of_all, confirmed_ips, is_confirmed, clients_of_all,
  mobile_clients, by_segment, confidence_of, seed_of, place, place_all, retire, retire_all,
}
use net_lanvas.Inference.Wap.Rows.{AreInRange, run_wap_inference-row, run_wap_inference-InRange}
use net_lanvas.Inference.Dark.{is_anomaly}
use net_lanvas.Inference.Dark.Links.{uplink}
use net_lanvas.Inference.Dark.Pass.{State, committed, run_dark_matter_detection}
use net_lanvas.Inference.Dark.Rows.{run_dark_matter_detection-row}
use net_lanvas.Inference.Dark.Hides.{uplink-is_anomaly}
use net_lanvas.Inference.Orphans.Start.{run_orphan_node_sweep-row}

abbrev interface : String → ℕ → Interface
interface mac id = record {
  mac_address = mac;
  node_id = some id;
  vendor = none;
  is_virtual = false;
  category = none;
  market_segment = none;
}

abbrev seen : String → ℕ → DeviceState
seen mac t = record {
  mac_address = mac;
  status = offline;
  last_seen = t;
  last_seen_tick = none;
  last_status_change = t;
}

abbrev bound : String → String → Binding
bound ip mac = record {
  ip_address = ip;
  mac_address = mac;
  discovery_source = "ARP";
  http_header = none;
  last_seen = 100;
}

-- Node 3 was last seen at 100, node 4 at 40000, and node 5 still has an address.
abbrev pub tables : Net
tables = record net {
  logical_nodes = node ∷ record node { id = 4 } ∷ record node { id = 5 } ∷ [];
  l2_interfaces = interface "aa" 3 ∷ interface "bb" 4 ∷ interface "cc" 5 ∷ [];
  l3_bindings = bound "10.0.0.5" "cc" ∷ [];
  device_state = seen "aa" 100 ∷ seen "bb" 40000 ∷ seen "cc" 100 ∷ [];
}

-- At 50000 only the first is more than twelve hours old.
sweeps :
    (run_orphan_node_sweep 50000 tables).logical_nodes
    ≡ record node { id = 4 } ∷ record node { id = 5 } ∷ []
unfolding run_orphan_node_sweep nodes_with_macs sweep macs_of trace select find_key find delete_node
    delete_key delete
sweeps = refl

run_orphan_node_sweep-row_example :
    find_key Node.id 4 (run_orphan_node_sweep 50000 tables).logical_nodes
    ≡ some (record node { id = 4 })
unfolding macs_of trace select find_key find
run_orphan_node_sweep-row_example =
    run_orphan_node_sweep-row 50000 4 tables (refl, (refl, (refl, tt))) (refl, (refl, (refl, tt)))

abbrev look : Lookups
look = record { is_word_beyond = λ k. false; vendor_of = λ mac. some "Apple, Inc." }

-- two phones of one subnet, and an access point that was inferred before with node 4
abbrev phones : Net
phones = record tables {
  logical_nodes =
      record node { id = 3; hostname = some "Anna-iPhone"; device_type = some "Endpoint" }
      ∷ record node { id = 4; device_type = some "Access Point (Unverified)"; weld_confidence = 25 }
      ∷ record node { id = 5; hostname = some "work phone"; device_type = some "Endpoint" }
      ∷ [];
  next_node_id = 6;
  l3_bindings = bound "10.0.0.5" "aa" ∷ bound "10.0.0.6" "cc" ∷ [];
}

inferred :
    (run_wap_inference look (("10.0.0.0/16", some 7) ∷ []) 500 phones).logical_nodes
    ≡ phones.logical_nodes ++ wap_node 6 35 "Inferred WAP (VLAN 7)" ∷ []
unfolding run_wap_inference subnets_of parse_subnet segment_for_ip first_segment after_word
    search_mobile ips_of_all confirmed_ips is_confirmed clients_of_all mobile_clients by_segment
    confidence_of seed_of place place_all retire retire_all bind crc32 select find find_key update
    update_key get_or put parse_ipv4 parse_int split_on show
inferred = refl

run_wap_inference-row_example :
    find_node 3 (run_wap_inference look (("10.0.0.0/16", some 7) ∷ []) 500 phones)
    ≡ some (record node { id = 3; hostname = some "Anna-iPhone"; device_type = some "Endpoint" })
unfolding find_key find
run_wap_inference-row_example =
    run_wap_inference-row look (("10.0.0.0/16", some 7) ∷ []) 500 phones 3
      (record node { id = 3; hostname = some "Anna-iPhone"; device_type = some "Endpoint" }) refl
      refl

run_wap_inference-InRange_example :
    AreInRange (run_wap_inference look (("10.0.0.0/16", some 7) ∷ []) 500 phones)
run_wap_inference-InRange_example =
    run_wap_inference-InRange look (("10.0.0.0/16", some 7) ∷ []) 500 phones
      (λ e. ground arith, (λ e. ground arith, (λ e. ground arith, tt)))

-- two nodes behind port 5 of a switch
abbrev location : String → Location
location mac = record {
  mac_address = mac;
  switch_ip = "10.0.0.2";
  local_port = "5";
  local_port_name = some "ether5";
  link_speed = none;
  vlan_id = none;
  is_ambiguous = false;
}

abbrev bridged : State
bridged = record {
  net = record phones {
    endpoint_locations = location "aa" ∷ location "cc" ∷ [];
    infrastructure_links = [];
  };
  oui_index = [];
}

run_dark_matter_detection-row_example :
    find_node 3 (committed bridged (run_dark_matter_detection 500 bridged)).net
    ≡ some (record node { id = 3; hostname = some "Anna-iPhone"; device_type = some "Endpoint" })
unfolding find_key find
run_dark_matter_detection-row_example =
    run_dark_matter_detection-row 500 bridged 3
      (record node { id = 3; hostname = some "Anna-iPhone"; device_type = some "Endpoint" }) refl
      (omega arith) (λ p. cc, (λ p. cc, (λ p. cc, tt)))

-- the tables after the linking, with more rows for the port
abbrev joined_later : Net
joined_later =
    let after = uplink ("10.0.0.2", "5") "10.0.0.2005" false bridged.net in
    record after {
      endpoint_locations = after.endpoint_locations ++ after.endpoint_locations;
      next_node_id = 99;
    }

uplink-is_anomaly_example : is_anomaly joined_later ("10.0.0.2", "5") ≡ false
uplink-is_anomaly_example =
    uplink-is_anomaly "10.0.0.2" "5" "10.0.0.2005" bridged.net joined_later refl refl
