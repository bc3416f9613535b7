-- ===== src/Unification/Consolidation/Tests.antt =====
-- Runs of the consolidation pass.
use net_lanvas.Base.{
  ℕ, String, none, some, [], ◌∷◌, false, ◌≡◌, refl, arith, eq_ℕ, eq_String, eq_pair,
}
use net_lanvas.Base.Table.{find, select, delete, update}
use net_lanvas.Base.Keyed.{find_key, delete_key}
use net_lanvas.Base.Number.{parse_int, show}
use net_lanvas.Base.Text.{split_on, starts_with, differ}
use net_lanvas.Net.{Location, Link, Net}
use net_lanvas.Net.Pseudo.{pseudo_ip, cast_int}
use net_lanvas.Inventory.{Device, no_human, blank_device}
use net_lanvas.Unification.{delete_node}
use net_lanvas.Unification.Tests.{net, router, interface, binding}
use net_lanvas.Unification.Consolidation.{
  replaced, delete_interface, ports_of, stand_in, consolidate, consolidate_all,
  run_verified_switch_consolidation_pass,
}
use net_lanvas.Unification.Consolidation.Gone.{IsGone, replace-IsGone}

abbrev switch : Device
switch = record (blank_device 5 "06:00:00:00:00:01") {
  human = record no_human { confirmed_device_type = some "Smart Switch" };
}

abbrev location : String → Location
location mac = record {
  mac_address = mac;
  switch_ip = "10.0.0.2";
  local_port = "5";
  local_port_name = none;
  link_speed = none;
  vlan_id = none;
  is_ambiguous = false;
}

abbrev link : String → ℕ → String → Link
link from port to = record {
  local_switch_ip = from;
  local_port = port;
  local_port_name = none;
  link_speed = none;
  remote_system_name = some to;
  vlan_id = none;
  is_ambiguous = false;
}

-- a verified switch at port 5, with the stand-in for that port
abbrev office : Net
office = record net {
  l2_interfaces =
      interface "06:00:00:00:00:01" (some 1) ∷ interface "02:ff:00:00:02:05" (some 2) ∷ [];
  l3_bindings =
      binding "10.0.0.7" "06:00:00:00:00:01" ∷ binding "10.0.0.2005" "02:ff:00:00:02:05" ∷ [];
  endpoint_locations = location "06:00:00:00:00:01" ∷ location "06:00:00:00:00:02" ∷ [];
  infrastructure_links = link "10.0.0.2" 5 "10.0.0.2005" ∷ link "10.0.0.2005" 1 "10.0.0.9" ∷ [];
}

after : Net
after = record office {
  logical_nodes = router 1 ∷ [];
  l2_interfaces = interface "06:00:00:00:00:01" (some 1) ∷ [];
  l3_bindings = binding "10.0.0.7" "06:00:00:00:00:01" ∷ [];
  infrastructure_links = link "10.0.0.2" 5 "10.0.0.7" ∷ link "10.0.0.7" 1 "10.0.0.9" ∷ [];
}

consolidated : run_verified_switch_consolidation_pass (some (switch ∷ [])) office ≡ some (1, after)
unfolding run_verified_switch_consolidation_pass consolidate_all consolidate stand_in ports_of
    replaced delete_interface delete_node pseudo_ip cast_int parse_int show split_on starts_with
    find select delete update find_key delete_key after
consolidated = refl

-- Where the verified switch has a link at a port of the stand-in, the write raises, and the pass
-- is undone.
collides :
    run_verified_switch_consolidation_pass (some (switch ∷ [])) (record office {
      infrastructure_links = link "10.0.0.7" 1 "10.0.0.1" ∷ office.infrastructure_links;
    })
    ≡ none
unfolding run_verified_switch_consolidation_pass consolidate_all consolidate stand_in ports_of
    replaced delete_interface delete_node pseudo_ip cast_int parse_int show split_on starts_with
    find select delete update find_key delete_key
collides = refl

replace-IsGone_example : IsGone "10.0.0.2005" "02:ff:00:00:02:05" after
unfolding replaced delete_interface delete_node find select delete update find_key delete_key after
replace-IsGone_example =
    replace-IsGone "10.0.0.2005" "02:ff:00:00:02:05" "10.0.0.7" office {net' = after} refl
      (differ "10.0.0.7" "10.0.0.2005" (omega arith))
