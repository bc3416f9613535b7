-- ===== src/Unification/Snapshot/Tests.antt =====
-- Runs of the passes over inventory.db.
use net_lanvas.Base.{none, some, [], ◌∷◌, false, ◌≡◌, refl, eq_ℕ, eq_String}
use net_lanvas.Base.Table.{find, select, delete, update}
use net_lanvas.Base.Dict.{get, get_or, put}
use net_lanvas.Base.Keyed.{find_key, update_key}
use net_lanvas.Net.{Net}
use net_lanvas.Inventory.{Snapshot, Device, no_human, blank_device, upsert, insert_or_ignore}
use net_lanvas.Hostname.Priority.{find_node}
use net_lanvas.Unification.Tests.{net, router, interface}
use net_lanvas.Unification.Candidates.{
  Candidate, Pass, run_smart_switch_candidate_pass, suggest, verified_macs,
}
use net_lanvas.Unification.Candidates.Keeps.{
  device_of, run_smart_switch_candidate_pass-protected, run_smart_switch_candidate_pass-confirmed,
}
use net_lanvas.Unification.Snapshot.{
  joined, group_macs, best_data, by_canonical, min_mac, clean_group, clean_groups, fold_into,
  filled, first_given, sync_all, run_inventory_snapshot_sync,
}
use net_lanvas.Unification.Snapshot.Kept.{HasKept, run_inventory_snapshot_sync-Keeps}
use net_lanvas.Unification.Snapshot.One.{run_inventory_snapshot_sync_one}
use net_lanvas.Unification.Snapshot.Pinned.{run_inventory_snapshot_sync-suggest}

-- one router with two interfaces
abbrev home : Net
home = record net {
  l2_interfaces =
      interface "02:00:00:00:00:12" (some 1) ∷ interface "02:00:00:00:00:10" (some 1) ∷ [];
}

abbrev low : Device
low = record (blank_device 5 "02:00:00:00:00:10") {
  human = record no_human { user_given_name = some "office"; notes = some "" };
}

abbrev high : Device
high = record (blank_device 5 "02:00:00:00:00:12") {
  human = record no_human { user_given_name = some "old"; notes = some "rack 2" };
}

abbrev seen : Snapshot
seen = record {
  hostname = some "gw";
  vendor = none;
  device_type = some "Router";
  ip = some "10.0.2.1";
  os_family = none;
  category = none;
  market_segment = none;
  http_header = none;
}

-- The further row's note moves, its name does not, and the type is filled in.
synced : run_inventory_snapshot_sync none 100 home (low ∷ high ∷ []) ≡ (
  1,
  record low {
    human = record low.human { notes = some "rack 2"; confirmed_device_type = some "Router" };
    last_known = seen;
    last_synced = some 100;
  }
      ∷ [],
)
unfolding run_inventory_snapshot_sync joined group_macs best_data by_canonical min_mac clean_group
    clean_groups fold_into filled first_given sync_all get get_or put find_key find select delete
    update update_key upsert insert_or_ignore
synced = refl

run_inventory_snapshot_sync-Keeps_example :
    HasKept "02:00:00:00:00:10" low.human
      (run_inventory_snapshot_sync none 100 home (low ∷ high ∷ [])).1
unfolding joined group_macs min_mac get_or put select find_key find
run_inventory_snapshot_sync-Keeps_example =
    run_inventory_snapshot_sync-Keeps none 100 home (low ∷ high ∷ []) "02:00:00:00:00:10" low refl
      (refl, tt)

run_inventory_snapshot_sync_one_example :
    find_key Device.mac_address "02:00:00:00:00:12"
      (run_inventory_snapshot_sync none 100 home (low ∷ high ∷ [])).1
    ≡ none
unfolding joined group_macs min_mac get_or put select find_key find
run_inventory_snapshot_sync_one_example =
    run_inventory_snapshot_sync_one none 100 home (low ∷ high ∷ []) "02:00:00:00:00:12"
      (refl, (refl, tt)) refl

abbrev candidate : Candidate
candidate = record {
  mac_address = "02:00:00:00:00:10";
  vendor = some "Netgear";
  model = some "GS108Ev3";
  protocol = some "SSDP";
  last_seen = 100;
}

abbrev pass : Pass
pass = record { net = home; inventory = some []; suggested = 0 }

run_inventory_snapshot_sync-suggest_example :
    suggest
      (λ mac. false)
      (verified_macs (some (run_inventory_snapshot_sync none 100 home []).1))
      200
      candidate
      pass
    ≡ pass
unfolding joined group_macs best_data by_canonical min_mac get get_or put select find_key find
run_inventory_snapshot_sync-suggest_example =
    run_inventory_snapshot_sync-suggest none 100 home [] "02:00:00:00:00:10" seen refl refl
      (λ mac. false) 200 candidate pass refl

run_smart_switch_candidate_pass-protected_example :
    find_node 1
      (run_smart_switch_candidate_pass (λ mac. false) 100 (candidate ∷ []) (some []) home).1.net
    ≡ some (router 1)
unfolding find_key find
run_smart_switch_candidate_pass-protected_example =
    run_smart_switch_candidate_pass-protected (λ mac. false) 100 (candidate ∷ []) (some []) home 1
      (router 1) refl refl

run_smart_switch_candidate_pass-confirmed_example :
    device_of "02:00:00:00:00:10"
      (run_smart_switch_candidate_pass
        (λ mac. false)
        100
        (candidate ∷ [])
        (some (low ∷ []))
        home).1.inventory
    ≡ some low
unfolding find_key find
run_smart_switch_candidate_pass-confirmed_example =
    run_smart_switch_candidate_pass-confirmed (λ mac. false) 100 (candidate ∷ []) (low ∷ []) home
      "02:00:00:00:00:10" low refl refl
