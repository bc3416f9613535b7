-- ===== src/Unification/Engine.antt =====
-- The engine's passes in their order (src/engine/unification.py: run_unification_engine).
pub mod Shape
pub mod Assigned
use net_lanvas.Base.{ℕ, String, Option, none, some, List, [], ◌∷◌, Bool, ◌≡◌, map, if◌then◌else◌}
use net_lanvas.Net.{Net}
use net_lanvas.Inventory.{Device}
use net_lanvas.Unification.{run_arp_confirmed_weld_pass, run_singleton_pass}
use net_lanvas.Unification.Hardware.{run_hardware_weld_pass}
use net_lanvas.Unification.Heuristic.{run_heuristic_pass}
use net_lanvas.Unification.Classify.{
  Verified, enforce_db_triggers, run_classification_pass, run_inventory_overlay_pass,
}
use net_lanvas.Unification.Candidates.{Candidate, Pass, or_blank, run_smart_switch_candidate_pass}

-- the columns that the overlay pass selects
abbrev pub verified_of : Device → Verified
verified_of d = record {
  mac_address = d.mac_address;
  user_given_name = or_blank d.human.user_given_name;
  confirmed_device_type = or_blank d.human.confirmed_device_type;
}

abbrev pub rows_of : Option (List Device) → Option (List Verified)
rows_of none = none
rows_of (some devices) = some (map verified_of devices)

-- network.db with the candidates, and inventory.db, which is `none` where it cannot be read
pub record Databases : Type 0 where
  pub net : Net
  pub candidates : List Candidate
  pub inventory : Option (List Device)

-- `refused` says which writes to inventory.db raise.
unfoldable pub run_unification_engine : (String → Bool) → ℕ → Databases → Databases
run_unification_engine refused now dbs =
    let (hw_welds, a) = run_hardware_weld_pass (enforce_db_triggers dbs.net) in
    let (arp_welds, b) = run_arp_confirmed_weld_pass a in
    let (ip_welds, c) = run_heuristic_pass b in
    let (new_nodes, d) = run_singleton_pass c in
    let (updates, e) = run_classification_pass d in
    let (kept, pass) = run_smart_switch_candidate_pass refused now dbs.candidates dbs.inventory e in
    let (overlaid, after) = run_inventory_overlay_pass (rows_of pass.inventory) pass.net in
    record { net = after; candidates = kept; inventory = pass.inventory }
