-- ===== src/Unification/Snapshot/Pinned.antt =====
-- What the sync fills in reads as if a person had entered it (src/engine/unification.py:
-- run_inventory_snapshot_sync, run_smart_switch_candidate_pass).
use net_lanvas.Base.{
  ℕ, String, some, List, [], ◌∷◌, Bool, true, eq_String, ◌==◌, ◌≡◌, refl, ap, ◌∙◌, arith,
  Bool-cases, Option-cases, inl, inr, eq_iff,
}
use net_lanvas.Base.Dict.{Dict, get}
use net_lanvas.Base.Keyed.{find_key}
use net_lanvas.Net.{Net}
use net_lanvas.Inventory.{Snapshot, Device, is_given, upsert}
use net_lanvas.Unification.Snapshot.{
  Site, discovered, synced, sync_all, clean_groups, joined, group_macs, by_mac_of,
  run_inventory_snapshot_sync,
}
use net_lanvas.Unification.Snapshot.Kept.{set_site-facts, sync_all-row, upsert-new, upsert-row}
use net_lanvas.Unification.Candidates.{Candidate, Pass, suggest, verified_macs}
use net_lanvas.Unification.Candidates.Keeps.{listed}

-- the row of an address has a confirmed type
abbrev HasType : String → List Device → Type 0
HasType mac devices =
    (d : Device) × (find_key Device.mac_address mac devices ≡ some d)
    × (is_given d.human.confirmed_device_type ≡ true)

module _ (site : Site) (now : ℕ) (m : String) (s : Snapshot)
    (typed : is_given s.device_type ≡ true) where
  written_type :
      (d : Device)
      → (is_given (synced site now s d).human.confirmed_device_type ≡ true)
        × (is_given (discovered site now m s).human.confirmed_device_type ≡ true)
  written_type d = ground (arith, set_site-facts site)

  upserted-HasType :
      (devices : List Device)
      → HasType m (upsert (discovered site now m s) (synced site now s) devices)
  upserted-HasType devices = elim (Option-cases (find_key Device.mac_address m devices)) [
    | inl e ↦ (
      discovered site now m s,
      upsert-new m (discovered site now m s) (synced site now s) devices (set_site-facts site _).1
          e,
      (written_type (discovered site now m s)).1,
    )
    | inr (d, e) ↦ (
      synced site now s d,
      ground (
        arith,
        upsert-row m (discovered site now m s) (synced site now s) devices d
            (λ x. (set_site-facts site _).1) e,
        (set_site-facts site (discovered site now m s)).1,
        eq_iff m m,
      ),
      (written_type d).0,
    )
  ]

  sync_all-HasType :
      (by_mac : Dict String Snapshot) (devices : List Device)
      → get m by_mac ≡ some s
      → HasType m (sync_all site now by_mac devices)
  unfolding sync_all get
  sync_all-HasType [] devices e = absurd (ground arith)
  sync_all-HasType ((j, s') ∷ by_mac) devices e = elim (Bool-cases (j == m)) [
    | inl p ↦
        let same : j ≡ m = (eq_iff j m).0 p in
        let first : s' ≡ s = ground arith in
        let (d, found, given) = upserted-HasType devices in
        let (d', found', kept) =
          sync_all-row m site now by_mac
            (upsert (discovered site now m s) (synced site now s) devices) d found in
        rw (same, first) (d', found', ap is_given (kept.1.0 given) ∙ given)
    | inr p ↦ sync_all-HasType by_mac _ (ground arith)
  ]

-- In the inventory as the sync leaves it, a device that it has written with a type counts as
-- confirmed by a person: a candidate pass that reads it, at whatever time, changes nothing for a
-- switch that answers under the device's address.
pub run_inventory_snapshot_sync-suggest :
    (site : Site) (now : ℕ) (net : Net) (devices : List Device) (m : String) (s : Snapshot)
    → get m (by_mac_of net) ≡ some s
    → is_given s.device_type ≡ true
    → (refused : String → Bool) (later : ℕ) (c : Candidate) (pass : Pass) → c.mac_address ≡ m
    → suggest refused
        (verified_macs (some (run_inventory_snapshot_sync site now net devices).1))
        later
        c
        pass
      ≡ pass
unfolding run_inventory_snapshot_sync suggest
run_inventory_snapshot_sync-suggest site now net devices m s e typed refused later c pass same =
    let cleaned = clean_groups now (group_macs (joined net.l2_interfaces net) []) devices in
    let (d, found, given) = sync_all-HasType site now m s typed (by_mac_of net) cleaned e in
    let known = listed m (sync_all site now (by_mac_of net) cleaned) d found (ground arith) in
    rw (same, known) refl
