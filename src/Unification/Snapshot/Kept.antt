-- ===== src/Unification/Snapshot/Kept.antt =====
-- What a person entered in inventory.db stays (src/engine/unification.py:
-- run_inventory_snapshot_sync).
use net_lanvas.Base.{
  ℕ, String, Option, none, some, List, [], ◌∷◌, Bool, true, false, elem, any, if◌then◌else◌, eq_ℕ,
  eq_String, ◌==◌, is_empty, ◌≡◌, refl, ◌∙◌, ap, arith, All, Bool-cases, inl, inr, eq_iff,
}
use mathlib.Core.Option
use net_lanvas.Base.Table.{select, find}
use net_lanvas.Base.Dict.{Dict}
use net_lanvas.Base.Keyed.{
  find_key, update_key, find_key-update_key, find_key-append, find_key-delete,
}
use net_lanvas.Net.{Net}
use net_lanvas.Inventory.{Human, Snapshot, Device, blank_device, is_given, upsert, insert_or_ignore}
use net_lanvas.Unification.Snapshot.{
  Key, Site, human_cols, fill, filled, fold_into, others, canonical, clean_group, clean_groups,
  discovered, synced, sync_all, set_site, joined, group_macs, best_data, by_canonical, is_filled,
  run_inventory_snapshot_sync, human_of,
}

-- Every column of a person's that is given is as it was.
abbrev pub Keeps : Human → Human → Type 0
Keeps h h' = All (λ column. is_given (column h) ≡ true → column h' ≡ column h) human_cols

module _ (h h' h'' : Human) where
  trans_on :
      (columns : List (Human → Option String))
      → All (λ column. is_given (column h) ≡ true → column h' ≡ column h) columns
      → All (λ column. is_given (column h') ≡ true → column h'' ≡ column h') columns
      → All (λ column. is_given (column h) ≡ true → column h'' ≡ column h) columns
  trans_on [] f g = tt
  trans_on (column ∷ columns) f g =
      (λ e. g.0 (ap is_given (f.0 e) ∙ e) ∙ f.0 e, trans_on columns f.1 g.1)

refl_on :
    (h : Human) (columns : List (Human → Option String))
    → All (λ column. is_given (column h) ≡ true → column h ≡ column h) columns
refl_on h [] = tt
refl_on h (column ∷ columns) = (λ e. refl, refl_on h columns)

fill-given :
    (column : Human → Option String) (strays : List Device) (h : Human)
    → is_given (column h) ≡ true
    → fill column strays h ≡ column h
fill-given column strays h e = ground arith

filled-Keeps : (strays : List Device) (h : Human) → Keeps h (filled strays h)
unfolding filled
filled-Keeps strays h = ground (
  arith,
  fill-given Human.user_given_name strays h,
  fill-given Human.confirmed_device_type strays h,
  fill-given Human.notes strays h,
  fill-given Human.location strays h,
  fill-given Human.asset_tag strays h,
  fill-given Human.serial_number strays h,
  fill-given Human.model strays h,
  fill-given Human.purchase_date strays h,
  fill-given Human.warranty_expiry strays h,
)

pub set_site-facts :
    (site : Site) (d : Device)
    → ((set_site site d).human ≡ d.human) × ((set_site site d).mac_address ≡ d.mac_address)
set_site-facts none d = (refl, refl)
set_site-facts (some (stamp, instance_id)) d = (refl, refl)

synced-Keeps :
    (site : Site) (now : ℕ) (s : Snapshot) (d : Device) → Keeps d.human (synced site now s d).human
synced-Keeps none now s d = ground arith
synced-Keeps (some (stamp, instance_id)) now s d = ground arith

-- the row of an address, with what a person entered kept
abbrev pub HasKept : String → Human → List Device → Type 0
HasKept mac h devices =
    (d : Device) × (find_key Device.mac_address mac devices ≡ some d) × Keeps h d.human

module _ (mac : String) where
  kept_if :
      (b : Bool) (d d' : Device) (devices : List Device)
      → Keeps d.human d'.human
      → find_key Device.mac_address mac devices ≡ some (if b then d' else d)
      → HasKept mac d.human devices
  kept_if true d d' devices k e = (d', e, k)
  kept_if false d d' devices k e = (d, e, refl_on d.human human_cols)

  insert_or_ignore-row :
      (row : Device) (devices : List Device) (d : Device)
      → find_key Device.mac_address mac devices ≡ some d
      → find_key Device.mac_address mac (insert_or_ignore row devices) ≡ some d
  unfolding insert_or_ignore Option.or_else
  insert_or_ignore-row row devices d e =
      ground (arith, find_key-append Device.mac_address mac devices (row ∷ []))

  pub upsert-new :
      (row : Device) (f : Device → Device) (devices : List Device)
      → row.mac_address ≡ mac
      → find_key Device.mac_address mac devices ≡ none
      → find_key Device.mac_address mac (upsert row f devices) ≡ some row
  unfolding upsert Option.or_else find_key find
  upsert-new row f devices same e =
      ground (
        arith,
        find_key-append Device.mac_address mac devices (row ∷ []),
        eq_iff row.mac_address mac,
      )

  pub upsert-row :
      (row : Device) (f : Device → Device) (devices : List Device) (d : Device)
      → ((x : Device) → (f x).mac_address ≡ x.mac_address)
      → find_key Device.mac_address mac devices ≡ some d
      → find_key Device.mac_address mac (upsert row f devices)
        ≡ some (if row.mac_address == mac then f d else d)
  unfolding upsert Option.or_else
  upsert-row row f devices d keeps e = ground (
    arith,
    find_key-update_key Device.mac_address mac row.mac_address f devices keeps,
    find_key-append Device.mac_address mac devices (row ∷ []),
    eq_iff row.mac_address mac,
  )

  fill_row :
      (now : ℕ) (m : String) (strays devices : List Device) (d : Device)
      → find_key Device.mac_address mac devices ≡ some d
      → HasKept mac d.human (
          update_key Device.mac_address m
            (λ x. record x { human = filled strays x.human })
            (insert_or_ignore (blank_device now m) devices))
  fill_row now m strays devices d e =
      kept_if (m == mac) d (record d { human = filled strays d.human }) _
        (filled-Keeps strays d.human)
        (ground (
          arith,
          insert_or_ignore-row (blank_device now m) devices d e,
          find_key-update_key Device.mac_address mac m
              (λ x. record x { human = filled strays x.human })
              (insert_or_ignore (blank_device now m) devices) (λ x. refl),
        ))

  fold_into-row :
      (now : ℕ) (m : String) (strays devices : List Device) (d : Device)
      → find_key Device.mac_address mac devices ≡ some d
      → HasKept mac d.human (fold_into now m strays devices)
  unfolding fold_into
  fold_into-row now m strays devices d e =
      elim (Bool-cases (
        any (λ column. is_filled column (human_of (find_key Device.mac_address m devices)) strays)
          human_cols)) [
            | inr p ↦ rw (fold_into, p) (d, e, refl_on d.human human_cols)
            | inl p ↦ rw (fold_into, p) (fill_row now m strays devices d e)
          ]

  clean_group-row :
      (now : ℕ) (macs : List String) (devices : List Device) (d : Device)
      → elem mac (others macs) ≡ false
      → find_key Device.mac_address mac devices ≡ some d
      → HasKept mac d.human (clean_group now macs devices)
  unfolding clean_group
  clean_group-row now macs devices d spared e =
      let strays = select (λ (x : Device). elem x.mac_address (others macs)) devices in
      elim (Bool-cases (is_empty strays)) [
        | inl p ↦ rw (clean_group, p) (d, e, refl_on d.human human_cols)
        | inr p ↦
            let (d', found, kept) = fold_into-row now (canonical macs) strays devices d e in
            rw (clean_group, p)
              (
                d',
                find_key-delete Device.mac_address mac
                      (λ (x : Device). elem x.mac_address (others macs))
                      (fold_into now (canonical macs) strays devices) (λ x q. rw q spared)
                    ∙ found,
                kept,
              )
      ]

  HasKept-trans :
      (h : Human) (devices devices' : List Device)
      → HasKept mac h devices
      → ((d : Device)
          → find_key Device.mac_address mac devices ≡ some d
          → HasKept mac d.human devices')
      → HasKept mac h devices'
  HasKept-trans h devices devices' (d, e, k) next =
      let (d', e', k') = next d e in (d', e', trans_on h d.human d'.human human_cols k k')

  clean_groups-row :
      (now : ℕ) (groups : Dict Key (List String)) (devices : List Device) (d : Device)
      → All (λ (g : Key × List String). elem mac (others g.1) ≡ false) groups
      → find_key Device.mac_address mac devices ≡ some d
      → HasKept mac d.human (clean_groups now groups devices)
  unfolding clean_groups
  clean_groups-row now [] devices d spared e = (d, e, refl_on d.human human_cols)
  clean_groups-row now ((key, macs) ∷ groups) devices d spared e =
      HasKept-trans d.human (clean_group now macs devices)
        (clean_groups now groups (clean_group now macs devices))
        (clean_group-row now macs devices d spared.0 e)
        (λ x found. clean_groups-row now groups (clean_group now macs devices) x spared.1 found)

  pub sync_all-row :
      (site : Site) (now : ℕ) (by_mac : Dict String Snapshot) (devices : List Device) (d : Device)
      → find_key Device.mac_address mac devices ≡ some d
      → HasKept mac d.human (sync_all site now by_mac devices)
  unfolding sync_all
  sync_all-row site now [] devices d e = (d, e, refl_on d.human human_cols)
  sync_all-row site now ((m, s) ∷ by_mac) devices d e =
      HasKept-trans d.human (upsert (discovered site now m s) (synced site now s) devices)
        (sync_all site now by_mac (upsert (discovered site now m s) (synced site now s) devices))
        (kept_if (m == mac) d (synced site now s d) _ (synced-Keeps site now s d) (
          ground (
            arith,
            set_site-facts site,
            upsert-row (discovered site now m s) (synced site now s) devices d,
          )))
        (λ x found. sync_all-row site now by_mac _ x found)

-- The sync never writes over what a person entered: where an address has a row and is not one of
-- the further addresses of a device with several, it has a row after the sync, in which each of
-- the nine columns that was neither NULL nor empty is as it was.
pub run_inventory_snapshot_sync-Keeps :
    (site : Site) (now : ℕ) (net : Net) (devices : List Device) (mac : String) (d : Device)
    → find_key Device.mac_address mac devices ≡ some d
    → All
        (λ (g : Key × List String). elem mac (others g.1) ≡ false)
        (group_macs (joined net.l2_interfaces net) [])
    → HasKept mac d.human (run_inventory_snapshot_sync site now net devices).1
unfolding run_inventory_snapshot_sync
run_inventory_snapshot_sync-Keeps site now net devices mac d e spared =
    let rows = joined net.l2_interfaces net in
    let groups = group_macs rows [] in
    HasKept-trans mac d.human (clean_groups now groups devices)
      (sync_all site now (by_canonical groups (best_data rows []) [])
        (clean_groups now groups devices))
      (clean_groups-row mac now groups devices d spared e)
      (λ x found.
        sync_all-row mac site now (by_canonical groups (best_data rows []) [])
          (clean_groups now groups devices) x found)
