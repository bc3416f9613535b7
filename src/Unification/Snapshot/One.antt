-- ===== src/Unification/Snapshot/One.antt =====
-- One row for a device with several addresses (src/engine/unification.py:
-- run_inventory_snapshot_sync).
use net_lanvas.Base.{
  ℕ, String, Option, none, some, List, [], ◌∷◌, true, false, elem, any, map, eq_ℕ, eq_String, ◌==◌,
  is_some, is_empty, ◌≡◌, ◌≢◌, refl, sym, ◌∙◌, ap, arith, All, All-append, All-imp, Bool-cases, inl,
  inr, eq_iff,
}
use mathlib.Core.Option
use net_lanvas.Base.Table.{select, delete, find}
use net_lanvas.Base.Dict.{Dict, get, get_or, put-All}
use net_lanvas.Base.Keyed.{
  find_key, update_key, find_key-update_key, find_key-append, IsPrimary, IsPrimary-unique,
  All-absent, delete-absent,
}
use net_lanvas.Net.{Interface, Binding, Node, Net}
use net_lanvas.Inventory.{Snapshot, Device, blank_device, upsert, insert_or_ignore}
use net_lanvas.Unification.Snapshot.{
  Key, eq_Key, Site, others, canonical, fold_into, filled, clean_group, clean_groups, discovered,
  synced, sync_all, joined, with_bindings, seen, node_of, key_of, group_macs, best_data,
  by_canonical, is_filled, human_of, human_cols, run_inventory_snapshot_sync,
}
use net_lanvas.Unification.Snapshot.Kept.{set_site-facts}
use net_lanvas.Unification.Snapshot.Groups.{
  IsOwn, not_canonical, group_macs-Group, best_data-there, all-IsThere, get_or-canonical,
}

-- the group of an address
owner_of : String → Option Interface → Key
owner_of m none = key_of m none
owner_of m (some i) = key_of m i.node_id

with_bindings-IsOwn :
    (m : String) (own : Key) (i : Interface) (n : Option Node) (bindings : List Binding)
    → (i.mac_address ≡ m → key_of i.mac_address i.node_id ≡ own)
    → All (IsOwn m own) (with_bindings i n bindings)
with_bindings-IsOwn m own i n [] h = (h, tt)
with_bindings-IsOwn m own i n (b ∷ bindings) h = (h, rest bindings)
  where
    rest :
        (xs : List Binding)
        → All (IsOwn m own) (map (λ (x : Binding). seen i n (some x.ip_address) x.http_header) xs)
    rest [] = tt
    rest (x ∷ xs) = (h, rest xs)

joined-IsOwn :
    (m : String) (own : Key) (interfaces : List Interface) (net : Net)
    → All (λ (i : Interface). i.mac_address ≡ m → key_of i.mac_address i.node_id ≡ own) interfaces
    → All (IsOwn m own) (joined interfaces net)
unfolding joined
joined-IsOwn m own [] net h = tt
joined-IsOwn m own (i ∷ interfaces) net h =
    All-append (IsOwn m own) _ (joined interfaces net)
      (with_bindings-IsOwn m own i (node_of i.node_id net.logical_nodes)
        (select (λ (b : Binding). b.mac_address == i.mac_address) net.l3_bindings) h.0)
      (joined-IsOwn m own interfaces net h.1)

owned :
    (m : String) (interfaces : List Interface) (o : Option Interface)
    → find_key Interface.mac_address m interfaces ≡ o
    → IsPrimary Interface.mac_address interfaces
    → All
        (λ (i : Interface). i.mac_address ≡ m → key_of i.mac_address i.node_id ≡ owner_of m o)
        interfaces
unfolding owner_of
owned m interfaces none e h =
    All-imp _ _ interfaces (λ i same q. rw (same q) refl)
      (All-absent Interface.mac_address m
        (record {
          mac_address = m;
          node_id = none;
          vendor = none;
          is_virtual = false;
          category = none;
          market_segment = none;
        })
        interfaces e)
owned m interfaces (some x) e h =
    All-imp _ _ interfaces (λ i same q. rw q (ap (λ (j : Interface). key_of m j.node_id) (same q)))
      (IsPrimary-unique Interface.mac_address m interfaces h e)

module _ (m : String) where
  by_canonical-apart :
      (groups : Dict Key (List String)) (best : Dict Key Snapshot) (by_mac : Dict String Snapshot)
      → All (λ (g : Key × List String). canonical g.1 ≢ m) groups
      → All (λ (b : Key × Snapshot). is_some (get b.0 groups) ≡ true) best
      → All (λ (e : String × Snapshot). e.0 ≢ m) by_mac
      → All (λ (e : String × Snapshot). e.0 ≢ m) (by_canonical groups best by_mac)
  unfolding by_canonical
  by_canonical-apart groups [] by_mac low there h = h
  by_canonical-apart groups ((key, s) ∷ best) by_mac low there h =
      by_canonical-apart groups best _ low there.1 (
        put-All (λ (e : String × Snapshot). e.0 ≢ m) (canonical (get_or key [] groups)) s by_mac
          (get_or-canonical m key groups there.0 low) h)

  deleted :
      (ms : List String) (devices : List Device)
      → elem m ms ≡ true
      → find_key Device.mac_address m (delete (λ (d : Device). elem d.mac_address ms) devices)
        ≡ none
  unfolding find_key find delete
  deleted ms [] h = refl
  deleted ms (d ∷ devices) h = ground (arith, eq_iff d.mac_address m, deleted ms devices)

  not_selected :
      (ms : List String) (devices : List Device)
      → elem m ms ≡ true
      → is_empty (select (λ (d : Device). elem d.mac_address ms) devices) ≡ true
      → find_key Device.mac_address m devices ≡ none
  unfolding find_key find select
  not_selected ms [] h e = refl
  not_selected ms (d ∷ devices) h e =
      ground (arith, eq_iff d.mac_address m, not_selected ms devices h)

  upsert-absent :
      (row : Device) (f : Device → Device) (devices : List Device)
      → ((x : Device) → (f x).mac_address ≡ x.mac_address)
      → row.mac_address ≢ m
      → find_key Device.mac_address m devices ≡ none
      → find_key Device.mac_address m (upsert row f devices) ≡ none
  unfolding upsert Option.or_else find_key find
  upsert-absent row f devices keeps apart e = ground (
    arith,
    find_key-update_key Device.mac_address m row.mac_address f devices keeps,
    find_key-append Device.mac_address m devices (row ∷ []),
    eq_iff row.mac_address m,
  )

  insert_or_ignore-absent :
      (row : Device) (devices : List Device)
      → row.mac_address ≢ m
      → find_key Device.mac_address m devices ≡ none
      → find_key Device.mac_address m (insert_or_ignore row devices) ≡ none
  unfolding insert_or_ignore Option.or_else find_key find
  insert_or_ignore-absent row devices apart e =
      ground
        (arith, find_key-append Device.mac_address m devices (row ∷ []), eq_iff row.mac_address m)

  filled_absent :
      (now : ℕ) (mac : String) (strays devices : List Device)
      → mac ≢ m
      → find_key Device.mac_address m devices ≡ none
      → find_key Device.mac_address m (
          update_key Device.mac_address mac
            (λ x. record x { human = filled strays x.human })
            (insert_or_ignore (blank_device now mac) devices))
        ≡ none
  filled_absent now mac strays devices apart e = ground (
    arith,
    insert_or_ignore-absent (blank_device now mac) devices apart e,
    find_key-update_key Device.mac_address m mac (λ x. record x { human = filled strays x.human })
        (insert_or_ignore (blank_device now mac) devices) (λ x. refl),
    eq_iff mac m,
  )

  fold_into-absent :
      (now : ℕ) (mac : String) (strays devices : List Device)
      → mac ≢ m
      → find_key Device.mac_address m devices ≡ none
      → find_key Device.mac_address m (fold_into now mac strays devices) ≡ none
  unfolding fold_into
  fold_into-absent now mac strays devices apart e =
      elim (Bool-cases (
        any (λ column. is_filled column (human_of (find_key Device.mac_address mac devices)) strays)
          human_cols)) [
            | inr p ↦ rw (fold_into, p) e
            | inl p ↦ rw (fold_into, p) (filled_absent now mac strays devices apart e)
          ]

  clean_group-absent :
      (now : ℕ) (macs : List String) (devices : List Device)
      → canonical macs ≢ m
      → find_key Device.mac_address m devices ≡ none
      → find_key Device.mac_address m (clean_group now macs devices) ≡ none
  unfolding clean_group
  clean_group-absent now macs devices apart e =
      let strays = select (λ (x : Device). elem x.mac_address (others macs)) devices in
      ground (
        arith,
        delete-absent Device.mac_address m (λ (d : Device). elem d.mac_address (others macs))
            (fold_into now (canonical macs) strays devices)
            (fold_into-absent now (canonical macs) strays devices apart e),
      )

  clean_group-removes :
      (now : ℕ) (macs : List String) (devices : List Device)
      → elem m (others macs) ≡ true
      → find_key Device.mac_address m (clean_group now macs devices) ≡ none
  unfolding clean_group
  clean_group-removes now macs devices member =
      let strays = select (λ (x : Device). elem x.mac_address (others macs)) devices in
      ground (
        arith,
        deleted (others macs) (fold_into now (canonical macs) strays devices) member,
        not_selected (others macs) devices member,
      )

  clean_groups-absent :
      (now : ℕ) (groups : Dict Key (List String)) (devices : List Device)
      → All (λ (g : Key × List String). canonical g.1 ≢ m) groups
      → find_key Device.mac_address m devices ≡ none
      → find_key Device.mac_address m (clean_groups now groups devices) ≡ none
  unfolding clean_groups
  clean_groups-absent now [] devices low e = e
  clean_groups-absent now ((key, macs) ∷ groups) devices low e =
      clean_groups-absent now groups (clean_group now macs devices) low.1
        (clean_group-absent now macs devices low.0 e)

  clean_groups-removes :
      (now : ℕ) (groups : Dict Key (List String)) (devices : List Device)
      → All (λ (g : Key × List String). canonical g.1 ≢ m) groups
      → any (λ (g : Key × List String). elem m (others g.1)) groups ≡ true
      → find_key Device.mac_address m (clean_groups now groups devices) ≡ none
  unfolding clean_groups
  clean_groups-removes now [] devices low e = absurd (ground arith)
  clean_groups-removes now ((key, macs) ∷ groups) devices low e =
      elim (Bool-cases (elem m (others macs))) [
        | inl p ↦
            clean_groups-absent now groups (clean_group now macs devices) low.1
              (clean_group-removes now macs devices p)
        | inr p ↦
            clean_groups-removes now groups (clean_group now macs devices) low.1 (ground arith)
      ]

  sync_all-absent :
      (site : Site) (now : ℕ) (by_mac : Dict String Snapshot) (devices : List Device)
      → All (λ (e : String × Snapshot). e.0 ≢ m) by_mac
      → find_key Device.mac_address m devices ≡ none
      → find_key Device.mac_address m (sync_all site now by_mac devices) ≡ none
  unfolding sync_all
  sync_all-absent site now [] devices apart e = e
  sync_all-absent site now ((mac, s) ∷ by_mac) devices apart e =
      sync_all-absent site now by_mac
        (upsert (discovered site now mac s) (synced site now s) devices) apart.1
        (upsert-absent (discovered site now mac s) (synced site now s) devices
          (λ x. (set_site-facts site _).1) (λ q. apart.0 (sym (set_site-facts site _).1 ∙ q)) e)

-- After the sync a device has one row: where addresses are unique among the interfaces, an address
-- that shares its node with others and is not the lowest of them has no row.
pub run_inventory_snapshot_sync_one :
    (site : Site) (now : ℕ) (net : Net) (devices : List Device) (m : String)
    → IsPrimary Interface.mac_address net.l2_interfaces
    → any
        (λ (g : Key × List String). elem m (others g.1))
        (group_macs (joined net.l2_interfaces net) [])
      ≡ true
    → find_key Device.mac_address m (run_inventory_snapshot_sync site now net devices).1 ≡ none
unfolding run_inventory_snapshot_sync
run_inventory_snapshot_sync_one site now net devices m primary member =
    let rows = joined net.l2_interfaces net in
    let groups = group_macs rows [] in
    let own = owner_of m (find_key Interface.mac_address m net.l2_interfaces) in
    let (grouped, unique) =
      group_macs-Group m own rows []
        (joined-IsOwn m own net.l2_interfaces net (owned m net.l2_interfaces _ refl primary)) tt
        tt in
    let low = not_canonical m own groups grouped unique member in
    sync_all-absent m site now (by_canonical groups (best_data rows []) [])
      (clean_groups now groups devices)
      (by_canonical-apart m groups (best_data rows []) [] low
        (best_data-there groups rows [] (all-IsThere rows []) tt) tt)
      (clean_groups-removes m now groups devices low member)
