-- ===== src/Unification/Snapshot.antt =====
-- Every discovered device is kept in inventory.db (src/engine/unification.py:
-- run_inventory_snapshot_sync). Queries give rows in the order of their first table.
pub mod Kept
pub mod Groups
pub mod One
pub mod Pinned
mod Tests
use net_lanvas.Base.{
  ℕ, String, Option, none, some, List, [], ◌∷◌, ◌++◌, Bool, true, false, not, ◌&&◌, ◌||◌, ltb,
  nat_eq, elem, any, map, if◌then◌else◌, eq_ℕ, eq_String, Eq, ◌==◌, is_empty, length, ◌≡◌, ◌↔◌,
  refl, arith, eq_iff, nat_eq_iff,
}
use net_lanvas.Base.Table.{select, delete}
use net_lanvas.Base.Keyed.{find_key, update_key, delete_key}
use net_lanvas.Base.Dict.{Dict, get, get_or, put}
use net_lanvas.Base.Text.{is_blank}
use net_lanvas.Net.{Node, Interface, Binding, Net}
use net_lanvas.Inventory.{
  Human, Snapshot, Device, no_human, blank_device, is_given, upsert, insert_or_ignore,
}
use Prim.Native.Char.{code}

-- s < t, by code points
abbrev pub text_lt : String → String → Bool
text_lt s String.[] = false
text_lt String.[] (String.◌∷◌ d t) = true
text_lt (String.◌∷◌ c s) (String.◌∷◌ d t) =
    ltb (code c) (code d) || (nat_eq (code c) (code d) && text_lt s t)

-- min(mac, *macs)
unfoldable pub min_mac : String → List String → String
min_mac mac [] = mac
min_mac mac (m ∷ macs) = min_mac (if text_lt m mac then m else mac) macs

-- min(macs), of a list that is not empty
abbrev pub canonical : List String → String
canonical [] = ""
canonical (mac ∷ macs) = min_mac mac macs

-- the key of a group: the node, or the address of an interface with no node
pub data Key : Type 0 where
  node : ℕ → Key
  ghost : String → Key

abbrev pub key_eq : Key → Key → Bool
key_eq (node j) (node k) = nat_eq j k
key_eq (ghost s) (ghost t) = s == t
key_eq _ _ = false

pub key_eq_iff : (x y : Key) → (key_eq x y ≡ true) ↔ (x ≡ y)
key_eq_iff (node j) (node k) = ground (arith, nat_eq_iff j k)
key_eq_iff (node j) (ghost t) = ground arith
key_eq_iff (ghost s) (node k) = ground arith
key_eq_iff (ghost s) (ghost t) = (λ h. ground (arith, eq_iff s t), λ h. ground (arith, eq_iff s t))

instance abbrev pub eq_Key : Eq Key
eq_Key = record { beq = key_eq; beq_iff = key_eq_iff }

-- a row of the first query: an address, its node and what is known of it
abbrev pub Row : Type 0
Row = String × Option ℕ × Snapshot

abbrev pub node_of : Option ℕ → List Node → Option Node
node_of none nodes = none
node_of (some id) nodes = find_key Node.id id nodes

abbrev pub hostname_of : Option Node → Option String
hostname_of none = none
hostname_of (some n) = n.hostname

abbrev pub device_type_of : Option Node → Option String
device_type_of none = none
device_type_of (some n) = n.device_type

abbrev pub os_family_of : Option Node → Option String
os_family_of none = none
os_family_of (some n) = n.os_family

abbrev pub seen : Interface → Option Node → Option String → Option String → Row
seen i n ip http_header = (
  i.mac_address,
  i.node_id,
  record {
    hostname = hostname_of n;
    vendor = i.vendor;
    device_type = device_type_of n;
    ip = ip;
    os_family = os_family_of n;
    category = i.category;
    market_segment = i.market_segment;
    http_header = http_header;
  },
)

-- the LEFT JOIN with l3_bindings
abbrev pub with_bindings : Interface → Option Node → List Binding → List Row
with_bindings i n [] = seen i n none none ∷ []
with_bindings i n (b ∷ bindings) =
    map (λ (x : Binding). seen i n (some x.ip_address) x.http_header) (b ∷ bindings)

unfoldable pub joined : List Interface → Net → List Row
joined [] net = []
joined (i ∷ interfaces) net =
    with_bindings i (node_of i.node_id net.logical_nodes)
      (select (λ (b : Binding). b.mac_address == i.mac_address) net.l3_bindings)
    ++ joined interfaces net

abbrev pub key_of : String → Option ℕ → Key
key_of mac none = ghost mac
key_of mac (some id) = node id

-- macs_by_group.setdefault(key, []).append(mac)
unfoldable pub group_macs : List Row → Dict Key (List String) → Dict Key (List String)
group_macs [] groups = groups
group_macs ((mac, node_id, _) ∷ rows) groups =
    let key = key_of mac node_id in
    group_macs rows (put key (get_or key [] groups ++ mac ∷ []) groups)

abbrev pub is_better : Snapshot → Option Snapshot → Bool
is_better s none = true
is_better s (some existing) = is_given s.ip && not (is_given existing.ip)

unfoldable pub best_data : List Row → Dict Key Snapshot → Dict Key Snapshot
best_data [] best = best
best_data ((mac, node_id, s) ∷ rows) best =
    let key = key_of mac node_id in
    best_data rows (if is_better s (get key best) then put key s best else best)

unfoldable pub by_canonical :
    Dict Key (List String) → Dict Key Snapshot → Dict String Snapshot → Dict String Snapshot
by_canonical groups [] by_mac = by_mac
by_canonical groups ((key, s) ∷ best) by_mac =
    by_canonical groups best (put (canonical (get_or key [] groups)) s by_mac)

-- the first value that is given among the strays, for one column
unfoldable pub first_given : (Human → Option String) → List Device → Option String
first_given column [] = none
first_given column (d ∷ strays) =
    if is_given (column d.human) then column d.human else first_given column strays

-- fill_cols has the column
abbrev pub is_filled : (Human → Option String) → Human → List Device → Bool
is_filled column h strays = not (is_given (column h)) && is_given (first_given column strays)

abbrev pub fill : (Human → Option String) → List Device → Human → Option String
fill column strays h = if is_filled column h strays then first_given column strays else column h

unfoldable pub filled : List Device → Human → Human
filled strays h = record {
  user_given_name = fill Human.user_given_name strays h;
  confirmed_device_type = fill Human.confirmed_device_type strays h;
  notes = fill Human.notes strays h;
  location = fill Human.location strays h;
  asset_tag = fill Human.asset_tag strays h;
  serial_number = fill Human.serial_number strays h;
  model = fill Human.model strays h;
  purchase_date = fill Human.purchase_date strays h;
  warranty_expiry = fill Human.warranty_expiry strays h;
}

abbrev pub human_cols : List (Human → Option String)
human_cols =
    Human.user_given_name ∷ Human.confirmed_device_type ∷ Human.notes ∷ Human.location
    ∷ Human.asset_tag ∷ Human.serial_number ∷ Human.model ∷ Human.purchase_date
    ∷ Human.warranty_expiry ∷ []

abbrev pub human_of : Option Device → Human
human_of none = no_human
human_of (some d) = d.human

-- the writes to the canonical row, where there is a column to fill
unfoldable pub fold_into : ℕ → String → List Device → List Device → List Device
fold_into now mac strays devices =
    if any (λ column. is_filled column (human_of (find_key Device.mac_address mac devices)) strays)
      human_cols
    then update_key Device.mac_address mac (λ d. record d { human = filled strays d.human })
        (insert_or_ignore (blank_device now mac) devices)
    else devices

abbrev pub others : List String → List String
others macs = select (λ mac. not (mac == canonical macs)) macs

unfoldable pub clean_group : ℕ → List String → List Device → List Device
clean_group now macs devices =
    let strays = select (λ (d : Device). elem d.mac_address (others macs)) devices in
    if is_empty strays
    then devices
    else delete (λ (d : Device). elem d.mac_address (others macs))
        (fold_into now (canonical macs) strays devices)

-- A group of one address has no others, so that it is passed over as the code does.
unfoldable pub clean_groups : ℕ → Dict Key (List String) → List Device → List Device
clean_groups now [] devices = devices
clean_groups now ((_, macs) ∷ groups) devices =
    clean_groups now groups (clean_group now macs devices)

-- the site columns, which are left out where the sync is off
abbrev pub Site : Type 0
Site = Option (Option String × Option String)

abbrev pub blank_to_none : Option String → Option String
blank_to_none text = if is_given text then text else none

-- The arguments are the settings SYNC key, SITE_STAMP and INSTANCE_ID.
abbrev pub site_of : Option String → Option String → Option String → Site
site_of wrapped stamp instance_id =
    if is_given wrapped then some (blank_to_none stamp, instance_id) else none

abbrev pub set_site : Site → Device → Device
set_site none d = d
set_site (some (stamp, instance_id)) d = record d { site_stamp = stamp; instance_id = instance_id }

-- CASE WHEN c IS NULL OR c = '' THEN excluded.c ELSE c END
abbrev pub backfill : Option String → Option String → Option String
backfill old new = if is_given old then old else new

abbrev pub synced : Site → ℕ → Snapshot → Device → Device
synced site now s d = set_site site (record d {
  human = record d.human {
    user_given_name = backfill d.human.user_given_name s.hostname;
    confirmed_device_type = backfill d.human.confirmed_device_type s.device_type;
  };
  last_known = s;
  last_synced = some now;
})

abbrev pub discovered : Site → ℕ → String → Snapshot → Device
discovered site now mac s = set_site site (record (blank_device now mac) {
  human = record no_human { user_given_name = s.hostname; confirmed_device_type = s.device_type };
  last_known = s;
  first_discovered = some now;
  last_synced = some now;
})

unfoldable pub sync_all : Site → ℕ → Dict String Snapshot → List Device → List Device
sync_all site now [] devices = devices
sync_all site now ((mac, s) ∷ by_mac) devices =
    sync_all site now by_mac (upsert (discovered site now mac s) (synced site now s) devices)

-- what is written under which address
abbrev pub by_mac_of : Net → Dict String Snapshot
by_mac_of net =
    let rows = joined net.l2_interfaces net in
    by_canonical (group_macs rows []) (best_data rows []) []

unfoldable pub run_inventory_snapshot_sync : Site → ℕ → Net → List Device → ℕ × List Device
run_inventory_snapshot_sync site now net devices =
    let groups = group_macs (joined net.l2_interfaces net) [] in
    (length (by_mac_of net), sync_all site now (by_mac_of net) (clean_groups now groups devices))
