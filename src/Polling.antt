-- ===== src/Polling.antt =====
-- The choice of one address per node to poll (src/engine/polling_targets.py).
pub mod Newest
pub mod Recent
pub mod Freshest
pub mod Targets
mod Tests
use net_lanvas.Base.{
  ℕ, String, Option, none, some, List, [], ◌∷◌, ◌++◌, Bool, true, false, not, ◌&&◌, leb, nat_eq,
  elem, map, if◌then◌else◌, eq_ℕ, eq_String, ◌==◌, is_empty,
}
use net_lanvas.Base.Table.{select}
use net_lanvas.Base.Dict.{Dict, get, get_or, put}
use net_lanvas.Base.Text.{append, split_on}
use net_lanvas.Net.{Node, Interface, Binding, Net}

-- What CREDENTIAL_CACHE holds for an address: None, "UNRESPONSIVE", or a credential.
pub data Cached : Type 0 where
  nothing unresponsive credential : Cached

abbrev pub works : Option Cached → Bool
works (some credential) = true
works _ = false

-- a row of the query, with the column it is ordered by
pub record Row : Type 0 where
  pub node_id : ℕ
  pub ip_address : String
  pub last_seen : ℕ

abbrev pub rows_of_interface : ℕ → Interface → List Binding → List Row
rows_of_interface node_id i bindings =
    map
      (λ (b : Binding). record {
        node_id = node_id;
        ip_address = b.ip_address;
        last_seen = b.last_seen;
      })
      (select (λ (b : Binding). b.mac_address == i.mac_address) bindings)

abbrev pub is_node_id : ℕ → Option ℕ → Bool
is_node_id id none = false
is_node_id id (some k) = nat_eq k id

abbrev pub rows_of_interfaces : ℕ → List Interface → List Binding → List Row
rows_of_interfaces node_id [] bindings = []
rows_of_interfaces node_id (i ∷ rest) bindings =
    let more = rows_of_interfaces node_id rest bindings in
    if is_node_id node_id i.node_id then rows_of_interface node_id i bindings ++ more else more

abbrev pub has_type : List String → Option String → Bool
has_type device_types none = false
has_type device_types (some t) = elem t device_types

-- logical_nodes JOIN l2_interfaces JOIN l3_bindings WHERE device_type IN (...)
abbrev pub joined : List String → List Node → List Interface → List Binding → List Row
joined device_types [] interfaces bindings = []
joined device_types (n ∷ nodes) interfaces bindings =
    let more = joined device_types nodes interfaces bindings in
    if has_type device_types n.device_type
    then rows_of_interfaces n.id interfaces bindings ++ more
    else more

abbrev pub insert_recent : Row → List Row → List Row
insert_recent r [] = r ∷ []
insert_recent r (q ∷ rows) =
    let rest = insert_recent r rows in
    if leb q.last_seen r.last_seen then r ∷ q ∷ rows else q ∷ rest

-- ORDER BY last_seen DESC, rows of one second in the order of the join
abbrev pub most_recent_first : List Row → List Row
most_recent_first [] = []
most_recent_first (r ∷ rows) = insert_recent r (most_recent_first rows)

-- ips_by_node.setdefault(node_id, []).append(ip), row by row
abbrev pub group : List Row → Dict ℕ (List String) → Dict ℕ (List String)
group [] ips_by_node = ips_by_node
group (r ∷ rows) ips_by_node =
    group rows (put r.node_id (get_or r.node_id [] ips_by_node ++ r.ip_address ∷ []) ips_by_node)

abbrev pub subnet_of_parts : String → List String → String
subnet_of_parts ip (a ∷ b ∷ c ∷ d ∷ []) =
    append a (append "." (append b (append "." (append c ".0/24"))))
subnet_of_parts ip _ = ip

unfoldable pub subnet : String → String
subnet ip = subnet_of_parts ip (split_on b'.' ip)

-- The first address of each subnet, in order; `seen` are the keys of best_by_subnet.
unfoldable pub newest_by_subnet : List String → List String → List String
newest_by_subnet seen [] = []
newest_by_subnet seen (ip ∷ ips) =
    let dropped = newest_by_subnet seen ips in
    let rest = newest_by_subnet (subnet ip ∷ seen) ips in
    if elem (subnet ip) seen then dropped else ip ∷ rest

-- the first candidate with a working credential
unfoldable pub first_working : Dict String Cached → List String → Option String
first_working cache [] = none
first_working cache (ip ∷ ips) =
    let rest = first_working cache ips in if works (get ip cache) then some ip else rest

-- candidates[0]; a group is never empty
abbrev pub head : List String → Option String
head [] = none
head (ip ∷ ips) = some ip

abbrev pub choose : Option String → List String → Option String
choose none candidates = head candidates
choose (some ip) candidates = some ip

-- One node's target.
unfoldable pub representative : Dict String Cached → List String → Option String
representative cache ips =
    let candidates = newest_by_subnet [] ips in choose (first_working cache candidates) candidates

abbrev pub add_target : Option String → List String → List String
add_target none targets = targets
add_target (some ip) targets = ip ∷ targets

unfoldable pub targets_of : Dict String Cached → Dict ℕ (List String) → List String
targets_of cache [] = []
targets_of cache ((node_id, ips) ∷ rest) =
    add_target (representative cache ips) (targets_of cache rest)

-- `credential_cache=None` is the empty dictionary, which the code treats alike.
unfoldable pub get_representative_targets : List String → Dict String Cached → Net → List String
get_representative_targets device_types cache net =
    if is_empty device_types
    then []
    else targets_of cache (
        group
          (most_recent_first
            (joined device_types net.logical_nodes net.l2_interfaces net.l3_bindings))
          [])
