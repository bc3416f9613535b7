-- ===== src/Unification/Classify.antt =====
-- The passes that read types and names off the tables (src/engine/unification.py:
-- enforce_db_triggers, run_classification_pass, run_inventory_overlay_pass).
use net_lanvas.Base.{
  ℕ, ◌+◌, String, Option, none, some, List, [], ◌∷◌, Bool, true, false, not, ◌&&◌, ◌||◌, leb,
  nat_eq, elem, any, map, if◌then◌else◌, eq_ℕ, eq_String, ◌==◌, is_some,
}
use net_lanvas.Base.Table.{select, update, count}
use net_lanvas.Base.Text.{starts_with, is_blank, codes}
use net_lanvas.Net.{Node, Interface, Binding, Fingerprint, Link, Net}
use net_lanvas.Hostname.{is_ignored, is_text}
use net_lanvas.Unification.{is_id, of_node, node_of_mac}

abbrev pub is_prefix : List ℕ → List ℕ → Bool
is_prefix [] ys = true
is_prefix (x ∷ xs) [] = false
is_prefix (x ∷ xs) (y ∷ ys) = nat_eq x y && is_prefix xs ys

abbrev pub has_part : List ℕ → List ℕ → Bool
has_part part [] = is_prefix part []
has_part part (y ∷ ys) = is_prefix part (y ∷ ys) || has_part part ys

-- `part in text`
unfoldable pub contains : String → String → Bool
contains text part = has_part (codes part) (codes text)

-- SQLite's LOWER, which knows the letters of ASCII only
abbrev pub ascii_lower : ℕ → ℕ
ascii_lower k = if leb b'A' k && leb k b'Z' then k + 32 else k

-- text LIKE '%part%'
unfoldable pub like : Option String → String → Bool
like none part = false
like (some text) part = has_part (map ascii_lower (codes part)) (map ascii_lower (codes text))

abbrev pub fingerprint_of_node : Net → ℕ → Fingerprint → Bool
fingerprint_of_node net id f = is_id id (node_of_mac net f.mac_address)

-- the first fingerprint's sysDescr, or the default of COALESCE
abbrev pub core_name : List Fingerprint → Option String
core_name [] = some "Core Infrastructure"
core_name (f ∷ fs) = some (elim f.snmp_sysdescr [ none ↦ "Core Infrastructure" | some text ↦ text ])

-- the UPDATE that enforce_db_triggers runs after it creates the trigger
unfoldable pub enforce_db_triggers : Net → Net
enforce_db_triggers net = record net {
  logical_nodes =
      update
        (λ n.
          is_text "mDNS Node" n.os_family
          && any (λ (f : Fingerprint). is_some f.snmp_sysdescr)
              (select (fingerprint_of_node net n.id) net.device_fingerprints))
        (λ n. record n {
          os_family = some "Hardware OS";
          hostname = core_name (select (fingerprint_of_node net n.id) net.device_fingerprints);
        })
        net.logical_nodes;
}

-- any interface of the node passes
abbrev pub has_interface : Net → ℕ → (Interface → Bool) → Bool
has_interface net id p = any p (select (of_node id) net.l2_interfaces)

abbrev pub is_ap_description : Option String → Bool
is_ap_description sysdescr =
    like sysdescr "access point" || like sysdescr "uap" || like sysdescr "unifi"

-- a fingerprint of the interface reads like an access point
abbrev pub answers_as_ap : Net → Interface → Bool
answers_as_ap net i =
    any (λ (f : Fingerprint). f.mac_address == i.mac_address && is_ap_description f.snmp_sysdescr)
      net.device_fingerprints

-- a binding of the interface passes
abbrev pub is_bound : Net → (Binding → Bool) → Interface → Bool
is_bound net p i = any (λ (b : Binding). b.mac_address == i.mac_address && p b) net.l3_bindings

abbrev pub is_link_end : Net → Binding → Bool
is_link_end net b = any (λ (l : Link). l.local_switch_ip == b.ip_address) net.infrastructure_links

abbrev pub is_docker_address : Binding → Bool
is_docker_address b =
    starts_with b.ip_address "172.17."
    || starts_with b.ip_address "172.18."
    || starts_with b.ip_address "172.19."

-- the types that the second UPDATE leaves alone
abbrev pub settled_types : List String
settled_types =
    "Switch" ∷ "Router" ∷ "Access Point" ∷ "Switch / WAP" ∷ "Docker Host" ∷ "Hypervisor"
    ∷ "Smart Switch" ∷ "Smart Switch (Unverified)" ∷ "Server" ∷ "Printer" ∷ []

-- device_type NOT IN (...), which a NULL does not satisfy
abbrev pub is_none_of : List String → Option String → Bool
is_none_of words none = false
is_none_of words (some word) = not (elem word words)

-- UPDATE logical_nodes SET device_type = ? WHERE p, with its rowcount
abbrev pub retype : String → (Net → Node → Bool) → Net → ℕ × Net
retype device_type p net = (
  count (p net) net.logical_nodes,
  record net {
    logical_nodes =
        update (p net) (λ n. record n { device_type = some device_type }) net.logical_nodes;
  },
)

abbrev pub becomes_ap : Net → Node → Bool
becomes_ap net n =
    is_none_of ("Access Point" ∷ []) n.device_type && has_interface net n.id (answers_as_ap net)

abbrev pub becomes_switch : Net → Node → Bool
becomes_switch net n =
    is_none_of settled_types n.device_type
    && has_interface net n.id (is_bound net (is_link_end net))

abbrev pub becomes_docker : Net → Node → Bool
becomes_docker net n =
    is_none_of ("Docker Host" ∷ []) n.device_type
    && has_interface net n.id (is_bound net is_docker_address)

unfoldable pub run_classification_pass : Net → (ℕ × ℕ × ℕ) × Net
run_classification_pass net =
    let (ap_updates, with_aps) = retype "Access Point" becomes_ap net in
    let (switch_updates, with_switches) = retype "Switch" becomes_switch with_aps in
    let (docker_updates, after) = retype "Docker Host" becomes_docker with_switches in
    ((ap_updates, switch_updates, docker_updates), after)

-- a row of verified_devices in inventory.db; a NULL is blank here, since only truth is tested
pub record Verified : Type 0 where
  pub mac_address : String
  pub user_given_name : String
  pub confirmed_device_type : String

abbrev pub if_given : String → Option String → Option String
if_given word old = if is_blank word then old else some word

-- the UPDATE of one node; it is subject to the trigger where it sets the hostname
abbrev pub overlaid : Verified → Node → Node
overlaid v n = record n {
  hostname = if_given v.user_given_name n.hostname;
  device_type = if_given v.confirmed_device_type n.device_type;
  weld_confidence = 100;
}

abbrev pub is_overlaid : Verified → ℕ → Node → Bool
is_overlaid v id n = nat_eq n.id id && (is_blank v.user_given_name || not (is_ignored n))

unfoldable pub overlay : Verified → ℕ → Net → ℕ × Net
overlay v applied net = elim (node_of_mac net v.mac_address) [
  | none ↦ (applied, net)
  | some id ↦
      if is_blank v.user_given_name && is_blank v.confirmed_device_type then (applied, net) else (
        applied + count (is_overlaid v id) net.logical_nodes,
        record net { logical_nodes = update (is_overlaid v id) (overlaid v) net.logical_nodes },
      )
]

unfoldable pub overlay_all : List Verified → ℕ → Net → ℕ × Net
overlay_all [] applied net = (applied, net)
overlay_all (v ∷ verified) applied net =
    let (applied', net') = overlay v applied net in overlay_all verified applied' net'

-- `none` where inventory.db cannot be read
unfoldable pub run_inventory_overlay_pass : Option (List Verified) → Net → ℕ × Net
run_inventory_overlay_pass none net = (0, net)
run_inventory_overlay_pass (some verified) net = overlay_all verified 0 net
