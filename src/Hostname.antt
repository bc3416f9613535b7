-- ===== src/Hostname.antt =====
-- The priority-aware writer of hostnames (src/engine/hostname_registry.py), on network.db with
-- the trigger protect_core_identity of src/engine/unification.py.
pub mod Priority
pub mod Tests
use net_lanvas.Base.{
  ℕ, ◌+◌, String, Option, none, some, List, [], ◌∷◌, Bool, true, false, not, ◌&&◌, ◌||◌, ltb, leb,
  nat_eq, any, elem, is_some, if◌then◌else◌, eq_ℕ, eq_String, ◌==◌,
}
use net_lanvas.Base.Keyed.{find_key, update_key}
use net_lanvas.Base.Table.{find}
use net_lanvas.Base.Text.{strip, len, any_char, codes, codes_eq, lower, is_blank}
use net_lanvas.Net.{Node, Interface, Binding, Net}
use Prim.Native.Char.{Char, code}

abbrev pub priority_snmp_sysname : ℕ
priority_snmp_sysname = 50

abbrev pub priority_lldp_sysname : ℕ
priority_lldp_sysname = 40

abbrev pub priority_mdns : ℕ
priority_mdns = 30

abbrev pub priority_netbios : ℕ
priority_netbios = 20

abbrev pub priority_dhcp : ℕ
priority_dhcp = 10

abbrev pub priority_fallback : ℕ
priority_fallback = 0

abbrev pub junk_values : List String
junk_values = "" ∷ "unknown device" ∷ "unknown" ∷ "n/a" ∷ "none" ∷ "localhost" ∷ []

abbrev pub max_hostname_length : ℕ
max_hostname_length = 253

-- ord(ch) < 0x20 or ord(ch) == 0x7f
abbrev pub is_control : Char → Bool
is_control ch = ltb (code ch) 0x20 || nat_eq (code ch) 0x7f

abbrev pub is_junk : String → Bool
is_junk v = any (λ junk. codes_eq (lower v) (codes junk)) junk_values

unfoldable pub is_usable_hostname : String → Bool
is_usable_hostname value =
    let v = strip value in
    not (is_blank value)
    && not (is_blank v || is_junk v)
    && not (ltb max_hostname_length (len v))
    && not (any_char is_control v)

abbrev pub protected_types : List String
protected_types = "Router" ∷ "Switch" ∷ "Docker Host" ∷ "Hypervisor" ∷ "Server" ∷ "Printer" ∷ []

abbrev pub is_one_of : List String → Option String → Bool
is_one_of words none = false
is_one_of words (some word) = elem word words

abbrev pub is_text : String → Option String → Bool
is_text word none = false
is_text word (some text) = text == word

-- The trigger drops an update of hostname or os_family that leaves a core node an mDNS node.
unfoldable pub is_ignored : Node → Bool
is_ignored n =
    nat_eq n.weld_confidence 100
    && is_one_of protected_types n.device_type
    && is_text "mDNS Node" n.os_family

-- UPDATE logical_nodes SET hostname = ?, hostname_source_priority = ?, under the trigger
unfoldable pub write_hostname : String → ℕ → Node → Node
write_hostname hostname priority n =
    if is_ignored n
    then n
    else record n { hostname = some (strip hostname); hostname_source_priority = priority }

unfoldable pub set_hostname_by_node_id : ℕ → String → ℕ → Net → Bool × Net
set_hostname_by_node_id node_id hostname priority net =
    if not (is_usable_hostname hostname)
    then (false, net)
    else elim (find_key Node.id node_id net.logical_nodes) [
      | none ↦ (false, net)
      | some row ↦ if ltb priority row.hostname_source_priority then (false, net) else (
        true,
        record net {
          logical_nodes =
              update_key Node.id node_id (write_hostname hostname priority) net.logical_nodes;
        },
      )
    ]

unfoldable pub set_hostname_by_mac : String → String → ℕ → Net → Bool × Net
set_hostname_by_mac mac_address hostname priority net =
    if not (is_usable_hostname hostname)
    then (false, net)
    else elim (find_key Interface.mac_address mac_address net.l2_interfaces) [
      | none ↦ (false, net)
      | some row ↦ elim row.node_id [
        | none ↦ (false, net)
        | some node_id ↦ set_hostname_by_node_id node_id hostname priority net
      ]
    ]

-- the interface of a binding, joined on the MAC address, where it has a node
abbrev pub node_of_binding : Net → Option Binding → Option ℕ
node_of_binding net none = none
node_of_binding net (some b) =
    elim (find_key Interface.mac_address b.mac_address net.l2_interfaces) [
      | none ↦ none
      | some i ↦ i.node_id
    ]

unfoldable pub set_hostname_by_ip : String → String → ℕ → Net → Bool × Net
set_hostname_by_ip ip_address hostname priority net =
    if not (is_usable_hostname hostname)
    then (false, net)
    else elim (node_of_binding net (find_key Binding.ip_address ip_address net.l3_bindings)) [
      | none ↦ (false, net)
      | some node_id ↦ set_hostname_by_node_id node_id hostname priority net
    ]
