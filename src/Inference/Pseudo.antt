-- ===== src/Inference/Pseudo.antt =====
-- What the two inferences share: the rows of a pseudo device (src/engine/inference_engine.py).
use net_lanvas.Base.{
  ℕ, ◌+◌, String, Option, none, some, [], ◌∷◌, ◌++◌, Bool, true, ◌&&◌, ltb, map, if◌then◌else◌,
  eq_ℕ, eq_String, is_some,
}
use net_lanvas.Base.Keyed.{find_key, update_key, delete_key}
use net_lanvas.Base.Text.{codes}
use net_lanvas.Net.{Interface, Binding, Net}
use net_lanvas.Unification.{delete_node}
use net_lanvas.Unification.Classify.{is_prefix, ascii_lower}
use net_lanvas.Unification.Consolidation.{delete_interface}

abbrev pub hysteresis_seconds : ℕ
hysteresis_seconds = 86400

-- text LIKE 'prefix%', for a prefix with no capital letter
abbrev pub like_prefix : String → String → Bool
like_prefix prefix text = is_prefix (codes prefix) (map ascii_lower (codes text))

-- a pseudo device that was last seen long ago
abbrev pub is_expired : String → ℕ → Binding → Bool
is_expired prefix now b =
    like_prefix prefix b.mac_address && ltb (b.last_seen + hysteresis_seconds) now

abbrev pub node_at : String → Net → Option ℕ
node_at mac net = elim (find_key Interface.mac_address mac net.l2_interfaces) [
  | none ↦ none
  | some i ↦ i.node_id
]

-- the three deletes
abbrev pub remove : String → String → ℕ → Net → Net
remove mac ip id net = delete_node id (
    delete_interface mac
      (record net { l3_bindings = delete_key Binding.ip_address ip net.l3_bindings }))

abbrev pub pseudo_interface : String → ℕ → String → Interface
pseudo_interface mac id vendor = record {
  mac_address = mac;
  node_id = some id;
  vendor = some vendor;
  is_virtual = true;
  category = none;
  market_segment = none;
}

-- INSERT ... ON CONFLICT(ip_address) DO UPDATE
unfoldable pub bind : String → String → String → ℕ → Net → Net
bind ip mac source now net = record net {
  l3_bindings =
      if is_some (find_key Binding.ip_address ip net.l3_bindings)
      then update_key Binding.ip_address ip (λ b. record b { mac_address = mac; last_seen = now })
          net.l3_bindings
      else net.l3_bindings
        ++ record {
          ip_address = ip;
          mac_address = mac;
          discovery_source = source;
          http_header = none;
          last_seen = now;
        }
          ∷ [];
}
