-- ===== src/Inference/Orphans/Gone.antt =====
-- When a node has gone, said without the sweep's loop (src/engine/inference_engine.py:
-- run_orphan_node_sweep).
use mathlib.Core.Option
use net_lanvas.Base.{
  ℕ, ◌+◌, ◌*◌, String, Option, none, some, List, [], ◌∷◌, Bool, false, not, leb, ◌&&◌, ◌||◌,
  eq_String, ◌==◌, is_some, any, map, ◌≡◌, refl, arith,
}
use net_lanvas.Base.Table.{find, select}
use net_lanvas.Base.Keyed.{find_key}
use net_lanvas.Net.{Interface, Binding, Location, DeviceState, Net}
use net_lanvas.Unification.{of_node}
use net_lanvas.Inference.{trace, is_due, newest}

-- a binding or a location has the address
abbrev pub is_located : Net → String → Bool
is_located net m =
    any (λ (b : Binding). b.mac_address == m) net.l3_bindings
    || any (λ (l : Location). l.mac_address == m) net.endpoint_locations

-- when the address was last seen, where that is recorded
abbrev pub last_seen_of : Net → String → Option ℕ
last_seen_of net m =
    Option.map DeviceState.last_seen (find_key DeviceState.mac_address m net.device_state)

-- not more than twelve hours ago
abbrev pub is_recent : ℕ → Option ℕ → Bool
is_recent now none = false
is_recent now (some t) = leb now (t + 12 * 3600)

abbrev pub are_gone : ℕ → Net → List String → Bool
are_gone now net macs =
    not (any (is_located net) macs)
    && any (λ m. is_some (last_seen_of net m)) macs
    && not (any (λ m. is_recent now (last_seen_of net m)) macs)

-- The node's interfaces that are not virtual are nowhere, and the times that are recorded of them,
-- of which there is one at least, are all more than twelve hours past.
abbrev pub has_gone : ℕ → ℕ → Net → Bool
has_gone now id net = are_gone now net (
    map Interface.mac_address
      (select (λ (i : Interface). of_node id i && not i.is_virtual) net.l2_interfaces))

is_some-find_key {ℓ} :
    {A : Type ℓ}
    → (key : A → String) (m : String) (rows : List A)
    → is_some (find_key key m rows) ≡ any (λ r. key r == m) rows
unfolding find_key find
is_some-find_key key m [] = refl
is_some-find_key key m (r ∷ rows) = ground (arith, is_some-find_key key m rows)

newest-is_some :
    (t : Option ℕ) (row : Option DeviceState)
    → is_some (newest t row) ≡ (is_some t || is_some (Option.map DeviceState.last_seen row))
newest-is_some none none = refl
newest-is_some (some t) none = refl
newest-is_some none (some row) = refl
newest-is_some (some t) (some row) = ground arith

newest-is_recent :
    (now : ℕ) (t : Option ℕ) (row : Option DeviceState)
    → is_recent now (newest t row)
      ≡ (is_recent now t || is_recent now (Option.map DeviceState.last_seen row))
newest-is_recent now none none = refl
newest-is_recent now (some t) none = ground arith
newest-is_recent now none (some row) = refl
newest-is_recent now (some t) (some row) = ground arith

module _ (now : ℕ) (net : Net) where
  -- `t` is what the loop has found before
  trace-from :
      (macs : List String) (t : Option ℕ)
      → is_due now (trace macs t net) ≡ (
          not (any (is_located net) macs)
          && (is_some t || any (λ m. is_some (last_seen_of net m)) macs)
          && not (is_recent now t || any (λ m. is_recent now (last_seen_of net m)) macs))
  unfolding trace
  trace-from [] none = refl
  trace-from [] (some t) = ground arith
  trace-from (m ∷ macs) t =
      let row = find_key DeviceState.mac_address m net.device_state in
      ground (
        arith,
        is_some-find_key Binding.mac_address m net.l3_bindings,
        is_some-find_key Location.mac_address m net.endpoint_locations,
        newest-is_some t row,
        newest-is_recent now t row,
        trace-from macs (newest t row),
      )

  -- the loop over a node's addresses decides whether they are gone
  pub trace-are_gone :
      (macs : List String) → is_due now (trace macs none net) ≡ are_gone now net macs
  trace-are_gone macs = trace-from macs none
