-- ===== src/Inference/Orphans.antt =====
-- Which nodes the sweep deletes (src/engine/inference_engine.py: run_orphan_node_sweep).
pub mod Gone
pub mod Start
use net_lanvas.Base.{
  ℕ, String, Option, none, some, List, [], ◌∷◌, Bool, true, false, not, ltb, nat_eq, ◌&&◌, ◌||◌,
  if◌then◌else◌, eq_ℕ, eq_String, ◌==◌, is_some, is_empty, map, elem, ◌≡◌, refl, ap, ◌∙◌, arith,
  All, Bool-cases, Option-cases, inl, inr, eq_iff, nat_eq_iff,
}
use net_lanvas.Base.Table.{find, select, delete, All-delete}
use net_lanvas.Base.Keyed.{
  find_key, find_key-delete, find_key-delete_key, delete_key, IsPrimary, IsPrimary-unique,
}
use net_lanvas.Net.{Node, Interface, Binding, Location, DeviceState, Net}
use net_lanvas.Unification.{of_node, is_id, delete_node}
use net_lanvas.Inference.{
  macs_of, trace, is_due, nodes_with_macs, sweep_node, sweep, run_orphan_node_sweep, newest,
}

-- Every interface with the address is the node's.
abbrev pub Owned : ℕ → String → List Interface → Type 0
Owned j m xs = All (λ (i : Interface). i.mac_address ≡ m → of_node j i ≡ true) xs

of_node-apart : (j k : ℕ) (o : Option ℕ) → nat_eq j k ≡ false → is_id j o ≡ true → is_id k o ≡ false
of_node-apart j k none apart h = refl
of_node-apart j k (some n) apart h = ground (arith, nat_eq_iff n j)

elem-apart :
    (j k : ℕ) (m : String) (xs : List Interface)
    → nat_eq j k ≡ false
    → Owned j m xs
    → elem m (map Interface.mac_address (select (of_node k) xs)) ≡ false
unfolding select
elem-apart j k m [] apart h = refl
elem-apart j k m (i ∷ xs) apart (own, h) = ground (
  arith,
  eq_iff m i.mac_address,
  own,
  of_node-apart j k i.node_id apart,
  elem-apart j k m xs apart h,
)

-- What the sweep reads of an address of the node `j` is as it was in `before`.
pub record Keeps (before : Net) (j : ℕ) (m : String) (net : Net) : Type 0 where
  pub owned : Owned j m net.l2_interfaces
  pub bindings :
      find_key Binding.mac_address m net.l3_bindings
      ≡ find_key Binding.mac_address m before.l3_bindings
  pub locations :
      find_key Location.mac_address m net.endpoint_locations
      ≡ find_key Location.mac_address m before.endpoint_locations
  pub state :
      find_key DeviceState.mac_address m net.device_state
      ≡ find_key DeviceState.mac_address m before.device_state

module _ (before : Net) where
  delete_node-Keeps :
      (k j : ℕ) (m : String) (net : Net)
      → nat_eq j k ≡ false
      → Keeps before j m net
      → Keeps before j m (delete_node k net)
  unfolding delete_node
  delete_node-Keeps k j m net apart h =
      let spared = elem-apart j k m net.l2_interfaces apart h.owned in
      record {
        owned = All-delete _ (of_node k) net.l2_interfaces h.owned;
        bindings =
            find_key-delete Binding.mac_address m
              (λ (b : Binding).
                elem b.mac_address
                  (map Interface.mac_address (select (of_node k) net.l2_interfaces)))
              net.l3_bindings (λ x e. rw e spared)
            ∙ h.bindings;
        locations = h.locations;
        state =
            find_key-delete DeviceState.mac_address m
              (λ (r : DeviceState).
                elem r.mac_address
                  (map Interface.mac_address (select (of_node k) net.l2_interfaces)))
              net.device_state (λ x e. rw e spared)
            ∙ h.state;
      }

  trace-Keeps :
      (j : ℕ) (macs : List String) (t : Option ℕ) (net : Net)
      → All (λ m. Keeps before j m net) macs
      → trace macs t net ≡ trace macs t before
  unfolding trace
  trace-Keeps j [] t net h = refl
  trace-Keeps j (m ∷ macs) t net (h, hs) = ground (
    arith,
    h.bindings,
    h.locations,
    h.state,
    trace-Keeps j macs (newest t (find_key DeviceState.mac_address m before.device_state)) net hs,
  )

abbrev pub Entry : Type 0
Entry = ℕ × List String

abbrev pub entry_id : Entry → ℕ
entry_id e = e.0

-- the row of a node with the given entry after the sweep
abbrev pub verdict : ℕ → Net → Option Entry → Option Node → Option Node
verdict now before none row = row
verdict now before (some e) row = if is_due now (trace e.1 none before) then none else row

module _ (now : ℕ) (before : Net) where
  -- The sweep is to read the entries in `net` as they were in `before`.
  abbrev pub Ready : Net → List Entry → Type 0
  Ready net entries = All (λ e. All (λ m. Keeps before e.0 m net) e.1) entries

  All-delete_node :
      (k j : ℕ) (net : Net) (macs : List String)
      → nat_eq j k ≡ false
      → All (λ m. Keeps before j m net) macs
      → All (λ m. Keeps before j m (delete_node k net)) macs
  All-delete_node k j net [] apart h = tt
  All-delete_node k j net (m ∷ macs) apart (h, hs) =
      (delete_node-Keeps before k j m net apart h, All-delete_node k j net macs apart hs)

  Ready-delete_node :
      (k : ℕ) (net : Net) (entries : List Entry)
      → find_key entry_id k entries ≡ none
      → Ready net entries
      → Ready (delete_node k net) entries
  unfolding find_key find
  Ready-delete_node k net [] absent h = tt
  Ready-delete_node k net (e ∷ entries) absent (h, hs) = elim (Bool-cases (nat_eq e.0 k)) [
    | inl p ↦ absurd (ground arith)
    | inr p ↦ (All-delete_node k e.0 net e.1 p h, Ready-delete_node k net entries (ground arith) hs)
  ]

  sweep_node-row :
      (id k : ℕ) (macs : List String) (net : Net)
      → All (λ m. Keeps before k m net) macs
      → find_key Node.id id (sweep_node now k macs net).logical_nodes ≡ (
          if nat_eq k id && is_due now (trace macs none before)
          then none
          else find_key Node.id id net.logical_nodes)
  unfolding delete_node
  sweep_node-row id k macs net h = ground (
    arith,
    trace-Keeps before k macs none net h,
    find_key-delete_key Node.id id k net.logical_nodes,
  )

  sweep_node-Ready :
      (k : ℕ) (macs : List String) (net : Net) (entries : List Entry)
      → find_key entry_id k entries ≡ none
      → Ready net entries
      → Ready (sweep_node now k macs net) entries
  sweep_node-Ready k macs net entries absent h =
      elim (Bool-cases (is_due now (trace macs none net))) [
        | inl p ↦ rw p (Ready-delete_node k net entries absent h)
        | inr p ↦ rw p h
      ]

  pub sweep-row :
      (id : ℕ) (entries : List Entry) (net : Net)
      → IsPrimary entry_id entries
      → Ready net entries
      → find_key Node.id id (sweep now entries net).logical_nodes
        ≡ verdict now before (find_key entry_id id entries) (find_key Node.id id net.logical_nodes)
  unfolding sweep find_key find
  sweep-row id [] net u h = refl
  sweep-row id ((k, macs) ∷ entries) net (absent, u) (h, hs) =
      let rest =
        sweep-row id entries (sweep_node now k macs net) u
          (sweep_node-Ready k macs net entries absent hs) in
      let step = sweep_node-row id k macs net h in
      elim (Bool-cases (nat_eq k id)) [
        | inl p ↦
            let same : k ≡ id = ground (arith, nat_eq_iff k id) in
            let gone : find_key entry_id id entries ≡ none = rw (← same) absent in
            rw p (
              rest
              ∙ ap
                  (λ o.
                    verdict now before o
                      (find_key Node.id id (sweep_node now k macs net).logical_nodes))
                  gone
              ∙ (rw p at step))
        | inr p ↦
            rw p (rest ∙ ap (verdict now before (find_key entry_id id entries)) (rw p at step))
      ]
