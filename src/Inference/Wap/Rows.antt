-- ===== src/Inference/Wap/Rows.antt =====
-- Which nodes the pass writes to, and what (src/engine/inference_engine.py: run_wap_inference).
use net_lanvas.Base.{
  ℕ, ◌≤◌, String, Option, none, some, List, [], ◌∷◌, true, false, nat_eq, elem, eq_ℕ, eq_String,
  ◌≡◌, refl, arith, All, All-append, Bool-cases, inl, inr,
}
use mathlib.Core.Option
use net_lanvas.Base.Table.{All-delete}
use net_lanvas.Base.Dict.{Dict}
use net_lanvas.Base.Keyed.{find_key-update_miss, find_key-append, find_key-delete_key, delete_key}
use net_lanvas.Net.{Node, Interface, Binding, Net}
use net_lanvas.Hostname.{is_text}
use net_lanvas.Hostname.Priority.{find_node}
use net_lanvas.Unification.{delete_node}
use net_lanvas.Unification.Links.{All-update}
use net_lanvas.Unification.Consolidation.{delete_interface}
use net_lanvas.Inference.Pseudo.{bind, node_at}
use net_lanvas.Inference.Wap.{Segment, eq_Segment, SubnetRow, Lookups}
use net_lanvas.Inference.Wap.Pass.{
  Devices, unverified, is_own, refresh, place_node, place, place_all, retire_node, retire,
  retire_all, is_unverified, run_wap_inference, confidence_of, wap_node,
}

module _ (k : ℕ) (n : Node) (settled : is_text unverified n.device_type ≡ false) where
  refresh-row :
      (o : Option ℕ) (confidence : ℕ) (name : String) (net : Net)
      → find_node k net ≡ some n
      → find_node k (refresh o confidence name net) ≡ some n
  refresh-row none confidence name net e = e
  refresh-row (some id) confidence name net e =
      find_key-update_miss Node.id k (is_own id) _ net.logical_nodes (λ x. refl) (ground arith) e

  place_node-row :
      (o : Option Interface) (mac : String) (confidence : ℕ) (name : String) (net : Net)
      → find_node k net ≡ some n
      → find_node k (place_node o mac confidence name net) ≡ some n
  unfolding Option.or_else
  place_node-row none mac confidence name net e = ground (
    arith,
    find_key-append Node.id k net.logical_nodes (wap_node net.next_node_id confidence name ∷ []),
  )
  place_node-row (some i) mac confidence name net e = refresh-row i.node_id confidence name net e

  place-row :
      (look : Lookups) (now : ℕ) (segment : Segment) (devices : Devices) (net : Net)
      → find_node k net ≡ some n
      → find_node k (place look now segment devices net) ≡ some n
  unfolding place bind
  place-row look now segment devices net e = place_node-row _ _ _ _ net e

  place_all-row :
      (look : Lookups) (now : ℕ) (found : Dict Segment Devices) (net : Net)
      → find_node k net ≡ some n
      → find_node k (place_all look now found net) ≡ some n
  unfolding place_all
  place_all-row look now [] net e = e
  place_all-row look now ((segment, devices) ∷ found) net e =
      place_all-row look now found (place look now segment devices net)
        (place-row look now segment devices net e)

  retire_node-row :
      (o : Option ℕ) (mac ip : String) (net : Net)
      → find_node k net ≡ some n
      → find_node k (retire_node o mac ip net) ≡ some n
  unfolding delete_node delete_interface
  retire_node-row none mac ip net e = e
  retire_node-row (some id) mac ip net e = elim (Bool-cases (nat_eq id k)) [
    | inl p ↦ let same : id ≡ k = ground arith in rw same (ground arith)
    | inr p ↦ ground (arith, find_key-delete_key Node.id k id net.logical_nodes)
  ]

  retire-row :
      (active : List String) (b : Binding) (net : Net)
      → find_node k net ≡ some n
      → find_node k (retire active b net) ≡ some n
  unfolding retire
  retire-row active b net e = elim (Bool-cases (elem b.mac_address active)) [
    | inl p ↦ rw p e
    | inr p ↦ rw p (retire_node-row (node_at b.mac_address net) b.mac_address b.ip_address net e)
  ]

  retire_all-row :
      (active : List String) (expired : List Binding) (net : Net)
      → find_node k net ≡ some n
      → find_node k (retire_all active expired net) ≡ some n
  unfolding retire_all
  retire_all-row active [] net e = e
  retire_all-row active (b ∷ expired) net e =
      retire_all-row active expired (retire active b net) (retire-row active b net e)

-- The pass never touches what is not its own: the row of a node whose type is another than
-- "Access Point (Unverified)" is the same after it, so that a node that a person has confirmed or
-- typed anew stays.
pub run_wap_inference-row :
    (look : Lookups) (rows : List SubnetRow) (now : ℕ) (net : Net) (k : ℕ) (n : Node)
    → is_text unverified n.device_type ≡ false
    → find_node k net ≡ some n
    → find_node k (run_wap_inference look rows now net) ≡ some n
unfolding run_wap_inference
run_wap_inference-row look rows now net k n settled e =
    retire_all-row k n settled _ _ _ (place_all-row k n settled look now _ net e)

-- The confidence of a node that is inferred.
abbrev pub IsInRange : Node → Type 0
IsInRange n =
    is_text unverified n.device_type ≡ true → (15 ≤ n.weld_confidence) × (n.weld_confidence ≤ 45)

abbrev pub AreInRange : Net → Type 0
AreInRange net = All IsInRange net.logical_nodes

confidence_of_bounds :
    (look : Lookups) (devices : Devices)
    → (15 ≤ confidence_of look devices) × (confidence_of look devices ≤ 45)
unfolding confidence_of
confidence_of_bounds look devices = ground arith

place_node-InRange :
    (o : Option Interface) (mac : String) (confidence : ℕ) (name : String) (net : Net)
    → (15 ≤ confidence) × (confidence ≤ 45)
    → AreInRange net
    → AreInRange (place_node o mac confidence name net)
place_node-InRange none mac confidence name net bounds h =
    All-append IsInRange net.logical_nodes _ h (λ e. bounds, tt)
place_node-InRange (some i) mac confidence name net bounds h = refreshed i.node_id
  where
    refreshed : (o : Option ℕ) → AreInRange (refresh o confidence name net)
    refreshed none = h
    refreshed (some id) =
        All-update IsInRange IsInRange (is_own id) _ net.logical_nodes (λ n p q e. bounds)
          (λ n p q. p) h

place_all-InRange :
    (look : Lookups) (now : ℕ) (found : Dict Segment Devices) (net : Net)
    → AreInRange net
    → AreInRange (place_all look now found net)
unfolding place_all place bind
place_all-InRange look now [] net h = h
place_all-InRange look now ((segment, devices) ∷ found) net h =
    place_all-InRange look now found (place look now segment devices net)
      (place_node-InRange _ _ _ _ net (confidence_of_bounds look devices) h)

retire_node-InRange :
    (o : Option ℕ) (mac ip : String) (net : Net)
    → AreInRange net
    → AreInRange (retire_node o mac ip net)
unfolding delete_node delete_interface delete_key
retire_node-InRange none mac ip net h = h
retire_node-InRange (some id) mac ip net h = elim (Bool-cases (is_unverified id net)) [
  | inl p ↦ rw p (All-delete IsInRange _ net.logical_nodes h)
  | inr p ↦ rw p h
]

retire-InRange :
    (active : List String) (b : Binding) (net : Net)
    → AreInRange net
    → AreInRange (retire active b net)
unfolding retire
retire-InRange active b net h = elim (Bool-cases (elem b.mac_address active)) [
  | inl p ↦ rw p h
  | inr p ↦ rw p (retire_node-InRange (node_at b.mac_address net) b.mac_address b.ip_address net h)
]

retire_all-InRange :
    (active : List String) (expired : List Binding) (net : Net)
    → AreInRange net
    → AreInRange (retire_all active expired net)
unfolding retire_all
retire_all-InRange active [] net h = h
retire_all-InRange active (b ∷ expired) net h =
    retire_all-InRange active expired (retire active b net) (retire-InRange active b net h)

-- Every inferred access point has a confidence between 15 and 45, where those that were there
-- before the pass had.
pub run_wap_inference-InRange :
    (look : Lookups) (rows : List SubnetRow) (now : ℕ) (net : Net)
    → AreInRange net
    → AreInRange (run_wap_inference look rows now net)
unfolding run_wap_inference
run_wap_inference-InRange look rows now net h =
    retire_all-InRange _ _ _ (place_all-InRange look now _ net h)
