-- ===== src/Unification/Assigned.antt =====
-- Every interface gets a node (src/engine/unification.py: run_singleton_pass).
use net_lanvas.Base.{
  ℕ, suc, String, Option, some, List, [], ◌∷◌, ◌++◌, Bool, true, ◌||◌, elem, map, eq_ℕ, eq_String,
  is_some, ◌≡◌, refl, arith, All, All-imp, eq_iff, sym,
}
use mathlib.Core.Option
use net_lanvas.Base.Table.{select, find}
use net_lanvas.Base.Keyed.{find_key, update_key, has_key, find_key-append}
use net_lanvas.Net.{Node, Interface, Net}
use net_lanvas.Unification.{new_endpoint, adopt, adopt_all, is_orphan, run_singleton_pass}
use net_lanvas.Unification.Links.{is_node, IsLinked, AreLinked, All-update}

is_node-append :
    (nodes new : List Node) (k : ℕ) → is_node nodes k ≡ true → is_node (nodes ++ new) k ≡ true
unfolding Option.or_else
is_node-append nodes new k h = ground (arith, find_key-append Node.id k nodes new)

is_node-new :
    (nodes : List Node) (k : ℕ) (vendor : Option String)
    → is_node (nodes ++ new_endpoint k vendor ∷ []) k ≡ true
unfolding Option.or_else find_key find
is_node-new nodes k vendor =
    ground (arith, find_key-append Node.id k nodes (new_endpoint k vendor ∷ []))

adopt-AreLinked : (orphan : Interface) (net : Net) → AreLinked net → AreLinked (adopt orphan net)
unfolding adopt update_key
adopt-AreLinked orphan net h =
    All-update (IsLinked net.logical_nodes) (IsLinked (adopt orphan net).logical_nodes)
      (has_key Interface.mac_address orphan.mac_address)
      (λ i. record i { node_id = some net.next_node_id }) net.l2_interfaces
      (λ i linked e k q.
        let same : net.next_node_id ≡ k = ground arith in
        rw (sym same) (is_node-new net.logical_nodes net.next_node_id orphan.vendor))
      (λ i linked e k q.
        is_node-append net.logical_nodes (new_endpoint net.next_node_id orphan.vendor ∷ []) k
          (linked k q))
      h

-- the interface has a node, or is one of those still to be visited
abbrev Awaits : List Interface → Interface → Type 0
Awaits orphans i =
    (is_some i.node_id || elem i.mac_address (map Interface.mac_address orphans)) ≡ true

adopt-Awaits :
    (orphan : Interface) (orphans : List Interface) (net : Net)
    → All (Awaits (orphan ∷ orphans)) net.l2_interfaces
    → All (Awaits orphans) (adopt orphan net).l2_interfaces
unfolding adopt update_key
adopt-Awaits orphan orphans net h =
    All-update (Awaits (orphan ∷ orphans)) (Awaits orphans)
      (has_key Interface.mac_address orphan.mac_address)
      (λ i. record i { node_id = some net.next_node_id }) net.l2_interfaces (λ i waits e. refl)
      (λ i waits e. ground arith) h

adopt_all-both :
    (orphans : List Interface) (created : ℕ) (net : Net)
    → AreLinked net
    → All (Awaits orphans) net.l2_interfaces
    → AreLinked (adopt_all orphans created net).1
      × All (Awaits []) (adopt_all orphans created net).1.l2_interfaces
unfolding adopt_all
adopt_all-both [] created net h waits = (h, waits)
adopt_all-both (orphan ∷ orphans) created net h waits =
    adopt_all-both orphans (suc created) (adopt orphan net) (adopt-AreLinked orphan net h)
      (adopt-Awaits orphan orphans net waits)

elem-later :
    (mac : String) (x : Interface) (xs : List Interface) (p : Interface → Bool)
    → elem mac (map Interface.mac_address (select p xs)) ≡ true
    → elem mac (map Interface.mac_address (select p (x ∷ xs))) ≡ true
unfolding select
elem-later mac x xs p h = ground arith

start-Awaits : (xs : List Interface) → All (Awaits (select is_orphan xs)) xs
unfolding select
start-Awaits [] = tt
start-Awaits (x ∷ xs) = (
  ground (arith, eq_iff x.mac_address x.mac_address),
  All-imp (Awaits (select is_orphan xs)) (Awaits (select is_orphan (x ∷ xs))) xs
      (λ i h. ground (arith, elem-later i.mac_address x xs is_orphan)) (start-Awaits xs),
)

-- After the singleton pass every interface has a node that is in the table, where every node
-- that an interface had before was in the table.
pub run_singleton_pass-AreAssigned :
    (net : Net)
    → AreLinked net
    → AreLinked (run_singleton_pass net).1
      × All (λ i. is_some i.node_id ≡ true) (run_singleton_pass net).1.l2_interfaces
unfolding run_singleton_pass
run_singleton_pass-AreAssigned net h =
    let (linked, waits) =
      adopt_all-both (select is_orphan net.l2_interfaces) 0 net h
        (start-Awaits net.l2_interfaces) in
    (
      linked,
      All-imp (Awaits []) (λ i. is_some i.node_id ≡ true) (run_singleton_pass net).1.l2_interfaces
          (λ i w. ground arith) waits,
    )
