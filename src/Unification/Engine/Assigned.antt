-- ===== src/Unification/Engine/Assigned.antt =====
-- The engine gives every interface a node (src/engine/unification.py: run_unification_engine).
use net_lanvas.Base.{
  ℕ, zero, suc, String, Option, some, List, [], ◌∷◌, Bool, true, ◌||◌, map, eq_ℕ, eq_String,
  is_some, ◌≡◌, arith, All, All-append, All-imp, Bool-cases, Option-cases, inl, inr, nat_eq_iff,
  ltb,
}
use net_lanvas.Base.Table.{select, find, delete}
use net_lanvas.Base.Keyed.{find_key, update_key, has_key, IsPrimary, delete-IsPrimary}
use net_lanvas.Inventory.{Device}
use net_lanvas.Net.{Node, Interface, Binding, Net}
use net_lanvas.Hostname.{is_one_of}
use net_lanvas.Unification.{
  of_node, delete_node, merge, merge_pair, weld_pair, arp_rows, weld_rounds,
  run_arp_confirmed_weld_pass, run_singleton_pass,
}
use net_lanvas.Unification.Links.{
  is_node, IsLinked, AreLinked, All-update, run_arp_confirmed_weld_pass-AreLinked,
}
use net_lanvas.Unification.Assigned.{run_singleton_pass-AreAssigned}
use net_lanvas.Unification.Classify.{
  like, enforce_db_triggers, run_classification_pass, run_inventory_overlay_pass,
}
use net_lanvas.Unification.Hardware.{
  Base, infra_types, bases_of, infra_nodes, weld_kind, find_base, weld_interface, weld_ghosts,
  run_hardware_weld_pass,
}
use net_lanvas.Unification.Heuristic.{run_heuristic_pass-idle}
use net_lanvas.Unification.Candidates.{
  run_smart_switch_candidate_pass, Candidate, verified_macs, is_stale,
}
use net_lanvas.Unification.Engine.{Databases, run_unification_engine, rows_of}
use net_lanvas.Unification.Engine.Shape.{
  HasShape, HasShape-trans, AreLinked-shape, enforce_db_triggers-HasShape,
  run_classification_pass-HasShape, suggest_all-HasShape, run_inventory_overlay_pass-HasShape,
}

-- Every row of a table of nodes is found by its id.
all_nodes : (nodes : List Node) → All (λ (n : Node). is_node nodes n.id ≡ true) nodes
unfolding find_key find
all_nodes [] = tt
all_nodes (n ∷ nodes) = (
  ground (arith, nat_eq_iff n.id n.id),
  All-imp _ _ nodes (λ x h. ground arith) (all_nodes nodes),
)

module _ (all : List Node) where
  abbrev IsBase : Base → Type 0
  IsBase base = is_node all base.node_id ≡ true

  bases_of-linked :
      (n : Node) (interfaces : List Interface)
      → is_node all n.id ≡ true
      → All IsBase (bases_of n interfaces)
  bases_of-linked n interfaces h = each (select (of_node n.id) interfaces)
    where
      each :
          (xs : List Interface)
          → All IsBase (
              map
                (λ (i : Interface). record {
                  node_id = n.id;
                  hostname = n.hostname;
                  base_mac = i.mac_address;
                })
                xs)
      each [] = tt
      each (x ∷ xs) = (h, each xs)

  infra_nodes-linked :
      (nodes : List Node) (interfaces : List Interface)
      → All (λ (n : Node). is_node all n.id ≡ true) nodes
      → All IsBase (infra_nodes nodes interfaces)
  unfolding infra_nodes
  infra_nodes-linked [] interfaces h = tt
  infra_nodes-linked (n ∷ nodes) interfaces h =
      elim (Bool-cases (is_one_of infra_types n.device_type || like n.hostname "MikroTik")) [
        | inl e ↦ rw e (
            All-append IsBase (bases_of n interfaces) (infra_nodes nodes interfaces)
              (bases_of-linked n interfaces h.0) (infra_nodes-linked nodes interfaces h.1))
        | inr e ↦ rw e (infra_nodes-linked nodes interfaces h.1)
      ]

  find_base-linked :
      (ghost : String) (bases : List Base) {id : ℕ} {is_virtual : Bool}
      → All IsBase bases
      → find_base ghost bases ≡ some (id, is_virtual)
      → is_node all id ≡ true
  unfolding find_base
  find_base-linked ghost [] h e = absurd (ground arith)
  find_base-linked ghost (base ∷ bases) {id} {is_virtual} h e =
      elim (Option-cases (weld_kind ghost base)) [
        | inl p ↦
            find_base-linked ghost bases {id = id} {is_virtual = is_virtual} h.1 (ground arith)
        | inr (v, p) ↦ let same : base.node_id ≡ id = ground arith in rw (← same) h.0
      ]

  weld_interface-IsLinked :
      (ghost : String) (id : ℕ) (is_virtual : Bool) (interfaces : List Interface)
      → is_node all id ≡ true
      → All (IsLinked all) interfaces
      → All (IsLinked all) (weld_interface ghost (id, is_virtual) interfaces)
  unfolding update_key
  weld_interface-IsLinked ghost id is_virtual interfaces known h =
      elim (Bool-cases (is_some (find_key Interface.mac_address ghost interfaces))) [
        | inl e ↦ rw e (
            All-update (IsLinked all) (IsLinked all) (has_key Interface.mac_address ghost) _
              interfaces (λ i linked p k q. ground arith) (λ i linked p. linked) h)
        | inr e ↦ rw e (All-append (IsLinked all) interfaces _ h (λ k q. ground arith, tt))
      ]

  weld_ghosts-IsLinked :
      (bases : List Base) (ghosts : List String) (welds : ℕ) (interfaces : List Interface)
      → All IsBase bases
      → All (IsLinked all) interfaces
      → All (IsLinked all) (weld_ghosts bases ghosts welds interfaces).1
  unfolding weld_ghosts
  weld_ghosts-IsLinked bases [] welds interfaces known h = h
  weld_ghosts-IsLinked bases (ghost ∷ ghosts) welds interfaces known h =
      elim (Option-cases (find_base ghost bases)) [
        | inl e ↦ rw (weld_ghosts, e) (weld_ghosts-IsLinked bases ghosts welds interfaces known h)
        | inr ((id, v), e) ↦
            rw (weld_ghosts, e)
              (weld_ghosts-IsLinked bases ghosts (suc welds)
                (weld_interface ghost (id, v) interfaces) known
                (weld_interface-IsLinked ghost id v interfaces
                  (find_base-linked ghost bases known e) h))
      ]

run_hardware_weld_pass-AreLinked :
    (net : Net) → AreLinked net → AreLinked (run_hardware_weld_pass net).1
unfolding run_hardware_weld_pass
run_hardware_weld_pass-AreLinked net h =
    weld_ghosts-IsLinked net.logical_nodes (infra_nodes net.logical_nodes net.l2_interfaces) _ 0
      net.l2_interfaces
      (infra_nodes-linked net.logical_nodes net.logical_nodes net.l2_interfaces
        (all_nodes net.logical_nodes))
      h

-- The bindings' addresses stay unique.
abbrev pub IsUniqueByIp : Net → Type 0
IsUniqueByIp net = IsPrimary Binding.ip_address net.l3_bindings

merge_unique :
    (keeper loser : ℕ) (net : Net) → IsUniqueByIp net → IsUniqueByIp (merge keeper loser net)
unfolding merge delete_node
merge_unique keeper loser net h = delete-IsPrimary Binding.ip_address _ net.l3_bindings h

merge_pair_unique : (a b : ℕ) (net : Net) → IsUniqueByIp net → IsUniqueByIp (merge_pair (a, b) net)
merge_pair_unique a b net h = elim (Bool-cases (ltb a b)) [
  | inl e ↦ rw e (merge_unique a b net h)
  | inr e ↦ rw e (merge_unique b a net h)
]

weld_rounds_unique :
    (rounds merges : ℕ) (net : Net)
    → IsUniqueByIp net
    → IsUniqueByIp (weld_rounds rounds merges net).1
unfolding weld_rounds
weld_rounds_unique zero merges net h = h
weld_rounds_unique (suc rounds) merges net h =
    elim (Option-cases (weld_pair (arp_rows net net.l3_bindings))) [
      | inl e ↦ rw (weld_rounds, e) h
      | inr ((a, b), e) ↦
          rw (weld_rounds, e)
            (weld_rounds_unique rounds (suc merges) (merge_pair (a, b) net)
              (merge_pair_unique a b net h))
    ]

abbrev pub AllAssigned : Net → Type 0
AllAssigned net = All (λ (i : Interface). is_some i.node_id ≡ true) net.l2_interfaces

AllAssigned-shape : (a b : Net) → HasShape a b → AllAssigned a → AllAssigned b
AllAssigned-shape a b f h = rw f.interfaces h

-- what follows the singleton pass
finish-HasShape :
    (refused : String → Bool) (now : ℕ) (candidates : List Candidate)
    (inventory : Option (List Device)) (net : Net)
    → let (updates, e) = run_classification_pass net in
      let (kept, pass) = run_smart_switch_candidate_pass refused now candidates inventory e in
      HasShape net (run_inventory_overlay_pass (rows_of pass.inventory) pass.net).1
unfolding run_smart_switch_candidate_pass
finish-HasShape refused now candidates inventory net =
    HasShape-trans net _ _ (run_classification_pass-HasShape net) (
      HasShape-trans _ _ _
        (suggest_all-HasShape refused (verified_macs inventory) now
          (delete (is_stale now) candidates)
          (record { net = (run_classification_pass net).1; inventory = inventory; suggested = 0 }))
        (run_inventory_overlay_pass-HasShape _ _))

-- The engine leaves no interface on its own: where every interface that has a node has one of the
-- table, and the bindings' addresses are unique, every interface has a node of the table after
-- the run, whatever inventory.db holds and whichever writes to it fail.
pub run_unification_engine-AreAssigned :
    (refused : String → Bool) (now : ℕ) (dbs : Databases)
    → AreLinked dbs.net
    → IsUniqueByIp dbs.net
    → AreLinked (run_unification_engine refused now dbs).net
      × AllAssigned (run_unification_engine refused now dbs).net
unfolding run_unification_engine run_hardware_weld_pass run_arp_confirmed_weld_pass
run_unification_engine-AreAssigned refused now dbs linked unique =
    let a = enforce_db_triggers dbs.net in
    let shape = enforce_db_triggers-HasShape dbs.net in
    let b = (run_hardware_weld_pass a).1 in
    let b_linked = run_hardware_weld_pass-AreLinked a (AreLinked-shape dbs.net a shape linked) in
    let c = (run_arp_confirmed_weld_pass b).1 in
    let b_unique : IsUniqueByIp b = rw shape.bindings unique in
    let idle = run_heuristic_pass-idle c (weld_rounds_unique 5 0 b b_unique) in
    let (d_linked, d_assigned) =
      run_singleton_pass-AreAssigned c (run_arp_confirmed_weld_pass-AreLinked b b_linked) in
    let d = (run_singleton_pass c).1 in
    let finish = finish-HasShape refused now dbs.candidates dbs.inventory d in
    rw idle (AreLinked-shape d _ finish d_linked, AllAssigned-shape d _ finish d_assigned)
