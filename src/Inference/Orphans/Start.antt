-- ===== src/Inference/Orphans/Start.antt =====
-- The sweep as a whole (src/engine/inference_engine.py: run_orphan_node_sweep).
use net_lanvas.Base.{
  ℕ, String, Option, none, some, List, [], ◌∷◌, true, false, not, nat_eq, ◌&&◌, if◌then◌else◌, eq_ℕ,
  eq_String, is_empty, map, ◌≡◌, refl, sym, ap, subst, ◌∙◌, arith, All, All-imp, Bool-cases, inl,
  inr, nat_eq_iff,
}
use net_lanvas.Base.Table.{find, select, All-select, select-All}
use net_lanvas.Base.Keyed.{find_key, IsPrimary, All-absent}
use net_lanvas.Net.{Node, Interface, Net}
use net_lanvas.Unification.{of_node}
use net_lanvas.Inference.{macs_of, trace, is_due, nodes_with_macs, run_orphan_node_sweep}
use net_lanvas.Inference.Orphans.Gone.{has_gone, trace-are_gone}
use net_lanvas.Inference.Orphans.{Owned, Keeps, Entry, entry_id, verdict, Ready, sweep-row}

module _ (j : ℕ) where
  abbrev Alone : List Interface → Interface → Type 0
  Alone xs i = of_node j i ≡ true → Owned j i.mac_address xs

  Alone-cons :
      (i : Interface) (xs ys : List Interface)
      → All (λ y. y.mac_address ≡ i.mac_address → y ≡ i) ys
      → All (Alone xs) ys
      → All (Alone (i ∷ xs)) ys
  Alone-cons i xs [] h k = tt
  Alone-cons i xs (y ∷ ys) (same, h) (own, k) = (
    λ of_j. (λ e. subst (λ z. of_node j z ≡ true) (same (sym e)) of_j, own of_j),
    Alone-cons i xs ys h k,
  )

  -- where addresses are primary, a node's interface has no namesake at another node
  All-Alone : (xs : List Interface) → IsPrimary Interface.mac_address xs → All (Alone xs) xs
  All-Alone [] h = tt
  All-Alone (i ∷ xs) (absent, u) =
      let same = All-absent Interface.mac_address i.mac_address i xs absent in
      (
        λ of_j. (
          λ e. of_j,
          All-imp _ _ xs (λ y f e. subst (λ z. of_node j z ≡ true) (sym (f e)) of_j) same,
        ),
        Alone-cons i xs xs same (All-Alone xs u),
      )

  All-map :
      (P : String → Type 0) (xs : List Interface)
      → All (λ i. P i.mac_address) xs
      → All P (map Interface.mac_address xs)
  All-map P [] h = tt
  All-map P (i ∷ xs) (h, hs) = (h, All-map P xs hs)

  All-both :
      (before : Net) (xs : List Interface)
      → All (Alone before.l2_interfaces) xs
      → All (λ (i : Interface). of_node j i && not i.is_virtual ≡ true) xs
      → All (λ i. Keeps before j i.mac_address before) xs
  All-both before [] h k = tt
  All-both before (i ∷ xs) (own, h) (real, k) = (
    record { owned = own (ground arith); bindings = refl; locations = refl; state = refl },
    All-both before xs h k,
  )

  macs_of-Keeps :
      (before : Net)
      → IsPrimary Interface.mac_address before.l2_interfaces
      → All (λ m. Keeps before j m before) (macs_of j before)
  unfolding macs_of
  macs_of-Keeps before u =
      let real = λ (i : Interface). of_node j i && not i.is_virtual in
      All-map (λ m. Keeps before j m before) (select real before.l2_interfaces)
        (All-both before (select real before.l2_interfaces)
          (All-select (Alone before.l2_interfaces) real before.l2_interfaces
            (All-Alone before.l2_interfaces u))
          (select-All real before.l2_interfaces))

module _ (before : Net) where
  nodes_with_macs-Ready :
      (now : ℕ) (nodes : List Node)
      → IsPrimary Interface.mac_address before.l2_interfaces
      → Ready now before before (nodes_with_macs nodes before)
  unfolding nodes_with_macs
  nodes_with_macs-Ready now [] u = tt
  nodes_with_macs-Ready now (n ∷ nodes) u = elim (Bool-cases (is_empty (macs_of n.id before))) [
    | inl e ↦ rw e (nodes_with_macs-Ready now nodes u)
    | inr e ↦ rw e (macs_of-Keeps n.id before u, nodes_with_macs-Ready now nodes u)
  ]

  -- the entry of a node
  abbrev entry_of : ℕ → Option Node → Option Entry
  entry_of id none = none
  entry_of id (some n) = if is_empty (macs_of id before) then none else some (id, macs_of id before)

  find_key-nodes_with_macs :
      (id : ℕ) (nodes : List Node)
      → IsPrimary Node.id nodes
      → find_key entry_id id (nodes_with_macs nodes before)
        ≡ entry_of id (find_key Node.id id nodes)
  unfolding find_key find nodes_with_macs
  find_key-nodes_with_macs id [] u = refl
  find_key-nodes_with_macs id (n ∷ nodes) (absent, u) =
      let rest = find_key-nodes_with_macs id nodes u in
      elim (Bool-cases (nat_eq n.id id)) [
        | inl p ↦
            let same : n.id ≡ id = ground (arith, nat_eq_iff n.id id) in
            let gone : find_key Node.id id nodes ≡ none = rw (← same) absent in
            elim (Bool-cases (is_empty (macs_of n.id before))) [
              | inl e ↦
                  let e2 : is_empty (macs_of id before) ≡ true = rw (← same) e in
                  rw (p, e, e2) (rest ∙ ap (entry_of id) gone)
              | inr e ↦
                  let e2 : is_empty (macs_of id before) ≡ false = rw (← same) e in
                  rw (p, e, e2) (rw p (rw same refl))
            ]
        | inr p ↦ elim (Bool-cases (is_empty (macs_of n.id before))) [
          | inl e ↦ rw (p, e) rest
          | inr e ↦ rw (p, e) (rw p rest)
        ]
      ]

  nodes_with_macs-IsPrimary :
      (nodes : List Node)
      → IsPrimary Node.id nodes
      → IsPrimary entry_id (nodes_with_macs nodes before)
  unfolding nodes_with_macs
  nodes_with_macs-IsPrimary [] u = tt
  nodes_with_macs-IsPrimary (n ∷ nodes) (absent, u) =
      let gone : find_key entry_id n.id (nodes_with_macs nodes before) ≡ none =
        find_key-nodes_with_macs n.id nodes u ∙ ap (entry_of n.id) absent in
      elim (Bool-cases (is_empty (macs_of n.id before))) [
        | inl e ↦ rw e (nodes_with_macs-IsPrimary nodes u)
        | inr e ↦ rw e (gone, nodes_with_macs-IsPrimary nodes u)
      ]

  trace-empty :
      (now : ℕ) (macs : List String)
      → is_empty macs ≡ true
      → is_due now (trace macs none before) ≡ false
  unfolding trace
  trace-empty now [] e = refl
  trace-empty now (m ∷ macs) e = absurd (ground arith)

  verdict-row :
      (now id : ℕ) (row : Option Node)
      → verdict now before (entry_of id row) row
        ≡ (if is_due now (trace (macs_of id before) none before) then none else row)
  verdict-row now id none = elim (Bool-cases (is_due now (trace (macs_of id before) none before))) [
    | inl e ↦ rw e refl
    | inr e ↦ rw e refl
  ]
  verdict-row now id (some n) = elim (Bool-cases (is_empty (macs_of id before))) [
    | inl e ↦ rw (e, trace-empty now (macs_of id before) e) refl
    | inr e ↦ rw e refl
  ]

-- The sweep deletes exactly the nodes that have gone: a node stays with its row unchanged unless
-- none of the addresses of its interfaces that are not virtual has a binding or a location, one
-- of them has a recorded state, and every one that has was last seen more than twelve hours ago.
-- What is read are the tables as they were before the sweep, although it deletes as it goes. MAC
-- addresses and node ids must be primary keys.
pub run_orphan_node_sweep-row :
    (now id : ℕ) (net : Net)
    → IsPrimary Interface.mac_address net.l2_interfaces
    → IsPrimary Node.id net.logical_nodes
    → find_key Node.id id (run_orphan_node_sweep now net).logical_nodes
      ≡ (if has_gone now id net then none else find_key Node.id id net.logical_nodes)
unfolding run_orphan_node_sweep macs_of
run_orphan_node_sweep-row now id net macs ids =
    sweep-row now net id (nodes_with_macs net.logical_nodes net) net
      (nodes_with_macs-IsPrimary net net.logical_nodes ids)
      (nodes_with_macs-Ready net now net.logical_nodes macs)
    ∙ ap (λ o. verdict now net o (find_key Node.id id net.logical_nodes))
        (find_key-nodes_with_macs net id net.logical_nodes ids)
    ∙ verdict-row net now id (find_key Node.id id net.logical_nodes)
    ∙ ap (λ gone. if gone then none else find_key Node.id id net.logical_nodes)
        (trace-are_gone now net (macs_of id net))
