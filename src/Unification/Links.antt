-- ===== src/Unification/Links.antt =====
-- Interfaces and their nodes (src/engine/unification.py: run_arp_confirmed_weld_pass).
use net_lanvas.Base.{
  ℕ, zero, suc, String, Option, none, some, List, [], ◌∷◌, Bool, true, false, elem, map, ltb, eq_ℕ,
  eq_String, ◌==◌, is_some, ◌≡◌, ◌≢◌, refl, arith, All, Bool-cases, Option-cases, inl, inr,
}
use net_lanvas.Base.Table.{update, All-delete, find-All}
use net_lanvas.Base.Keyed.{find_key, delete_key, has_key, find_key-delete_key}
use net_lanvas.Net.{Node, Interface, Binding, Net}
use net_lanvas.Unification.{
  of_node, delete_node, node_of_mac, arp_rows, add_row, is_weld, weld_partner, weld_pair, merge,
  merge_pair, weld_rounds, run_arp_confirmed_weld_pass,
}

abbrev pub is_node : List Node → ℕ → Bool
is_node nodes k = is_some (find_key Node.id k nodes)

-- the interface has no node, or one that is in the table
abbrev pub IsLinked : List Node → Interface → Type 0
IsLinked nodes i = (k : ℕ) → i.node_id ≡ some k → is_node nodes k ≡ true

-- every foreign key of l2_interfaces refers to a row
abbrev pub AreLinked : Net → Type 0
AreLinked net = All (IsLinked net.logical_nodes) net.l2_interfaces

pub All-update {ℓ κ μ} :
    {A : Type ℓ} (P : A → Type κ) (Q : A → Type μ) (p : A → Bool) (f : A → A) (xs : List A)
    → ((x : A) → P x → p x ≡ true → Q (f x))
    → ((x : A) → P x → p x ≡ false → Q x)
    → All P xs
    → All Q (update p f xs)
unfolding update
All-update P Q p f [] hit miss h = tt
All-update P Q p f (x ∷ xs) hit miss h = elim (Bool-cases (p x)) [
  | inl e ↦ rw e (hit x h.0 e, All-update P Q p f xs hit miss h.1)
  | inr e ↦ rw e (miss x h.0 e, All-update P Q p f xs hit miss h.1)
]

is_node-delete_key :
    (nodes : List Node) (k loser : ℕ)
    → is_node nodes k ≡ true
    → k ≢ loser
    → is_node (delete_key Node.id loser nodes) k ≡ true
is_node-delete_key nodes k loser h apart = ground (arith, find_key-delete_key Node.id k loser nodes)

merge-AreLinked :
    (keeper loser : ℕ) (net : Net)
    → keeper ≢ loser
    → is_node net.logical_nodes keeper ≡ true
    → AreLinked net
    → AreLinked (merge keeper loser net)
unfolding merge delete_node
merge-AreLinked keeper loser net apart kept h =
    All-delete (IsLinked (delete_key Node.id loser net.logical_nodes)) (of_node loser)
      (update (of_node loser) (λ i. record i { node_id = some keeper }) net.l2_interfaces)
      (All-update (IsLinked net.logical_nodes)
        (IsLinked (delete_key Node.id loser net.logical_nodes)) (of_node loser)
        (λ i. record i { node_id = some keeper }) net.l2_interfaces
        (λ i linked e k q.
          is_node-delete_key net.logical_nodes k loser (ground arith) (λ same. ground arith))
        (λ i linked e k q.
          is_node-delete_key net.logical_nodes k loser (linked k q) (λ same. ground arith))
        h)

-- every row's node is in the table
abbrev RowsLinked : List Node → List (String × ℕ) → Type 0
RowsLinked nodes rows = All (λ (r : String × ℕ). is_node nodes r.1 ≡ true) rows

add_row-linked :
    (nodes : List Node) (mac : String) (o : Option ℕ) (rows : List (String × ℕ))
    → ((k : ℕ) → o ≡ some k → is_node nodes k ≡ true)
    → RowsLinked nodes rows
    → RowsLinked nodes (add_row mac o rows)
add_row-linked nodes mac none rows f h = h
add_row-linked nodes mac (some id) rows f h =
    elim (Bool-cases (elem mac (map (λ (r : String × ℕ). r.0) rows))) [
      | inl e ↦ rw e h
      | inr e ↦ rw e (f id refl, h)
    ]

node_of_mac-linked :
    (net : Net) (mac : String)
    → AreLinked net
    → (k : ℕ) → node_of_mac net mac ≡ some k
    → is_node net.logical_nodes k ≡ true
unfolding find_key
node_of_mac-linked net mac h k e =
    elim (Option-cases (find_key Interface.mac_address mac net.l2_interfaces)) [
      | inl p ↦ absurd (ground arith)
      | inr (i, p) ↦
          find-All (IsLinked net.logical_nodes) (has_key Interface.mac_address mac)
            net.l2_interfaces p h k (ground arith)
    ]

arp_rows-linked :
    (net : Net) (bindings : List Binding)
    → AreLinked net
    → RowsLinked net.logical_nodes (arp_rows net bindings)
unfolding arp_rows
arp_rows-linked net [] h = tt
arp_rows-linked net (b ∷ rest) h = elim (Bool-cases (b.discovery_source == "ROUTER_ARP_CACHE")) [
  | inl e ↦ rw e (
      add_row-linked net.logical_nodes b.mac_address (node_of_mac net b.mac_address)
        (arp_rows net rest) (node_of_mac-linked net b.mac_address h) (arp_rows-linked net rest h))
  | inr e ↦ rw e (arp_rows-linked net rest h)
]

weld_partner-linked :
    (nodes : List Node) (row : String × ℕ) (rows : List (String × ℕ)) (b : ℕ)
    → RowsLinked nodes rows
    → weld_partner row rows ≡ some b
    → (is_node nodes b ≡ true) × (row.1 ≢ b)
unfolding weld_partner
weld_partner-linked nodes row [] b h e = absurd (ground arith)
weld_partner-linked nodes row (other ∷ rows) b h e = elim (Bool-cases (is_weld row other)) [
  | inl w ↦ let same : other.1 ≡ b = ground arith in (ground (arith, h.0), λ q. ground arith)
  | inr w ↦ weld_partner-linked nodes row rows b h.1 (ground arith)
]

weld_pair-linked :
    (nodes : List Node) (rows : List (String × ℕ)) (a b : ℕ)
    → RowsLinked nodes rows
    → weld_pair rows ≡ some (a, b)
    → (is_node nodes a ≡ true) × (is_node nodes b ≡ true) × (a ≢ b)
unfolding weld_pair
weld_pair-linked nodes [] a b h e = absurd (ground arith)
weld_pair-linked nodes (row ∷ rows) a b h e = elim (Option-cases (weld_partner row rows)) [
  | inl p ↦ weld_pair-linked nodes rows a b h.1 (ground arith)
  | inr (c, p) ↦
      let first : row.1 ≡ a = ground arith in
      let second : c ≡ b = ground arith in
      let (known, apart) = weld_partner-linked nodes row rows c h.1 p in
      (ground (arith, h.0), ground arith, λ q. ground arith)
]

merge_pair-AreLinked :
    (a b : ℕ) (net : Net)
    → is_node net.logical_nodes a ≡ true
    → is_node net.logical_nodes b ≡ true
    → a ≢ b
    → AreLinked net
    → AreLinked (merge_pair (a, b) net)
merge_pair-AreLinked a b net ha hb apart h = elim (Bool-cases (ltb a b)) [
  | inl e ↦ rw e (merge-AreLinked a b net apart ha h)
  | inr e ↦ rw e (merge-AreLinked b a net (λ q. ground arith) hb h)
]

weld_rounds-AreLinked :
    (rounds merges : ℕ) (net : Net) → AreLinked net → AreLinked (weld_rounds rounds merges net).1
unfolding weld_rounds
weld_rounds-AreLinked zero merges net h = h
weld_rounds-AreLinked (suc rounds) merges net h =
    elim (Option-cases (weld_pair (arp_rows net net.l3_bindings))) [
      | inl e ↦ rw (weld_rounds, e) h
      | inr ((a, b), e) ↦
          let (ha, hb, apart) =
            weld_pair-linked net.logical_nodes (arp_rows net net.l3_bindings) a b
              (arp_rows-linked net net.l3_bindings h) e in
          rw (weld_rounds, e)
            (weld_rounds-AreLinked rounds (suc merges) (merge_pair (a, b) net)
              (merge_pair-AreLinked a b net ha hb apart h))
    ]

-- Welding by the ARP cache leaves no interface with a node that is gone: where every interface's
-- node is in the table before the pass, every interface's node is in the table after it.
pub run_arp_confirmed_weld_pass-AreLinked :
    (net : Net) → AreLinked net → AreLinked (run_arp_confirmed_weld_pass net).1
unfolding run_arp_confirmed_weld_pass
run_arp_confirmed_weld_pass-AreLinked net h = weld_rounds-AreLinked 5 0 net h
