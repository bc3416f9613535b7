-- ===== src/Unification/Engine/Shape.antt =====
-- Passes that only write to columns of nodes (src/engine/unification.py).
use net_lanvas.Base.{
  ℕ, String, Option, none, some, List, [], ◌∷◌, Bool, not, ◌&&◌, eq_ℕ, eq_String, elem, ◌≡◌, refl,
  ◌∙◌, arith, Bool-cases, Option-cases, inl, inr, nat_eq_iff, All-imp, ltb,
}
use net_lanvas.Base.Table.{update, find}
use net_lanvas.Base.Text.{is_blank}
use net_lanvas.Base.Keyed.{find_key, update_key, has_key}
use net_lanvas.Net.{Node, Interface, Net}
use net_lanvas.Hostname.{
  is_usable_hostname, set_hostname_by_mac, set_hostname_by_node_id, write_hostname,
}
use net_lanvas.Unification.{node_of_mac}
use net_lanvas.Unification.Links.{is_node, AreLinked}
use net_lanvas.Unification.Classify.{
  Verified, enforce_db_triggers, run_classification_pass, run_inventory_overlay_pass, overlay,
  overlay_all, retype, becomes_ap, becomes_switch, becomes_docker, is_overlaid, overlaid,
}
use net_lanvas.Unification.Candidates.{
  Candidate, Pass, tag, suggest, suggest_on, suggest_all, or_blank, display_name, priority,
  target_type, is_retyped,
}

-- The interfaces and bindings are the same, and there are nodes with the same ids.
pub record HasShape (a b : Net) : Type 0 where
  pub interfaces : b.l2_interfaces ≡ a.l2_interfaces
  pub bindings : b.l3_bindings ≡ a.l3_bindings
  pub nodes : (k : ℕ) → is_node b.logical_nodes k ≡ is_node a.logical_nodes k

pub HasShape-refl : (a : Net) → HasShape a a
HasShape-refl a = record { interfaces = refl; bindings = refl; nodes = λ k. refl }

pub HasShape-trans : (a b c : Net) → HasShape a b → HasShape b c → HasShape a c
HasShape-trans a b c f g = record {
  interfaces = g.interfaces ∙ f.interfaces;
  bindings = g.bindings ∙ f.bindings;
  nodes = λ k. g.nodes k ∙ f.nodes k;
}

pub AreLinked-shape : (a b : Net) → HasShape a b → AreLinked a → AreLinked b
AreLinked-shape a b f h =
    rw f.interfaces (All-imp _ _ a.l2_interfaces (λ i linked k e. f.nodes k ∙ linked k e) h)

is_node-update :
    (p : Node → Bool) (f : Node → Node) (nodes : List Node) (k : ℕ)
    → ((n : Node) → (f n).id ≡ n.id)
    → is_node (update p f nodes) k ≡ is_node nodes k
unfolding update find_key find
is_node-update p f [] k keeps = refl
is_node-update p f (n ∷ nodes) k keeps =
    ground
      (arith, keeps n, nat_eq_iff n.id k, nat_eq_iff (f n).id k, is_node-update p f nodes k keeps)

updated-HasShape :
    (p : Node → Bool) (f : Node → Node) (net : Net)
    → ((n : Node) → (f n).id ≡ n.id)
    → HasShape net (record net { logical_nodes = update p f net.logical_nodes })
updated-HasShape p f net keeps = record {
  interfaces = refl;
  bindings = refl;
  nodes = λ k. is_node-update p f net.logical_nodes k keeps;
}

pub enforce_db_triggers-HasShape : (net : Net) → HasShape net (enforce_db_triggers net)
unfolding enforce_db_triggers
enforce_db_triggers-HasShape net = updated-HasShape _ _ net (λ n. refl)

retype-HasShape :
    (device_type : String) (p : Net → Node → Bool) (net : Net)
    → HasShape net (retype device_type p net).1
retype-HasShape device_type p net = updated-HasShape (p net) _ net (λ n. refl)

pub run_classification_pass-HasShape : (net : Net) → HasShape net (run_classification_pass net).1
unfolding run_classification_pass
run_classification_pass-HasShape net =
    HasShape-trans net _ _ (retype-HasShape "Access Point" becomes_ap net) (
      HasShape-trans _ _ _ (retype-HasShape "Switch" becomes_switch _)
        (retype-HasShape "Docker Host" becomes_docker _))

write_hostname-id : (hostname : String) (p : ℕ) (n : Node) → (write_hostname hostname p n).id ≡ n.id
unfolding write_hostname
write_hostname-id hostname p n = ground arith

set_hostname_by_node_id-HasShape :
    (id : ℕ) (hostname : String) (p : ℕ) (net : Net)
    → HasShape net (set_hostname_by_node_id id hostname p net).1
unfolding set_hostname_by_node_id update_key
set_hostname_by_node_id-HasShape id hostname p net =
    elim (Bool-cases (not (is_usable_hostname hostname))) [
      | inl e ↦ rw (set_hostname_by_node_id, e) (HasShape-refl net)
      | inr e ↦ elim (Option-cases (find_key Node.id id net.logical_nodes)) [
        | inl f ↦ rw (set_hostname_by_node_id, e, f) (HasShape-refl net)
        | inr (row, f) ↦ elim (Bool-cases (ltb p row.hostname_source_priority)) [
          | inl g ↦ rw (set_hostname_by_node_id, e, f, g) (HasShape-refl net)
          | inr g ↦
              rw (set_hostname_by_node_id, e, f, g)
                (updated-HasShape (has_key Node.id id) (write_hostname hostname p) net
                  (write_hostname-id hostname p))
        ]
      ]
    ]

set_hostname_by_mac-HasShape :
    (mac hostname : String) (p : ℕ) (net : Net)
    → HasShape net (set_hostname_by_mac mac hostname p net).1
unfolding set_hostname_by_mac
set_hostname_by_mac-HasShape mac hostname p net =
    elim (Bool-cases (not (is_usable_hostname hostname))) [
      | inl e ↦ rw (set_hostname_by_mac, e) (HasShape-refl net)
      | inr e ↦ elim (Option-cases (find_key Interface.mac_address mac net.l2_interfaces)) [
        | inl f ↦ rw (set_hostname_by_mac, e, f) (HasShape-refl net)
        | inr (row, f) ↦ elim (Option-cases row.node_id) [
          | inl g ↦ rw (set_hostname_by_mac, e, f, g) (HasShape-refl net)
          | inr (id, g) ↦
              rw (set_hostname_by_mac, e, f, g) (set_hostname_by_node_id-HasShape id hostname p net)
        ]
      ]
    ]

tag-HasShape : (c : Candidate) (id : ℕ) (net : Net) → HasShape net (tag c id net)
unfolding tag update_key
tag-HasShape c id net =
    HasShape-trans net _ _
      (updated-HasShape _ (λ n. record n { device_type = some (target_type c) }) net (λ n. refl))
      (set_hostname_by_mac-HasShape c.mac_address (or_blank (display_name c)) (priority c) _)

module _ (refused : String → Bool) (known : List String) (now : ℕ) where
  suggest-HasShape :
      (c : Candidate) (pass : Pass) → HasShape pass.net (suggest refused known now c pass).net
  unfolding suggest suggest_on
  suggest-HasShape c pass = elim (Bool-cases (elem c.mac_address known)) [
    | inl skipped ↦ rw skipped (HasShape-refl pass.net)
    | inr h ↦ rw h (elim (Option-cases (node_of_mac pass.net c.mac_address)) [
      | inl f ↦ rw f (HasShape-refl pass.net)
      | inr (id, f) ↦ rw f (elim (Bool-cases (is_retyped id pass.net)) [
        | inr g ↦ rw g (HasShape-refl pass.net)
        | inl g ↦ rw g (tag-HasShape c id pass.net)
      ])
    ])
  ]

  pub suggest_all-HasShape :
      (cs : List Candidate) (pass : Pass)
      → HasShape pass.net (suggest_all refused known now cs pass).net
  unfolding suggest_all
  suggest_all-HasShape [] pass = HasShape-refl pass.net
  suggest_all-HasShape (c ∷ cs) pass =
      HasShape-trans _ _ _ (suggest-HasShape c pass)
        (suggest_all-HasShape cs (suggest refused known now c pass))

overlay-HasShape : (v : Verified) (applied : ℕ) (net : Net) → HasShape net (overlay v applied net).1
unfolding overlay
overlay-HasShape v applied net = elim (Option-cases (node_of_mac net v.mac_address)) [
  | inl e ↦ rw (overlay, e) (HasShape-refl net)
  | inr (id, e) ↦
      elim (Bool-cases (is_blank v.user_given_name && is_blank v.confirmed_device_type)) [
        | inl f ↦ rw (overlay, e, f) (HasShape-refl net)
        | inr f ↦
            rw (overlay, e, f) (updated-HasShape (is_overlaid v id) (overlaid v) net (λ n. refl))
      ]
]

overlay_all-HasShape :
    (vs : List Verified) (applied : ℕ) (net : Net) → HasShape net (overlay_all vs applied net).1
unfolding overlay_all
overlay_all-HasShape [] applied net = HasShape-refl net
overlay_all-HasShape (v ∷ vs) applied net =
    HasShape-trans _ _ _ (overlay-HasShape v applied net) (overlay_all-HasShape vs _ _)

pub run_inventory_overlay_pass-HasShape :
    (inventory : Option (List Verified)) (net : Net)
    → HasShape net (run_inventory_overlay_pass inventory net).1
unfolding run_inventory_overlay_pass
run_inventory_overlay_pass-HasShape none net = HasShape-refl net
run_inventory_overlay_pass-HasShape (some vs) net = overlay_all-HasShape vs 0 net
