-- ===== src/Inference/Dark/Safe.antt =====
-- What one step leaves alone (src/engine/inference_engine.py: run_dark_matter_detection).
use net_lanvas.Base.{
  eq_pair, subst, ◌%◌, ℕ, suc, ◌<◌, String, Option, none, some, List, [], ◌∷◌, ◌++◌, Bool, true,
  false, ◌&&◌, nat_eq, eq_ℕ, eq_String, ◌==◌, ◌≡◌, refl, ◌∙◌, arith, All, All-append, Bool-cases,
  Option-cases, inl, inr, ap,
}
use mathlib.Core.Option
use net_lanvas.Base.Table.{find, All-delete, find-All}
use net_lanvas.Base.Keyed.{
  find_key, update_key, find_key-append, find_key-delete_key, find_key-key, find_key-update_miss,
  has_key,
}
use net_lanvas.Net.{Node, Interface, Binding, Link, Net}
use net_lanvas.Net.Pseudo.{pseudo_mac_prefix, pseudo_ip}
use net_lanvas.Base.Number.{parse_int}
use net_lanvas.Base.Text.{split_on}
use net_lanvas.Hostname.Priority.{find_node}
use net_lanvas.Unification.{of_node, delete_node}
use net_lanvas.Unification.Links.{All-update}
use net_lanvas.Unification.Consolidation.{delete_found}
use net_lanvas.Inference.Pseudo.{like_prefix}
use net_lanvas.Inference.Dark.{
  Port, Marks, judge, judge_all, judge_link, judge_target, is_link_of, binding_of, is_wap_type,
  is_crowded, type_of_mac,
}
use net_lanvas.Inference.Dark.Identity.{
  Identity, identity, joined_hex, hex2, quad, is_quad, numbers,
}
use net_lanvas.Inference.Dark.Links.{downlink, link, link_downstream}
use net_lanvas.Inference.Dark.Pass.{rename, is_renamed, place_stand_in, stand_in_node}

-- The address is that of a pseudo device.
abbrev pub IsPseudo : String → Type 0
IsPseudo mac = like_prefix pseudo_mac_prefix mac ≡ true

-- No interface of the node is a pseudo device's.
abbrev pub IsReal : ℕ → Net → Type 0
IsReal k net =
    All (λ (i : Interface). IsPseudo i.mac_address → of_node k i ≡ false) net.l2_interfaces

found_first :
    (k : ℕ) (nodes new : List Node) {n : Node}
    → find_key Node.id k nodes ≡ some n
    → find_key Node.id k (nodes ++ new) ≡ some n
unfolding Option.or_else
found_first k nodes new e = ground (arith, find_key-append Node.id k nodes new)

pub and_left : (a b : Bool) → (a && b) ≡ true → a ≡ true
and_left true b h = refl
and_left false b h = h

quad-IsPseudo :
    (xs : List (Option ℕ)) (port : ℕ) (ip : Option String) {who : Identity}
    → quad xs port ip ≡ some who
    → IsPseudo who.mac
quad-IsPseudo (some a ∷ some b ∷ some c ∷ some d ∷ []) port (some ip) {who} e =
    let same : joined_hex (hex2 b) (hex2 c) (hex2 d) (hex2 (port % 256)) ≡ who.mac = ground arith in
    subst IsPseudo same refl
quad-IsPseudo _ port _ e = cc

-- Every identity is that of a pseudo device.
pub identity-IsPseudo : (port : Port) {who : Identity} → identity port ≡ some who → IsPseudo who.mac
unfolding identity
identity-IsPseudo (switch_ip, port) {who} e = elim (Option-cases (parse_int port)) [
  | inl p ↦ absurd (ground arith)
  | inr (number, p) ↦ elim (Bool-cases (is_quad (split_on b'.' switch_ip))) [
    | inl q ↦
        quad-IsPseudo (numbers (split_on b'.' switch_ip)) number (pseudo_ip switch_ip port)
          {who = who} (ground arith)
    | inr q ↦
        let same : joined_hex "00" "00" "00" (hex2 (number % 256)) ≡ who.mac = ground arith in
        subst IsPseudo same refl
  ]
]

module _ (k : ℕ) (n : Node) where
  -- The node is as it was, and stays out of reach.
  pub record IsSafe (net : Net) : Type 0 where
    pub row : find_node k net ≡ some n
    pub real : IsReal k net
    pub fresh : k < net.next_node_id

  pub of_found :
      (mac : String) (i : Interface) (net : Net)
      → IsSafe net
      → IsPseudo mac
      → find_key Interface.mac_address mac net.l2_interfaces ≡ some i
      → of_node k i ≡ false
  unfolding find_key
  of_found mac i net s p e =
      find-All (λ (x : Interface). IsPseudo x.mac_address → of_node k x ≡ false)
        (has_key Interface.mac_address mac) net.l2_interfaces e s.real
        (rw (find_key-key Interface.mac_address mac net.l2_interfaces e) p)

  pub rename-IsSafe :
      (o : Option ℕ) (name : String) (net : Net)
      → ((id : ℕ) → o ≡ some id → nat_eq id k ≡ false)
      → IsSafe net
      → IsSafe (rename o name net)
  rename-IsSafe none name net apart s = s
  rename-IsSafe (some id) name net apart s =
      let own : n.id ≡ k = find_key-key Node.id k net.logical_nodes s.row in
      record {
        row =
            find_key-update_miss Node.id k (is_renamed id) (λ x. record x { hostname = some name })
              net.logical_nodes (λ x. refl) (ground (arith, apart id)) s.row;
        real = s.real;
        fresh = s.fresh;
      }

  pub place_stand_in-IsSafe :
      (mac name vendor : String) (net : Net)
      → IsPseudo mac
      → IsSafe net
      → IsSafe (
          place_stand_in (find_key Interface.mac_address mac net.l2_interfaces) mac name vendor net)
  unfolding update_key
  place_stand_in-IsSafe mac name vendor net p s =
      elim (Option-cases (find_key Interface.mac_address mac net.l2_interfaces)) [
        | inl e ↦
            rw (place_stand_in, e)
              (record {
                row =
                    found_first k net.logical_nodes (stand_in_node net.next_node_id name ∷ [])
                      s.row;
                real = All-append _ net.l2_interfaces _ s.real (λ q. ground (arith, s.fresh), tt);
                fresh = omega (arith, s.fresh);
              })
        | inr (i, e) ↦
            let apart = of_found mac i net s p e in
            let renamed = rename-IsSafe i.node_id name net (λ id q. ground arith) s in
            rw (place_stand_in, e)
              (record {
                row = renamed.row;
                real =
                    All-update _ _ (has_key Interface.mac_address mac) _
                      (rename i.node_id name net).l2_interfaces (λ x h q. h) (λ x h q. h)
                      renamed.real;
                fresh = renamed.fresh;
              })
      ]

  -- Writes to other tables do not matter.
  pub same-IsSafe :
      (a b : Net)
      → b.logical_nodes ≡ a.logical_nodes
      → b.l2_interfaces ≡ a.l2_interfaces
      → b.next_node_id ≡ a.next_node_id
      → IsSafe a
      → IsSafe b
  same-IsSafe a b nodes interfaces next s = record {
    row = ap (find_key Node.id k) nodes ∙ s.row;
    real = rw interfaces s.real;
    fresh = rw next s.fresh;
  }

  pub link_downstream-IsSafe :
      (ip : String) (port : ℕ) (ambiguous : Bool) (targets : List (String × Option ℕ)) (net : Net)
      → IsSafe net
      → IsSafe (link_downstream ip port ambiguous targets net)
  unfolding link_downstream link
  link_downstream-IsSafe ip port ambiguous [] net s = s
  link_downstream-IsSafe ip port ambiguous ((target, vlan) ∷ targets) net s =
      elim (Bool-cases (target == ip)) [
        | inl e ↦ rw (link_downstream, e) (link_downstream-IsSafe ip port ambiguous targets net s)
        | inr e ↦
            rw (link_downstream, e)
              (link_downstream-IsSafe ip (suc port) ambiguous targets _
                (same-IsSafe net (downlink ip port target vlan ambiguous net) refl refl refl s))
      ]

  judge_target-IsSafe :
      (port : Port) (o : Option Binding) (ambiguous : List Port) (net : Net)
      → IsSafe net
      → IsSafe (judge_target port o (ambiguous, net)).1
  judge_target-IsSafe port none ambiguous net s = s
  judge_target-IsSafe (switch_ip, port) (some b) ambiguous net s =
      elim (Bool-cases (
        is_wap_type (type_of_mac b.mac_address net)
        && is_crowded (switch_ip, port) b.ip_address net)) [
          | inl e ↦ rw e (same-IsSafe net _ refl refl refl s)
          | inr e ↦ rw e s
        ]

  judge_link-IsSafe :
      (port : Port) (o : Option Link) (ambiguous : List Port) (net : Net)
      → IsSafe net
      → IsSafe (judge_link port o (ambiguous, net)).1
  judge_link-IsSafe (switch_ip, port) none ambiguous net s = same-IsSafe net _ refl refl refl s
  judge_link-IsSafe port (some l) ambiguous net s =
      judge_target-IsSafe port (binding_of l.remote_system_name net) ambiguous net s

  pub judge_all-IsSafe :
      (ports : List Port) (marks : Marks) → IsSafe marks.1 → IsSafe (judge_all ports marks).1
  unfolding judge_all judge
  judge_all-IsSafe [] marks s = s
  judge_all-IsSafe (port ∷ ports) (ambiguous, net) s =
      judge_all-IsSafe ports (judge port (ambiguous, net))
        (judge_link-IsSafe port (find (is_link_of port) net.infrastructure_links) ambiguous net s)

  pub delete_found-IsSafe :
      (o : Option ℕ) (net : Net)
      → ((id : ℕ) → o ≡ some id → nat_eq id k ≡ false)
      → IsSafe net
      → IsSafe (delete_found o net)
  unfolding delete_node
  delete_found-IsSafe none net apart s = s
  delete_found-IsSafe (some id) net apart s = record {
    row = ground (arith, find_key-delete_key Node.id k id net.logical_nodes, apart id, s.row);
    real = All-delete _ (of_node id) net.l2_interfaces s.real;
    fresh = s.fresh;
  }
