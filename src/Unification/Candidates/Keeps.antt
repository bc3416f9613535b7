-- ===== src/Unification/Candidates/Keeps.antt =====
-- What the candidate pass leaves alone (src/engine/unification.py: run_smart_switch_candidate_pass).
use net_lanvas.Base.{
  ℕ, String, Option, none, some, List, [], ◌∷◌, Bool, true, false, nat_eq, elem, map, eq_ℕ,
  eq_String, ◌≡◌, refl, ◌∙◌, arith, Bool-cases, Option-cases, inl, inr, eq_iff, ◌≢◌,
}
use mathlib.Core.Option
use net_lanvas.Base.Table.{select, find, delete}
use net_lanvas.Base.Keyed.{find_key, find_key-update_key, find_key-append, update_key}
use net_lanvas.Net.{Node, Interface, Net}
use net_lanvas.Inventory.{Device, upsert}
use net_lanvas.Hostname.{is_usable_hostname, set_hostname_by_mac}
use net_lanvas.Hostname.Priority.{find_node, find_node-set}
use net_lanvas.Unification.{node_of_mac}
use net_lanvas.Unification.Classify.{is_none_of}
use net_lanvas.Unification.Candidates.{
  Candidate, Pass, protected_device_types, is_retyped, tag, target_type, or_blank, display_name,
  priority, suggest_on, suggest, suggest_all, auto_write, confirmed, reconfirmed,
  is_human_confirmed, verified_macs, run_smart_switch_candidate_pass, is_stale,
}

-- A name for another node's address leaves the node alone.
set_hostname_by_mac-other :
    (k : ℕ) (mac name : String) (p : ℕ) (net : Net)
    → ((id : ℕ) → node_of_mac net mac ≡ some id → nat_eq id k ≡ false)
    → find_node k (set_hostname_by_mac mac name p net).1 ≡ find_node k net
unfolding set_hostname_by_mac
set_hostname_by_mac-other k mac name p net apart = elim (Bool-cases (is_usable_hostname name)) [
  | inr e ↦ ground arith
  | inl e ↦ elim (Option-cases (find_key Interface.mac_address mac net.l2_interfaces)) [
    | inl f ↦ ground arith
    | inr (i, f) ↦ elim (Option-cases i.node_id) [
      | inl g ↦ ground arith
      | inr (id, g) ↦ ground (arith, find_node-set k id name p net, apart id)
    ]
  ]
]

module _ (k : ℕ) (n : Node)
    (shielded : is_none_of protected_device_types n.device_type ≡ false) where
  tag-other :
      (c : Candidate) (id : ℕ) (net : Net)
      → node_of_mac net c.mac_address ≡ some id
      → nat_eq id k ≡ false
      → find_node k net ≡ some n
      → find_node k (tag c id net) ≡ some n
  unfolding tag
  tag-other c id net at apart e =
      let f = λ (x : Node). record x { device_type = some (target_type c) } in
      set_hostname_by_mac-other k c.mac_address (or_blank (display_name c)) (priority c)
        (record net { logical_nodes = update_key Node.id id f net.logical_nodes })
        (λ j h. ground arith)
      ∙ ground (arith, find_key-update_key Node.id k id f net.logical_nodes (λ x. refl))

  is_retyped-other :
      (id : ℕ) (net : Net)
      → is_retyped id net ≡ true
      → find_node k net ≡ some n
      → nat_eq id k ≡ false
  is_retyped-other id net h e = elim (Bool-cases (nat_eq id k)) [
    | inr p ↦ p
    | inl p ↦
        let same : id ≡ k = ground arith in
        let found : find_node id net ≡ some n = rw same e in absurd (ground arith)
  ]

  suggest-row :
      (refused : String → Bool) (known : List String) (now : ℕ) (c : Candidate) (pass : Pass)
      → find_node k pass.net ≡ some n
      → find_node k (suggest refused known now c pass).net ≡ some n
  unfolding suggest suggest_on
  suggest-row refused known now c pass e = elim (Bool-cases (elem c.mac_address known)) [
    | inl skipped ↦ rw skipped e
    | inr h ↦ rw h (elim (Option-cases (node_of_mac pass.net c.mac_address)) [
      | inl f ↦ rw f e
      | inr (id, f) ↦ rw f (elim (Bool-cases (is_retyped id pass.net)) [
        | inr g ↦ rw g e
        | inl g ↦ rw g (tag-other c id pass.net f (is_retyped-other id pass.net g e) e)
      ])
    ])
  ]

  suggest_all-row :
      (refused : String → Bool) (known : List String) (now : ℕ) (cs : List Candidate) (pass : Pass)
      → find_node k pass.net ≡ some n
      → find_node k (suggest_all refused known now cs pass).net ≡ some n
  unfolding suggest_all
  suggest_all-row refused known now [] pass e = e
  suggest_all-row refused known now (c ∷ cs) pass e =
      suggest_all-row refused known now cs (suggest refused known now c pass)
        (suggest-row refused known now c pass e)

-- A candidate never changes a node that is known to be infrastructure: where a node's type is one
-- of the protected ones, or it has none, its whole row is the same after the pass.
pub run_smart_switch_candidate_pass-protected :
    (refused : String → Bool) (now : ℕ) (candidates : List Candidate)
    (inventory : Option (List Device)) (net : Net) (k : ℕ) (n : Node)
    → is_none_of protected_device_types n.device_type ≡ false
    → find_node k net ≡ some n
    → find_node k (run_smart_switch_candidate_pass refused now candidates inventory net).1.net
      ≡ some n
unfolding run_smart_switch_candidate_pass
run_smart_switch_candidate_pass-protected refused now candidates inventory net k n shielded e =
    suggest_all-row k n shielded refused (verified_macs inventory) now
      (delete (is_stale now) candidates)
      (record { net = net; inventory = inventory; suggested = 0 }) e

-- the row of an address in inventory.db, where it could be read
abbrev pub device_of : String → Option (List Device) → Option Device
device_of mac none = none
device_of mac (some devices) = find_key Device.mac_address mac devices

upsert-other :
    (mac : String) (row : Device) (f : Device → Device) (devices : List Device) (d : Device)
    → row.mac_address ≢ mac
    → ((x : Device) → (f x).mac_address ≡ x.mac_address)
    → find_key Device.mac_address mac devices ≡ some d
    → find_key Device.mac_address mac (upsert row f devices) ≡ some d
unfolding upsert Option.or_else
upsert-other mac row f devices d apart keeps e = ground (
  arith,
  find_key-update_key Device.mac_address mac row.mac_address f devices keeps,
  find_key-append Device.mac_address mac devices (row ∷ []),
  eq_iff row.mac_address mac,
)

module _ (mac : String) (d : Device) where
  auto_write-other :
      (refused : String → Bool) (now : ℕ) (c : Candidate) (inventory : Option (List Device))
      → c.mac_address ≢ mac
      → device_of mac inventory ≡ some d
      → device_of mac (auto_write refused now c inventory) ≡ some d
  unfolding auto_write
  auto_write-other refused now c none apart e = e
  auto_write-other refused now c (some devices) apart e =
      ground
        (arith, upsert-other mac (confirmed now c) (reconfirmed now c) devices d apart (λ x. refl))

  module _ (refused : String → Bool) (known : List String) (now : ℕ) where
    suggest-device :
        (c : Candidate) (pass : Pass)
        → elem mac known ≡ true
        → device_of mac pass.inventory ≡ some d
        → device_of mac (suggest refused known now c pass).inventory ≡ some d
    unfolding suggest suggest_on
    suggest-device c pass listed e = elim (Bool-cases (elem c.mac_address known)) [
      | inl skipped ↦ rw skipped e
      | inr h ↦
          let apart : c.mac_address ≢ mac = λ same. absurd (ground arith) in
          ground (arith, auto_write-other refused now c pass.inventory apart)
    ]

    suggest_all-device :
        (cs : List Candidate) (pass : Pass)
        → elem mac known ≡ true
        → device_of mac pass.inventory ≡ some d
        → device_of mac (suggest_all refused known now cs pass).inventory ≡ some d
    unfolding suggest_all
    suggest_all-device [] pass listed e = e
    suggest_all-device (c ∷ cs) pass listed e =
        suggest_all-device cs (suggest refused known now c pass) listed
          (suggest-device c pass listed e)

pub listed :
    (mac : String) (devices : List Device) (d : Device)
    → find_key Device.mac_address mac devices ≡ some d
    → is_human_confirmed d ≡ true
    → elem mac (map Device.mac_address (select is_human_confirmed devices)) ≡ true
unfolding find_key find select
listed mac [] d e h = cc
listed mac (x ∷ devices) d e h =
    ground (arith, eq_iff x.mac_address mac, eq_iff mac x.mac_address, listed mac devices d)

-- What a person has confirmed in inventory.db stands: a row whose name or type is set is the same
-- after the pass, whatever answered under its address.
pub run_smart_switch_candidate_pass-confirmed :
    (refused : String → Bool) (now : ℕ) (candidates : List Candidate) (devices : List Device)
    (net : Net) (mac : String) (d : Device)
    → find_key Device.mac_address mac devices ≡ some d
    → is_human_confirmed d ≡ true
    → device_of mac
        (run_smart_switch_candidate_pass refused now candidates (some devices) net).1.inventory
      ≡ some d
unfolding run_smart_switch_candidate_pass
run_smart_switch_candidate_pass-confirmed refused now candidates devices net mac d e h =
    suggest_all-device mac d refused (verified_macs (some devices)) now
      (delete (is_stale now) candidates)
      (record { net = net; inventory = some devices; suggested = 0 }) (listed mac devices d e h) e
