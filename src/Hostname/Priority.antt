-- ===== src/Hostname/Priority.antt =====
-- Which of several names a node ends with (src/engine/hostname_registry.py).
use net_lanvas.Base.{
  ℕ, ◌≤◌, String, Option, none, some, true, false, ltb, nat_eq, if◌then◌else◌, eq_ℕ, ◌≡◌, ◌≢◌, refl,
  arith, Bool-cases, ap, inl, inr,
}
use mathlib.Core.Option
use net_lanvas.Base.Keyed.{find_key, find_key-update_key}
use net_lanvas.Base.Text.{strip}
use net_lanvas.Net.{Node, Net}
use net_lanvas.Hostname.{is_usable_hostname, is_ignored, write_hostname, set_hostname_by_node_id}

abbrev pub find_node : ℕ → Net → Option Node
find_node j net = find_key Node.id j net.logical_nodes

-- A name offered to one node: taken if it is usable and no better one is there.
unfoldable pub offered : String → ℕ → Node → Node
offered hostname priority n =
    if is_usable_hostname hostname
    then if ltb priority n.hostname_source_priority then n else write_hostname hostname priority n
    else n

write_hostname_id :
    (hostname : String) (priority : ℕ) (n : Node) → (write_hostname hostname priority n).id ≡ n.id
unfolding write_hostname
write_hostname_id hostname priority n = ground arith

named : String → ℕ → Node → Node
named hostname priority n = record n {
  hostname = some (strip hostname);
  hostname_source_priority = priority;
}

write_hostname-ignored :
    (hostname : String) (priority : ℕ) (n : Node)
    → is_ignored n ≡ true
    → write_hostname hostname priority n ≡ n
unfolding write_hostname
write_hostname-ignored hostname priority n e = ground arith

write_hostname-named :
    (hostname : String) (priority : ℕ) (n : Node)
    → is_ignored n ≡ false
    → write_hostname hostname priority n ≡ named hostname priority n
unfolding write_hostname named
write_hostname-named hostname priority n e = ground arith

is_ignored-named :
    (hostname : String) (priority : ℕ) (n : Node)
    → is_ignored (named hostname priority n) ≡ is_ignored n
unfolding is_ignored named
is_ignored-named hostname priority n = refl

named-facts :
    (a b : String) (p q : ℕ) (n : Node)
    → ((named a p n).hostname_source_priority ≡ p) × (named a p (named b q n) ≡ named a p n)
unfolding named
named-facts a b p q n = (refl, refl)

pub find_node-set :
    (j i : ℕ) (hostname : String) (priority : ℕ) (net : Net)
    → find_node j (set_hostname_by_node_id i hostname priority net).1 ≡ (
        if nat_eq i j
        then Option.map (offered hostname priority) (find_node j net)
        else find_node j net)
unfolding set_hostname_by_node_id offered
find_node-set j i hostname priority net = ground (
  arith,
  find_key-update_key Node.id j i (write_hostname hostname priority) net.logical_nodes
      (write_hostname_id hostname priority),
)

offered_comm :
    (a b : String) (p q : ℕ) (n : Node)
    → p ≢ q
    → offered a p (offered b q n) ≡ offered b q (offered a p n)
unfolding offered
offered_comm a b p q n apart = elim (Bool-cases (is_ignored n)) [
  | inl e ↦ ground (arith, write_hostname-ignored a p n e, write_hostname-ignored b q n e)
  | inr e ↦ ground (
    arith,
    write_hostname-named a p n e,
    write_hostname-named b q n e,
    write_hostname-named a p (named b q n),
    write_hostname-named b q (named a p n),
    is_ignored-named a p n,
    is_ignored-named b q n,
    named-facts a b p q n,
    named-facts b a q p n,
  )
]

map-offered_comm :
    (a b : String) (p q : ℕ) (o : Option Node)
    → p ≢ q
    → Option.map (offered a p) (Option.map (offered b q) o)
      ≡ Option.map (offered b q) (Option.map (offered a p) o)
map-offered_comm a b p q none apart = refl
map-offered_comm a b p q (some n) apart = ap some (offered_comm a b p q n apart)

offered-rises :
    (hostname : String) (priority : ℕ) (n : Node)
    → n.hostname_source_priority ≤ (offered hostname priority n).hostname_source_priority
unfolding offered write_hostname
offered-rises hostname priority n = ground arith

-- Two mechanisms of different priorities may report in either order: every node ends with the
-- same name and priority, also where a name is unusable or the trigger drops the write.
pub set_hostname_by_node_id_comm :
    (i k : ℕ) (a b : String) (p q : ℕ) (net : Net) (j : ℕ)
    → p ≢ q
    → find_node j (set_hostname_by_node_id i a p (set_hostname_by_node_id k b q net).1).1
      ≡ find_node j (set_hostname_by_node_id k b q (set_hostname_by_node_id i a p net).1).1
set_hostname_by_node_id_comm i k a b p q net j apart = ground (
  arith,
  find_node-set j i a p (set_hostname_by_node_id k b q net).1,
  find_node-set j k b q net,
  find_node-set j k b q (set_hostname_by_node_id i a p net).1,
  find_node-set j i a p net,
  map-offered_comm a b p q (find_node j net) apart,
)

-- Whoever writes to whichever node, no node's name loses priority, and no node appears or goes.
pub set_hostname_by_node_id-rises :
    (i : ℕ) (hostname : String) (priority : ℕ) (net : Net) (j : ℕ) (n : Node)
    → find_node j net ≡ some n
    → (m : Node) × (find_node j (set_hostname_by_node_id i hostname priority net).1 ≡ some m)
      × (n.hostname_source_priority ≤ m.hostname_source_priority)
set_hostname_by_node_id-rises i hostname priority net j n found = elim (Bool-cases (nat_eq i j)) [
  | inl e ↦ (
    offered hostname priority n,
    ground (arith, find_node-set j i hostname priority net),
    offered-rises hostname priority n,
  )
  | inr e ↦ (n, ground (arith, find_node-set j i hostname priority net), ground arith)
]
