-- ===== src/Discovery/Names.antt =====
-- Which names the sweep may replace (src/pollers/hostname_discovery.py:
-- run_hostname_discovery_sweep).
use net_lanvas.Base.{
  ℕ, ◌≤◌, ◌<◌, String, Option, none, some, List, [], ◌∷◌, ◌≡◌, arith, Bool-cases, Option-cases, inl,
  inr, eq_String, eq_ℕ,
}
use net_lanvas.Base.Keyed.{find_key}
use net_lanvas.Net.{Node, Binding, Net}
use net_lanvas.Hostname.{
  is_usable_hostname, set_hostname_by_ip, node_of_binding, priority_mdns, priority_netbios,
}
use net_lanvas.Hostname.Priority.{find_node, find_node-set, offered}
use net_lanvas.Discovery.{Probe, offer_name, write_results}

offered-better :
    (name : String) (p : ℕ) (n : Node) → p < n.hostname_source_priority → offered name p n ≡ n
unfolding offered
offered-better name p n h = ground arith

module _ (id : ℕ) (n : Node) (better : priority_mdns < n.hostname_source_priority) where
  set_hostname_by_ip-row :
      (ip name : String) (p : ℕ) (net : Net)
      → p ≤ priority_mdns
      → find_node id net ≡ some n
      → find_node id (set_hostname_by_ip ip name p net).1 ≡ some n
  unfolding set_hostname_by_ip
  set_hostname_by_ip-row ip name p net low e = elim (Bool-cases (is_usable_hostname name)) [
    | inr q ↦ rw q e
    | inl q ↦
        elim (Option-cases (node_of_binding net (find_key Binding.ip_address ip net.l3_bindings))) [
          | inl o ↦ rw (q, o) e
          | inr (k, o) ↦
              rw (q, o) (ground (arith, find_node-set id k name p net, offered-better name p n))
        ]
  ]

  offer_name-row :
      (ip : String) (p : ℕ) (o : Option String) (net : Net)
      → p ≤ priority_mdns
      → find_node id net ≡ some n
      → find_node id (offer_name ip p o net) ≡ some n
  offer_name-row ip p none net low e = e
  offer_name-row ip p (some name) net low e = set_hostname_by_ip-row ip name p net low e

  -- No answer of any address changes or removes the row of a node whose name comes from a better
  -- source than mDNS, whatever names the answers of a sweep carry.
  pub write_results-row :
      (results : List (Option Probe)) (net : Net)
      → find_node id net ≡ some n
      → find_node id (write_results results net) ≡ some n
  unfolding write_results
  write_results-row [] net e = e
  write_results-row (none ∷ results) net e = write_results-row results net e
  write_results-row (some r ∷ results) net e =
      write_results-row results
        (offer_name r.ip priority_netbios r.nb_name (offer_name r.ip priority_mdns r.mdns_name net))
        (offer_name-row r.ip priority_netbios r.nb_name
          (offer_name r.ip priority_mdns r.mdns_name net) (omega arith)
          (offer_name-row r.ip priority_mdns r.mdns_name net (omega arith) e))
