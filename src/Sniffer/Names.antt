-- ===== src/Sniffer/Names.antt =====
-- Which names the sniffer may replace (src/pollers/dhcp_sniffer.py: _handle_packet).
use net_lanvas.Base.{
  ℕ, ◌<◌, String, Option, none, some, List, [], ◌∷◌, Bool, ◌≡◌, arith, Bool-cases, eq_String, eq_ℕ,
  Option-cases, inl, inr,
}
use net_lanvas.Base.Keyed.{find_key}
use net_lanvas.RateLimit.{Attempts, is_rate_limited, record_attempt}
use net_lanvas.Net.{Node, Net, Interface}
use net_lanvas.Hostname.{
  is_usable_hostname, set_hostname_by_mac, set_hostname_by_node_id, priority_dhcp,
}
use net_lanvas.Hostname.Priority.{find_node, find_node-set, offered}
use net_lanvas.Sniffer.{
  Sniffer, parse_bootp_dhcp, handle_packet, handle_parsed, admit_name, store_name, rate_bucket,
  global_window_seconds, global_max_per_window, per_mac_window_seconds,
}
use net_lanvas.Sniffer.Caps.{handle_all}
use Prim.Native.Char.{Char}

-- The node has a name from a better source than DHCP.
abbrev pub Outranks : Node → Type 0
Outranks n = priority_dhcp < n.hostname_source_priority

-- the row of a node, where the database is open
abbrev pub row : ℕ → Sniffer → Option Node
row id s = elim s.network [ none ↦ none | some net ↦ find_node id net ]

offered-Outranks : (name : String) (n : Node) → Outranks n → offered name priority_dhcp n ≡ n
unfolding offered
offered-Outranks name n h = ground arith

module _ (id : ℕ) (n : Node) (better : Outranks n) where
  set_hostname_by_node_id-row :
      (k : ℕ) (name : String) (net : Net)
      → find_node id net ≡ some n
      → find_node id (set_hostname_by_node_id k name priority_dhcp net).1 ≡ some n
  set_hostname_by_node_id-row k name net e =
      ground (arith, find_node-set id k name priority_dhcp net, offered-Outranks name n better)

  set_hostname_by_mac-row :
      (mac name : String) (net : Net)
      → find_node id net ≡ some n
      → find_node id (set_hostname_by_mac mac name priority_dhcp net).1 ≡ some n
  unfolding set_hostname_by_mac
  set_hostname_by_mac-row mac name net e = elim (Bool-cases (is_usable_hostname name)) [
    | inr q ↦ rw q e
    | inl q ↦ elim (Option-cases (find_key Interface.mac_address mac net.l2_interfaces)) [
      | inl p ↦ rw (q, p) e
      | inr (i, p) ↦ elim (Option-cases i.node_id) [
        | inl o ↦ rw (q, p, o) e
        | inr (k, o) ↦ rw (q, p, o) (set_hostname_by_node_id-row k name net e)
      ]
    ]
  ]

  store_name-row :
      (mac name : String) (attempts : Attempts) (o : Option Net)
      → row id (record { attempts = attempts; network = o }) ≡ some n
      → row id (store_name mac name attempts o).1 ≡ some n
  store_name-row mac name attempts none e = e
  store_name-row mac name attempts (some net) e = set_hostname_by_mac-row mac name net e

  admit_name-row :
      (now : ℕ) (mac name : String) (s : Sniffer)
      → row id s ≡ some n
      → row id (admit_name now mac name s).1 ≡ some n
  unfolding admit_name
  admit_name-row now mac name s e =
      let checked =
        (is_rate_limited "global" rate_bucket global_max_per_window global_window_seconds now
          s.attempts).1 in
      let passed = (is_rate_limited mac rate_bucket 1 per_mac_window_seconds now checked).1 in
      elim (Bool-cases
        (is_rate_limited "global" rate_bucket global_max_per_window global_window_seconds now
          s.attempts).0) [
            | inl p ↦ rw p e
            | inr p ↦
                elim (Bool-cases
                  (is_rate_limited mac rate_bucket 1 per_mac_window_seconds now checked).0) [
                    | inl q ↦ rw (p, q) e
                    | inr q ↦
                        rw (p, q)
                          (store_name-row mac name
                            (record_attempt mac rate_bucket per_mac_window_seconds now (
                              record_attempt "global" rate_bucket global_window_seconds now passed))
                            s.network e)
                  ]
          ]

  handle_parsed-row :
      (now : ℕ) (o : Option (String × Option String)) (s : Sniffer)
      → row id s ≡ some n
      → row id (handle_parsed now o s).1 ≡ some n
  handle_parsed-row now none s e = e
  handle_parsed-row now (some (mac, none)) s e = e
  handle_parsed-row now (some (mac, some name)) s e = elim (Bool-cases (is_usable_hostname name)) [
    | inl q ↦ rw q (admit_name-row now mac name s e)
    | inr q ↦ rw q e
  ]

  handle_packet-row :
      (is_printable : Char → Bool) (now : ℕ) (bytes : List ℕ) (s : Sniffer)
      → row id s ≡ some n
      → row id (handle_packet is_printable now bytes s).1 ≡ some n
  unfolding handle_packet
  handle_packet-row is_printable now bytes s e =
      handle_parsed-row now (parse_bootp_dhcp is_printable bytes) s e

  -- No packet changes the row of a node whose name comes from a better source than DHCP, and
  -- none removes it, whoever sends how many of them.
  pub handle_all-row :
      (is_printable : Char → Bool) (packets : List (ℕ × List ℕ)) (s : Sniffer)
      → row id s ≡ some n
      → row id (handle_all is_printable packets s) ≡ some n
  unfolding handle_all
  handle_all-row is_printable [] s e = e
  handle_all-row is_printable ((now, bytes) ∷ packets) s e =
      handle_all-row is_printable packets (handle_packet is_printable now bytes s).1
        (handle_packet-row is_printable now bytes s e)
