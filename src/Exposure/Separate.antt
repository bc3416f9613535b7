-- ===== src/Exposure/Separate.antt =====
-- The detectors do not touch each other's findings
-- (src/pollers/snmp_default_community_detector.py).
use net_lanvas.Base.{
  ℕ, String, Option, none, some, List, [], ◌∷◌, Bool, is_empty, eq_String, eq_iff, ◌≡◌, ◌≢◌, refl,
  ap, ◌∙◌, arith, All, Bool-cases, inl, inr,
}
use net_lanvas.Base.Table.{find, update}
use net_lanvas.Base.Text.{differ}
use net_lanvas.Base.Keyed.{find-append, find_key}
use mathlib.Core.Option
use net_lanvas.Net.{Finding, Binding}
use net_lanvas.Alerting.{Conn, Outcome, ok, raise, create_alert, is_severity, NewAlert}
use net_lanvas.Credential.{CredentialCache, community_of}
use net_lanvas.Exposure.{
  Kind, Sighting, is_of, find_finding, is_open, upserted, fresh_row, upsert_finding,
  resolve_finding, confirmed, on_net, opened, closed, observe, observe_binding, observe_ip,
  observe_all, canonical_mac, settle,
}
use net_lanvas.Exposure.Runs.{
  add_default, default_sightings, run_snmp_default_community_detector, scan_targets,
  public_sightings, run_snmp_public_security_scan,
}

-- a finding `m` of type `t`, beside the type that a detector writes
module _ (m t own : String) (apart : own ≢ t) where
  find-update_other :
      (mac : String) (f : Finding → Finding) (xs : List Finding)
      → ((x : Finding) → is_of m t (f x) ≡ is_of m t x)
      → find (is_of m t) (update (is_of mac own) f xs) ≡ find (is_of m t) xs
  unfolding find update
  find-update_other mac f [] keeps = refl
  find-update_other mac f (x ∷ xs) keeps = ground (
    arith,
    keeps x,
    eq_iff x.finding_type own,
    eq_iff x.finding_type t,
    find-update_other mac f xs keeps,
  )

  or_else-none_last : (o : Option Finding) → Option.or_else o none ≡ o
  unfolding Option.or_else
  or_else-none_last none = refl
  or_else-none_last (some f) = refl

  fresh_row-other :
      (now : ℕ) (mac severity detail : String)
      → find (is_of m t) (fresh_row now mac own severity detail ∷ []) ≡ none
  unfolding find
  fresh_row-other now mac severity detail = ground (arith, eq_iff own t)

  upserted-other :
      (now : ℕ) (mac severity detail : String) (o : Option Finding) (xs : List Finding)
      → find (is_of m t) (upserted now mac own severity detail o xs) ≡ find (is_of m t) xs
  upserted-other now mac severity detail none xs =
      find-append (is_of m t) xs (fresh_row now mac own severity detail ∷ [])
      ∙ ap (Option.or_else (find (is_of m t) xs)) (fresh_row-other now mac severity detail)
      ∙ or_else-none_last (find (is_of m t) xs)
  upserted-other now mac severity detail (some f) xs =
      find-update_other mac (confirmed now detail) xs (λ x. refl)

-- the finding, in the transaction and in what was committed
abbrev Holds : String → String → Option Finding → Conn → Type 0
Holds m t r conn = (find_finding m t conn.net ≡ r) × (find_finding m t conn.committed ≡ r)

abbrev After : String → String → Option Finding → Outcome ℕ → Type 0
After m t r (ok n conn) = Holds m t r conn
After m t r (raise conn) = Holds m t r conn

module _ (m t : String) where
  create_alert-After :
      (a : NewAlert) (now : ℕ) (r : Option Finding) (conn : Conn)
      → Holds m t r conn
      → After m t r (create_alert a now conn)
  unfolding create_alert find_finding
  create_alert-After a now r conn h = elim (Bool-cases (is_severity a.severity)) [
    | inl e ↦ rw e (h.0, h.0)
    | inr e ↦ rw e h
  ]

  upsert_finding-Holds :
      (own : String) (now : ℕ) (mac severity detail : String) (r : Option Finding) (conn : Conn)
      → own ≢ t
      → Holds m t r conn
      → Holds m t r (on_net (upsert_finding now mac own severity detail) conn)
  unfolding find_finding
  upsert_finding-Holds own now mac severity detail r conn apart h = (
    upserted-other m t own apart now mac severity detail (find_finding mac own conn.net)
          conn.net.device_findings
        ∙ h.0,
    h.1,
  )

  resolve_finding-Holds :
      (own : String) (now : ℕ) (mac : String) (r : Option Finding) (conn : Conn)
      → own ≢ t
      → Holds m t r conn
      → Holds m t r (on_net (resolve_finding now mac own) conn)
  unfolding find_finding
  resolve_finding-Holds own now mac r conn apart h =
      (find-update_other m t own apart mac _ conn.net.device_findings (λ x. refl) ∙ h.0, h.1)

  observe-After :
      (k : Kind) (severity : String) (now : ℕ) (mac : String) (e : Bool) (r : Option Finding)
      (conn : Conn)
      → k.finding_type ≢ t
      → Holds m t r conn
      → After m t r (observe k severity now mac e conn)
  unfolding observe
  observe-After k severity now mac e r conn apart h =
      let own = k.finding_type in
      let seen = on_net (upsert_finding now mac own severity k.finding) conn in
      let gone = on_net (resolve_finding now mac own) conn in
      let h-seen = upsert_finding-Holds own now mac severity k.finding r conn apart h in
      let h-gone = resolve_finding-Holds own now mac r conn apart h in
      elim (Bool-cases (is_open (find_finding mac own conn.net))) [
        | inl p ↦ elim (Bool-cases e) [
          | inl q ↦ rw (q, p) h-seen
          | inr q ↦ rw (q, p) (create_alert-After (closed k mac gone.net) now r gone h-gone)
        ]
        | inr p ↦ elim (Bool-cases e) [
          | inl q ↦
              rw (q, p) (create_alert-After (opened k severity mac seen.net) now r seen h-seen)
          | inr q ↦ rw (q, p) h
        ]
      ]

  observe_binding-After :
      (k : Kind) (severity : String) (now : ℕ) (e : Bool) (r : Option Finding) (conn : Conn)
      (o : Option Binding)
      → k.finding_type ≢ t
      → Holds m t r conn
      → After m t r (observe_binding k severity now e conn o)
  observe_binding-After k severity now e r conn none apart h = h
  observe_binding-After k severity now e r conn (some b) apart h =
      observe-After k severity now (canonical_mac conn.net b.mac_address) e r conn apart h

  -- the rest of a run goes on where the observation did not raise
  continue-After :
      (severity : String) (now : ℕ) (r : Option Finding) (sightings : List Sighting)
      (outcome : Outcome ℕ)
      → ((conn : Conn) → Holds m t r conn → After m t r (observe_all severity now sightings conn))
      → After m t r outcome
      → After m t r (elim outcome [
        | ok n after ↦ observe_all severity now sightings after
        | raise after ↦ raise after
      ])
  continue-After severity now r sightings (ok n conn) rest h = rest conn h
  continue-After severity now r sightings (raise conn) rest h = h

  observe_all-After :
      (severity : String) (now : ℕ) (r : Option Finding) (sightings : List Sighting) (conn : Conn)
      → All (λ (s : Sighting). s.kind.finding_type ≢ t) sightings
      → Holds m t r conn
      → After m t r (observe_all severity now sightings conn)
  unfolding observe_all observe_ip
  observe_all-After severity now r [] conn own_kind h = h
  observe_all-After severity now r (s ∷ sightings) conn (apart, own_kind) h =
      continue-After severity now r sightings
        (observe_ip s.kind severity now s.ip s.is_exposed conn)
        (λ after k. observe_all-After severity now r sightings after own_kind k)
        (observe_binding-After s.kind severity now s.is_exposed r conn
          (find_key Binding.ip_address s.ip conn.net.l3_bindings) apart h)

  settle-find :
      (r : Option Finding) (outcome : Outcome ℕ)
      → After m t r outcome
      → find_finding m t (settle outcome).net ≡ r
  settle-find r (ok n conn) h = h.0
  settle-find r (raise conn) h = h.1

add_default-apart :
    (t ip : String) (o : Option String) (rest : List Sighting)
    → "snmp_default_community" ≢ t
    → All (λ (s : Sighting). s.kind.finding_type ≢ t) rest
    → All (λ (s : Sighting). s.kind.finding_type ≢ t) (add_default ip o rest)
add_default-apart t ip none rest h k = k
add_default-apart t ip (some community) rest h k = (h, k)

default_sightings-apart :
    (t : String) (cache : CredentialCache)
    → "snmp_default_community" ≢ t
    → All (λ (s : Sighting). s.kind.finding_type ≢ t) (default_sightings cache)
unfolding default_sightings
default_sightings-apart t [] h = tt
default_sightings-apart t ((ip, cached) ∷ cache) h =
    add_default-apart t ip (community_of cached) (default_sightings cache) h
      (default_sightings-apart t cache h)

public_sightings-apart :
    (t : String) (responds : String → Bool) (ips : List String)
    → "snmp_public_community_secondary" ≢ t
    → All (λ (s : Sighting). s.kind.finding_type ≢ t) (public_sightings responds ips)
unfolding public_sightings
public_sightings-apart t responds [] h = tt
public_sightings-apart t responds (ip ∷ ips) h = (h, public_sightings-apart t responds ips h)

-- The two checks of default communities can never open, resolve or change each other's findings,
-- whatever the cache holds, whatever answers and also where a run raises and is rolled back: of
-- every device the passive detector leaves the finding of the active scan as it was, and the
-- active scan that of the passive detector. The connection must be fresh, with nothing pending.
pub detectors_separate :
    (responds : String → Bool) (severity : String) (now : ℕ) (cache : CredentialCache)
    (mac : String) (conn : Conn)
    → conn.committed ≡ conn.net
    → (find_finding mac "snmp_public_community_secondary"
          (run_snmp_default_community_detector severity now cache conn).net
        ≡ find_finding mac "snmp_public_community_secondary" conn.net)
      × (find_finding mac "snmp_default_community"
            (run_snmp_public_security_scan responds severity now cache conn).net
          ≡ find_finding mac "snmp_default_community" conn.net)
unfolding run_snmp_default_community_detector run_snmp_public_security_scan
detectors_separate responds severity now cache mac conn fresh =
    let active : String = "snmp_public_community_secondary" in
    let passive : String = "snmp_default_community" in
    (
      settle-find mac active (find_finding mac active conn.net)
          (observe_all severity now (default_sightings cache) conn)
          (observe_all-After mac active severity now (find_finding mac active conn.net)
            (default_sightings cache) conn
            (default_sightings-apart active cache (differ passive active (λ e. omega (arith, e))))
            (refl, ap (find_finding mac active) fresh)),
      scanned,
    )
  where
    scan :
        All
          (λ (s : Sighting). s.kind.finding_type ≢ "snmp_default_community")
          (public_sightings responds (scan_targets cache))
    scan =
        public_sightings-apart "snmp_default_community" responds (scan_targets cache) (
          differ "snmp_public_community_secondary" "snmp_default_community" (λ e. omega (arith, e)))

    scanned :
        find_finding mac "snmp_default_community"
          (run_snmp_public_security_scan responds severity now cache conn).net
        ≡ find_finding mac "snmp_default_community" conn.net
    scanned = elim (Bool-cases (is_empty (scan_targets cache))) [
      | inl e ↦ rw e refl
      | inr e ↦ rw e (
          settle-find mac "snmp_default_community"
            (find_finding mac "snmp_default_community" conn.net)
            (observe_all severity now (public_sightings responds (scan_targets cache)) conn)
            (observe_all-After mac "snmp_default_community" severity now
              (find_finding mac "snmp_default_community" conn.net)
              (public_sightings responds (scan_targets cache)) conn scan
              (refl, ap (find_finding mac "snmp_default_community") fresh)))
    ]
