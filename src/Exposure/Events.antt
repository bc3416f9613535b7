-- ===== src/Exposure/Events.antt =====
-- One observation of a device (src/pollers/snmp_default_community_detector.py,
-- src/pollers/snmp_v3_available_detector.py: the body of the loops).
use net_lanvas.Base.{
  ℕ, ◌+◌, String, Option, none, some, List, [], ◌∷◌, Bool, true, false, eq_String, eq_refl, ◌≡◌,
  refl, ap, ◌∙◌, arith, length, length-append, Bool-cases, inl, inr,
}
use net_lanvas.Base.Table.{find, update}
use net_lanvas.Base.Keyed.{find-append}
use mathlib.Core.Option
use net_lanvas.Net.{Net, Finding}
use net_lanvas.Alerting.{Conn, Outcome, ok, raise, create_alert, is_severity, NewAlert}
use net_lanvas.Exposure.{
  Kind, is_of, find_finding, is_open, upsert_finding, resolve_finding, confirmed, observe, upserted,
  fresh_row, on_net, opened, closed,
}

module _ (p : Finding → Bool) (f : Finding → Finding) where
  find-update :
      (xs : List Finding)
      → ((x : Finding) → p (f x) ≡ p x)
      → find p (update p f xs) ≡ Option.map f (find p xs)
  unfolding find update
  find-update [] keeps = refl
  find-update (x ∷ xs) keeps = ground (arith, keeps x, find-update xs keeps)

find-fresh_row :
    (now : ℕ) (mac finding_type severity detail : String)
    → find (is_of mac finding_type) (fresh_row now mac finding_type severity detail ∷ [])
      ≡ some (fresh_row now mac finding_type severity detail)
unfolding find
find-fresh_row now mac finding_type severity detail = rw (eq_refl mac, eq_refl finding_type) refl

upserted-is_open :
    (now : ℕ) (mac finding_type severity detail : String) (o : Option Finding) (xs : List Finding)
    → find (is_of mac finding_type) xs ≡ o
    → is_open (find (is_of mac finding_type) (upserted now mac finding_type severity detail o xs))
      ≡ true
unfolding Option.or_else
upserted-is_open now mac finding_type severity detail none xs e = ap is_open (
    find-append (is_of mac finding_type) xs (fresh_row now mac finding_type severity detail ∷ [])
    ∙ ap
        (λ o.
          Option.or_else o
            (find (is_of mac finding_type) (fresh_row now mac finding_type severity detail ∷ [])))
        e
    ∙ find-fresh_row now mac finding_type severity detail)
upserted-is_open now mac finding_type severity detail (some f) xs e = ap is_open (
    find-update (is_of mac finding_type) (confirmed now detail) xs (λ x. refl)
    ∙ ap (Option.map (confirmed now detail)) e)

upsert_finding-is_open :
    (now : ℕ) (mac finding_type severity detail : String) (net : Net)
    → is_open
        (find_finding mac finding_type (upsert_finding now mac finding_type severity detail net))
      ≡ true
unfolding find_finding
upsert_finding-is_open now mac finding_type severity detail net =
    upserted-is_open now mac finding_type severity detail (find_finding mac finding_type net)
      net.device_findings refl

map-closed :
    (now : ℕ) (o : Option Finding)
    → is_open (Option.map (λ (f : Finding). record f { resolved_at = some now }) o) ≡ false
map-closed now none = refl
map-closed now (some f) = refl

resolve_finding-is_open :
    (now : ℕ) (mac finding_type : String) (net : Net)
    → is_open (find_finding mac finding_type (resolve_finding now mac finding_type net)) ≡ false
unfolding find_finding
resolve_finding-is_open now mac finding_type net =
    let close = λ (f : Finding). record f { resolved_at = some now } in
    rw (find-update (is_of mac finding_type) close net.device_findings (λ x. refl))
      (map-closed now (find_finding mac finding_type net))

abbrev changed : Bool → Bool → ℕ
changed true true = 0
changed true false = 1
changed false true = 1
changed false false = 0

abbrev pub conn_of : Outcome ℕ → Conn
conn_of (ok n conn) = conn
conn_of (raise conn) = conn

abbrev pub is_ok : Outcome ℕ → Bool
is_ok (ok n conn) = true
is_ok (raise conn) = false

-- The outcome of an observation: it does not raise, the finding is open exactly if the device is
-- exposed, and an alert was added exactly if that is a change.
abbrev pub IsEvent : Kind → String → Bool → Conn → Outcome ℕ → Type 0
IsEvent k mac is_exposed conn outcome =
    (is_ok outcome ≡ true)
    × (is_open (find_finding mac k.finding_type (conn_of outcome).net) ≡ is_exposed)
    × (length (conn_of outcome).net.alerts
        ≡ length conn.net.alerts
          + changed (is_open (find_finding mac k.finding_type conn.net)) is_exposed)

one_more :
    (a : NewAlert) (now : ℕ) (conn : Conn)
    → is_severity a.severity ≡ true
    → (is_ok (create_alert a now conn) ≡ true)
      × ((m t : String)
          → find_finding m t (conn_of (create_alert a now conn)).net ≡ find_finding m t conn.net)
      × (length (conn_of (create_alert a now conn)).net.alerts ≡ length conn.net.alerts + 1)
unfolding create_alert find_finding
one_more a now conn valid = rw valid (refl, λ m t. refl, length-append conn.net.alerts (_ ∷ []))

-- Under a severity of the scale an observation does not raise; afterwards the finding of its type
-- on the device is open exactly if the device is exposed, and one alert was added to the inbox if
-- that is a change, none if it is not.
pub observe_events :
    (k : Kind) (severity : String) (now : ℕ) (mac : String) (is_exposed : Bool) (conn : Conn)
    → is_severity severity ≡ true
    → IsEvent k mac is_exposed conn (observe k severity now mac is_exposed conn)
unfolding observe is_severity
observe_events k severity now mac true conn valid =
    let seen = on_net (upsert_finding now mac k.finding_type severity k.finding) conn in
    let active = upsert_finding-is_open now mac k.finding_type severity k.finding conn.net in
    elim (Bool-cases (is_open (find_finding mac k.finding_type conn.net))) [
      | inl e ↦ rw e (refl, active, omega arith)
      | inr e ↦
          let new = one_more (opened k severity mac seen.net) now seen valid in
          rw e (new.0, ap is_open (new.1 mac k.finding_type) ∙ active, new.2)
    ]
observe_events k severity now mac false conn valid =
    let gone = on_net (resolve_finding now mac k.finding_type) conn in
    let inactive = resolve_finding-is_open now mac k.finding_type conn.net in
    elim (Bool-cases (is_open (find_finding mac k.finding_type conn.net))) [
      | inl e ↦
          let new = one_more (closed k mac gone.net) now gone refl in
          rw e (new.0, ap is_open (new.1 mac k.finding_type) ∙ inactive, new.2)
      | inr e ↦ rw e (refl, e, omega arith)
    ]
