-- ===== src/Alerting.antt =====
-- The alert inbox (src/engine/alerting.py). A database connection holds the tables as this
-- transaction sees them beside those last committed, and a statement that raises leaves them to
-- its caller's rollback.
mod Tests
pub mod Threshold
use net_lanvas.Base.{
  ℕ, zero, suc, ◌+◌, ◌*◌, String, Option, none, some, List, [], ◌∷◌, ◌++◌, Bool, true, false, ltb,
  leb, elem, ◌&&◌, is_some, not, if◌then◌else◌, eq_String,
}
use net_lanvas.Base.Table.{delete}
use net_lanvas.Base.Dict.{Dict, get, get_or}
use net_lanvas.Net.{Net, Alert, Transition, Finding}

abbrev pub severity_levels : List String
severity_levels = "info" ∷ "low" ∷ "medium" ∷ "high" ∷ "critical" ∷ []

abbrev pub enumerate_from : ℕ → List String → Dict String ℕ
enumerate_from i [] = []
enumerate_from i (level ∷ levels) = (level, i) ∷ enumerate_from (suc i) levels

abbrev pub severity_rank : Dict String ℕ
severity_rank = enumerate_from 0 severity_levels

-- The default -1 of an unknown severity is below every rank and below the default 5.
unfoldable pub severity_meets_threshold : String → String → Bool
severity_meets_threshold severity threshold = elim (get severity severity_rank) [
  | none ↦ false
  | some rank ↦ leb (get_or threshold 5 severity_rank) rank
]

pub record Conn : Type 0 where
  pub net : Net
  pub committed : Net
  -- the setting ALERTS_HAS_NEW of config.db, which is outside the transaction
  pub alerts_has_new : Bool

abbrev pub commit : Conn → Conn
commit conn = record conn { committed = conn.net }

abbrev pub rollback : Conn → Conn
rollback conn = record conn { net = conn.committed }

pub data Outcome {ℓ} (A : Type ℓ) : Type ℓ where
  ok : A → Conn → Outcome A
  raise : Conn → Outcome A

infixl 5 ◌>>=◌
abbrev pub ◌>>=◌ {ℓ} : {A B : Type ℓ} → Outcome A → (A → Conn → Outcome B) → Outcome B
ok a conn >>= f = f a conn
raise conn >>= f = raise conn

pub record NewAlert : Type 0 where
  pub alert_type : String
  pub severity : String
  pub title : String
  pub detail : Option String
  pub mac_address : Option String
  pub is_resolution : Bool

abbrev insert_alert : NewAlert → ℕ → Net → Net
insert_alert a now net = record net {
  alerts =
      net.alerts
      ++ record {
        id = net.next_alert_id;
        alert_type = a.alert_type;
        severity = a.severity;
        mac_address = a.mac_address;
        title = a.title;
        detail = a.detail;
        is_resolution = a.is_resolution;
        created_at = now;
        email_dispatched_at = none;
        webhook_dispatched_at = none;
      }
        ∷ [];
  next_alert_id = suc net.next_alert_id;
}

-- severity in SEVERITY_LEVELS
unfoldable pub is_severity : String → Bool
is_severity severity = elem severity severity_levels

-- ValueError on an unknown severity, or the new row's id. It commits whatever is pending.
unfoldable pub create_alert : NewAlert → ℕ → Conn → Outcome ℕ
create_alert a now conn =
    if is_severity a.severity
    then ok conn.net.next_alert_id
        (record (commit (record conn { net = insert_alert a now conn.net })) {
          alerts_has_new = true;
        })
    else raise conn

abbrev pub transition_retention_seconds : ℕ
transition_retention_seconds = 24 * 3600

abbrev pub retention_seconds : ℕ
retention_seconds = 365 * 86400

-- at < datetime('now', '-age seconds')
abbrev pub is_older : ℕ → ℕ → ℕ → Bool
is_older age now at = ltb (at + age) now

abbrev resolved_long_ago : ℕ → Finding → Bool
resolved_long_ago now f = elim f.resolved_at [
  | none ↦ false
  | some at ↦ is_older retention_seconds now at
]

-- The three DELETE statements; a failure of the database itself rolls them back.
unfoldable pub prune_alerting_history : ℕ → Net → Net
unfolding delete
prune_alerting_history now net = record net {
  device_state_transitions =
      delete (λ (t : Transition). is_older transition_retention_seconds now t.transitioned_at)
        net.device_state_transitions;
  alerts = delete (λ (a : Alert). is_older retention_seconds now a.created_at) net.alerts;
  device_findings = delete (resolved_long_ago now) net.device_findings;
}
