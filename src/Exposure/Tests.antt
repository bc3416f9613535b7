-- ===== src/Exposure/Tests.antt =====
-- Runs of the exposure detectors.
use net_lanvas.Base.{[], ◌∷◌, true, false, ◌≡◌, refl, eq_String, length, eq_ℕ}
use net_lanvas.Base.Table.{find, update, select}
use net_lanvas.Base.Keyed.{find_key}
use net_lanvas.Alerting.{Conn, is_severity, create_alert}
use net_lanvas.Tracker.Texts.{find_interface, friendly_name, concat}
use net_lanvas.Credential.{CredentialCache, credential, unresponsive}
use net_lanvas.Credential.Tests.{of_community}
use net_lanvas.Inference.Tests.{tables}
use net_lanvas.Exposure.{find_finding, observe, observe_ip, observe_all, canonical_mac, is_default}
use net_lanvas.Exposure.Runs.{
  default_kind, default_sightings, run_snmp_default_community_detector,
  run_snmp_public_security_scan,
}
use net_lanvas.Exposure.Events.{IsEvent, observe_events}
use net_lanvas.Exposure.Separate.{detectors_separate}

abbrev conn : Conn
conn = record { net = tables; committed = tables; alerts_has_new = false }

abbrev cache : CredentialCache
cache = ("10.0.0.5", credential of_community) ∷ ("10.0.0.6", unresponsive) ∷ []

abbrev first_run : Conn
first_run = run_snmp_default_community_detector "high" 50000 cache conn

-- A second run confirms the finding and tells nothing new.
alerts_once :
    length (run_snmp_default_community_detector "high" 50060 cache first_run).net.alerts ≡ 1
unfolding run_snmp_default_community_detector observe_all default_sightings is_default observe_ip
    observe find_key find canonical_mac find_interface select find_finding update create_alert
    is_severity friendly_name concat
alerts_once = refl

observe_events_example :
    IsEvent
      (default_kind "10.0.0.5" "public")
      "cc"
      true
      conn
      (observe (default_kind "10.0.0.5" "public") "high" 50000 "cc" true conn)
unfolding is_severity
observe_events_example =
    observe_events (default_kind "10.0.0.5" "public") "high" 50000 "cc" true conn refl

detectors_separate_example :
    (find_finding "cc" "snmp_public_community_secondary"
        (run_snmp_default_community_detector "high" 50000 cache conn).net
      ≡ find_finding "cc" "snmp_public_community_secondary" conn.net)
    × (find_finding "cc" "snmp_default_community"
          (run_snmp_public_security_scan (λ ip. true) "high" 50000 cache conn).net
        ≡ find_finding "cc" "snmp_default_community" conn.net)
detectors_separate_example = detectors_separate (λ ip. true) "high" 50000 cache "cc" conn refl
