-- ===== src/Exposure/Runs.antt =====
-- The three detectors (src/pollers/snmp_default_community_detector.py,
-- src/pollers/snmp_v3_available_detector.py). Whether an address answers to "public" is a
-- parameter, which is the probe of src/engine/snmp_adapter.py over the network.
use net_lanvas.Base.{
  ℕ, String, Option, none, some, List, [], ◌∷◌, Bool, true, false, is_empty, if◌then◌else◌,
  eq_String,
}
use net_lanvas.Base.Dict.{get}
use net_lanvas.Alerting.{Conn}
use net_lanvas.Tracker.Texts.{concat}
use net_lanvas.Credential.{
  CredentialCache, credential, unresponsive, waiting, community_of, v2c, v3,
}
use net_lanvas.Exposure.{Kind, Sighting, is_default, observe_all, settle}

abbrev pub default_kind : String → String → Kind
default_kind ip community = record {
  finding_type = "snmp_default_community";
  resolved_type = "snmp_default_community_resolved";
  finding =
      concat (ip ∷ " responds to the default SNMP community string '" ∷ community ∷ "'." ∷ []);
  title = λ name. concat (name ∷ " is using a default SNMP community string" ∷ []);
  detail =
      concat (ip ∷ " responds to '" ∷ community ∷ "' -- change this to a non-default value." ∷ []);
  resolved_title =
      λ name. concat (name ∷ " is no longer using a default SNMP community string" ∷ []);
  resolved_detail = concat (ip ∷ " now responds with a non-default credential." ∷ []);
}

-- nothing is said of an address whose entry has no community
abbrev pub add_default : String → Option String → List Sighting → List Sighting
add_default ip none rest = rest
add_default ip (some community) rest =
    record { ip = ip; kind = default_kind ip community; is_exposed = is_default community } ∷ rest

unfoldable pub default_sightings : CredentialCache → List Sighting
default_sightings [] = []
default_sightings ((ip, cached) ∷ cache) =
    add_default ip (community_of cached) (default_sightings cache)

unfoldable pub run_snmp_default_community_detector : String → ℕ → CredentialCache → Conn → Conn
run_snmp_default_community_detector severity now cache conn =
    settle (observe_all severity now (default_sightings cache) conn)

abbrev pub public_kind : String → Kind
public_kind ip = record {
  finding_type = "snmp_public_community_secondary";
  resolved_type = "snmp_public_community_secondary_resolved";
  finding = concat (
      ip
      ∷ " also responds to the default SNMP community string 'public', separate from its configured credential."
      ∷ []);
  title = λ name. concat (name ∷ " also accepts the default SNMP community string" ∷ []);
  detail = concat (
      ip
      ∷ " responds to 'public' even though it has its own configured credential -- change this to a non-default value."
      ∷ []);
  resolved_title =
      λ name. concat (name ∷ " no longer accepts the default SNMP community string" ∷ []);
  resolved_detail = concat (ip ∷ " no longer responds to 'public'." ∷ []);
}

-- getattr(cred, "community", None) or ""
abbrev text_or_empty : Option String → String
text_or_empty none = ""
text_or_empty (some s) = s

unfoldable pub scan_targets : CredentialCache → List String
scan_targets [] = []
scan_targets ((ip, unresponsive) ∷ cache) = scan_targets cache
scan_targets ((ip, waiting) ∷ cache) = ip ∷ scan_targets cache
scan_targets ((ip, credential c) ∷ cache) =
    let rest = scan_targets cache in
    if is_default (text_or_empty c.community) then rest else ip ∷ rest

unfoldable pub public_sightings : (String → Bool) → List String → List Sighting
public_sightings responds [] = []
public_sightings responds (ip ∷ ips) =
    record { ip = ip; kind = public_kind ip; is_exposed = responds ip }
    ∷ public_sightings responds ips

unfoldable pub run_snmp_public_security_scan :
    (String → Bool) → String → ℕ → CredentialCache → Conn → Conn
run_snmp_public_security_scan responds severity now cache conn =
    let targets = scan_targets cache in
    if is_empty targets
    then conn
    else settle (observe_all severity now (public_sightings responds targets) conn)

abbrev pub v3_kind : String → Kind
v3_kind ip = record {
  finding_type = "snmp_v3_available_unused";
  resolved_type = "snmp_v3_available_unused_resolved";
  finding =
      concat (ip ∷ " has a working SNMPv3 engine but is being managed over plaintext v2c." ∷ []);
  title = λ name. concat (name ∷ " supports SNMPv3 but is using v2c" ∷ []);
  detail = concat (
      ip
      ∷ " answers SNMPv3's engineID probe (a real v3 stack is present) but is currently managed with a plaintext v2c community string. Configure a v3 identity for it to use authenticated, encrypted SNMP instead."
      ∷ []);
  resolved_title = λ name. concat (name ∷ " is now using SNMPv3" ∷ []);
  resolved_detail =
      concat (
        ip ∷ " is now managed over authenticated, encrypted SNMPv3 instead of plaintext v2c." ∷ []);
}

unfoldable pub v3_sightings : CredentialCache → List String → List Sighting
v3_sightings cache [] = []
v3_sightings cache (ip ∷ ips) =
    let rest = v3_sightings cache ips in
    elim (get ip cache) [
      | none ↦ rest
      | some cached ↦ elim cached [
        | unresponsive ↦ rest
        | waiting ↦ rest
        | credential c ↦
            record {
              ip = ip;
              kind = v3_kind ip;
              is_exposed = elim c.version [ v2c ↦ true | v3 ↦ false ];
            }
            ∷ rest
      ]
    ]

unfoldable pub run_snmp_v3_available_detector :
    String → ℕ → CredentialCache → List String → Conn → Conn
run_snmp_v3_available_detector severity now cache v3_capable_ips conn =
    if is_empty v3_capable_ips
    then conn
    else settle (observe_all severity now (v3_sightings cache v3_capable_ips) conn)
