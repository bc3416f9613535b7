-- ===== src/Credential.antt =====
-- SNMP credentials (src/engine/snmp_credential.py) and what the credential cache holds for an
-- address.
pub mod Tests
use net_lanvas.Base.{
  String, Option, none, some, List, [], ◌∷◌, Bool, true, false, ◌&&◌, is_some, if◌then◌else◌,
}
use net_lanvas.Base.Dict.{Dict}
use net_lanvas.Base.Text.{append, is_blank}

pub data Version : Type 0 where
  v2c v3 : Version

pub record SnmpCredential : Type 0 where
  pub version : Version
  pub community : Option String
  pub username : Option String
  pub password : Option String
  pub priv_password : Option String
  pub auth_protocol : Option String
  pub priv_protocol : Option String

-- f"{value}"
abbrev pub shown : Option String → String
shown none = "None"
shown (some s) = s

abbrev pub is_given : Option String → Bool
is_given none = false
is_given (some s) = if is_blank s then false else true

unfoldable pub is_resolved : SnmpCredential → Bool
is_resolved c = elim c.version [
  | v2c ↦ true
  | v3 ↦ is_some c.auth_protocol && is_some c.priv_protocol
]

unfoldable pub effective_priv_password : SnmpCredential → Option String
effective_priv_password c = if is_given c.priv_password then c.priv_password else c.password

unfoldable pub resolved_with : String → String → SnmpCredential → SnmpCredential
resolved_with auth_protocol priv_protocol c = elim c.version [
  | v2c ↦ c
  | v3 ↦ record {
    version = v3;
    community = none;
    username = c.username;
    password = c.password;
    priv_password = c.priv_password;
    auth_protocol = some auth_protocol;
    priv_protocol = some priv_protocol;
  }
]

unfoldable pub cache_key : SnmpCredential → String
cache_key c = elim c.version [
  | v2c ↦ append "v2c::" (shown c.community)
  | v3 ↦ append "v3::" (shown c.username)
]

-- s[:2]
abbrev pub first_two : String → String
first_two String.[] = String.[]
first_two (String.◌∷◌ c String.[]) = String.◌∷◌ c String.[]
first_two (String.◌∷◌ c (String.◌∷◌ d s)) = String.◌∷◌ c (String.◌∷◌ d String.[])

abbrev pub masked : Option String → String
masked none = "?"
masked (some s) = if is_blank s then "?" else append (first_two s) "***"

unfoldable pub display_label : SnmpCredential → String
display_label c = elim c.version [
  | v2c ↦ append "v2c:" (masked c.community)
  | v3 ↦ append "v3:" (shown c.username)
]

-- An entry of the credential cache: a credential that works, the text "UNRESPONSIVE", or a tuple.
pub data Cached : Type 0 where
  credential : SnmpCredential → Cached
  unresponsive : Cached
  waiting : Cached

abbrev pub CredentialCache : Type 0
CredentialCache = Dict String Cached

-- getattr(credential, "community", None)
abbrev pub community_of : Cached → Option String
community_of (credential c) = c.community
community_of unresponsive = none
community_of waiting = none
