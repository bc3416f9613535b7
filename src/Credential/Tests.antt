-- ===== src/Credential/Tests.antt =====
-- Runs of the credentials.
use net_lanvas.Base.{none, some, ◌≡◌, refl}
use net_lanvas.Credential.{SnmpCredential, v2c, cache_key, display_label}

abbrev pub of_community : SnmpCredential
of_community = record {
  version = v2c;
  community = some "public";
  username = none;
  password = none;
  priv_password = none;
  auth_protocol = none;
  priv_protocol = none;
}

key : cache_key of_community ≡ "v2c::public"
unfolding cache_key
key = refl

label : display_label of_community ≡ "v2c:pu***"
unfolding display_label
label = refl
