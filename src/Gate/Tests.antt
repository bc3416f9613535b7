-- ===== src/Gate/Tests.antt =====
-- Runs of the gate.
use net_lanvas.Base.{String, none, some, [], true, false, ◌≡◌, ◌≢◌, ◌⊎◌, refl}
use net_lanvas.Base.Table.{select}
use net_lanvas.Base.Dict.{get_or, put}
use net_lanvas.Base.Text.{starts_with, drop, strip}
use net_lanvas.Auth.{verify_password}
use net_lanvas.Auth.Tests.{marker}
use net_lanvas.ApiTokens.{validate_api_token, first_verified}
use net_lanvas.ApiTokens.Tests.{with_tokens}
use net_lanvas.RateLimit.{is_rate_limited, get_client_ip}
use net_lanvas.Gate.{
  Env, Request, Server, type_error, is_proceed, path_requires_auth, is_bearer, lookup_token,
  authenticate_bearer_token, check_cookie, check_session,
}
use net_lanvas.Gate.Access.{BySession, ByToken, check_session_sound, check_session_total}

abbrev env : Env
env = record { hasher = marker; demo_mode = false; monotonic = 400; now = 2000 }

abbrev server : Server
server = record { attempts = []; conn = some with_tokens; api_token = none }

abbrev by_token : String → String → Request
by_token method path = record {
  path = path;
  method = method;
  authorization = some "Bearer nlvt_read ";
  session_cookie = none;
  forwarded = none;
  client = some "10.0.0.9";
}

read_proceeds : is_proceed (check_session env (by_token "GET" "/api/devices") server).0 ≡ true
unfolding check_session authenticate_bearer_token check_cookie path_requires_auth is_bearer
    lookup_token starts_with drop strip is_rate_limited select get_or put validate_api_token
    first_verified verify_password get_client_ip
read_proceeds = refl

write_refused : is_proceed (check_session env (by_token "POST" "/api/devices") server).0 ≡ false
unfolding check_session authenticate_bearer_token check_cookie path_requires_auth is_bearer
    lookup_token starts_with drop strip is_rate_limited select get_or put validate_api_token
    first_verified verify_password get_client_ip
write_refused = refl

management_refused : is_proceed (check_session env (by_token "GET" "/api/tokens") server).0 ≡ false
unfolding check_session check_cookie path_requires_auth is_bearer starts_with
management_refused = refl

requires_auth : path_requires_auth "/api/devices" ≡ true
unfolding path_requires_auth starts_with
requires_auth = refl

check_session_sound_example :
    BySession env (by_token "GET" "/api/devices") server
    ⊎ ByToken env (by_token "GET" "/api/devices") server
check_session_sound_example =
    check_session_sound env (by_token "GET" "/api/devices") server requires_auth refl read_proceeds

check_session_total_example :
    (check_session env (by_token "POST" "/api/devices") server).0 ≢ type_error
check_session_total_example = check_session_total env (by_token "POST" "/api/devices") server
