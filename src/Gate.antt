-- ===== src/Gate.antt =====
-- The HTTP authentication gate (src/security/middleware.py). The database connection that
-- get_conn_fn opens is an `Option`, `none` where opening it raises; argon2 is the parameter
-- of src/security/auth.py. The rate limiter's clock and the database's are two readings of the time.
pub mod Access
mod Tests
use net_lanvas.Base.{
  ℕ, String, Option, none, some, List, [], ◌∷◌, Bool, true, false, not, elem, ◌&&◌, if◌then◌else◌,
  eq_String, ◌==◌,
}
use net_lanvas.Base.Text.{strip, starts_with, drop, len}
use net_lanvas.RateLimit.{Attempts, is_rate_limited, record_attempt, get_client_ip}
use net_lanvas.Auth.{Hasher, ConfigDb, Result, ok, raise, validate_session}
use net_lanvas.ApiTokens.{TokenRow, validate_api_token}

abbrev pub unauthenticated_api_paths : List String
unauthenticated_api_paths =
    "/api/auth/login" ∷ "/api/setup/status" ∷ "/api/setup/password" ∷ "/api/recovery/request"
    ∷ "/api/recovery/reset" ∷ "/api/register/callback" ∷ "/api/version/check" ∷ "/api/status"
    ∷ "/api/version/acknowledge-update" ∷ []

abbrev pub session_check_max_attempts : ℕ
session_check_max_attempts = 30

abbrev pub session_check_window : ℕ
session_check_window = 300

abbrev pub api_token_management_path_prefix : String
api_token_management_path_prefix = "/api/tokens"

abbrev pub api_token_check_max_attempts : ℕ
api_token_check_max_attempts = 30

abbrev pub api_token_check_window : ℕ
api_token_check_window = 300

-- What the gate reads of a request. `session_cookie` is the cookie named SESSION_COOKIE_NAME.
pub record Request : Type 0 where
  pub path : String
  pub method : String
  pub authorization : Option String
  pub session_cookie : Option String
  pub forwarded : Option String
  pub client : Option String

pub record Response : Type 0 where
  pub status_code : ℕ
  pub detail : String

-- The state that the gate changes: the limiter's, the database's where it opens, and the
-- request's api_token.
pub record Server : Type 0 where
  pub attempts : Attempts
  pub conn : Option ConfigDb
  pub api_token : Option TokenRow

-- What surrounds one request: the hasher, DEMO_MODE, and the readings of the two clocks.
pub record Env : Type 0 where
  pub hasher : Hasher
  pub demo_mode : Bool
  pub monotonic : ℕ
  pub now : ℕ

unfoldable pub path_requires_auth : String → Bool
path_requires_auth path =
    if not (starts_with path "/api/") then false else not (elem path unauthenticated_api_paths)

abbrev pub header : Option String → String
header none = ""
header (some text) = text

unfoldable pub is_bearer : Request → Bool
is_bearer r = starts_with (header r.authorization) "Bearer "

abbrev pub client_of : Request → String
client_of r = get_client_ip r.forwarded r.client

abbrev pub too_many_requests : Response
too_many_requests = record { status_code = 429; detail = "Too many requests. Try again later." }

abbrev pub unauthorized : String → Response
unauthorized detail = record { status_code = 401; detail = detail }

-- The database part of authenticate_bearer_token: `none` where it raises.
unfoldable pub lookup_token : Env → String → Option ConfigDb → Option (Option TokenRow × ConfigDb)
lookup_token env plaintext none = none
lookup_token env plaintext (some db) = elim (validate_api_token env.hasher plaintext env.now db) [
  | raise ↦ none
  | ok found ↦ some found
]

-- The pair that the function returns, and the server after it.
unfoldable pub authenticate_bearer_token :
    Env → Request → Server → (Option TokenRow × Option Response) × Server
authenticate_bearer_token env r server =
    if not (is_bearer r)
    then ((none, none), server)
    else let plaintext = strip (drop (len "Bearer ") (header r.authorization)) in
      let client_ip = client_of r in
      let (limited, attempts) =
        is_rate_limited client_ip "api_token_check" api_token_check_max_attempts
          api_token_check_window env.monotonic server.attempts in
      if limited
      then ((none, some too_many_requests), record server { attempts = attempts })
      else elim (lookup_token env plaintext server.conn) [
        | none ↦ (
          (none, some (unauthorized "Authentication required.")),
          record server { attempts = attempts },
        )
        | some (none, db) ↦ (
          (none, some (unauthorized "Invalid API token.")),
          record server {
            attempts =
                record_attempt client_ip "api_token_check" api_token_check_window env.monotonic
                  attempts;
            conn = some db;
          },
        )
        | some (some row, db) ↦
            ((some row, none), record server { attempts = attempts; conn = some db })
      ]

-- How check_session ends: None, a response, or the TypeError of `token_row["is_read_only"]`
-- where token_row is None.
pub data Verdict : Type 0 where
  proceed : Verdict
  respond : Response → Verdict
  type_error : Verdict

abbrev pub is_proceed : Verdict → Bool
is_proceed proceed = true
is_proceed (respond r) = false
is_proceed type_error = false

abbrev pub bearer_verdict :
    Request → (Option TokenRow × Option Response) × Server → Verdict × Server
bearer_verdict r ((row, some error), server) = (respond error, server)
bearer_verdict r ((none, none), server) = (type_error, server)
bearer_verdict r ((some row, none), server) =
    if row.is_read_only && not (r.method == "GET")
    then (respond (record { status_code = 403; detail = "This token is read-only." }), server)
    else (proceed, record server { api_token = some row })

-- The database part of check_session: `none` where it raises.
unfoldable pub lookup_session : Env → String → Option ConfigDb → Option (Option ℕ)
lookup_session env token none = none
lookup_session env token (some db) = elim (validate_session env.hasher token env.now db) [
  | raise ↦ none
  | ok found ↦ some found
]

unfoldable pub check_cookie : Env → Request → Server → Verdict × Server
check_cookie env r server =
    let token = header r.session_cookie in
    if token == ""
    then (respond (unauthorized "Authentication required."), server)
    else let client_ip = client_of r in
      let (limited, attempts) =
        is_rate_limited client_ip "session_check" session_check_max_attempts session_check_window
          env.monotonic server.attempts in
      if limited
      then (respond too_many_requests, record server { attempts = attempts })
      else elim (lookup_session env token server.conn) [
        | none ↦ (
          respond (unauthorized "Authentication required."),
          record server { attempts = attempts },
        )
        | some none ↦ (
          respond (unauthorized "Session expired or invalid."),
          record server {
            attempts =
                record_attempt client_ip "session_check" session_check_window env.monotonic
                  attempts;
          },
        )
        | some (some user_id) ↦ (proceed, record server { attempts = attempts })
      ]

unfoldable pub check_session : Env → Request → Server → Verdict × Server
check_session env r server =
    if not (path_requires_auth r.path)
    then (proceed, server)
    else if env.demo_mode
    then (proceed, server)
    else if is_bearer r && not (starts_with r.path api_token_management_path_prefix)
    then bearer_verdict r (authenticate_bearer_token env r server)
    else check_cookie env r server
