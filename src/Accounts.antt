-- ===== src/Accounts.antt =====
-- The account routes of the API (src/api/server.py: setup_status, setup_password, login,
-- logout; the recovery and API token routes are in the children), over config.db, the rate
-- limiter and the two files that hold a token's plaintext (src/security/welcome.py,
-- src/security/recovery.py). An exception that a route lets through is the reply `crashed`.
pub mod Reset
pub mod TokenRoutes
pub mod Recovery
pub mod Single
pub mod Lockout
pub mod Admission
mod Tests
use net_lanvas.Base.{
  ℕ, ◌*◌, String, Option, none, some, List, [], ◌∷◌, Bool, true, false, not, ltb, ◌&&◌,
  if◌then◌else◌, eq_String, ◌==◌,
}
use net_lanvas.Base.Text.{strip, len, is_blank}
use net_lanvas.RateLimit.{Attempts, is_rate_limited, record_attempt, clear_attempts, get_client_ip}
use net_lanvas.Auth.{
  Hasher, ConfigDb, Result, ok, raise, credentials_exist, create_initial_user, verify_login,
  create_session, revoke_session, revoke_all_sessions_for_user,
}
use net_lanvas.Auth.Credentials.{
  store_recovery_token, verify_setup_token, clear_setup_token, verify_recovery_token,
  clear_recovery_token, reset_credentials, get_sole_user_id,
}
use net_lanvas.ApiTokens.{
  Listed, create_api_token, list_api_tokens, revoke_api_token, revoke_all_api_tokens,
}

-- What the routes keep. A file is there or not, and only the token in it is read again.
pub record Site : Type 0 where
  pub db : ConfigDb
  pub attempts : Attempts
  pub welcome_file : Option String
  pub recovery_file : Option String

-- What a request brings beside its body: the headers and the peer, the clocks, the random values
-- that it may draw, NETLANVAS_MODE, and `ipaddress.ip_address(host).is_loopback` (`none` where the
-- text is no address).
pub record Context : Type 0 where
  pub forwarded : Option String
  pub client : Option String
  pub monotonic : ℕ
  pub now : ℕ
  pub hasher : Hasher
  pub salt : ℕ
  pub decoy : String
  pub token : String
  pub is_native : Bool
  pub is_loopback : String → Option Bool

pub data Reply : Type 0 where
  success : Reply
  -- {"success": True} with the session cookie
  logged_in : (token : String) → Reply
  setup_state : (complete : Bool) (setup_token : Option String) → Reply
  -- the answer to a recovery request, with the token in it or not
  recovery : (token : Option String) → Reply
  tokens : List Listed → Reply
  created : (id : ℕ) (token : String) → Reply
  -- {"error": ...} with status 200
  error : (text : String) → Reply
  -- HTTPException
  refused : (status_code : ℕ) → Reply
  crashed : Reply

abbrev pub window_15_minutes : ℕ
window_15_minutes = 900

abbrev pub setup_token_max_attempts : ℕ
setup_token_max_attempts = 10

abbrev pub login_max_attempts : ℕ
login_max_attempts = 5

abbrev pub recovery_request_max_attempts : ℕ
recovery_request_max_attempts = 5

abbrev pub recovery_reset_max_attempts : ℕ
recovery_reset_max_attempts = 10

abbrev pub ip_of : Context → String
ip_of c = get_client_ip c.forwarded c.client

abbrev pub with_attempts : Attempts → Site → Site
with_attempts attempts site = record site { attempts = attempts }

-- record_attempt for the client, then the refusal
abbrev pub count_failure : Context → String → ℕ → Site → Reply × Site
count_failure c bucket status_code site = (
  refused status_code,
  with_attempts (record_attempt (ip_of c) bucket window_15_minutes c.monotonic site.attempts) site,
)

-- The check that each of these routes begins with: 429, or the rest of the route.
unfoldable pub limited : Context → String → ℕ → (Site → Reply × Site) → Site → Reply × Site
limited c bucket max_attempts rest site =
    let (is_limited, attempts) =
      is_rate_limited (ip_of c) bucket max_attempts window_15_minutes c.monotonic site.attempts in
    if is_limited
    then (refused 429, with_attempts attempts site)
    else rest (with_attempts attempts site)

unfoldable pub setup_status : Context → Site → Reply × Site
setup_status c site =
    let complete = credentials_exist site.db in
    (setup_state complete (if not complete && c.is_native then site.welcome_file else none), site)

pub record SetupRequest : Type 0 where
  pub setup_token : String
  pub username : String
  pub password : String

-- the rest of the route once the setup token is right
unfoldable pub create_account : Context → SetupRequest → Site → Reply × Site
create_account c req site =
    let username = strip req.username in
    if is_blank username
    then (refused 400, site)
    else if ltb (len req.password) 8
    then (refused 400, site)
    else elim (create_initial_user c.hasher c.salt username req.password c.now site.db) [
      | raise ↦ (crashed, site)
      | ok db ↦ (
        success,
        record site {
          db = clear_setup_token db;
          welcome_file = none;
          attempts = clear_attempts (ip_of c) "setup_token" site.attempts;
        },
      )
    ]

unfoldable pub try_setup_token : Context → SetupRequest → Site → Reply × Site
try_setup_token c req site = elim (verify_setup_token c.hasher req.setup_token site.db) [
  | raise ↦ (crashed, site)
  | ok correct ↦
      if correct then create_account c req site else count_failure c "setup_token" 403 site
]

unfoldable pub setup_password : Context → SetupRequest → Site → Reply × Site
setup_password c req site =
    if credentials_exist site.db
    then (refused 403, site)
    else limited c "setup_token" setup_token_max_attempts (try_setup_token c req) site

pub record LoginRequest : Type 0 where
  pub username : String
  pub password : String

abbrev pub open_session : Context → ℕ → Site → Reply × Site
open_session c user_id site =
    let ((token, expires_at), db) = create_session c.hasher c.salt c.token user_id c.now site.db in
    (
      logged_in token,
      record site { db = db; attempts = clear_attempts (ip_of c) "login" site.attempts },
    )

unfoldable pub try_login : Context → LoginRequest → Site → Reply × Site
try_login c req site =
    elim (verify_login c.hasher c.salt c.decoy (strip req.username) req.password site.db) [
      | raise ↦ (crashed, site)
      | ok (none, db) ↦ count_failure c "login" 401 (record site { db = db })
      | ok (some user_id, db) ↦ open_session c user_id (record site { db = db })
    ]

unfoldable pub login : Context → LoginRequest → Site → Reply × Site
login c req site = limited c "login" login_max_attempts (try_login c req) site

-- `none` where the request has no cookie
unfoldable pub logout : Context → Option String → Site → Reply × Site
logout c none site = (success, site)
logout c (some token) site =
    if is_blank token then (success, site) else elim (revoke_session c.hasher token c.now site.db) [
      | raise ↦ (crashed, site)
      | ok db ↦ (success, record site { db = db })
    ]
