-- ===== src/Accounts/Tests.antt =====
-- Runs of the account routes.
use net_lanvas.Base.{
  ℕ, ◌+◌, ◌≤◌, String, none, some, [], ◌∷◌, true, false, ◌≡◌, ◌≢◌, refl, arith, eq_String,
}
use net_lanvas.Base.Text.{strip, differ, starts_with, lstrip, rstrip}
use net_lanvas.Base.Table.{select, find, update, delete, count}
use net_lanvas.Base.Dict.{get_or, put, remove}
use net_lanvas.Base.Keyed.{find_key, update_key, delete_key}
use net_lanvas.RateLimit.{is_rate_limited, get_client_ip, record_attempt, clear_attempts}
use net_lanvas.RateLimit.Counts.{fresh_at}
use net_lanvas.Auth.{
  User, ok, ◌>>=◌, verify_login, validate_session, verify_password, hash_password, needs_rehash,
  create_session, revoke_all_sessions_for_user, credentials_exist, create_initial_user,
}
use net_lanvas.Auth.Credentials.{
  verify_recovery_token, verify_setup_token, get_sole_user_id, reset_credentials,
  clear_recovery_token, clear_setup_token,
}
use net_lanvas.ApiTokens.{revoke_all_api_tokens}
use net_lanvas.Auth.Tests.{marker, marker-Verifies, config_db}
use net_lanvas.ApiTokens.Tests.{with_tokens}
use net_lanvas.Gate.{Env, Request, is_proceed, is_bearer, check_session}
use net_lanvas.Accounts.{
  Site, Context, SetupRequest, LoginRequest, success, logged_in, login, try_login, limited,
  setup_password, try_setup_token, create_account, window_15_minutes,
}
use net_lanvas.Accounts.Reset.{
  RecoveryResetRequest, recovery_reset, try_recovery_token, reset_account,
}
use net_lanvas.Accounts.Single.{set_up, log_in, serve, serve_all, accounts, serve_all-accounts}
use net_lanvas.Accounts.Recovery.{recovery_reset-revokes, recovery_reset-verify_login}
use net_lanvas.Accounts.Admission.{login-check_session}
use net_lanvas.Accounts.Lockout.{failures_of, failures_of_le}

abbrev context : Context
context = record {
  forwarded = none;
  client = some "10.0.0.5";
  monotonic = 100;
  now = 2000;
  hasher = marker;
  salt = 1;
  decoy = "h:decoy";
  token = "fresh-token";
  is_native = false;
  is_loopback = λ _. some false;
}

abbrev admin : User
admin = record { id = 7; username = "admin"; password_hash = "h:admin's secret"; created_at = 5 }

-- A site with one account, two sessions, two API tokens and a recovery token.
abbrev site : Site
site = record {
  db = record with_tokens {
    users = admin ∷ [];
    next_user_id = 8;
    recovery_token = some (record { token_hash = "h:recover"; created_at = 30 });
  };
  attempts = [];
  welcome_file = none;
  recovery_file = some "recover";
}

abbrev new_site : Site
new_site = record {
  db = record config_db {
    setup_token = some (record { token_hash = "h:welcome"; created_at = 30 });
  };
  attempts = [];
  welcome_file = some "welcome";
  recovery_file = none;
}

abbrev setup_request : SetupRequest
setup_request = record { setup_token = "welcome"; username = " admin "; password = "long enough" }

abbrev right : LoginRequest
right = record { username = "admin "; password = "admin's secret" }

abbrev wrong : LoginRequest
wrong = record { username = "admin"; password = "guess" }

abbrev reset_request : RecoveryResetRequest
reset_request = record {
  recovery_token = "recover";
  new_username = "root";
  new_password = "a new secret";
}

-- The first setup makes the account, the second is refused.
set_up_once : accounts (serve_all (set_up context setup_request ∷ []) new_site) ≡ 1
unfolding serve_all serve setup_password credentials_exist limited is_rate_limited get_client_ip
    get_or put remove select try_setup_token verify_setup_token verify_password create_account strip
    lstrip rstrip create_initial_user find_key find clear_setup_token clear_attempts hash_password
set_up_once = refl

serve_all-accounts_example :
    (0
      ≤ accounts (
          serve_all
            (set_up context setup_request
              ∷ set_up context setup_request
              ∷ log_in context wrong
              ∷ [])
            new_site))
    × (accounts (
          serve_all
            (set_up context setup_request
              ∷ set_up context setup_request
              ∷ log_in context wrong
              ∷ [])
            new_site)
        ≤ 1)
serve_all-accounts_example =
    serve_all-accounts
      (set_up context setup_request ∷ set_up context setup_request ∷ log_in context wrong ∷ [])
      new_site (omega arith)

abbrev after_reset : Site
after_reset = (recovery_reset context reset_request site).1

is_reset : recovery_reset context reset_request site ≡ (success, after_reset)
unfolding recovery_reset limited is_rate_limited get_client_ip get_or put remove select
    try_recovery_token verify_recovery_token verify_password reset_account strip lstrip rstrip
    get_sole_user_id reset_credentials find_key find update_key update delete_key delete
    revoke_all_sessions_for_user revoke_all_api_tokens clear_recovery_token clear_attempts
    hash_password
is_reset = refl

recovery_reset-revokes_example :
    ((token : String) (later : ℕ)
      → validate_session marker token later after_reset.db ≢ ok (some 7))
    × (after_reset.db.api_tokens ≡ [])
    × (after_reset.db.recovery_token ≡ none)
recovery_reset-revokes_example =
    recovery_reset-revokes context reset_request admin site after_reset refl is_reset

recovery_reset-verify_login_example :
    (verify_login marker 9 "h:decoy" (strip "root") "a new secret" after_reset.db >>= (λ p. ok p.0))
    ≡ ok (some 7)
recovery_reset-verify_login_example =
    recovery_reset-verify_login context reset_request admin site after_reset 9 "h:decoy"
      marker-Verifies refl is_reset

abbrev after_login : Site
after_login = (login context right site).1

is_in : login context right site ≡ (logged_in "fresh-token", after_login)
unfolding login try_login limited is_rate_limited get_client_ip get_or put remove select
    verify_login verify_password strip lstrip rstrip find_key find needs_rehash create_session
    clear_attempts hash_password
is_in = refl

abbrev env : Env
env = record { hasher = marker; demo_mode = false; monotonic = 400; now = 3000 }

abbrev with_cookie : Request
with_cookie = record {
  path = "/api/devices";
  method = "POST";
  authorization = none;
  session_cookie = some "fresh-token";
  forwarded = none;
  client = some "10.0.0.5";
}

login-check_session_example :
    is_proceed
      (check_session env with_cookie
        (record { attempts = []; conn = some after_login.db; api_token = none })).0
    ≡ true
unfolding is_rate_limited get_client_ip get_or put select is_bearer starts_with
login-check_session_example =
    login-check_session context right site after_login "fresh-token" env with_cookie []
      marker-Verifies (differ "fresh-token" "" (λ e. omega (arith, e))) (refl, (refl, tt)) is_in
      refl (omega arith) refl refl refl

abbrev guess : Context × LoginRequest
guess = (context, wrong)

failures_of_le_example :
    failures_of (guess ∷ guess ∷ []) site
      + fresh_at "10.0.0.5" "login" window_15_minutes 150 site.attempts
    ≤ 5
unfolding login try_login limited is_rate_limited get_client_ip get_or put select verify_login
    verify_password strip lstrip rstrip find_key find record_attempt fresh_at count
failures_of_le_example =
    failures_of_le "10.0.0.5" 100 150 (guess ∷ guess ∷ []) site (omega arith)
      (refl, omega arith, omega arith, refl, (refl, omega arith, omega arith, refl, tt))
      (omega arith)
