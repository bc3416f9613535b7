-- ===== src/Accounts/Single.antt =====
-- There is at most one account (src/api/server.py).
use net_lanvas.Base.{
  ℕ, suc, ◌≤◌, String, Option, none, some, List, [], ◌∷◌, Bool, eq_String, eq_ℕ, nat_eq, ◌≡◌, refl,
  arith, length, length-append, Option-cases, inl, inr,
}
use net_lanvas.Base.Table.{length-update}
use net_lanvas.Base.Keyed.{update_key, find_key}
use net_lanvas.Auth.{
  Hasher, User, ConfigDb, ok, credentials_exist, create_initial_user, verify_login, rehashed,
  create_session, revoke_session, revoke_all_sessions_for_user, hash_password, Result-cases,
}
use net_lanvas.Auth.Credentials.{
  store_recovery_token, verify_setup_token, clear_setup_token, clear_recovery_token,
  reset_credentials, get_sole_user_id,
}
use net_lanvas.ApiTokens.{create_api_token, revoke_api_token, revoke_all_api_tokens}
use net_lanvas.Base.Text.{strip}
use net_lanvas.RateLimit.{is_rate_limited}
use net_lanvas.Accounts.{
  Site, Context, Reply, SetupRequest, login_max_attempts, setup_token_max_attempts,
  recovery_request_max_attempts, recovery_reset_max_attempts, with_attempts, ip_of,
  window_15_minutes, LoginRequest, setup_status, limited, setup_password, try_setup_token,
  create_account, login, try_login, logout,
}
use net_lanvas.Accounts.Reset.{
  RecoveryResetRequest, recovery_request, counted, count_and_issue, issue_recovery, recovery_reset,
  try_recovery_token, reset_account,
}
use net_lanvas.Accounts.TokenRoutes.{
  list_api_tokens_route, create_api_token_route, revoke_api_token_route,
}

-- A request for one of the account routes.
pub data Call : Type 0 where
  ask_status : Context → Call
  set_up : Context → SetupRequest → Call
  log_in : Context → LoginRequest → Call
  log_out : Context → Option String → Call
  ask_recovery : Context → Call
  reset : Context → RecoveryResetRequest → Call
  list_tokens : Call
  create_token : Context → String → Bool → Call
  revoke_token : ℕ → Call

unfoldable pub serve : Call → Site → Reply × Site
serve (ask_status c) site = setup_status c site
serve (set_up c req) site = setup_password c req site
serve (log_in c req) site = login c req site
serve (log_out c cookie) site = logout c cookie site
serve (ask_recovery c) site = recovery_request c site
serve (reset c req) site = recovery_reset c req site
serve list_tokens site = list_api_tokens_route site
serve (create_token c label is_read_only) site = create_api_token_route c label is_read_only site
serve (revoke_token id) site = revoke_api_token_route id site

unfoldable pub serve_all : List Call → Site → Site
serve_all [] site = site
serve_all (call ∷ calls) site = serve_all calls (serve call site).1

abbrev pub accounts : Site → ℕ
accounts site = length site.db.users

-- as many accounts as before
abbrev Same : Site → Reply × Site → Type 0
Same site answer = accounts answer.1 ≡ accounts site

rehashed-users :
    (h : Hasher) (salt : ℕ) (text : String) (u : User) (db : ConfigDb)
    → length (rehashed h salt text u db).users ≡ length db.users
unfolding update_key
rehashed-users h salt text u db = ground (
  arith,
  length-update (λ (v : User). nat_eq v.id u.id)
      (λ (v : User). record v { password_hash = hash_password h salt text }) db.users,
)

verify_login-users :
    (h : Hasher) (salt : ℕ) (decoy name text : String) (db after : ConfigDb) (o : Option ℕ)
    → verify_login h salt decoy name text db ≡ ok (o, after)
    → length after.users ≡ length db.users
unfolding verify_login
verify_login-users h salt decoy name text db after o e =
    elim (Option-cases (find_key User.username name db.users)) [
      | inl p ↦ ground arith
      | inr (u, p) ↦ ground (arith, rehashed-users h salt text u db)
    ]

limited-Same :
    (c : Context) (bucket : String) (n : ℕ) (rest : Site → Reply × Site) (site : Site)
    → ((s : Site) → Same s (rest s))
    → Same site (limited c bucket n rest site)
unfolding limited
limited-Same c bucket n rest site h = ground (
  arith,
  h (
      with_attempts
        (is_rate_limited (ip_of c) bucket n window_15_minutes c.monotonic site.attempts).1 site),
)

try_login-Same : (c : Context) (req : LoginRequest) (site : Site) → Same site (try_login c req site)
unfolding try_login create_session
try_login-Same c req site =
    elim (Result-cases
      (verify_login c.hasher c.salt c.decoy (strip req.username) req.password site.db)) [
        | inl p ↦ ground arith
        | inr ((none, after), p) ↦ ground (
          arith,
          verify_login-users c.hasher c.salt c.decoy (strip req.username) req.password site.db after
              none p,
        )
        | inr ((some u, after), p) ↦ ground (
          arith,
          verify_login-users c.hasher c.salt c.decoy (strip req.username) req.password site.db after
              (some u) p,
        )
      ]

logout-Same : (c : Context) (o : Option String) (site : Site) → Same site (logout c o site)
unfolding logout revoke_session
logout-Same c none site = refl
logout-Same c (some token) site = ground arith

reset_credentials-users :
    (h : Hasher) (salt u : ℕ) (name text : String) (db after : ConfigDb)
    → reset_credentials h salt u name text db ≡ ok after
    → length after.users ≡ length db.users
unfolding reset_credentials update_key
reset_credentials-users h salt u name text db after e = ground (
  arith,
  length-update (λ (v : User). nat_eq v.id u)
      (λ (v : User). record v { username = name; password_hash = hash_password h salt text })
      db.users,
)

reset_account-Same :
    (c : Context) (req : RecoveryResetRequest) (site : Site) → Same site (reset_account c req site)
unfolding reset_account revoke_all_sessions_for_user revoke_all_api_tokens clear_recovery_token
reset_account-Same c req site = elim (Option-cases (get_sole_user_id site.db)) [
  | inl p ↦ ground arith
  | inr (u, p) ↦
      elim (Result-cases
        (reset_credentials c.hasher c.salt u (strip req.new_username) req.new_password site.db)) [
          | inl q ↦ ground arith
          | inr (after, q) ↦ ground (
            arith,
            reset_credentials-users c.hasher c.salt u (strip req.new_username) req.new_password
                site.db after q,
          )
        ]
]

try_recovery_token-Same :
    (c : Context) (req : RecoveryResetRequest) (site : Site)
    → Same site (try_recovery_token c req site)
unfolding try_recovery_token
try_recovery_token-Same c req site = ground (arith, reset_account-Same c req site)

issue_recovery-Same : (c : Context) (site : Site) → Same site (issue_recovery c site)
unfolding issue_recovery store_recovery_token
issue_recovery-Same c site = ground arith

create_initial_user-users :
    (h : Hasher) (salt : ℕ) (name text : String) (now : ℕ) (db after : ConfigDb)
    → create_initial_user h salt name text now db ≡ ok after
    → length after.users ≡ suc (length db.users)
unfolding create_initial_user
create_initial_user-users h salt name text now db after e = ground (
  arith,
  length-append db.users (
      record {
        id = db.next_user_id;
        username = name;
        password_hash = hash_password h salt text;
        created_at = now;
      }
      ∷ []),
)

create_account-accounts :
    (c : Context) (req : SetupRequest) (site : Site)
    → (accounts site ≤ accounts (create_account c req site).1)
      × (accounts (create_account c req site).1 ≤ suc (accounts site))
unfolding create_account clear_setup_token
create_account-accounts c req site =
    elim (Result-cases
      (create_initial_user c.hasher c.salt (strip req.username) req.password c.now site.db)) [
        | inl q ↦ ground arith
        | inr (after, q) ↦ ground (
          arith,
          create_initial_user-users c.hasher c.salt (strip req.username) req.password c.now site.db
              after q,
        )
      ]

try_setup_token-accounts :
    (c : Context) (req : SetupRequest) (site : Site)
    → (accounts site ≤ accounts (try_setup_token c req site).1)
      × (accounts (try_setup_token c req site).1 ≤ suc (accounts site))
unfolding try_setup_token
try_setup_token-accounts c req site =
    elim (Result-cases (verify_setup_token c.hasher req.setup_token site.db)) [
      | inl q ↦ ground arith
      | inr (correct, q) ↦ ground (arith, create_account-accounts c req site)
    ]

-- The account is there as long as it was, and no second one beside it.
abbrev Keeps : Site → Reply × Site → Type 0
Keeps site answer = (accounts site ≤ accounts answer.1) × (accounts answer.1 ≤ 1)

setup_password-Keeps :
    (c : Context) (req : SetupRequest) (site : Site)
    → accounts site ≤ 1
    → Keeps site (setup_password c req site)
unfolding setup_password limited credentials_exist
setup_password-Keeps c req site h = ground (
  arith,
  try_setup_token-accounts c req (
      with_attempts
        (is_rate_limited (ip_of c) "setup_token" setup_token_max_attempts window_15_minutes
          c.monotonic site.attempts).1
        site),
)

Same-Keeps :
    (site : Site) (answer : Reply × Site) → accounts site ≤ 1 → Same site answer → Keeps site answer
Same-Keeps site answer h e = ground arith

serve-Keeps : (call : Call) (site : Site) → accounts site ≤ 1 → Keeps site (serve call site)
unfolding serve setup_status login recovery_request recovery_reset list_api_tokens_route
    create_api_token_route create_api_token revoke_api_token_route revoke_api_token
serve-Keeps (ask_status c) site h = ground arith
serve-Keeps (set_up c req) site h = setup_password-Keeps c req site h
serve-Keeps (log_in c req) site h =
    Same-Keeps site (login c req site) h
      (limited-Same c "login" login_max_attempts (try_login c req) site (try_login-Same c req))
serve-Keeps (log_out c cookie) site h =
    Same-Keeps site (logout c cookie site) h (logout-Same c cookie site)
serve-Keeps (ask_recovery c) site h = Same-Keeps site (recovery_request c site) h (
    limited-Same c "recovery_request" recovery_request_max_attempts (count_and_issue c) site
      (λ s. issue_recovery-Same c (counted c s)))
serve-Keeps (reset c req) site h = Same-Keeps site (recovery_reset c req site) h (
    limited-Same c "recovery_reset" recovery_reset_max_attempts (try_recovery_token c req) site
      (try_recovery_token-Same c req))
serve-Keeps list_tokens site h = ground arith
serve-Keeps (create_token c label is_read_only) site h = ground arith
serve-Keeps (revoke_token id) site h = ground arith

-- Whatever requests arrive in whatever order, a site with at most one account has at most one
-- afterwards, and an account that is there stays.
pub serve_all-accounts :
    (calls : List Call) (site : Site)
    → accounts site ≤ 1
    → (accounts site ≤ accounts (serve_all calls site)) × (accounts (serve_all calls site) ≤ 1)
unfolding serve_all
serve_all-accounts [] site h = ground arith
serve_all-accounts (call ∷ calls) site h =
    let kept = serve-Keeps call site h in
    ground (arith, serve_all-accounts calls (serve call site).1 kept.1, kept)
