-- ===== src/Accounts/Admission.antt =====
-- A login opens the gate (src/api/server.py: login; src/security/middleware.py: check_session).
use net_lanvas.Base.{
  ℕ, ◌+◌, ◌<◌, String, Option, none, some, true, false, eq_String, eq_ℕ, ◌≡◌, ◌≢◌, refl, arith, All,
  Option-cases, Bool-cases, inl, inr, eq_iff,
}
use net_lanvas.Base.Keyed.{find_key}
use net_lanvas.Base.Text.{strip}
use net_lanvas.RateLimit.{Attempts, is_rate_limited}
use net_lanvas.Auth.{
  Hasher, Verifies, User, Session, ConfigDb, ok, Result-cases, mismatch, verify_login,
  create_session, validate_session, session_lifetime,
}
use net_lanvas.Auth.Sessions.{validate_session-create_session}
use net_lanvas.Accounts.{
  Site, Context, LoginRequest, logged_in, login, try_login, open_session, limited, with_attempts,
  ip_of, window_15_minutes, login_max_attempts,
}
use net_lanvas.Gate.{
  Env, Request, Server, is_proceed, is_bearer, check_session, check_cookie, lookup_session,
  client_of, header, session_check_max_attempts, session_check_window,
}

verify_login-sessions :
    (h : Hasher) (salt : ℕ) (decoy name text : String) (db after : ConfigDb) (o : Option ℕ)
    → verify_login h salt decoy name text db ≡ ok (o, after)
    → after.sessions ≡ db.sessions
unfolding verify_login
verify_login-sessions h salt decoy name text db after o e =
    elim (Option-cases (find_key User.username name db.users)) [
      | inl p ↦ ground arith
      | inr (u, p) ↦ ground arith
    ]

-- The tables after a login: a session of some user was added to the sessions there were.
abbrev pub Opened : Context → ConfigDb → ConfigDb → Type 0
Opened c before after =
    (user_id : ℕ) × (db : ConfigDb) × (db.sessions ≡ before.sessions)
    × (after ≡ (create_session c.hasher c.salt c.token user_id c.now db).1)

try_login-Opened :
    (c : Context) (req : LoginRequest) (site after : Site) (token : String)
    → try_login c req site ≡ (logged_in token, after)
    → (token ≡ c.token) × Opened c site.db after.db
unfolding try_login create_session
try_login-Opened c req site after token e =
    elim (Result-cases
      (verify_login c.hasher c.salt c.decoy (strip req.username) req.password site.db)) [
        | inl p ↦ absurd (ground arith)
        | inr ((none, db), p) ↦ absurd (ground arith)
        | inr ((some u, db), p) ↦
            let opened_site : (open_session c u (record site { db = db })).1 ≡ after =
              ground arith in
            (
              ground arith,
              (
                u,
                db,
                verify_login-sessions c.hasher c.salt c.decoy (strip req.username) req.password
                    site.db db (some u) p,
                rw (← opened_site) refl,
              ),
            )
      ]

login-Opened :
    (c : Context) (req : LoginRequest) (site after : Site) (token : String)
    → login c req site ≡ (logged_in token, after)
    → (token ≡ c.token) × Opened c site.db after.db
unfolding login limited
login-Opened c req site after token e =
    elim (Bool-cases
      (is_rate_limited (ip_of c) "login" login_max_attempts window_15_minutes c.monotonic
        site.attempts).0) [
          | inl q ↦ absurd (ground arith)
          | inr q ↦
              try_login-Opened c req
                (with_attempts
                  (is_rate_limited (ip_of c) "login" login_max_attempts window_15_minutes
                    c.monotonic site.attempts).1
                  site)
                after token (ground arith)
        ]

Opened-validates :
    (c : Context) (before after : ConfigDb) (later : ℕ)
    → Verifies c.hasher
    → c.token ≢ ""
    → All (λ (s : Session). c.hasher.verify s.token_hash c.token ≡ mismatch) before.sessions
    → later < c.now + session_lifetime
    → Opened c before after
    → (user_id : ℕ) × (validate_session c.hasher c.token later after ≡ ok (some user_id))
Opened-validates c before after later law given fresh soon (user_id, db, same, e) = (
  user_id,
  rw e (
      ground (
        arith,
        validate_session-create_session c.hasher c.salt c.token user_id c.now later db law given
            (rw same fresh),
      )),
)

cookie_proceeds :
    (env : Env) (r : Request) (server : Server) (user_id : ℕ)
    → header r.session_cookie ≢ ""
    → (is_rate_limited
        (client_of r)
        "session_check"
        session_check_max_attempts
        session_check_window
        env.monotonic
        server.attempts).0
      ≡ false
    → lookup_session env (header r.session_cookie) server.conn ≡ some (some user_id)
    → is_proceed (check_cookie env r server).0 ≡ true
unfolding check_cookie
cookie_proceeds env r server user_id given free found =
    ground (arith, eq_iff (header r.session_cookie) "")

lookup_session-valid :
    (env : Env) (token : String) (db : ConfigDb) (user_id : ℕ)
    → validate_session env.hasher token env.now db ≡ ok (some user_id)
    → lookup_session env token (some db) ≡ some (some user_id)
unfolding lookup_session
lookup_session-valid env token db user_id e = ground arith

-- The cookie that a login sets opens the gate for every path until the session's lifetime is
-- over, where the new token is not empty, a fresh hash verifies, the token mismatches the
-- sessions that were there, the request has no Bearer header, and the client is not over the
-- limit of failed session checks.
pub login-check_session :
    (c : Context) (req : LoginRequest) (site after : Site) (token : String) (env : Env)
    (r : Request) (attempts : Attempts)
    → Verifies c.hasher
    → c.token ≢ ""
    → All (λ (s : Session). c.hasher.verify s.token_hash c.token ≡ mismatch) site.db.sessions
    → login c req site ≡ (logged_in token, after)
    → env.hasher ≡ c.hasher
    → env.now < c.now + session_lifetime
    → r.session_cookie ≡ some token
    → is_bearer r ≡ false
    → (is_rate_limited
        (client_of r)
        "session_check"
        session_check_max_attempts
        session_check_window
        env.monotonic
        attempts).0
      ≡ false
    → is_proceed
        (check_session env r
          (record { attempts = attempts; conn = some after.db; api_token = none })).0
      ≡ true
unfolding check_session
login-check_session c req site after token env r attempts law given fresh e same soon cookie plain
      free =
    let (is_own, opened) = login-Opened c req site after token e in
    let (user_id, valid) =
      Opened-validates c site.db after.db env.now law given fresh soon opened in
    let own : header r.session_cookie ≡ c.token = ground arith in
    let found : lookup_session env (header r.session_cookie) (some after.db) ≡ some (some user_id) =
      rw own (lookup_session-valid env c.token after.db user_id (rw same valid)) in
    ground (
      arith,
      cookie_proceeds env r (record { attempts = attempts; conn = some after.db; api_token = none })
          user_id (λ q. given (rw (← own) q)) free found,
    )
