-- ===== src/Gate/Access.antt =====
-- Who gets through the gate (src/security/middleware.py).
use net_lanvas.Base.{
  ℕ, String, Option, none, some, List, [], ◌∷◌, true, false, not, ◌&&◌, eq_String, ◌==◌, ◌≡◌, ◌≢◌,
  ◌⊎◌, inl, inr, refl, arith, Bool-cases, Option-cases, eq_iff, map, ap, sym, eq_ℕ,
}
use net_lanvas.Base.Table.{update}
use net_lanvas.Base.Keyed.{update_key, has_key}
use net_lanvas.Base.Text.{strip, starts_with, drop, len}
use net_lanvas.Auth.{ApiToken, ConfigDb, Hasher, validate_session, ok, raise, Result, ◌>>=◌}
use net_lanvas.ApiTokens.{TokenRow, validate_api_token, first_verified, stamped, token_outcome}
use net_lanvas.Gate.{
  Env, Request, Server, type_error, is_proceed, header, path_requires_auth, is_bearer, lookup_token,
  lookup_session, authenticate_bearer_token, bearer_verdict, check_cookie, check_session,
  api_token_management_path_prefix,
}

abbrev pub presented : Request → String
presented r = strip (drop (len "Bearer ") (header r.authorization))

-- The request has a live session.
abbrev pub BySession : Env → Request → Server → Type 0
BySession env r server =
    (db : ConfigDb) × (user_id : ℕ) × (server.conn ≡ some db)
    × (validate_session env.hasher (header r.session_cookie) env.now db ≡ ok (some user_id))

-- The request has a stored API token whose scope covers its method, and is not about tokens.
abbrev pub ByToken : Env → Request → Server → Type 0
ByToken env r server =
    (db : ConfigDb) × (row : TokenRow) × (after : ConfigDb) × (server.conn ≡ some db)
    × (validate_api_token env.hasher (presented r) env.now db ≡ ok (some row, after))
    × (row.is_read_only ≡ true → r.method ≡ "GET")
    × (starts_with r.path api_token_management_path_prefix ≡ false)

session_of :
    (env : Env) (token : String) (conn : Option ConfigDb) (user_id : ℕ)
    → lookup_session env token conn ≡ some (some user_id)
    → (db : ConfigDb) × (conn ≡ some db)
      × (validate_session env.hasher token env.now db ≡ ok (some user_id))
unfolding lookup_session
session_of env token none user_id e = absurd (ground arith)
session_of env token (some db) user_id e = (db, refl, ground arith)

token_of :
    (env : Env) (text : String) (conn : Option ConfigDb) (row : TokenRow) (after : ConfigDb)
    → lookup_token env text conn ≡ some (some row, after)
    → (db : ConfigDb) × (conn ≡ some db)
      × (validate_api_token env.hasher text env.now db ≡ ok (some row, after))
unfolding lookup_token
token_of env text none row after e = absurd (ground arith)
token_of env text (some db) row after e = (db, refl, ground arith)

cookie_proceeds :
    (env : Env) (r : Request) (server : Server)
    → is_proceed (check_cookie env r server).0 ≡ true
    → (user_id : ℕ) × (lookup_session env (header r.session_cookie) server.conn
        ≡ some (some user_id))
unfolding check_cookie
cookie_proceeds env r server e =
    elim (Option-cases (lookup_session env (header r.session_cookie) server.conn)) [
      | inl p ↦ absurd (ground arith)
      | inr (none, p) ↦ absurd (ground arith)
      | inr (some user_id, p) ↦ (user_id, p)
    ]

bearer_proceeds :
    (env : Env) (r : Request) (server : Server)
    → is_bearer r ≡ true
    → is_proceed (bearer_verdict r (authenticate_bearer_token env r server)).0 ≡ true
    → (row : TokenRow) × (after : ConfigDb) × (lookup_token env (presented r) server.conn
        ≡ some (some row, after))
      × (row.is_read_only ≡ true → r.method ≡ "GET")
unfolding authenticate_bearer_token
bearer_proceeds env r server b e =
    elim (Option-cases (lookup_token env (presented r) server.conn)) [
      | inl p ↦ absurd (ground arith)
      | inr ((none, after), p) ↦ absurd (ground arith)
      | inr ((some row, after), p) ↦ (row, after, p, λ ro. ground (arith, eq_iff r.method "GET"))
    ]

-- The gate fails closed. A request that passes it, for a path that requires authentication and
-- outside of demo mode, has a live session, or has a stored API token, which is not read-only
-- unless the method is GET, and asks for no path of the token management.
pub check_session_sound :
    (env : Env) (r : Request) (server : Server)
    → path_requires_auth r.path ≡ true
    → env.demo_mode ≡ false
    → is_proceed (check_session env r server).0 ≡ true
    → BySession env r server ⊎ ByToken env r server
unfolding check_session
check_session_sound env r server gated demo e =
    elim (Bool-cases (is_bearer r && not (starts_with r.path api_token_management_path_prefix))) [
      | inl p ↦
          let (row, after, found, scope) =
            bearer_proceeds env r server (ground arith) (ground arith) in
          let (db, opened, valid) = token_of env (presented r) server.conn row after found in
          inr (db, row, after, opened, valid, scope, ground arith)
      | inr p ↦
          let (user_id, found) = cookie_proceeds env r server (ground arith) in
          let (db, opened, valid) =
            session_of env (header r.session_cookie) server.conn user_id found in
          inl (db, user_id, opened, valid)
    ]

-- A Bearer header always ends in a token row or in a response, so that reading the row never
-- raises: check_session ends in None or in a response on every request.
pub check_session_total :
    (env : Env) (r : Request) (server : Server) → (check_session env r server).0 ≢ type_error
unfolding check_session authenticate_bearer_token check_cookie
check_session_total env r server e = ground arith

-- the tables without the time at which a token was last used
abbrev pub unstamped : ApiToken → ApiToken
unstamped t = record t { last_used_at = none }

abbrev pub kept : ConfigDb → ConfigDb
kept db = record db { api_tokens = map unstamped db.api_tokens }

map-stamped :
    (k now : ℕ) (xs : List ApiToken)
    → map unstamped (update_key ApiToken.id k (λ t. record t { last_used_at = some now }) xs)
      ≡ map unstamped xs
unfolding update_key update
map-stamped k now [] = refl
map-stamped k now (t ∷ xs) = elim (Bool-cases (has_key ApiToken.id k t)) [
  | inl e ↦ rw (e, map-stamped k now xs) refl
  | inr e ↦ rw (e, map-stamped k now xs) refl
]

outcome-kept :
    (now : ℕ) (db after : ConfigDb) (row : Option TokenRow) (o : Result (Option ApiToken))
    → (o >>= token_outcome now db) ≡ ok (row, after)
    → kept after ≡ kept db
outcome-kept now db after row raise e = absurd (ground arith)
outcome-kept now db after row (ok none) e =
    let same : db ≡ after = ground arith in rw (sym same) refl
outcome-kept now db after row (ok (some t)) e =
    let same : stamped now t db ≡ after = ground arith in
    rw (sym same, map-stamped t.id now db.api_tokens) refl

validate_api_token-kept :
    (h : Hasher) (text : String) (now : ℕ) (db after : ConfigDb) (row : Option TokenRow)
    → validate_api_token h text now db ≡ ok (row, after)
    → kept after ≡ kept db
unfolding validate_api_token
validate_api_token-kept h text now db after row e = elim (Bool-cases (text == "")) [
  | inl p ↦ let same : db ≡ after = ground arith in rw (sym same) refl
  | inr p ↦ outcome-kept now db after row (first_verified h text db.api_tokens) (rw p at e)
]

abbrev pub kept_conn : Option ConfigDb → Option ConfigDb
kept_conn none = none
kept_conn (some db) = some (kept db)

lookup_token-kept :
    (env : Env) (text : String) (conn : Option ConfigDb) (row : Option TokenRow) (after : ConfigDb)
    → lookup_token env text conn ≡ some (row, after)
    → kept_conn (some after) ≡ kept_conn conn
unfolding lookup_token
lookup_token-kept env text none row after e = absurd (ground arith)
lookup_token-kept env text (some db) row after e =
    ap some (validate_api_token-kept env.hasher text env.now db after row (ground arith))

bearer-kept :
    (env : Env) (r : Request) (server : Server)
    → kept_conn (bearer_verdict r (authenticate_bearer_token env r server)).1.conn
      ≡ kept_conn server.conn
unfolding authenticate_bearer_token
bearer-kept env r server = elim (Option-cases (lookup_token env (presented r) server.conn)) [
  | inl p ↦ ground arith
  | inr ((none, after), p) ↦
      ground (arith, lookup_token-kept env (presented r) server.conn none after p)
  | inr ((some row, after), p) ↦
      ground (arith, lookup_token-kept env (presented r) server.conn (some row) after p)
]

-- Whatever the request and the outcome, the gate changes nothing of config.db but the times at
-- which API tokens were last used: no user, session, hash or scope is added, removed or altered.
pub check_session-kept :
    (env : Env) (r : Request) (server : Server)
    → kept_conn (check_session env r server).1.conn ≡ kept_conn server.conn
unfolding check_session check_cookie
check_session-kept env r server = ground (arith, bearer-kept env r server)
