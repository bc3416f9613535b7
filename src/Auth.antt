-- ===== src/Auth.antt =====
-- Password hashing, users and browser sessions (src/security/auth.py) over config.db. Times are in
-- microseconds, since the code compares timestamps that datetime.isoformat prints in one format.
-- argon2's PasswordHasher and the random source are parameters: each function that hashes takes
-- the salt, and each that draws a token takes the token.
pub mod Credentials
pub mod Sessions
pub mod Tests
use net_lanvas.Base.{
  ℕ, suc, ◌+◌, ◌*◌, String, Option, none, some, List, [], ◌∷◌, ◌++◌, Bool, true, false, not, ltb,
  leb, is_empty, if◌then◌else◌, eq_String, eq_ℕ, ◌==◌, ◌≡◌, ◌⊎◌, inl, inr, refl,
}
use net_lanvas.Base.Table.{select, delete}
use net_lanvas.Base.Keyed.{find_key, update_key, delete_key}
use net_lanvas.Base.Text.{len}

-- How `PasswordHasher.verify` ends: it returns True, raises VerifyMismatchError or
-- InvalidHashError, or raises anything else.
pub data Verdict : Type 0 where
  matches mismatch invalid_hash fault : Verdict

pub record Hasher : Type 0 where
  pub hash : ℕ → String → String
  pub verify : String → String → Verdict
  pub check_needs_rehash : String → Bool

-- What the documentation of argon2-cffi says of `verify` on a hash that `hash` made.
abbrev pub Verifies : Hasher → Type 0
Verifies h = (salt : ℕ) (text : String) → h.verify (h.hash salt text) text ≡ matches

pub record User : Type 0 where
  pub id : ℕ
  pub username : String
  pub password_hash : String
  pub created_at : ℕ

pub record Session : Type 0 where
  pub id : ℕ
  pub token_hash : String
  pub user_id : ℕ
  pub created_at : ℕ
  pub expires_at : ℕ
  pub stamp_confirmed_at : Option ℕ

pub record ApiToken : Type 0 where
  pub id : ℕ
  pub label : String
  pub token_hash : String
  pub is_read_only : Bool
  pub created_at : ℕ
  pub last_used_at : Option ℕ

-- The one row of setup_token or of recovery_token.
pub record OneTimeToken : Type 0 where
  pub token_hash : String
  pub created_at : ℕ

pub record ConfigDb : Type 0 where
  pub users : List User
  pub next_user_id : ℕ
  pub sessions : List Session
  pub next_session_id : ℕ
  pub setup_token : Option OneTimeToken
  pub recovery_token : Option OneTimeToken
  pub api_tokens : List ApiToken
  pub next_api_token_id : ℕ

-- A value, or an exception that the function lets through.
pub data Result {ℓ} (A : Type ℓ) : Type ℓ where
  ok : A → Result A
  raise : Result A

infixl 5 ◌>>=◌
abbrev pub ◌>>=◌ {ℓ κ} : {A : Type ℓ} {B : Type κ} → Result A → (A → Result B) → Result B
ok a >>= f = f a
raise >>= f = raise

-- To split on a result and keep the equation.
pub Result-cases {ℓ} : {A : Type ℓ} (r : Result A) → (r ≡ raise) ⊎ ((a : A) × (r ≡ ok a))
Result-cases raise = inl refl
Result-cases (ok a) = inr (a, refl)

-- SESSION_LIFETIME_HOURS at its default, 12
abbrev pub session_lifetime : ℕ
session_lifetime = 12 * 3600 * 1000000

abbrev pub accepted : Verdict → Result Bool
accepted matches = ok true
accepted mismatch = ok false
accepted invalid_hash = ok false
accepted fault = raise

unfoldable pub hash_password : Hasher → ℕ → String → String
hash_password h salt plaintext = h.hash salt plaintext

unfoldable pub verify_password : Hasher → String → String → Result Bool
verify_password h plaintext stored_hash = accepted (h.verify stored_hash plaintext)

unfoldable pub needs_rehash : Hasher → String → Bool
needs_rehash h stored_hash = h.check_needs_rehash stored_hash

unfoldable pub credentials_exist : ConfigDb → Bool
credentials_exist db = not (is_empty db.users)

-- `raise` is the IntegrityError of the UNIQUE username.
unfoldable pub create_initial_user : Hasher → ℕ → String → String → ℕ → ConfigDb → Result ConfigDb
create_initial_user h salt username plaintext_password now db =
    elim (find_key User.username username db.users) [
      | some taken ↦ raise
      | none ↦ ok (record db {
        users =
            db.users
            ++ (record {
              id = db.next_user_id;
              username = username;
              password_hash = hash_password h salt plaintext_password;
              created_at = now;
            })
              ∷ [];
        next_user_id = suc db.next_user_id;
      })
    ]

abbrev pub rehashed : Hasher → ℕ → String → User → ConfigDb → ConfigDb
rehashed h salt plaintext_password user db =
    if needs_rehash h user.password_hash
    then record db {
      users =
          update_key User.id user.id
            (λ u. record u { password_hash = hash_password h salt plaintext_password }) db.users;
    }
    else db

-- `decoy` is the random text whose hash an unknown username is verified against.
unfoldable pub verify_login :
    Hasher → ℕ → String → String → String → ConfigDb → Result (Option ℕ × ConfigDb)
verify_login h salt decoy username plaintext_password db =
    elim (find_key User.username username db.users) [
      | none ↦ verify_password h plaintext_password (h.hash salt decoy) >>= (λ _. ok (none, db))
      | some user ↦ verify_password h plaintext_password user.password_hash >>= (λ correct.
          if correct
          then ok (some user.id, rehashed h salt plaintext_password user db)
          else ok (none, db))
    ]

-- The two readings of the clock in one call are one `now`.
unfoldable pub create_session : Hasher → ℕ → String → ℕ → ℕ → ConfigDb → (String × ℕ) × ConfigDb
create_session h salt token user_id now db =
    let expires_at = now + session_lifetime in
    (
      (token, expires_at),
      record db {
        sessions =
            db.sessions
            ++ (record {
              id = db.next_session_id;
              token_hash = h.hash salt token;
              user_id = user_id;
              created_at = now;
              expires_at = expires_at;
              stamp_confirmed_at = none;
            })
              ∷ [];
        next_session_id = suc db.next_session_id;
      },
    )

-- SELECT ... FROM sessions WHERE expires_at > now
unfoldable pub unexpired : ℕ → ConfigDb → List Session
unexpired now db = select (λ s. ltb now s.expires_at) db.sessions

-- The loop that validate_session, get_session_id and revoke_session share: the first row whose
-- hash the token matches.
unfoldable pub first_match : Hasher → String → List Session → Result (Option Session)
first_match h token [] = ok none
first_match h token (s ∷ rest) = elim (h.verify s.token_hash token) [
  | matches ↦ ok (some s)
  | mismatch ↦ first_match h token rest
  | invalid_hash ↦ first_match h token rest
  | fault ↦ raise
]

unfoldable pub validate_session : Hasher → String → ℕ → ConfigDb → Result (Option ℕ)
validate_session h token now db =
    if token == ""
    then ok none
    else first_match h token (unexpired now db)
      >>= (λ found. ok (elim found [ none ↦ none | some s ↦ some s.user_id ]))

unfoldable pub get_session_id : Hasher → String → ℕ → ConfigDb → Result (Option ℕ)
get_session_id h token now db =
    if token == ""
    then ok none
    else first_match h token (unexpired now db)
      >>= (λ found. ok (elim found [ none ↦ none | some s ↦ some s.id ]))

unfoldable pub revoke_session : Hasher → String → ℕ → ConfigDb → Result ConfigDb
revoke_session h token now db = first_match h token (unexpired now db) >>= (λ found. elim found [
  | none ↦ ok db
  | some s ↦ ok (record db { sessions = delete_key Session.id s.id db.sessions })
])

unfoldable pub purge_expired_sessions : ℕ → ConfigDb → ConfigDb
purge_expired_sessions now db = record db {
  sessions = delete (λ s. leb s.expires_at now) db.sessions;
}

unfoldable pub revoke_all_sessions_for_user : ℕ → ConfigDb → ConfigDb
revoke_all_sessions_for_user user_id db = record db {
  sessions = delete_key Session.user_id user_id db.sessions;
}
