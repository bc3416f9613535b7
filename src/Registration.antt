-- ===== src/Registration.antt =====
-- The state token of a registration and the cache of the entitlement
-- (src/security/registration.py). Times are seconds, and argon2 is the parameter of
-- src/security/auth.py. The requests to the vendor's server are not modelled.
pub mod Once
mod Tests
use net_lanvas.Base.{ℕ, ◌+◌, ◌*◌, String, Option, none, some, Bool, true, false, ltb, if◌then◌else◌}
use net_lanvas.Auth.{Hasher, Result, ok, raise, hash_password, verify_password}

abbrev pub state_lifetime : ℕ
state_lifetime = 10 * 60

-- the row of registration_state
pub record StateRow : Type 0 where
  pub state_token_hash : String
  pub created_at : ℕ
  pub expires_at : ℕ

-- `token` is what secrets.token_urlsafe gives. The one row is replaced.
unfoldable pub generate_state_token :
    Hasher → ℕ → String → ℕ → Option StateRow → String × Option StateRow
generate_state_token h salt token now state = (
  token,
  some (record {
    state_token_hash = hash_password h salt token;
    created_at = now;
    expires_at = now + state_lifetime;
  }),
)

unfoldable pub verify_and_consume_state_token :
    Hasher → String → ℕ → Option StateRow → Result (Bool × Option StateRow)
verify_and_consume_state_token h plaintext now none = ok (false, none)
verify_and_consume_state_token h plaintext now (some row) =
    if ltb row.expires_at now
    then ok (false, none)
    else elim (verify_password h plaintext row.state_token_hash) [
      | raise ↦ raise
      | ok correct ↦ if correct then ok (true, none) else ok (false, some row)
    ]

-- the row of entitlement_cache, with the text of the server's answer
pub record Entitlement : Type 0 where
  pub account_linked : Bool
  pub entitled : Bool
  pub checked_at : ℕ
  pub raw_response_json : String

unfoldable pub store_entitlement_cache :
    Bool → Bool → String → ℕ → Option Entitlement → Option Entitlement
store_entitlement_cache account_linked entitled raw_response_json now cache = some (record {
  account_linked = account_linked;
  entitled = entitled;
  checked_at = now;
  raw_response_json = raw_response_json;
})
