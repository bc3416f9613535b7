-- ===== src/Accounts/Recovery.antt =====
-- What a credential reset leaves behind (src/api/server.py: recovery_reset).
use net_lanvas.Base.{
  ℕ, String, none, some, [], ◌∷◌, true, false, eq_String, eq_ℕ, ◌≡◌, ◌≢◌, refl, arith, Bool-cases,
  inl, inr, nat_eq_iff, eq_iff,
}
use net_lanvas.Base.Table.{find, update}
use net_lanvas.Base.Text.{strip}
use net_lanvas.Base.Keyed.{find_key, update_key, delete_key}
use net_lanvas.RateLimit.{is_rate_limited}
use net_lanvas.Auth.{
  Verifies, User, Session, ConfigDb, ok, ◌>>=◌, Result-cases, hash_password, verify_password,
  verify_login, validate_session, unexpired, revoke_all_sessions_for_user,
}
use net_lanvas.Auth.Credentials.{
  reset_credentials, get_sole_user_id, clear_recovery_token, verify_recovery_token,
}
use net_lanvas.Auth.Sessions.{validate_session-revoke_all_sessions_for_user}
use net_lanvas.ApiTokens.{revoke_all_api_tokens}
use net_lanvas.Accounts.{
  Site, Context, success, limited, with_attempts, ip_of, window_15_minutes,
  recovery_reset_max_attempts,
}
use net_lanvas.Accounts.Reset.{
  RecoveryResetRequest, recovery_reset, try_recovery_token, reset_account, forget_credentials,
}

-- the account with its new login
abbrev pub renamed : Context → RecoveryResetRequest → User → User
renamed c req u = record u {
  username = strip req.new_username;
  password_hash = hash_password c.hasher c.salt req.new_password;
}

-- The tables after a reset of the site's one account `u`.
pub record IsReset (c : Context) (req : RecoveryResetRequest) (u : User) (db after : ConfigDb)
    : Type 0 where
  pub users : after.users ≡ renamed c req u ∷ []
  pub sessions : after.sessions ≡ delete_key Session.user_id u.id db.sessions
  pub api_tokens : after.api_tokens ≡ []
  pub recovery_token : after.recovery_token ≡ none

reset_sole :
    (c : Context) (req : RecoveryResetRequest) (u : User) (db : ConfigDb)
    → db.users ≡ u ∷ []
    → reset_credentials c.hasher c.salt u.id (strip req.new_username) req.new_password db
      ≡ ok (record db { users = renamed c req u ∷ [] })
unfolding reset_credentials find find_key update_key update
reset_sole c req u db e = rw e (ground (arith, nat_eq_iff u.id u.id))

reset_account-IsReset :
    (c : Context) (req : RecoveryResetRequest) (u : User) (site after : Site)
    → site.db.users ≡ u ∷ []
    → reset_account c req site ≡ (success, after)
    → IsReset c req u site.db after.db
unfolding reset_account get_sole_user_id revoke_all_sessions_for_user revoke_all_api_tokens
    clear_recovery_token
reset_account-IsReset c req u site after sole e =
    let same : forget_credentials c u.id site (record site.db { users = renamed c req u ∷ [] })
        ≡ after =
      ground (arith, reset_sole c req u site.db sole) in
    rw (← same) (record { users = refl; sessions = refl; api_tokens = refl; recovery_token = refl })

try_recovery_token-IsReset :
    (c : Context) (req : RecoveryResetRequest) (u : User) (site after : Site)
    → site.db.users ≡ u ∷ []
    → try_recovery_token c req site ≡ (success, after)
    → IsReset c req u site.db after.db
unfolding try_recovery_token
try_recovery_token-IsReset c req u site after sole e =
    elim (Result-cases (verify_recovery_token c.hasher req.recovery_token site.db)) [
      | inl q ↦ absurd (ground arith)
      | inr (true, q) ↦ reset_account-IsReset c req u site after sole (ground arith)
      | inr (false, q) ↦ absurd (ground arith)
    ]

recovery_reset-IsReset :
    (c : Context) (req : RecoveryResetRequest) (u : User) (site after : Site)
    → site.db.users ≡ u ∷ []
    → recovery_reset c req site ≡ (success, after)
    → IsReset c req u site.db after.db
unfolding recovery_reset limited
recovery_reset-IsReset c req u site after sole e =
    elim (Bool-cases
      (is_rate_limited (ip_of c) "recovery_reset" recovery_reset_max_attempts window_15_minutes
        c.monotonic site.attempts).0) [
          | inl q ↦ absurd (ground arith)
          | inr q ↦
              try_recovery_token-IsReset c req u
                (with_attempts
                  (is_rate_limited (ip_of c) "recovery_reset" recovery_reset_max_attempts
                    window_15_minutes c.monotonic site.attempts).1
                  site)
                after sole (ground arith)
        ]

-- A reset that succeeds locks everyone else out: no session token stands for the account any
-- more, at any time and whatever argon2 answers, no API token is left, and the recovery token is
-- spent. The site must have the one account `u`.
pub recovery_reset-revokes :
    (c : Context) (req : RecoveryResetRequest) (u : User) (site after : Site)
    → site.db.users ≡ u ∷ []
    → recovery_reset c req site ≡ (success, after)
    → ((token : String) (later : ℕ)
        → validate_session c.hasher token later after.db ≢ ok (some u.id))
      × (after.db.api_tokens ≡ [])
      × (after.db.recovery_token ≡ none)
unfolding validate_session unexpired revoke_all_sessions_for_user
recovery_reset-revokes c req u site after sole e =
    let reset = recovery_reset-IsReset c req u site after sole e in
    (
      λ token later.
          rw reset.sessions
            (validate_session-revoke_all_sessions_for_user c.hasher token u.id later site.db),
      reset.api_tokens,
      reset.recovery_token,
    )

-- After a reset that succeeds the account opens with the new name and password, where a fresh
-- hash verifies. The site must have the one account `u`.
pub recovery_reset-verify_login :
    (c : Context) (req : RecoveryResetRequest) (u : User) (site after : Site) (salt : ℕ)
    (decoy : String)
    → Verifies c.hasher
    → site.db.users ≡ u ∷ []
    → recovery_reset c req site ≡ (success, after)
    → (verify_login c.hasher salt decoy (strip req.new_username) req.new_password after.db
        >>= (λ p. ok p.0))
      ≡ ok (some u.id)
unfolding verify_login verify_password hash_password find_key find
recovery_reset-verify_login c req u site after salt decoy law sole e =
    let reset = recovery_reset-IsReset c req u site after sole e in
    rw reset.users (
      ground (
        arith,
        law c.salt req.new_password,
        eq_iff (strip req.new_username) (strip req.new_username),
      ))
