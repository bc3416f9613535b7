-- ===== src/Auth/Tests.antt =====
-- Runs of logins and sessions, with a hasher that marks a text in place of argon2.
use net_lanvas.Base.{
  ℕ, String, none, some, [], ◌∷◌, false, if◌then◌else◌, ltb, eq_String, ◌==◌, ◌≡◌, refl, arith,
  eq_refl, ◌&&◌,
}
use net_lanvas.Base.Table.{find, select}
use net_lanvas.Base.Keyed.{find_key}
use net_lanvas.Base.Text.{append, differ}
use net_lanvas.Auth.{
  Hasher, Verdict, matches, mismatch, Verifies, Session, ConfigDb, ok, ◌>>=◌, create_initial_user,
  verify_login, validate_session, revoke_session, unexpired, first_match, hash_password,
  verify_password, needs_rehash,
}
use net_lanvas.Auth.Sessions.{
  opens, user_of, validate_session_exact, validate_session-revoke_session,
}

abbrev pub mark : ℕ → String → String
mark salt text = append "h:" text

abbrev pub check_mark : String → String → Verdict
check_mark stored text = if stored == append "h:" text then matches else mismatch

abbrev pub marker : Hasher
marker = record { hash = mark; verify = check_mark; check_needs_rehash = λ _. false }

pub marker-Verifies : Verifies marker
marker-Verifies salt text = rw (eq_refl (append "h:" text)) refl

abbrev pub alice : Session
alice = record {
  id = 1;
  token_hash = "h:alice-token";
  user_id = 7;
  created_at = 1000;
  expires_at = 5000;
  stamp_confirmed_at = none;
}

abbrev pub bob : Session
bob = record {
  id = 2;
  token_hash = "h:bob-token";
  user_id = 8;
  created_at = 1000;
  expires_at = 9000;
  stamp_confirmed_at = none;
}

abbrev pub config_db : ConfigDb
config_db = record {
  users = [];
  next_user_id = 1;
  sessions = alice ∷ bob ∷ [];
  next_session_id = 3;
  setup_token = none;
  recovery_token = none;
  api_tokens = [];
  next_api_token_id = 1;
}

alice_is_in : validate_session marker "alice-token" 4999 config_db ≡ ok (some 7)
unfolding validate_session unexpired first_match select
alice_is_in = refl

alice_is_out : validate_session marker "alice-token" 5000 config_db ≡ ok none
unfolding validate_session unexpired first_match select
alice_is_out = refl

-- A first user, then a login with the right password and one with a wrong one.
login_after_setup :
    (create_initial_user marker 1 "admin" "secret" 10 config_db
      >>= (λ db. verify_login marker 2 "decoy" "admin" "secret" db >>= (λ p. ok p.0)))
    ≡ ok (some 1)
unfolding create_initial_user verify_login hash_password verify_password needs_rehash find_key find
login_after_setup = refl

login_with_wrong_password :
    (create_initial_user marker 1 "admin" "secret" 10 config_db
      >>= (λ db. verify_login marker 2 "decoy" "admin" "Secret" db >>= (λ p. ok p.0)))
    ≡ ok none
unfolding create_initial_user verify_login hash_password verify_password needs_rehash find_key find
login_with_wrong_password = refl

validate_session_exact_example :
    validate_session marker "bob-token" 6000 config_db
    ≡ ok (
        user_of
          (find (λ s. ltb 6000 s.expires_at && opens marker "bob-token" s) config_db.sessions))
validate_session_exact_example =
    validate_session_exact marker "bob-token" 6000 config_db
      (differ "bob-token" "" (λ e. omega (arith, e))) (λ e. ground arith, (λ e. ground arith, tt))

validate_session-revoke_session_example :
    (revoke_session marker "bob-token" 2000 config_db
      >>= (λ after. validate_session marker "bob-token" 3000 after))
    ≡ ok none
validate_session-revoke_session_example =
    validate_session-revoke_session marker "bob-token" 2 2000 3000 config_db
      (differ "bob-token" "" (λ e. omega (arith, e))) (λ e. ground arith, (λ e. ground arith, tt))
      (λ e. ground arith, (λ e. refl, tt)) (omega arith)
