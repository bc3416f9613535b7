-- ===== src/Auth/Credentials.antt =====
-- The stamp of a session, the first-run setup token, and the recovery of a forgotten login
-- (src/security/auth.py, the second half).
use net_lanvas.Base.{
  ℕ, String, Option, none, some, [], ◌∷◌, Bool, true, false, eq_ℕ, eq_String, ◌&&◌, not, is_some,
  ◌==◌,
}
use net_lanvas.Base.Table.{find}
use net_lanvas.Base.Keyed.{find_key, update_key}
use net_lanvas.Auth.{
  Hasher, ConfigDb, User, Session, Result, ok, raise, hash_password, verify_password,
}

unfoldable pub is_stamp_confirmed : ℕ → ConfigDb → Bool
is_stamp_confirmed session_id db = elim (find_key Session.id session_id db.sessions) [
  | none ↦ false
  | some s ↦ is_some s.stamp_confirmed_at
]

unfoldable pub mark_stamp_confirmed : ℕ → ℕ → ConfigDb → ConfigDb
mark_stamp_confirmed session_id now db = record db {
  sessions =
      update_key Session.id session_id (λ s. record s { stamp_confirmed_at = some now })
        db.sessions;
}

unfoldable pub store_setup_token : Hasher → ℕ → String → ℕ → ConfigDb → ConfigDb
store_setup_token h salt plaintext now db = record db {
  setup_token = some (record { token_hash = hash_password h salt plaintext; created_at = now });
}

unfoldable pub verify_setup_token : Hasher → String → ConfigDb → Result Bool
verify_setup_token h plaintext db = elim db.setup_token [
  | none ↦ ok false
  | some row ↦ verify_password h plaintext row.token_hash
]

unfoldable pub clear_setup_token : ConfigDb → ConfigDb
clear_setup_token db = record db { setup_token = none }

unfoldable pub store_recovery_token : Hasher → ℕ → String → ℕ → ConfigDb → ConfigDb
store_recovery_token h salt plaintext now db = record db {
  recovery_token = some (record { token_hash = hash_password h salt plaintext; created_at = now });
}

unfoldable pub verify_recovery_token : Hasher → String → ConfigDb → Result Bool
verify_recovery_token h plaintext db = elim db.recovery_token [
  | none ↦ ok false
  | some row ↦ verify_password h plaintext row.token_hash
]

unfoldable pub clear_recovery_token : ConfigDb → ConfigDb
clear_recovery_token db = record db { recovery_token = none }

-- `raise` is the IntegrityError of a username that another row has.
unfoldable pub reset_credentials : Hasher → ℕ → ℕ → String → String → ConfigDb → Result ConfigDb
reset_credentials h salt user_id new_username new_plaintext_password db =
    elim (is_some (find (λ u. u.username == new_username && not (u.id == user_id)) db.users)
      && is_some (find_key User.id user_id db.users)) [
        | true ↦ raise
        | false ↦ ok (record db {
          users =
              update_key User.id user_id
                (λ u. record u {
                  username = new_username;
                  password_hash = hash_password h salt new_plaintext_password;
                })
                db.users;
        })
      ]

unfoldable pub get_sole_user_id : ConfigDb → Option ℕ
get_sole_user_id db = elim db.users [ [] ↦ none | u ∷ rest ↦ some u.id ]
