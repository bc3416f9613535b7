-- ===== src/ApiTokens.antt =====
-- Long-lived API tokens (src/security/api_tokens.py). The random part of a new token and its salt
-- are arguments.
pub mod Lifecycle
pub mod Tests
use net_lanvas.Base.{
  ℕ, suc, ◌≤◌, String, Option, none, some, List, [], ◌∷◌, ◌++◌, Bool, true, false, ltb, leb, not,
  if◌then◌else◌, eq_String, eq_ℕ, ◌==◌, map, length, is_some,
}
use net_lanvas.Base.Keyed.{find_key, update_key, delete_key}
use net_lanvas.Base.Text.{append}
use net_lanvas.Auth.{
  Hasher, ApiToken, ConfigDb, Result, ok, raise, ◌>>=◌, hash_password, verify_password,
}

abbrev pub token_prefix : String
token_prefix = "nlvt_"

abbrev pub generate_api_token : String → String
generate_api_token random = append token_prefix random

unfoldable pub create_api_token :
    Hasher → ℕ → String → String → Bool → ℕ → ConfigDb → (ℕ × String) × ConfigDb
create_api_token h salt random label is_read_only now db =
    let plaintext = generate_api_token random in
    (
      (db.next_api_token_id, plaintext),
      record db {
        api_tokens =
            db.api_tokens
            ++ (record {
              id = db.next_api_token_id;
              label = label;
              token_hash = hash_password h salt plaintext;
              is_read_only = is_read_only;
              created_at = now;
              last_used_at = none;
            })
              ∷ [];
        next_api_token_id = suc db.next_api_token_id;
      },
    )

-- What list_api_tokens shows of a row.
pub record Listed : Type 0 where
  pub id : ℕ
  pub label : String
  pub is_read_only : Bool
  pub created_at : ℕ
  pub last_used_at : Option ℕ

abbrev pub listed : ApiToken → Listed
listed r = record {
  id = r.id;
  label = r.label;
  is_read_only = r.is_read_only;
  created_at = r.created_at;
  last_used_at = r.last_used_at;
}

abbrev pub insert_created : ApiToken → List ApiToken → List ApiToken
insert_created r [] = r ∷ []
insert_created r (q ∷ rows) =
    let rest = insert_created r rows in
    if leb r.created_at q.created_at then r ∷ q ∷ rows else q ∷ rest

-- ORDER BY created_at, rows of one time in the order of the table
abbrev pub by_created : List ApiToken → List ApiToken
by_created [] = []
by_created (r ∷ rows) = insert_created r (by_created rows)

unfoldable pub list_api_tokens : ConfigDb → List Listed
list_api_tokens db = map listed (by_created db.api_tokens)

unfoldable pub revoke_api_token : ℕ → ConfigDb → Bool × ConfigDb
revoke_api_token token_id db = (
  is_some (find_key ApiToken.id token_id db.api_tokens),
  record db { api_tokens = delete_key ApiToken.id token_id db.api_tokens },
)

unfoldable pub revoke_all_api_tokens : ConfigDb → ℕ × ConfigDb
revoke_all_api_tokens db = (length db.api_tokens, record db { api_tokens = [] })

-- The loop of validate_api_token: the first row whose hash the text matches.
unfoldable pub first_verified : Hasher → String → List ApiToken → Result (Option ApiToken)
first_verified h plaintext [] = ok none
first_verified h plaintext (row ∷ rest) =
    let later = first_verified h plaintext rest in
    verify_password h plaintext row.token_hash
    >>= (λ correct. if correct then ok (some row) else later)

-- What validate_api_token returns of a row, which is also request.state.api_token.
pub record TokenRow : Type 0 where
  pub id : ℕ
  pub label : String
  pub is_read_only : Bool

abbrev pub stamped : ℕ → ApiToken → ConfigDb → ConfigDb
stamped now row db = record db {
  api_tokens =
      update_key ApiToken.id row.id (λ r. record r { last_used_at = some now }) db.api_tokens;
}

abbrev pub token_outcome : ℕ → ConfigDb → Option ApiToken → Result (Option TokenRow × ConfigDb)
token_outcome now db none = ok (none, db)
token_outcome now db (some row) = ok (
  some (record { id = row.id; label = row.label; is_read_only = row.is_read_only }),
  stamped now row db,
)

unfoldable pub validate_api_token :
    Hasher → String → ℕ → ConfigDb → Result (Option TokenRow × ConfigDb)
validate_api_token h plaintext now db =
    if plaintext == ""
    then ok (none, db)
    else first_verified h plaintext db.api_tokens >>= token_outcome now db
