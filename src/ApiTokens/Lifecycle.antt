-- ===== src/ApiTokens/Lifecycle.antt =====
-- What an API token opens between its creation and its revocation (src/security/api_tokens.py).
use net_lanvas.Base.{
  ℕ, String, Option, none, some, List, [], ◌∷◌, ◌++◌, Bool, true, false, eq_String, eq_ℕ, ◌==◌, ◌≡◌,
  ◌≢◌, refl, arith, All, Bool-cases, inl, inr, eq_iff, nat_eq_iff, sym, ap,
}
use net_lanvas.Base.Table.{delete}
use net_lanvas.Base.Keyed.{delete_key}
use net_lanvas.Base.Text.{len}
use net_lanvas.Auth.{
  Hasher, Verifies, ApiToken, ConfigDb, Result, ok, raise, ◌>>=◌, hash_password, verify_password,
}
use net_lanvas.ApiTokens.{
  generate_api_token, create_api_token, revoke_api_token, first_verified, validate_api_token,
  TokenRow, token_outcome,
}

abbrev pub row_of : Option TokenRow × ConfigDb → Result (Option TokenRow)
row_of (row, db) = ok row

first_verified-new :
    (h : Hasher) (text : String) (xs : List ApiToken) (new : ApiToken)
    → All (λ t. verify_password h text t.token_hash ≡ ok false) xs
    → verify_password h text new.token_hash ≡ ok true
    → first_verified h text (xs ++ new ∷ []) ≡ ok (some new)
unfolding first_verified
first_verified-new h text [] new a m = ground (arith, m)
first_verified-new h text (t ∷ xs) new a m =
    ground (arith, a.0, first_verified-new h text xs new a.1 m)

generate_api_token_nonempty : (random : String) → (generate_api_token random == "") ≡ false
generate_api_token_nonempty random = elim (Bool-cases (generate_api_token random == "")) [
  | inl e ↦
      let same : generate_api_token random ≡ "" = (eq_iff (generate_api_token random) "").0 e in
      let lengths : len (generate_api_token random) ≡ 0 = ap len same in
      absurd (omega (arith, lengths))
  | inr e ↦ e
]

-- A token that was just created opens as its own row, with its label and scope, where the
-- plaintext verifies against its own hash and against none of the hashes already stored.
pub validate_api_token-create_api_token :
    (h : Hasher) (salt : ℕ) (random label : String) (is_read_only : Bool) (now later : ℕ)
    (db : ConfigDb)
    → Verifies h
    → All (λ t. verify_password h (generate_api_token random) t.token_hash ≡ ok false) db.api_tokens
    → (validate_api_token h
          (generate_api_token random)
          later
          (create_api_token h salt random label is_read_only now db).1
        >>= row_of)
      ≡ ok (some (record { id = db.next_api_token_id; label = label; is_read_only = is_read_only }))
unfolding validate_api_token create_api_token hash_password verify_password
validate_api_token-create_api_token h salt random label is_read_only now later db law fresh =
    ground (
      arith,
      generate_api_token_nonempty random,
      law salt (generate_api_token random),
      first_verified-new h (generate_api_token random) db.api_tokens
          (record {
            id = db.next_api_token_id;
            label = label;
            token_hash = h.hash salt (generate_api_token random);
            is_read_only = is_read_only;
            created_at = now;
            last_used_at = none;
          })
          fresh,
    )

absent_token : (k : ℕ) (xs : List ApiToken) → All (λ t. t.id ≢ k) (delete_key ApiToken.id k xs)
unfolding delete_key delete
absent_token k [] = tt
absent_token k (t ∷ xs) = elim (Bool-cases (t.id == k)) [
  | inl e ↦ rw e (absent_token k xs)
  | inr e ↦ rw e (λ p. ground (arith, nat_eq_iff t.id k), absent_token k xs)
]

first_verified_id :
    (h : Hasher) (text : String) (k : ℕ) (xs : List ApiToken)
    → All (λ t. t.id ≢ k) xs
    → (t : ApiToken) → first_verified h text xs ≡ ok (some t)
    → t.id ≢ k
unfolding first_verified
first_verified_id h text k [] a t e = ground arith
first_verified_id h text k (x ∷ xs) a t e = ground (arith, a.0, first_verified_id h text k xs a.1 t)

not_id :
    (k : ℕ) (db : ConfigDb) (now : ℕ) (row : TokenRow) (after : ConfigDb)
    (o : Result (Option ApiToken))
    → ((t : ApiToken) → o ≡ ok (some t) → t.id ≢ k)
    → (o >>= token_outcome now (revoke_api_token k db).1) ≡ ok (some row, after)
    → row.id ≢ k
unfolding revoke_api_token
not_id k db now row after raise f e = absurd (ground arith)
not_id k db now row after (ok none) f e = absurd (ground arith)
not_id k db now row after (ok (some t)) f e =
    let same : record { id = t.id; label = t.label; is_read_only = t.is_read_only } ≡ row =
      ground arith in
    rw (sym same) (f t refl)

-- Once a token is revoked, no text opens as it: this holds for every text, time and answer
-- of argon2.
pub validate_api_token-revoke_api_token :
    (h : Hasher) (text : String) (k now : ℕ) (db after : ConfigDb) (row : TokenRow)
    → validate_api_token h text now (revoke_api_token k db).1 ≡ ok (some row, after)
    → row.id ≢ k
unfolding validate_api_token revoke_api_token
validate_api_token-revoke_api_token h text k now db after row e = elim (Bool-cases (text == "")) [
  | inl p ↦ absurd (ground arith)
  | inr p ↦
      not_id k db now row after (first_verified h text (delete_key ApiToken.id k db.api_tokens))
        (first_verified_id h text k (delete_key ApiToken.id k db.api_tokens)
          (absent_token k db.api_tokens))
        (rw p at e)
]
