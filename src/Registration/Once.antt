-- ===== src/Registration/Once.antt =====
-- A state token is good once (src/security/registration.py).
use net_lanvas.Base.{ℕ, ◌+◌, String, Option, none, false, not, ltb, ◌≡◌, refl, Bool-cases, inl, inr}
use net_lanvas.Auth.{Hasher, Verifies, ok, ◌>>=◌, hash_password, verify_password}
use net_lanvas.Registration.{
  StateRow, generate_state_token, verify_and_consume_state_token, state_lifetime,
}

-- The token that was generated is accepted for ten minutes and not later, and whichever it is,
-- nothing is accepted after it until a new token is generated: the state is gone. A fresh hash
-- must verify.
pub verify_and_consume_state_token_once :
    (h : Hasher) (salt : ℕ) (token other : String) (now later again : ℕ) (state : Option StateRow)
    → Verifies h
    → (verify_and_consume_state_token h
          (generate_state_token h salt token now state).0
          later
          (generate_state_token h salt token now state).1
        ≡ ok (not (ltb (now + state_lifetime) later), none))
      × ((verify_and_consume_state_token h
              (generate_state_token h salt token now state).0
              later
              (generate_state_token h salt token now state).1
            >>= (λ first. verify_and_consume_state_token h other again first.1))
          ≡ ok (false, none))
unfolding generate_state_token verify_and_consume_state_token hash_password verify_password
verify_and_consume_state_token_once h salt token other now later again state law =
    elim (Bool-cases (ltb (now + state_lifetime) later)) [
      | inl e ↦ rw e (refl, refl)
      | inr e ↦ rw (e, law salt token) (refl, refl)
    ]
