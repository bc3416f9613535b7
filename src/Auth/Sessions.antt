-- ===== src/Auth/Sessions.antt =====
-- Which user a session token stands for (src/security/auth.py: create_session, validate_session,
-- revoke_session, purge_expired_sessions, revoke_all_sessions_for_user).
use net_lanvas.Base.{
  ℕ, ◌+◌, ◌≤◌, String, Option, none, some, List, [], ◌∷◌, ◌++◌, Bool, true, false, ltb, leb, ◌&&◌,
  if◌then◌else◌, eq_String, eq_ℕ, ◌==◌, ◌≡◌, ◌≢◌, refl, arith, All, eq_iff, nat_eq_iff, Bool-cases,
  inl, inr, Option-cases,
}
use net_lanvas.Base.Table.{select, find, delete, All-select, All-delete}
use net_lanvas.Base.Keyed.{delete_key}
use net_lanvas.Auth.{
  Hasher, Verdict, matches, mismatch, fault, Verifies, Session, ConfigDb, Result, ok, raise, ◌>>=◌,
  session_lifetime, unexpired, first_match, create_session, validate_session, revoke_session,
  purge_expired_sessions, revoke_all_sessions_for_user,
}

abbrev pub is_match : Verdict → Bool
is_match matches = true
is_match _ = false

abbrev pub opens : Hasher → String → Session → Bool
opens h token s = is_match (h.verify s.token_hash token)

-- argon2 raises nothing unexpected on these rows
abbrev pub Readable : Hasher → String → List Session → Type 0
Readable h token sessions = All (λ s. h.verify s.token_hash token ≢ fault) sessions

first_match-eq :
    (h : Hasher) (token : String) (xs : List Session)
    → Readable h token xs
    → first_match h token xs ≡ ok (find (opens h token) xs)
unfolding first_match find
first_match-eq h token [] r = refl
first_match-eq h token (s ∷ xs) r = ground (arith, first_match-eq h token xs r.1, r.0)

find-select {ℓ} :
    {A : Type ℓ} (p q : A → Bool) (xs : List A) → find p (select q xs) ≡ find (λ x. q x && p x) xs
unfolding find select
find-select p q [] = refl
find-select p q (x ∷ xs) = ground (arith, find-select p q xs)

select-delete {ℓ} :
    {A : Type ℓ} (p q : A → Bool) (xs : List A)
    → ((x : A) → p x ≡ true → q x ≡ false)
    → select p (delete q xs) ≡ select p xs
unfolding select delete
select-delete p q [] h = refl
select-delete p q (x ∷ xs) h = ground (arith, select-delete p q xs h, h x)

find-none {ℓ} :
    {A : Type ℓ} (p : A → Bool) (xs : List A) → All (λ x. p x ≡ false) xs → find p xs ≡ none
unfolding find
find-none p [] h = refl
find-none p (x ∷ xs) h = ground (arith, h.0, find-none p xs h.1)

abbrev pub user_of : Option Session → Option ℕ
user_of none = none
user_of (some s) = some s.user_id

-- A token that is not empty stands for the user of the first session that has not expired and
-- whose hash it verifies against, and for nobody where there is none, as long as argon2 raises
-- nothing unexpected on the stored hashes.
pub validate_session_exact :
    (h : Hasher) (token : String) (now : ℕ) (db : ConfigDb)
    → token ≢ ""
    → Readable h token db.sessions
    → validate_session h token now db
      ≡ ok (user_of (find (λ s. ltb now s.expires_at && opens h token s) db.sessions))
unfolding validate_session unexpired
validate_session_exact h token now db given r =
    let open_now : first_match h token (select (λ s. ltb now s.expires_at) db.sessions)
        ≡ ok (find (opens h token) (select (λ s. ltb now s.expires_at) db.sessions)) =
      first_match-eq h token (select (λ s. ltb now s.expires_at) db.sessions) (
        All-select (λ s. h.verify s.token_hash token ≢ fault) (λ s. ltb now s.expires_at)
          db.sessions r) in
    ground (
      arith,
      eq_iff token "",
      given,
      open_now,
      find-select (opens h token) (λ s. ltb now s.expires_at) db.sessions,
    )

-- Purging at one time changes no validation at that time or later, whatever the token and
-- whatever argon2 answers.
pub validate_session-purge_expired_sessions :
    (h : Hasher) (token : String) (now later : ℕ) (db : ConfigDb)
    → now ≤ later
    → validate_session h token later (purge_expired_sessions now db)
      ≡ validate_session h token later db
unfolding validate_session unexpired purge_expired_sessions
validate_session-purge_expired_sessions h token now later db le =
    rw
      (select-delete (λ s. ltb later s.expires_at) (λ s. leb s.expires_at now) db.sessions
        (λ s. λ e. ground arith))
      refl

-- no row opens for the token
abbrev pub Closed : Hasher → String → List Session → Type 0
Closed h token sessions = All (λ s. opens h token s ≡ false) sessions

first_match-new :
    (h : Hasher) (token : String) (p : Session → Bool) (xs : List Session) (new : Session)
    → All (λ s. h.verify s.token_hash token ≡ mismatch) xs
    → h.verify new.token_hash token ≡ matches
    → first_match h token (select p (xs ++ new ∷ [])) ≡ ok (if p new then some new else none)
unfolding first_match select
first_match-new h token p [] new a m = ground (arith, m)
first_match-new h token p (s ∷ xs) new a m =
    ground (arith, a.0, first_match-new h token p xs new a.1 m)

-- A new session validates as its user from its creation until its lifetime is over and never
-- again, where the new token is not empty, verifies against its own hash, and mismatches the
-- hash of each session that is already there.
pub validate_session-create_session :
    (h : Hasher) (salt : ℕ) (token : String) (user_id now later : ℕ) (db : ConfigDb)
    → Verifies h
    → token ≢ ""
    → All (λ s. h.verify s.token_hash token ≡ mismatch) db.sessions
    → validate_session h token later (create_session h salt token user_id now db).1
      ≡ ok (if ltb later (now + session_lifetime) then some user_id else none)
unfolding validate_session unexpired create_session
validate_session-create_session h salt token user_id now later db law given fresh = ground (
  arith,
  eq_iff token "",
  given,
  first_match-new h token (λ s. ltb later s.expires_at) db.sessions
      (record {
        id = db.next_session_id;
        token_hash = h.hash salt token;
        user_id = user_id;
        created_at = now;
        expires_at = now + session_lifetime;
        stamp_confirmed_at = none;
      })
      fresh (law salt token),
)

-- no session of the user is left
absent_user :
    (u : ℕ) (xs : List Session) → All (λ s. s.user_id ≢ u) (delete_key Session.user_id u xs)
unfolding delete_key delete
absent_user u [] = tt
absent_user u (s ∷ xs) = elim (Bool-cases (s.user_id == u)) [
  | inl e ↦ rw e (absent_user u xs)
  | inr e ↦ rw e (λ p. ground (arith, nat_eq_iff s.user_id u), absent_user u xs)
]

first_match_user :
    (h : Hasher) (token : String) (u : ℕ) (xs : List Session)
    → All (λ s. s.user_id ≢ u) xs
    → (s : Session) → first_match h token xs ≡ ok (some s)
    → s.user_id ≢ u
unfolding first_match
first_match_user h token u [] a s e = ground arith
first_match_user h token u (t ∷ xs) a s e = ground (arith, a.0, first_match_user h token u xs a.1 s)

not_user :
    (u : ℕ) (o : Result (Option Session))
    → ((s : Session) → o ≡ ok (some s) → s.user_id ≢ u)
    → (o >>= (λ found. ok (elim found [ none ↦ none | some s ↦ some s.user_id ]))) ≢ ok (some u)
not_user u raise k = ground arith
not_user u (ok none) k = ground arith
not_user u (ok (some s)) k = ground (arith, k s refl)

-- After a credential reset has revoked a user's sessions, no token stands for that user: this
-- holds for every token, time and answer of argon2.
pub validate_session-revoke_all_sessions_for_user :
    (h : Hasher) (token : String) (user_id now : ℕ) (db : ConfigDb)
    → validate_session h token now (revoke_all_sessions_for_user user_id db) ≢ ok (some user_id)
unfolding validate_session unexpired revoke_all_sessions_for_user
validate_session-revoke_all_sessions_for_user h token user_id now db e =
    elim (Bool-cases (token == "")) [
      | inl p ↦ let q : ok none ≡ ok (some user_id) = rw p at e in ground arith
      | inr p ↦
          not_user user_id
            (first_match h token
              (select (λ s. ltb now s.expires_at) (delete_key Session.user_id user_id db.sessions)))
            (first_match_user h token user_id
              (select (λ s. ltb now s.expires_at) (delete_key Session.user_id user_id db.sessions))
              (All-select (λ s. s.user_id ≢ user_id) (λ s. ltb now s.expires_at)
                (delete_key Session.user_id user_id db.sessions) (absent_user user_id db.sessions)))
            (rw p at e)
    ]

closed_later :
    (h : Hasher) (token : String) (now later : ℕ) (xs : List Session)
    → now ≤ later
    → find (λ s. ltb now s.expires_at && opens h token s) xs ≡ none
    → find (λ s. ltb later s.expires_at && opens h token s) xs ≡ none
unfolding find
closed_later h token now later [] le e = refl
closed_later h token now later (s ∷ xs) le e = ground (arith, closed_later h token now later xs le)

closed-delete_key :
    (h : Hasher) (token : String) (k later : ℕ) (xs : List Session)
    → All (λ s. opens h token s ≡ true → s.id ≡ k) xs
    → find (λ s. ltb later s.expires_at && opens h token s) (delete_key Session.id k xs) ≡ none
unfolding find delete_key delete
closed-delete_key h token k later [] a = refl
closed-delete_key h token k later (s ∷ xs) a =
    ground (arith, a.0, nat_eq_iff s.id k, closed-delete_key h token k later xs a.1)

find-opens :
    (h : Hasher) (token : String) (now : ℕ) (xs : List Session) (k : ℕ) {s : Session}
    → All (λ s. opens h token s ≡ true → s.id ≡ k) xs
    → find (λ s. ltb now s.expires_at && opens h token s) xs ≡ some s
    → s.id ≡ k
unfolding find
find-opens h token now [] k a e = cc
find-opens h token now (t ∷ xs) k {s} a e =
    ground (arith, a.0, find-opens h token now xs k {s = s} a.1)

revoke_session-eq :
    (h : Hasher) (token : String) (now : ℕ) (db : ConfigDb)
    → Readable h token db.sessions
    → revoke_session h token now db
      ≡ ok (elim (find (λ s. ltb now s.expires_at && opens h token s) db.sessions) [
        | none ↦ db
        | some s ↦ record db { sessions = delete_key Session.id s.id db.sessions }
      ])
unfolding revoke_session unexpired
revoke_session-eq h token now db r =
    rw
      (
        first_match-eq h token (select (λ s. ltb now s.expires_at) db.sessions) (
            All-select (λ s. h.verify s.token_hash token ≢ fault) (λ s. ltb now s.expires_at)
              db.sessions r),
        find-select (opens h token) (λ s. ltb now s.expires_at) db.sessions,
      )
      (ground arith)

Readable-delete_key :
    (h : Hasher) (token : String) (k : ℕ) (xs : List Session)
    → Readable h token xs
    → Readable h token (delete_key Session.id k xs)
unfolding delete_key
Readable-delete_key h token k xs r =
    All-delete (λ s. h.verify s.token_hash token ≢ fault) (λ s. s.id == k) xs r

-- Logging out ends the session: the revocation succeeds, and from then on the token stands for
-- nobody, where at most one row (that with the id `k`) opens for the token and argon2 raises
-- nothing unexpected on the stored hashes.
pub validate_session-revoke_session :
    (h : Hasher) (token : String) (k now later : ℕ) (db : ConfigDb)
    → token ≢ ""
    → Readable h token db.sessions
    → All (λ s. opens h token s ≡ true → s.id ≡ k) db.sessions
    → now ≤ later
    → (revoke_session h token now db >>= (λ after. validate_session h token later after)) ≡ ok none
validate_session-revoke_session h token k now later db given r one le =
    elim (Option-cases (find (λ s. ltb now s.expires_at && opens h token s) db.sessions)) [
      | inl e ↦
          rw
            (
              revoke_session-eq h token now db r,
              e,
              validate_session_exact h token later db given r,
              closed_later h token now later db.sessions le e,
            )
            refl
      | inr (s, e) ↦
          rw
            (
              revoke_session-eq h token now db r,
              e,
              validate_session_exact h token later
                  (record db { sessions = delete_key Session.id s.id db.sessions }) given
                  (Readable-delete_key h token s.id db.sessions r),
              find-opens h token now db.sessions k one e,
              closed-delete_key h token k later db.sessions one,
            )
            refl
    ]
