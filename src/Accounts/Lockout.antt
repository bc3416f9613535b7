-- ===== src/Accounts/Lockout.antt =====
-- How many passwords a client may try (src/api/server.py: login).
use net_lanvas.Base.{
  ℕ, ◌+◌, ◌≤◌, ◌<◌, String, none, some, List, [], ◌∷◌, Bool, true, false, if◌then◌else◌, ◌≡◌, arith,
  Bool-cases, inl, inr, nat_eq,
}
use net_lanvas.Base.Text.{strip}
use net_lanvas.RateLimit.{is_rate_limited}
use net_lanvas.RateLimit.Counts.{fresh_at, fresh_at-check, fresh_at-attempt, fresh_at-passed}
use net_lanvas.Auth.{Result-cases, verify_login}
use net_lanvas.Accounts.{
  Site, Context, LoginRequest, Reply, success, logged_in, refused, crashed, setup_state, recovery,
  tokens, created, error, login, try_login, limited, with_attempts, ip_of, window_15_minutes,
  login_max_attempts,
}

-- the reply to a wrong password
abbrev pub is_failure : Reply → ℕ
is_failure (refused status_code) = if nat_eq status_code 401 then 1 else 0
is_failure _ = 0

abbrev pub is_entry : Reply → Bool
is_entry (logged_in token) = true
is_entry _ = false

-- How many of the logins are answered that the password is wrong.
unfoldable pub failures_of : List (Context × LoginRequest) → Site → ℕ
failures_of [] site = 0
failures_of ((c, req) ∷ guesses) site =
    let (reply, after) = login c req site in is_failure reply + failures_of guesses after

-- Logins of one client between two times of the limiter's clock, none of which succeeds.
abbrev pub AreGuesses : String → ℕ → ℕ → List (Context × LoginRequest) → Site → Type 0
AreGuesses ip first last [] site = Unit
AreGuesses ip first last ((c, req) ∷ guesses) site =
    (ip_of c ≡ ip)
    × (first ≤ c.monotonic)
    × (c.monotonic ≤ last)
    × (is_entry (login c req site).0 ≡ false)
    × AreGuesses ip first last guesses (login c req site).1

abbrev fails : String → ℕ → Site → ℕ
fails ip last site = fresh_at ip "login" window_15_minutes last site.attempts

is_failure_le : (r : Reply) → is_failure r ≤ 1
is_failure_le success = omega arith
is_failure_le (logged_in token) = omega arith
is_failure_le (setup_state complete token) = omega arith
is_failure_le (recovery token) = omega arith
is_failure_le (tokens l) = omega arith
is_failure_le (created id token) = omega arith
is_failure_le (error text) = omega arith
is_failure_le crashed = omega arith
is_failure_le (refused status_code) = elim (Bool-cases (nat_eq status_code 401)) [
  | inl e ↦ rw e (omega arith)
  | inr e ↦ rw e (omega arith)
]

module _ (c : Context) (req : LoginRequest) (last : ℕ) (early : c.monotonic ≤ last)
    (soon : last < c.monotonic + window_15_minutes) where
  try_login-fails :
      (site : Site)
      → is_entry (try_login c req site).0 ≡ false
      → fails (ip_of c) last (try_login c req site).1
        ≡ is_failure (try_login c req site).0 + fails (ip_of c) last site
  unfolding try_login
  try_login-fails site e =
      elim (Result-cases
        (verify_login c.hasher c.salt c.decoy (strip req.username) req.password site.db)) [
          | inl p ↦ ground arith
          | inr ((none, db), p) ↦ ground (
            arith,
            fresh_at-attempt (ip_of c) "login" window_15_minutes c.monotonic last site.attempts
                early soon,
          )
          | inr ((some u, db), p) ↦ absurd (ground arith)
        ]

  login-fails :
      (site : Site)
      → is_entry (login c req site).0 ≡ false
      → (fails (ip_of c) last (login c req site).1
          ≡ is_failure (login c req site).0 + fails (ip_of c) last site)
        × (fails (ip_of c) last site ≤ 5
            → is_failure (login c req site).0 + fails (ip_of c) last site ≤ 5)
  unfolding login limited
  login-fails site e =
      let checked =
        with_attempts
          (is_rate_limited (ip_of c) "login" login_max_attempts window_15_minutes c.monotonic
            site.attempts).1
          site in
      let same =
        fresh_at-check (ip_of c) "login" window_15_minutes c.monotonic last site.attempts early
          login_max_attempts in
      elim (Bool-cases
        (is_rate_limited (ip_of c) "login" login_max_attempts window_15_minutes c.monotonic
          site.attempts).0) [
            | inl q ↦ (ground (arith, same), λ k. ground (arith, same))
            | inr q ↦
                let passed =
                  fresh_at-passed (ip_of c) "login" window_15_minutes c.monotonic last site.attempts
                    early login_max_attempts q in
                let tally = try_login-fails checked (rw q at e) in
                (
                  ground (arith, same, tally),
                  λ k. ground (arith, is_failure_le (login c req site).0, passed),
                )
          ]

-- Within one window of 15 minutes a client that does not get in is told at most five times that a
-- password was wrong, however many logins it sends. Before the first login, at most five of the
-- client's failures may count.
pub failures_of_le :
    (ip : String) (first last : ℕ) (guesses : List (Context × LoginRequest)) (site : Site)
    → last < first + window_15_minutes
    → AreGuesses ip first last guesses site
    → fresh_at ip "login" window_15_minutes last site.attempts ≤ 5
    → failures_of guesses site + fresh_at ip "login" window_15_minutes last site.attempts ≤ 5
unfolding failures_of
failures_of_le ip first last [] site short h few = ground arith
failures_of_le ip first last ((c, req) ∷ guesses) site short (same, early, late, out, rest) few =
    let step = login-fails c req last late (omega arith) site out in
    ground
      (arith, step.0, step.1, failures_of_le ip first last guesses (login c req site).1 short rest)
