-- ===== src/RateLimit.antt =====
-- The in-memory rate limiter (src/security/rate_limit.py). `_attempts` is passed explicitly and
-- each call takes the clock's reading as `now`, in whole units of time; the lock makes each
-- function one step.
pub mod Window
pub mod Counts
pub mod Client
mod Tests
use net_lanvas.Base.{
  ℕ, ◌+◌, String, Option, none, some, List, [], ◌∷◌, ◌++◌, Bool, map, not, ltb, leb, length,
  is_empty, if◌then◌else◌, eq_pair, eq_String,
}
use net_lanvas.Base.Table.{select}
use net_lanvas.Base.Dict.{Dict, get_or, put, remove}
use net_lanvas.Base.Text.{strip, split_on, is_blank}

-- (identifier, bucket)
abbrev pub Key : Type 0
Key = String × String

abbrev pub Attempts : Type 0
Attempts = Dict Key (List ℕ)

-- t > cutoff, for cutoff = now - window, with no subtraction
abbrev pub is_fresh : ℕ → ℕ → ℕ → Bool
is_fresh window now t = ltb now (t + window)

pub prune_locked : Key → ℕ → ℕ → Attempts → List ℕ × Attempts
prune_locked key window now attempts =
    let pruned = select (is_fresh window now) (get_or key [] attempts) in
    (pruned, put key pruned attempts)

unfoldable pub is_rate_limited : String → String → ℕ → ℕ → ℕ → Attempts → Bool × Attempts
unfolding prune_locked
is_rate_limited identifier bucket max_attempts window now attempts =
    let (timestamps, pruned) = prune_locked (identifier, bucket) window now attempts in
    (leb max_attempts (length timestamps), pruned)

unfoldable pub record_attempt : String → String → ℕ → ℕ → Attempts → Attempts
unfolding prune_locked
record_attempt identifier bucket window now attempts =
    let key : Key = (identifier, bucket) in
    let pruned = (prune_locked key window now attempts).1 in
    put key (get_or key [] pruned ++ now ∷ []) pruned

unfoldable pub clear_attempts : String → String → Attempts → Attempts
clear_attempts identifier bucket attempts = remove (identifier, bucket) attempts

abbrev pub last : List String → Option String
last [] = none
last (x ∷ []) = some x
last (x ∷ y ∷ xs) = last (y ∷ xs)

abbrev pub peer : Option String → String
peer none = "unknown"
peer (some host) = host

-- [p.strip() for p in forwarded.split(",") if p.strip()]
pub forwarded_parts : String → List String
forwarded_parts forwarded = select (λ p. not (is_blank p)) (map strip (split_on b',' forwarded))

-- The header is absent (`none`) or a text, and `client` is request.client.host.
unfoldable pub get_client_ip : Option String → Option String → String
unfolding forwarded_parts
get_client_ip none client = peer client
get_client_ip (some forwarded) client = elim (last (forwarded_parts forwarded)) [
  | none ↦ peer client
  | some ip ↦ ip
]
