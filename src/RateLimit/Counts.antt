-- ===== src/RateLimit/Counts.antt =====
-- How one call changes the number of failures that still count (src/security/rate_limit.py).
use net_lanvas.Base.{
  ℕ, suc, ◌+◌, ◌≤◌, ◌<◌, String, List, [], ◌∷◌, false, ◌≡◌, ◌≢◌, refl, eq_iff, eq_String, arith,
}
use net_lanvas.Base.Table.{select, count, count-append, length-select}
use net_lanvas.RateLimit.{Attempts, is_fresh, is_rate_limited, record_attempt}
use net_lanvas.RateLimit.Window.{
  same_key, stored, stored-check, stored-attempt, key_refl, count-prune,
}

-- The failures of the key that count at the time `n`.
unfoldable pub fresh_at : String → String → ℕ → ℕ → Attempts → ℕ
fresh_at i b w n attempts = count (is_fresh w n) (stored i b attempts)

count-later : (w u n : ℕ) (xs : List ℕ) → u ≤ n → count (is_fresh w n) xs ≤ count (is_fresh w u) xs
unfolding count
count-later w u n [] h = omega arith
count-later w u n (t ∷ xs) h = ground (arith, count-later w u n xs h)

module _ (i b : String) (w u n : ℕ) (attempts : Attempts) (h : u ≤ n) where
  -- a check changes nothing of it
  pub fresh_at-check :
      (m : ℕ) → fresh_at i b w n (is_rate_limited i b m w u attempts).1 ≡ fresh_at i b w n attempts
  unfolding fresh_at
  fresh_at-check m =
      rw (stored-check (i, b) i b w u attempts m, key_refl (i, b))
        (count-prune w u n h (stored i b attempts))

  -- a failure adds one
  pub fresh_at-attempt :
      n < u + w
      → fresh_at i b w n (record_attempt i b w u attempts) ≡ suc (fresh_at i b w n attempts)
  unfolding fresh_at count
  fresh_at-attempt soon =
      rw
        (
          stored-attempt (i, b) i b w u attempts,
          key_refl (i, b),
          count-append (is_fresh w n) (select (is_fresh w u) (stored i b attempts)) (u ∷ []),
        )
        (ground (arith, count-prune w u n h (stored i b attempts)))

  -- a client that passes the check is below the limit, then and later
  pub fresh_at-passed :
      (m : ℕ) → (is_rate_limited i b m w u attempts).0 ≡ false → fresh_at i b w n attempts < m
  unfolding fresh_at is_rate_limited
  fresh_at-passed m e = ground (
    arith,
    length-select (is_fresh w u) (stored i b attempts),
    count-later w u n (stored i b attempts) h,
  )

-- a use of another identifier changes nothing of it
module _ (i j b : String) (w v u n : ℕ) (attempts : Attempts)
    (apart : same_key (j, b) (i, b) ≡ false) where
  pub fresh_at-other_check :
      (m : ℕ) → fresh_at i b w n (is_rate_limited j b m v u attempts).1 ≡ fresh_at i b w n attempts
  unfolding fresh_at
  fresh_at-other_check m = rw (stored-check (i, b) j b v u attempts m, apart) refl

  pub fresh_at-other_attempt :
      fresh_at i b w n (record_attempt j b v u attempts) ≡ fresh_at i b w n attempts
  unfolding fresh_at
  fresh_at-other_attempt = rw (stored-attempt (i, b) j b v u attempts, apart) refl

pub same_key-apart : (i j b : String) → j ≢ i → same_key (j, b) (i, b) ≡ false
same_key-apart i j b h = ground (arith, eq_iff j i)
