-- ===== src/RateLimit/Window.antt =====
-- The limiter against the full history of failures: what it forgets never mattered.
use net_lanvas.Base.{
  ℕ, ◌≤◌, String, List, [], ◌∷◌, ◌++◌, Bool, true, false, ◌≡◌, refl, arith, Eq, leb, All,
  if◌then◌else◌, ◌==◌, eq_pair, eq_String,
}
use net_lanvas.Base.Table.{select, count, count-append, count-select, length-select}
use net_lanvas.Base.Dict.{get_or, put, get_or-put, get_or-remove}
use net_lanvas.RateLimit.{Key, Attempts, is_fresh, is_rate_limited, record_attempt, clear_attempts}

-- One use of the limiter. The window of a call depends on its identifier and bucket alone, as in
-- the DHCP bucket, where the identifier of all packets has another one than an address.
pub data Call : Type 0 where
  check : (identifier bucket : String) (max_attempts now : ℕ) → Call
  attempt : (identifier bucket : String) (now : ℕ) → Call
  clear : (identifier bucket : String) → Call

-- The calls' clock readings do not fall, from `t` on, and `now` is not before the last.
abbrev pub IsChronological : ℕ → List Call → ℕ → Type 0
IsChronological t [] now = t ≤ now
IsChronological t (check i b m u ∷ calls) now = (t ≤ u) × IsChronological u calls now
IsChronological t (attempt i b u ∷ calls) now = (t ≤ u) × IsChronological u calls now
IsChronological t (clear i b ∷ calls) now = IsChronological t calls now

abbrev pub same_key : Key → Key → Bool
same_key p q = p == q

-- Every failure of `key` since its last `clear`, however old.
pub failures : Key → List ℕ → List Call → List ℕ
failures key past [] = past
failures key past (check i b m u ∷ calls) = failures key past calls
failures key past (attempt i b u ∷ calls) =
    failures key (if same_key (i, b) key then past ++ u ∷ [] else past) calls
failures key past (clear i b ∷ calls) =
    failures key (if same_key (i, b) key then [] else past) calls

module _ (window : String → String → ℕ) where
  unfoldable pub step : Call → Attempts → Attempts
  step (check i b m u) attempts = (is_rate_limited i b m (window i b) u attempts).1
  step (attempt i b u) attempts = record_attempt i b (window i b) u attempts
  step (clear i b) attempts = clear_attempts i b attempts

  unfoldable pub run : List Call → Attempts → Attempts
  run [] attempts = attempts
  run (call ∷ calls) attempts = run calls (step call attempts)

module _ (w u n : ℕ) (later : u ≤ n) where
  fresh_earlier : (xs : List ℕ) → All (λ t. is_fresh w n t ≡ true → is_fresh w u t ≡ true) xs
  fresh_earlier [] = tt
  fresh_earlier (t ∷ xs) = (λ h. ground arith, fresh_earlier xs)

  -- to prune at `u` loses nothing that counts at `n`
  pub count-prune :
      (xs : List ℕ) → count (is_fresh w n) (select (is_fresh w u) xs) ≡ count (is_fresh w n) xs
  count-prune xs = count-select (is_fresh w u) (is_fresh w n) xs (fresh_earlier xs)

abbrev pub fresh_count : ℕ → ℕ → List ℕ → ℕ
fresh_count w n xs = count (is_fresh w n) xs

abbrev eq_Key : Eq Key
eq_Key = eq_pair

abbrev pub stored : String → String → Attempts → List ℕ
stored i b attempts = get_or (i, b) [] attempts

pub key_refl : (k : Key) → (k == k) ≡ true
key_refl k = (eq_Key.beq_iff k k).1 refl

module _ (k : Key) (i b : String) (w u : ℕ) (attempts : Attempts) where
  pub stored-check :
      (m : ℕ)
      → get_or k [] (is_rate_limited i b m w u attempts).1 ≡ (
          if same_key (i, b) k
          then select (is_fresh w u) (stored i b attempts)
          else get_or k [] attempts)
  unfolding is_rate_limited
  stored-check m = get_or-put (i, b) k [] (select (is_fresh w u) (stored i b attempts)) attempts

  pub stored-attempt : get_or k [] (record_attempt i b w u attempts) ≡ (
      if same_key (i, b) k
      then select (is_fresh w u) (stored i b attempts) ++ u ∷ []
      else get_or k [] attempts)
  unfolding record_attempt
  stored-attempt =
      let pruned = put (i, b) (select (is_fresh w u) (stored i b attempts)) attempts in
      ground (
        arith,
        get_or-put (i, b) k [] (stored i b pruned ++ u ∷ []) pruned,
        get_or-put (i, b) (i, b) [] (select (is_fresh w u) (stored i b attempts)) attempts,
        get_or-put (i, b) k [] (select (is_fresh w u) (stored i b attempts)) attempts,
        key_refl (i, b),
      )

  stored-clear :
      get_or k [] (clear_attempts i b attempts)
      ≡ (if same_key (i, b) k then [] else get_or k [] attempts)
  unfolding clear_attempts
  stored-clear = get_or-remove (i, b) k [] attempts

module _ (window : String → String → ℕ) (j c : String) where
  abbrev counted : ℕ → List ℕ → ℕ
  counted n xs = fresh_count (window j c) n xs

  -- `attempts` and `past` agree on every count that can still be asked for.
  abbrev Agree : ℕ → Attempts → List ℕ → Type 0
  Agree t attempts past = (n : ℕ) → t ≤ n → counted n (stored j c attempts) ≡ counted n past

  Agree-check :
      (i b : String) (m t u : ℕ) (attempts : Attempts) (past : List ℕ)
      → t ≤ u
      → Agree t attempts past
      → Agree u (is_rate_limited i b m (window i b) u attempts).1 past
  Agree-check i b m t u attempts past le agree n h = ground (
    arith,
    stored-check (j, c) i b (window i b) u attempts m,
    eq_Key.beq_iff (i, b) (j, c),
    count-prune (window j c) u n h (stored j c attempts),
    agree n,
  )

  Agree-attempt :
      (i b : String) (t u : ℕ) (attempts : Attempts) (past : List ℕ)
      → t ≤ u
      → Agree t attempts past
      → Agree u
          (record_attempt i b (window i b) u attempts)
          (if same_key (i, b) (j, c) then past ++ u ∷ [] else past)
  Agree-attempt i b t u attempts past le agree n h =
      let fresh = is_fresh (window j c) n in
      ground (
        arith,
        stored-attempt (j, c) i b (window i b) u attempts,
        eq_Key.beq_iff (i, b) (j, c),
        count-append fresh (select (is_fresh (window j c) u) (stored j c attempts)) (u ∷ []),
        count-append fresh past (u ∷ []),
        count-prune (window j c) u n h (stored j c attempts),
        agree n,
      )

  Agree-clear :
      (i b : String) (t : ℕ) (attempts : Attempts) (past : List ℕ)
      → Agree t attempts past
      → Agree t (clear_attempts i b attempts) (if same_key (i, b) (j, c) then [] else past)
  Agree-clear i b t attempts past agree n h =
      ground (arith, stored-clear (j, c) i b 0 0 attempts, agree n)

  Agree-run :
      (calls : List Call) (t now : ℕ) (attempts : Attempts) (past : List ℕ)
      → IsChronological t calls now
      → Agree t attempts past
      → counted now (stored j c (run window calls attempts))
        ≡ counted now (failures (j, c) past calls)
  unfolding run step failures
  Agree-run [] t now attempts past h agree = agree now h
  Agree-run (check i b m u ∷ calls) t now attempts past h agree =
      Agree-run calls u now _ past h.1 (Agree-check i b m t u attempts past h.0 agree)
  Agree-run (attempt i b u ∷ calls) t now attempts past h agree =
      Agree-run calls u now _ _ h.1 (Agree-attempt i b t u attempts past h.0 agree)
  Agree-run (clear i b ∷ calls) t now attempts past h agree =
      Agree-run calls t now _ _ h (Agree-clear i b t attempts past agree)

  -- After any chronological sequence of calls, a check of the identifier `j` in the bucket `c`
  -- answers whether the full history of failures of that pair, since its last success, holds at
  -- least `max_attempts` younger than the pair's window. What was pruned never matters.
  pub is_rate_limited_exact :
      (calls : List Call) (max_attempts now : ℕ)
      → IsChronological 0 calls now
      → (is_rate_limited j c max_attempts (window j c) now (run window calls [])).0
        ≡ leb max_attempts (count (is_fresh (window j c) now) (failures (j, c) [] calls))
  unfolding is_rate_limited get_or
  is_rate_limited_exact calls max_attempts now h = rw (
    length-select (is_fresh (window j c) now) (stored j c (run window calls [])),
    Agree-run calls 0 now [] [] h (λ n le. refl),
  )

  -- Calls for other identifiers or other buckets never change the answer for this one.
  pub is_rate_limited_isolated :
      (i b : String) (max_attempts now u : ℕ) (attempts : Attempts)
      → same_key (i, b) (j, c) ≡ false
      → (is_rate_limited j c max_attempts
          (window j c)
          now
          (record_attempt i b (window i b) u attempts)).0
        ≡ (is_rate_limited j c max_attempts (window j c) now attempts).0
  unfolding is_rate_limited
  is_rate_limited_isolated i b max_attempts now u attempts h =
      ground
        (arith, stored-attempt (j, c) i b (window i b) u attempts, eq_Key.beq_iff (i, b) (j, c))
