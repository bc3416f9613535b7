-- ===== src/Alerting/Threshold.antt =====
-- The severity scale of `severity_meets_threshold`.
use net_lanvas.Base.{
  leb, ℕ, suc, ◌+◌, ◌<◌, String, Option, none, some, List, [], ◌∷◌, Bool, true, false, ◌≡◌, refl,
  arith, ◌⊎◌, inl, inr, elem, length, is_some, eq_iff, eq_String, Option-cases, sym,
}
use net_lanvas.Base.Dict.{Dict, get, get_or}
use net_lanvas.Alerting.{
  severity_levels, severity_rank, enumerate_from, severity_meets_threshold, is_severity,
}

get_or-get :
    (k : String) (d : ℕ) (m : Dict String ℕ)
    → get_or k d m ≡ elim (get k m) [ none ↦ d | some v ↦ v ]
unfolding get get_or
get_or-get k d [] = refl
get_or-get k d ((j, v) ∷ m) = ground (arith, get_or-get k d m)

is_some-get_enumerate :
    (k : String) (i : ℕ) (levels : List String)
    → is_some (get k (enumerate_from i levels)) ≡ elem k levels
unfolding get
is_some-get_enumerate k i [] = refl
is_some-get_enumerate k i (l ∷ levels) =
    ground (arith, is_some-get_enumerate k (suc i) levels, eq_iff l k, eq_iff k l)

get_enumerate-lt :
    (k : String) (i : ℕ) (levels : List String) {r : ℕ}
    → get k (enumerate_from i levels) ≡ some r
    → r < i + length levels
unfolding get
get_enumerate-lt k i [] h = cc
get_enumerate-lt k i (l ∷ levels) {r} h = ground (arith, get_enumerate-lt k (suc i) levels {r = r})

abbrev meets_ranks : Option ℕ → Option ℕ → Bool
meets_ranks none t = false
meets_ranks (some r) none = leb 5 r
meets_ranks (some r) (some u) = leb u r

-- a rank, or none off the scale
rank : String → Option ℕ
rank s = get s severity_rank

is_severity-rank : (s : String) → is_severity s ≡ is_some (rank s)
unfolding is_severity rank
is_severity-rank s = sym (is_some-get_enumerate s 0 severity_levels)

rank-lt : (s : String) {r : ℕ} → rank s ≡ some r → r < 5
unfolding rank
rank-lt s {r} h = get_enumerate-lt s 0 severity_levels {r = r} h

meets_lem : (s t : String) → severity_meets_threshold s t ≡ meets_ranks (rank s) (rank t)
unfolding severity_meets_threshold rank
meets_lem s t = ground (arith, get_or-get t 5 severity_rank)

module _ (s t : String) where
  -- Only levels of the scale ever meet a threshold, and only a threshold on the scale is met: an
  -- unknown word on either side fails closed.
  pub meets_fails_closed :
      severity_meets_threshold s t ≡ true → (is_severity s ≡ true) × (is_severity t ≡ true)
  meets_fails_closed h = elim (Option-cases (rank s)) [
    | inl e ↦ absurd (ground (arith, meets_lem s t))
    | inr (r, e) ↦
        ground (arith, meets_lem s t, is_severity-rank s, is_severity-rank t, rank-lt s e)
  ]

  -- Of two levels of the scale, one meets the other as a threshold.
  pub meets_total :
      is_severity s ≡ true
      → is_severity t ≡ true
      → (severity_meets_threshold s t ≡ true) ⊎ (severity_meets_threshold t s ≡ true)
  meets_total hs ht =
      ground (arith, meets_lem s t, meets_lem t s, is_severity-rank s, is_severity-rank t)

-- A severity that meets a threshold also meets every threshold which that one meets.
pub meets_trans :
    (s t u : String)
    → severity_meets_threshold s t ≡ true
    → severity_meets_threshold t u ≡ true
    → severity_meets_threshold s u ≡ true
meets_trans s t u h k = elim (Option-cases (rank s)) [
  | inl e ↦ absurd (ground (arith, meets_lem s t))
  | inr (r, e) ↦ ground (arith, meets_lem s t, meets_lem t u, meets_lem s u, rank-lt s e)
]
