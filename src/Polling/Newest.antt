-- ===== src/Polling/Newest.antt =====
-- The choice among the addresses of one node, in the order in which they come
-- (src/engine/polling_targets.py).
use net_lanvas.Base.{
  String, none, some, List, [], ◌∷◌, ◌++◌, true, false, elem, eq_String, ◌≡◌, ◌≢◌, refl, arith, All,
  All-imp, Bool-cases, inl, inr, eq_iff, ap,
}
use net_lanvas.Base.Dict.{Dict, get}
use net_lanvas.Polling.{
  Cached, works, subnet, newest_by_subnet, first_working, choose, representative,
}

-- `ip` is in the list, and no address before it has its subnet
abbrev pub IsNewest : List String → String → Type 0
IsNewest ips ip =
    (newer : List String) × (older : List String) × (ips ≡ newer ++ ip ∷ older)
    × All (λ other. subnet other ≢ subnet ip) newer

abbrev IsCandidate : List String → List String → String → Type 0
IsCandidate seen ips ip = IsNewest ips ip × (elem (subnet ip) seen ≡ false)

later :
    (seen : List String) (ip : String) (ips : List String) (c : String)
    → subnet ip ≢ subnet c
    → elem (subnet c) seen ≡ false
    → IsNewest ips c
    → IsCandidate seen (ip ∷ ips) c
later seen ip ips c apart new (newer, older, split, before) =
    ((ip ∷ newer, older, ap (λ xs. ip ∷ xs) split, (apart, before)), new)

elem-apart : (s t : String) (seen : List String) → elem s seen ≡ true → elem t seen ≡ false → s ≢ t
elem-apart s t seen h k e = ground (arith)

candidates : (seen ips : List String) → All (IsCandidate seen ips) (newest_by_subnet seen ips)
unfolding newest_by_subnet
candidates seen [] = tt
candidates seen (ip ∷ ips) = elim (Bool-cases (elem (subnet ip) seen)) [
  | inl old ↦ rw old (
      All-imp (IsCandidate seen ips) (IsCandidate seen (ip ∷ ips)) (newest_by_subnet seen ips)
        (λ c h. later seen ip ips c (elem-apart (subnet ip) (subnet c) seen old h.1) h.1 h.0)
        (candidates seen ips))
  | inr fresh ↦ rw fresh (
    (([], ips, refl, tt), fresh),
    All-imp (IsCandidate (subnet ip ∷ seen) ips) (IsCandidate seen (ip ∷ ips))
        (newest_by_subnet (subnet ip ∷ seen) ips)
        (λ c h.
          later seen ip ips c (λ e. ground (arith, h.1, eq_iff (subnet c) (subnet ip)))
            (ground (arith, h.1)) h.0)
        (candidates (subnet ip ∷ seen) ips),
  )
]

choose-All {ℓ} :
    (P : String → Type ℓ) (cache : Dict String Cached) (xs all : List String) (ip : String)
    → All P xs
    → All P all
    → choose (first_working cache xs) all ≡ some ip
    → P ip
unfolding first_working
choose-All P cache [] [] ip h k e = absurd (ground arith)
choose-All P cache [] (a ∷ all) ip h k e = let same : a ≡ ip = ground arith in rw same at k.0
choose-All P cache (x ∷ xs) all ip h k e = elim (Bool-cases (works (get x cache))) [
  | inl w ↦ let same : x ≡ ip = ground arith in rw same at h.0
  | inr w ↦ choose-All P cache xs all ip h.1 k (ground arith)
]

pub chosen-IsNewest :
    (cache : Dict String Cached) (ips : List String) (ip : String)
    → representative cache ips ≡ some ip
    → IsNewest ips ip
unfolding representative
chosen-IsNewest cache ips ip e =
    (choose-All (IsCandidate [] ips) cache (newest_by_subnet [] ips) (newest_by_subnet [] ips) ip
      (candidates [] ips) (candidates [] ips) e).0

pub chosen :
    (cache : Dict String Cached) (ip : String) (ips : List String)
    → representative cache (ip ∷ ips) ≢ none
unfolding representative newest_by_subnet
chosen cache ip ips e = ground arith
