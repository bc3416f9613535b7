-- ===== src/Sniffer/Options.antt =====
-- The loop over the options of a DHCP packet (src/pollers/dhcp_sniffer.py: _parse_bootp_dhcp).
use net_lanvas.Base.{
  ℕ, zero, suc, ◌≤◌, ◌<◌, some, List, [], ◌∷◌, ◌++◌, nat_eq, eq_ℕ, ◌≡◌, ◌≢◌, refl, arith, length,
  length-append, take, All, Bool-cases, inl, inr, nat_eq_iff,
}
use net_lanvas.Base.Bytes.{skip, length-skip_le, take-append, skip-append}
use net_lanvas.Base.Dict.{put}
use net_lanvas.Sniffer.{Options, parse_options}

-- From a fuel above `n` on, the loop over `bytes` ends with `after`.
abbrev Ends : ℕ → List ℕ → Options → Options → Type 0
Ends n bytes options after = (fuel : ℕ) → n < fuel → parse_options fuel bytes options ≡ some after

one_round :
    (n : ℕ) (bytes : List ℕ) (options after : Options)
    → ((fuel : ℕ) → n ≤ fuel → parse_options (suc fuel) bytes options ≡ some after)
    → Ends n bytes options after
one_round n bytes options after e zero h = absurd (omega arith)
one_round n bytes options after e (suc fuel) h = e fuel (omega arith)

ends :
    (n : ℕ) (bytes : List ℕ) (options : Options)
    → length bytes ≤ n
    → (after : Options) × Ends n bytes options after
unfolding parse_options
ends n [] options h = (options, one_round n [] options options (λ fuel k. refl))
ends zero (t ∷ rest) options h = absurd (omega arith)
ends (suc n) (t ∷ []) options h =
    (options, one_round (suc n) (t ∷ []) options options (λ fuel k. pad fuel k))
  where
    pad : (fuel : ℕ) → suc n ≤ fuel → parse_options (suc fuel) (t ∷ []) options ≡ some options
    pad zero k = absurd (omega arith)
    pad (suc fuel) k = ground arith
ends (suc n) (t ∷ l ∷ body) options h = elim (Bool-cases (nat_eq t 255)) [
  | inl e ↦ (options, one_round (suc n) (t ∷ l ∷ body) options options (λ fuel k. ground arith))
  | inr e ↦ elim (Bool-cases (nat_eq t 0)) [
    | inl z ↦
        let (after, more) = ends n (l ∷ body) options (omega arith) in
        (
          after,
          one_round (suc n) (t ∷ l ∷ body) options after (λ fuel k. ground (arith, more fuel)),
        )
    | inr z ↦
        let (after, more) =
          ends n (skip l body) (put t (take l body) options)
            (omega (arith, length-skip_le l body)) in
        (
          after,
          one_round (suc n) (t ∷ l ∷ body) options after (λ fuel k. ground (arith, more fuel)),
        )
  ]
]

-- The loop ends on every packet: with more rounds of fuel than the options have bytes it returns
-- a result, and the same for any such fuel.
pub parse_options_total :
    (bytes : List ℕ) (options : Options)
    → (after : Options) × ((fuel : ℕ)
        → length bytes < fuel
        → parse_options fuel bytes options ≡ some after)
parse_options_total bytes options = ends (length bytes) bytes options (omega arith)

-- Options as a client writes them, then the end mark and what follows it.
abbrev pub encode : List (ℕ × List ℕ) → List ℕ → List ℕ
encode [] tail = 255 ∷ tail
encode ((t, v) ∷ os) tail = t ∷ length v ∷ v ++ encode os tail

abbrev pub put_all : List (ℕ × List ℕ) → Options → Options
put_all [] options = options
put_all ((t, v) ∷ os) options = put_all os (put t v options)

-- neither the pad nor the end mark
abbrev pub IsOption : ℕ × List ℕ → Type 0
IsOption o = (o.0 ≢ 0) × (o.0 ≢ 255)

pub parse_options-encode :
    (fuel : ℕ) (os : List (ℕ × List ℕ)) (tail : List ℕ) (options : Options)
    → All IsOption os
    → length (encode os tail) < fuel
    → parse_options fuel (encode os tail) options ≡ some (put_all os options)
unfolding parse_options
parse_options-encode zero os tail options h k = absurd (omega arith)
parse_options-encode (suc fuel) [] tail options h k = refl
parse_options-encode (suc fuel) ((t, v) ∷ os) tail options (o, h) k = ground (
  arith,
  o,
  nat_eq_iff t 0,
  nat_eq_iff t 255,
  take-append (length v) v (encode os tail) refl,
  skip-append (length v) v (encode os tail) refl,
  length-append v (encode os tail),
  parse_options-encode fuel os tail (put t v options) h,
)
