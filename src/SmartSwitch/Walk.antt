-- ===== src/SmartSwitch/Walk.antt =====
-- The loop over the fields of a reply (src/engine/smart_switch_pipeline.py: _parse_nsdp_response,
-- _parse_tplink_response).
use net_lanvas.Base.{
  ℕ, zero, suc, ◌≤◌, ◌<◌, ◌/◌, ◌%◌, some, List, [], ◌∷◌, ◌++◌, nat_eq, ◌≡◌, refl, ◌∙◌, arith,
  length, length-append, take, All, Bool-cases, inl, inr,
}
use net_lanvas.Base.Bytes.{skip, u16, length-skip_le, take-append, skip-append}
use net_lanvas.SmartSwitch.{walk}

module _ {ℓ} {S : Type ℓ} (advance : ℕ → ℕ) (body : ℕ → List ℕ → S → S) where
  -- From a fuel above `n` on, the loop over `bytes` ends with `after`.
  abbrev Ends : ℕ → List ℕ → S → S → Type ℓ
  Ends n bytes s after = (fuel : ℕ) → n < fuel → walk advance body fuel bytes s ≡ some after

  one_round :
      (n : ℕ) (bytes : List ℕ) (s after : S)
      → ((fuel : ℕ) → n ≤ fuel → walk advance body (suc fuel) bytes s ≡ some after)
      → Ends n bytes s after
  one_round n bytes s after e zero h = absurd (omega arith)
  one_round n bytes s after e (suc fuel) h = e fuel (omega arith)

  ends : (n : ℕ) (bytes : List ℕ) (s : S) → length bytes ≤ n → (after : S) × Ends n bytes s after
  unfolding walk
  ends n [] s h = (s, one_round n [] s s (λ fuel k. refl))
  ends n (a ∷ []) s h = (s, one_round n (a ∷ []) s s (λ fuel k. refl))
  ends n (a ∷ b ∷ []) s h = (s, one_round n (a ∷ b ∷ []) s s (λ fuel k. refl))
  ends n (a ∷ b ∷ c ∷ []) s h = (s, one_round n (a ∷ b ∷ c ∷ []) s s (λ fuel k. refl))
  ends zero (a ∷ b ∷ c ∷ d ∷ rest) s h = absurd (omega arith)
  ends (suc n) (a ∷ b ∷ c ∷ d ∷ rest) s h = elim (Bool-cases (nat_eq (u16 a b) 0xffff)) [
    | inl e ↦ (s, one_round (suc n) (a ∷ b ∷ c ∷ d ∷ rest) s s (λ fuel k. ground arith))
    | inr e ↦
        let (after, more) =
          ends n (skip (advance (u16 c d)) rest) (body (u16 a b) (take (u16 c d) rest) s)
            (omega (arith, h, length-skip_le (advance (u16 c d)) rest)) in
        (
          after,
          one_round (suc n) (a ∷ b ∷ c ∷ d ∷ rest) s after (λ fuel k. ground (arith, more fuel)),
        )
  ]

  -- The loop ends on every reply, whatever it adds to the offset: with more rounds of fuel than
  -- the reply has bytes it returns a result, and the same for any such fuel.
  pub walk_total :
      (bytes : List ℕ) (s : S)
      → (after : S) × ((fuel : ℕ)
          → length bytes < fuel
          → walk advance body fuel bytes s ≡ some after)
  walk_total bytes s = ends (length bytes) bytes s (omega arith)

-- Fields as a switch writes them, then the end mark and what follows it.
abbrev pub encode : List (ℕ × List ℕ) → List ℕ → List ℕ
encode [] tail = 0xff ∷ 0xff ∷ 0 ∷ 0 ∷ tail
encode ((t, v) ∷ fields) tail =
    t / 256 ∷ t % 256 ∷ length v / 256 ∷ length v % 256 ∷ v ++ encode fields tail

-- a type that is not the end mark's
abbrev pub IsField : ℕ × List ℕ → Type 0
IsField field = field.0 < 0xffff

abbrev pub fold {ℓ} : {S : Type ℓ} → (ℕ → List ℕ → S → S) → List (ℕ × List ℕ) → S → S
fold body [] s = s
fold body ((t, v) ∷ fields) s = fold body fields (body t v s)

u16-parts : (n : ℕ) → u16 (n / 256) (n % 256) ≡ n
u16-parts n = omega arith

module _ {ℓ} {S : Type ℓ} (body : ℕ → List ℕ → S → S) where
  walk-field :
      (fuel t : ℕ) (v rest : List ℕ) (s : S)
      → t < 0xffff
      → walk
          (λ n. n)
          body
          (suc fuel)
          (t / 256 ∷ t % 256 ∷ length v / 256 ∷ length v % 256 ∷ v ++ rest)
          s
        ≡ walk (λ n. n) body fuel rest (body t v s)
  unfolding walk
  walk-field fuel t v rest s small = ground (
    arith,
    u16-parts t,
    u16-parts (length v),
    take-append (length v) v rest refl,
    skip-append (length v) v rest refl,
  )

  pub walk-encode :
      (fuel : ℕ) (fields : List (ℕ × List ℕ)) (tail : List ℕ) (s : S)
      → All IsField fields
      → length (encode fields tail) < fuel
      → walk (λ n. n) body fuel (encode fields tail) s ≡ some (fold body fields s)
  unfolding walk
  walk-encode zero fields tail s h k = absurd (omega arith)
  walk-encode (suc fuel) [] tail s h k = refl
  walk-encode (suc fuel) ((t, v) ∷ fields) tail s (small, h) k =
      walk-field fuel t v (encode fields tail) s small
      ∙ walk-encode fuel fields tail (body t v s) h
          (omega (arith, length-append v (encode fields tail), k))
