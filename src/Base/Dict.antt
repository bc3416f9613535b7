-- ===== src/Base/Dict.antt =====
-- Python's dict, with keys of any type whose equality is tested. Iteration goes in the order of
-- first insertion.
use mathlib.Core.Path.{◌≡◌, refl}
use mathlib.Core.Option.{Option, none, some}
use mathlib.Core.List.{List, [], ◌∷◌}
use native.Mathlib.Omega.{arith}
use net_lanvas.Base.Tests.{Eq, ◌==◌, if◌then◌else◌, Bool-cases}
use net_lanvas.Base.Lists.{All, All-imp}
use mathlib.Core.Logic.{inl, inr}

abbrev pub Dict {ℓ κ} : Type ℓ → Type κ → Type (ℓ ⊔ κ)
Dict K V = List (K × V)

module _ {ℓ κ} {K : Type ℓ} {V : Type κ} ⦃e : Eq K⦄ where
  -- d.get(k)
  unfoldable pub get : K → Dict K V → Option V
  get k [] = none
  get k ((j, v) ∷ d) = if j == k then some v else get k d

  -- d.get(k, fallback)
  unfoldable pub get_or : K → V → Dict K V → V
  get_or k fallback [] = fallback
  get_or k fallback ((j, v) ∷ d) = if j == k then v else get_or k fallback d

  -- d[k] = v
  unfoldable pub put : K → V → Dict K V → Dict K V
  put k v [] = (k, v) ∷ []
  put k v ((j, w) ∷ d) = if j == k then (j, v) ∷ d else (j, w) ∷ put k v d

  -- d.pop(k, None)
  unfoldable pub remove : K → Dict K V → Dict K V
  remove k [] = []
  remove k ((j, w) ∷ d) = let rest = remove k d in if j == k then rest else (j, w) ∷ rest

  pub get-put :
      (k j : K) (v : V) (d : Dict K V) → get j (put k v d) ≡ (if k == j then some v else get j d)
  unfolding get put
  get-put k j v [] = refl
  get-put k j v ((i, w) ∷ d) =
      ground (arith, e.beq_iff k j, e.beq_iff i k, e.beq_iff i j, get-put k j v d)

  pub get_or-put :
      (k j : K) (u v : V) (d : Dict K V)
      → get_or j u (put k v d) ≡ (if k == j then v else get_or j u d)
  unfolding get_or put
  get_or-put k j u v [] = refl
  get_or-put k j u v ((i, w) ∷ d) =
      ground (arith, e.beq_iff k j, e.beq_iff i k, e.beq_iff i j, get_or-put k j u v d)

  pub get_or-remove :
      (k j : K) (u : V) (d : Dict K V)
      → get_or j u (remove k d) ≡ (if k == j then u else get_or j u d)
  unfolding get_or remove
  get_or-remove k j u [] = ground arith
  get_or-remove k j u ((i, w) ∷ d) =
      ground (arith, e.beq_iff k j, e.beq_iff i k, e.beq_iff i j, get_or-remove k j u d)

  -- Entry by entry.
  abbrev pub Unique : Dict K V → Type (ℓ ⊔ κ)
  Unique [] = Unit
  Unique ((k, v) ∷ d) = (get k d ≡ none) × Unique d

  pub put-Unique : (k : K) (v : V) (d : Dict K V) → Unique d → Unique (put k v d)
  unfolding put get
  put-Unique k v [] h = (refl, tt)
  put-Unique k v ((j, w) ∷ d) h = elim (Bool-cases (j == k)) [
    | inl q ↦ rw q h
    | inr p ↦
        rw p
          (ground (arith, get-put k j v d, h.0, e.beq_iff k j, e.beq_iff j k), put-Unique k v d h.1)
  ]

  pub Unique-get : (k : K) (d : Dict K V) → Unique d → All (λ x. x.0 ≡ k → get k d ≡ some x.1) d
  unfolding get
  Unique-get k [] h = tt
  Unique-get k ((j, v) ∷ d) h = (
    λ q. ground (arith, e.beq_iff j k),
    All-imp (λ x. x.0 ≡ k → get k d ≡ some x.1) (λ x. x.0 ≡ k → get k ((j, v) ∷ d) ≡ some x.1) d
        (λ x found same. elim (Bool-cases (j == k)) [
          | inr p ↦ rw p (found same)
          | inl p ↦
              let at : j ≡ k = (e.beq_iff j k).0 p in
              let gone : get k d ≡ none = rw at at h.0 in absurd (ground (arith, found same))
        ])
        (Unique-get k d h.1),
  )

  pub put-All {μ} :
      (P : K × V → Type μ) (k : K) (v : V) (d : Dict K V) → P (k, v) → All P d → All P (put k v d)
  unfolding put
  put-All P k v [] p h = (p, tt)
  put-All P k v ((j, w) ∷ d) p h = elim (Bool-cases (j == k)) [
    | inl q ↦ let same : j ≡ k = (e.beq_iff j k).0 q in rw (q, same) (p, h.1)
    | inr q ↦ rw q (h.0, put-All P k v d p h.1)
  ]

  pub get-All {μ} :
      (P : K × V → Type μ) (k : K) (d : Dict K V) {v : V} → get k d ≡ some v → All P d → P (k, v)
  unfolding get
  get-All P k [] q h = absurd (ground arith)
  get-All P k ((j, w) ∷ d) {v} q h = elim (Bool-cases (j == k)) [
    | inl p ↦
        let same : j ≡ k = (e.beq_iff j k).0 p in
        let here : w ≡ v = ground arith in rw (← same, ← here) h.0
    | inr p ↦ get-All P k d (ground arith) h.1
  ]
