-- ===== src/Polling/Recent.antt =====
-- The order of the join's rows (src/engine/polling_targets.py: ORDER BY last_seen DESC).
use net_lanvas.Base.{◌≤◌, List, [], ◌∷◌, leb, ◌⊎◌, arith, All, All-imp, Bool-cases, inl, inr}
use net_lanvas.Polling.{Row, insert_recent, most_recent_first}

-- One of the elements at least.
abbrev pub Any {ℓ} : {A : Type ℓ} → (A → Type 0) → List A → Type 0
Any P [] = ⊥
Any P (x ∷ xs) = P x ⊎ Any P xs

pub Any-imp {ℓ} :
    {A : Type ℓ} (P : A → Type 0) (Q : A → Type 0) (xs : List A)
    → ((x : A) → P x → Q x)
    → Any P xs
    → Any Q xs
Any-imp P Q [] f h = absurd h
Any-imp P Q (x ∷ xs) f (inl p) = inl (f x p)
Any-imp P Q (x ∷ xs) f (inr h) = inr (Any-imp P Q xs f h)

abbrev pub AreSorted : List Row → Type 0
AreSorted [] = Unit
AreSorted (r ∷ rows) = All (λ (q : Row). q.last_seen ≤ r.last_seen) rows × AreSorted rows

module _ (P : Row → Type 0) where
  insert_recent-All : (r : Row) (rows : List Row) → P r → All P rows → All P (insert_recent r rows)
  insert_recent-All r [] p h = (p, tt)
  insert_recent-All r (q ∷ rows) p h = elim (Bool-cases (leb q.last_seen r.last_seen)) [
    | inl e ↦ rw e (p, h)
    | inr e ↦ rw e (h.0, insert_recent-All r rows p h.1)
  ]

  pub most_recent_first-All : (rows : List Row) → All P rows → All P (most_recent_first rows)
  most_recent_first-All [] h = tt
  most_recent_first-All (r ∷ rows) h =
      insert_recent-All r (most_recent_first rows) h.0 (most_recent_first-All rows h.1)

  insert_recent-All_from :
      (r : Row) (rows : List Row) → All P (insert_recent r rows) → P r × All P rows
  insert_recent-All_from r [] h = h
  insert_recent-All_from r (q ∷ rows) h = elim (Bool-cases (leb q.last_seen r.last_seen)) [
    | inl e ↦ rw e at h
    | inr e ↦
        let split : P q × All P (insert_recent r rows) = rw e at h in
        let rest = insert_recent-All_from r rows split.1 in (rest.0, (split.0, rest.1))
  ]

  pub most_recent_first-All_from : (rows : List Row) → All P (most_recent_first rows) → All P rows
  most_recent_first-All_from [] h = tt
  most_recent_first-All_from (r ∷ rows) h =
      let split = insert_recent-All_from r (most_recent_first rows) h in
      (split.0, most_recent_first-All_from rows split.1)

  insert_recent-Any : (r : Row) (rows : List Row) → Any P (insert_recent r rows) → P r ⊎ Any P rows
  insert_recent-Any r [] h = h
  insert_recent-Any r (q ∷ rows) h = elim (Bool-cases (leb q.last_seen r.last_seen)) [
    | inl e ↦ rw e at h
    | inr e ↦
        let split : P q ⊎ Any P (insert_recent r rows) = rw e at h in
        elim split [
          | inl p ↦ inr (inl p)
          | inr more ↦ elim (insert_recent-Any r rows more) [ inl p ↦ inl p | inr k ↦ inr (inr k) ]
        ]
  ]

  pub most_recent_first-Any : (rows : List Row) → Any P (most_recent_first rows) → Any P rows
  most_recent_first-Any [] h = absurd h
  most_recent_first-Any (r ∷ rows) h = elim (insert_recent-Any r (most_recent_first rows) h) [
    | inl p ↦ inl p
    | inr k ↦ inr (most_recent_first-Any rows k)
  ]

insert_recent-AreSorted :
    (r : Row) (rows : List Row) → AreSorted rows → AreSorted (insert_recent r rows)
insert_recent-AreSorted r [] h = (tt, tt)
insert_recent-AreSorted r (q ∷ rows) h = elim (Bool-cases (leb q.last_seen r.last_seen)) [
  | inl e ↦
      let le : q.last_seen ≤ r.last_seen = ground arith in
      rw e ((le, All-imp _ _ rows (λ p below. omega (arith, below, le)) h.0), h)
  | inr e ↦
      let le : r.last_seen ≤ q.last_seen = ground arith in
      rw e (
        insert_recent-All (λ (p : Row). p.last_seen ≤ q.last_seen) r rows le h.0,
        insert_recent-AreSorted r rows h.1,
      )
]

pub most_recent_first-AreSorted : (rows : List Row) → AreSorted (most_recent_first rows)
most_recent_first-AreSorted [] = tt
most_recent_first-AreSorted (r ∷ rows) =
    insert_recent-AreSorted r (most_recent_first rows) (most_recent_first-AreSorted rows)
