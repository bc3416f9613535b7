-- ===== src/Base/Keyed.antt =====
-- Tables with a column by which rows are looked up.
use mathlib.Core.Option
use net_lanvas.Base.Table.{find, update, delete, select}
use net_lanvas.Base.Lists.{All, any}
use net_lanvas.Base.Tests.{if◌then◌else◌, ◌==◌, Eq, Bool-cases}
use mathlib.Core.Path.{◌≡◌, refl}
use mathlib.Core.Logic.{inl, inr}
use mathlib.Core.Bool.{Bool, true, false}
use mathlib.Core.Option.{Option, none, some}
use mathlib.Core.List.{List, [], ◌∷◌, ◌++◌}
use native.Mathlib.Omega.{arith}

module _ {ℓ} {A : Type ℓ} where
  pub find-append :
      (p : A → Bool) (xs ys : List A) → find p (xs ++ ys) ≡ Option.or_else (find p xs) (find p ys)
  unfolding find Option.or_else
  find-append p [] ys = refl
  find-append p (x ∷ xs) ys = ground (arith, find-append p xs ys)

module _ {ℓ κ} {A : Type ℓ} {K : Type κ} ⦃e : Eq K⦄ (key : A → K) where
  -- WHERE key = k
  abbrev pub has_key : K → A → Bool
  has_key k x = key x == k

  -- SELECT * FROM rows WHERE key = k, fetchone()
  unfoldable pub find_key : K → List A → Option A
  unfolding find
  find_key k xs = find (has_key k) xs

  -- UPDATE rows SET f WHERE key = k
  unfoldable pub update_key : K → (A → A) → List A → List A
  unfolding update
  update_key k f xs = update (has_key k) f xs

  -- DELETE FROM rows WHERE key = k
  unfoldable pub delete_key : K → List A → List A
  unfolding delete
  delete_key k xs = delete (has_key k) xs

  -- the key is primary: no two rows share it
  abbrev pub IsPrimary : List A → Type ℓ
  IsPrimary [] = Unit
  IsPrimary (x ∷ xs) = (find_key (key x) xs ≡ none) × IsPrimary xs

  pub find_key-update_key :
      (j k : K) (f : A → A) (xs : List A)
      → ((x : A) → key (f x) ≡ key x)
      → find_key j (update_key k f xs)
        ≡ (if k == j then Option.map f (find_key j xs) else find_key j xs)
  unfolding find_key update_key
  find_key-update_key j k f [] keeps = ground arith
  find_key-update_key j k f (x ∷ xs) keeps = ground (
    arith,
    keeps x,
    e.beq_iff (key x) k,
    e.beq_iff (key x) j,
    e.beq_iff (key (f x)) j,
    e.beq_iff k j,
    find_key-update_key j k f xs keeps,
  )

  pub find_key-append :
      (j : K) (xs ys : List A)
      → find_key j (xs ++ ys) ≡ Option.or_else (find_key j xs) (find_key j ys)
  unfolding find_key
  find_key-append j xs ys = find-append (has_key j) xs ys

  pub find_key-key : (k : K) (xs : List A) {x : A} → find_key k xs ≡ some x → key x ≡ k
  unfolding find_key
  find_key-key k [] h = cc
  find_key-key k (y ∷ xs) {x} h = ground (arith, e.beq_iff (key y) k, find_key-key k xs {x = x})

  pub find_key-delete_key :
      (j k : K) (xs : List A)
      → find_key j (delete_key k xs) ≡ (if k == j then none else find_key j xs)
  unfolding find_key delete_key
  find_key-delete_key j k [] = ground arith
  find_key-delete_key j k (x ∷ xs) =
      ground
        (arith, e.beq_iff (key x) k, e.beq_iff (key x) j, e.beq_iff k j, find_key-delete_key j k xs)

  key-if :
      (b : Bool) (f : A → A) (x : A)
      → ((y : A) → key (f y) ≡ key y)
      → key (if b then f x else x) ≡ key x
  key-if true f x keeps = keeps x
  key-if false f x keeps = refl

  pub update_key-IsPrimary :
      (k : K) (f : A → A) (xs : List A)
      → ((x : A) → key (f x) ≡ key x)
      → IsPrimary xs
      → IsPrimary (update_key k f xs)
  unfolding update_key
  update_key-IsPrimary k f [] keeps h = tt
  update_key-IsPrimary k f (x ∷ xs) keeps h = (
    rw (key-if (has_key k x) f x keeps)
        (ground (arith, find_key-update_key (key x) k f xs keeps, h.0)),
    update_key-IsPrimary k f xs keeps h.1,
  )

  pub append-IsPrimary :
      (xs : List A) (y : A) → find_key (key y) xs ≡ none → IsPrimary xs → IsPrimary (xs ++ y ∷ [])
  unfolding find_key Option.or_else
  append-IsPrimary [] y absent h = (refl, tt)
  append-IsPrimary (x ∷ xs) y absent h = (
    rw (find_key-append (key x) xs (y ∷ []), h.0)
        (ground (arith, e.beq_iff (key x) (key y), e.beq_iff (key y) (key x))),
    append-IsPrimary xs y (ground arith) h.1,
  )

  pub delete_key-IsPrimary : (k : K) (xs : List A) → IsPrimary xs → IsPrimary (delete_key k xs)
  unfolding delete_key
  delete_key-IsPrimary k [] h = tt
  delete_key-IsPrimary k (x ∷ xs) h = elim (Bool-cases (has_key k x)) [
    | inl e ↦ rw e (delete_key-IsPrimary k xs h.1)
    | inr e ↦
        rw e (ground (arith, find_key-delete_key (key x) k xs, h.0), delete_key-IsPrimary k xs h.1)
  ]

  pub All-absent :
      (k : K) (x : A) (xs : List A) → find_key k xs ≡ none → All (λ y. key y ≡ k → y ≡ x) xs
  unfolding find_key
  All-absent k x [] h = tt
  All-absent k x (y ∷ xs) h = elim (Bool-cases (has_key k y)) [
    | inl p ↦ absurd (ground arith)
    | inr p ↦ (λ q. absurd (ground (arith, e.beq_iff (key y) k)), All-absent k x xs (ground arith))
  ]

  -- a row that is found by a primary key is the only one with that key
  pub IsPrimary-unique :
      (k : K) (xs : List A) {x : A}
      → IsPrimary xs
      → find_key k xs ≡ some x
      → All (λ y. key y ≡ k → y ≡ x) xs
  unfolding find_key
  IsPrimary-unique k [] h found = tt
  IsPrimary-unique k (y ∷ xs) {x} h found = elim (Bool-cases (has_key k y)) [
    | inl p ↦
        let same : y ≡ x = ground arith in
        (λ q. same, All-absent k x xs (rw ((e.beq_iff (key y) k).0 p) at h.0))
    | inr p ↦ (
      λ q. absurd (ground (arith, e.beq_iff (key y) k)),
      IsPrimary-unique k xs h.1 (ground arith),
    )
  ]

  -- A filter over a primary key selects a row with the key exactly if the row with the key passes.
  pub any-select_key :
      (k : K) (p : A → Bool) (xs : List A)
      → IsPrimary xs
      → any (has_key k) (select p xs) ≡ elim (find_key k xs) [ none ↦ false | some x ↦ p x ]
  unfolding find_key select
  any-select_key k p [] h = refl
  any-select_key k p (x ∷ xs) h =
      ground (arith, any-select_key k p xs h.1, e.beq_iff (key x) k, h.0)

  -- an UPDATE with no WHERE clause
  pub find_key-update_all :
      (k : K) (f : A → A) (xs : List A)
      → ((x : A) → key (f x) ≡ key x)
      → find_key k (update (λ _. true) f xs) ≡ Option.map f (find_key k xs)
  unfolding find_key update
  find_key-update_all k f [] keeps = refl
  find_key-update_all k f (x ∷ xs) keeps = ground (arith, keeps x, find_key-update_all k f xs keeps)

  pub update_all-IsPrimary :
      (f : A → A) (xs : List A)
      → ((x : A) → key (f x) ≡ key x)
      → IsPrimary xs
      → IsPrimary (update (λ _. true) f xs)
  unfolding update
  update_all-IsPrimary f [] keeps h = tt
  update_all-IsPrimary f (x ∷ xs) keeps h = (
    rw (keeps x, find_key-update_all (key x) f xs keeps, h.0),
    update_all-IsPrimary f xs keeps h.1,
  )

  -- a delete that spares the rows of a key changes nothing of them
  pub find_key-delete :
      (k : K) (p : A → Bool) (xs : List A)
      → ((x : A) → key x ≡ k → p x ≡ false)
      → find_key k (delete p xs) ≡ find_key k xs
  unfolding find_key delete
  find_key-delete k p [] h = refl
  find_key-delete k p (x ∷ xs) h =
      ground (arith, e.beq_iff (key x) k, h x, find_key-delete k p xs h)

  -- A delete brings no row back.
  pub delete-absent :
      (k : K) (p : A → Bool) (xs : List A) → find_key k xs ≡ none → find_key k (delete p xs) ≡ none
  unfolding find_key find delete
  delete-absent k p [] h = refl
  delete-absent k p (x ∷ xs) h = ground (arith, delete-absent k p xs)

  pub delete-IsPrimary : (p : A → Bool) (xs : List A) → IsPrimary xs → IsPrimary (delete p xs)
  unfolding delete
  delete-IsPrimary p [] h = tt
  delete-IsPrimary p (x ∷ xs) h = elim (Bool-cases (p x)) [
    | inl q ↦ rw q (delete-IsPrimary p xs h.1)
    | inr q ↦ rw q (delete-absent (key x) p xs h.0, delete-IsPrimary p xs h.1)
  ]

  -- An UPDATE that spares a row leaves it.
  pub find_key-update_miss :
      (k : K) (p : A → Bool) (f : A → A) (xs : List A) {x : A}
      → ((y : A) → key (f y) ≡ key y)
      → p x ≡ false
      → find_key k xs ≡ some x
      → find_key k (update p f xs) ≡ some x
  unfolding find_key find update
  find_key-update_miss k p f [] keeps miss h = absurd (ground arith)
  find_key-update_miss k p f (y ∷ xs) {x} keeps miss h =
      ground (arith, keeps y, find_key-update_miss k p f xs {x = x} keeps miss)
