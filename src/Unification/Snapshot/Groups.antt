-- ===== src/Unification/Snapshot/Groups.antt =====
-- The groups of the addresses of one device (src/engine/unification.py:
-- run_inventory_snapshot_sync).
use net_lanvas.Base.{
  ℕ, String, Option, some, List, [], ◌∷◌, ◌++◌, true, false, not, ◌||◌, elem, any, eq_ℕ, eq_String,
  ◌==◌, is_some, is_empty, ◌≡◌, ◌≢◌, refl, sym, ◌∙◌, ap, arith, All, All-zip, Bool-cases, inl, inr,
  eq_iff,
}
use net_lanvas.Base.Table.{select}
use net_lanvas.Base.Dict.{Dict, get, get_or, put, get-put, Unique, put-Unique, Unique-get, put-All}
use net_lanvas.Inventory.{Snapshot}
use net_lanvas.Unification.Snapshot.{
  Key, Row, eq_Key, key_eq_iff, others, canonical, min_mac, key_of, group_macs, best_data,
  is_better,
}

-- The lowest of some addresses is one of them.
min_mac-elem : (mac : String) (macs : List String) → elem (min_mac mac macs) (mac ∷ macs) ≡ true
unfolding min_mac
min_mac-elem mac [] = ground (arith, eq_iff mac mac)
min_mac-elem mac (m ∷ macs) = ground (arith, min_mac-elem m macs, min_mac-elem mac macs)

canonical-elem : (macs : List String) → is_empty macs ≡ false → elem (canonical macs) macs ≡ true
canonical-elem [] h = cc
canonical-elem (m ∷ macs) h = min_mac-elem m macs

elem-append : (m : String) (xs ys : List String) → elem m (xs ++ ys) ≡ (elem m xs || elem m ys)
elem-append m [] ys = refl
elem-append m (x ∷ xs) ys = ground (arith, elem-append m xs ys)

others-facts :
    (m : String) (macs keep : List String)
    → elem m (select (λ x. not (x == canonical keep)) macs) ≡ true
    → (elem m macs ≡ true) × (canonical keep ≢ m)
unfolding select
others-facts m [] keep h = cc
others-facts m (x ∷ macs) keep h = elim (Bool-cases (x == canonical keep)) [
  | inl e ↦ let (member, apart) = others-facts m macs keep (ground arith) in (ground arith, apart)
  | inr e ↦ elim (Bool-cases (m == x)) [
    | inl same ↦ (ground arith, λ q. ground (arith, eq_iff m x, eq_iff x (canonical keep)))
    | inr other ↦
        let (member, apart) = others-facts m macs keep (ground arith) in (ground arith, apart)
  ]
]

-- The groups, as they concern one address `m` whose group is `own`.
module _ (m : String) (own : Key) where
  abbrev pub IsOwn : Row → Type 0
  IsOwn r = r.0 ≡ m → key_of r.0 r.1 ≡ own

  abbrev pub Group : Key × List String → Type 0
  Group (key, macs) = (is_empty macs ≡ false) × (elem m macs ≡ true → key ≡ own)

  grown :
      (mac : String) (node_id : Option ℕ) (macs : List String)
      → (mac ≡ m → key_of mac node_id ≡ own)
      → (elem m macs ≡ true → key_of mac node_id ≡ own)
      → Group (key_of mac node_id, macs ++ mac ∷ [])
  grown mac node_id [] here before = (refl, λ e. here (ground (arith, eq_iff m mac)))
  grown mac node_id (x ∷ macs) here before = (
    refl,
    λ e. elim (Bool-cases (elem m (x ∷ macs))) [
      | inl p ↦ before p
      | inr p ↦ here (ground (arith, eq_iff m mac, elem-append m (x ∷ macs) (mac ∷ [])))
    ],
  )

  before-get_or :
      (key : Key) (groups : Dict Key (List String))
      → All Group groups
      → elem m (get_or key [] groups) ≡ true
      → key ≡ own
  unfolding get_or
  before-get_or key [] h e = cc
  before-get_or key ((j, macs) ∷ groups) h e = elim (Bool-cases (j == key)) [
    | inl p ↦ sym ((key_eq_iff j key).0 p) ∙ h.0.1 (ground arith)
    | inr p ↦ before-get_or key groups h.1 (ground arith)
  ]

  pub group_macs-Group :
      (rows : List Row) (groups : Dict Key (List String))
      → All IsOwn rows
      → All Group groups
      → Unique groups
      → All Group (group_macs rows groups) × Unique (group_macs rows groups)
  unfolding group_macs
  group_macs-Group [] groups own_rows h u = (h, u)
  group_macs-Group ((mac, node_id, s) ∷ rows) groups own_rows h u =
      let key = key_of mac node_id in
      let macs = get_or key [] groups ++ mac ∷ [] in
      group_macs-Group rows (put key macs groups) own_rows.1
        (put-All Group key macs groups
          (grown mac node_id (get_or key [] groups) own_rows.0 (before-get_or key groups h)) h)
        (put-Unique key macs groups u)

  -- All groups with `m` are one group.
  one-Group :
      (groups : Dict Key (List String))
      → All Group groups
      → Unique groups
      → All (λ (g : Key × List String). elem m g.1 ≡ true → get own groups ≡ some g.1) groups
  one-Group groups h u =
      All-zip Group (λ g. g.0 ≡ own → get own groups ≡ some g.1)
        (λ g. elem m g.1 ≡ true → get own groups ≡ some g.1) groups (λ g p q e. q (p.1 e)) h
        (Unique-get own groups u)

  find_own :
      (groups all : Dict Key (List String))
      → All (λ (g : Key × List String). elem m g.1 ≡ true → get own all ≡ some g.1) groups
      → any (λ (g : Key × List String). elem m (others g.1)) groups ≡ true
      → (macs : List String) × (get own all ≡ some macs) × (canonical macs ≢ m)
  find_own [] all one e = absurd (ground arith)
  find_own ((key, macs) ∷ groups) all one e = elim (Bool-cases (elem m (others macs))) [
    | inl p ↦ let (member, apart) = others-facts m macs macs p in (macs, one.0 member, apart)
    | inr p ↦ find_own groups all one.1 (ground arith)
  ]

  -- The address is a further one of its group, so that it is the lowest of none.
  pub not_canonical :
      (groups : Dict Key (List String))
      → All Group groups
      → Unique groups
      → any (λ (g : Key × List String). elem m (others g.1)) groups ≡ true
      → All (λ (g : Key × List String). canonical g.1 ≢ m) groups
  not_canonical groups h u e =
      let one = one-Group groups h u in
      let (macs, at, apart) = find_own groups groups one e in
      All-zip Group (λ g. elem m g.1 ≡ true → get own groups ≡ some g.1) (λ g. canonical g.1 ≢ m)
        groups
        (λ g p q low.
          let member : elem m g.1 ≡ true = rw low at (canonical-elem g.1 p.0) in
          let same : macs ≡ g.1 = ground (arith, q member) in apart (ap canonical same ∙ low))
        h one

-- Every row's group is there.
abbrev pub IsThere : Dict Key (List String) → Row → Type 0
IsThere groups r = is_some (get (key_of r.0 r.1) groups) ≡ true

there-put :
    (k j : Key) (macs : List String) (groups : Dict Key (List String))
    → is_some (get k groups) ≡ true
    → is_some (get k (put j macs groups)) ≡ true
there-put k j macs groups h = ground (arith, get-put j k macs groups)

there-group_macs :
    (k : Key) (rows : List Row) (groups : Dict Key (List String))
    → is_some (get k groups) ≡ true
    → is_some (get k (group_macs rows groups)) ≡ true
unfolding group_macs
there-group_macs k [] groups h = h
there-group_macs k ((mac, node_id, s) ∷ rows) groups h =
    there-group_macs k rows _ (there-put k (key_of mac node_id) _ groups h)

pub all-IsThere :
    (rows : List Row) (groups : Dict Key (List String))
    → All (IsThere (group_macs rows groups)) rows
unfolding group_macs
all-IsThere [] groups = tt
all-IsThere ((mac, node_id, s) ∷ rows) groups =
    let key = key_of mac node_id in
    let macs = get_or key [] groups ++ mac ∷ [] in
    (
      there-group_macs key rows (put key macs groups)
          (ground (arith, get-put key key macs groups, key_eq_iff key key)),
      all-IsThere rows (put key macs groups),
    )

pub best_data-there :
    (groups : Dict Key (List String)) (rows : List Row) (best : Dict Key Snapshot)
    → All (IsThere groups) rows
    → All (λ (b : Key × Snapshot). is_some (get b.0 groups) ≡ true) best
    → All (λ (b : Key × Snapshot). is_some (get b.0 groups) ≡ true) (best_data rows best)
unfolding best_data
best_data-there groups [] best there h = h
best_data-there groups ((mac, node_id, s) ∷ rows) best there h =
    let key = key_of mac node_id in
    elim (Bool-cases (is_better s (get key best))) [
      | inl e ↦
          rw (best_data, e)
            (best_data-there groups rows (put key s best) there.1 (
              put-All (λ (b : Key × Snapshot). is_some (get b.0 groups) ≡ true) key s best there.0
                h))
      | inr e ↦ rw (best_data, e) (best_data-there groups rows best there.1 h)
    ]

module _ (m : String) where
  pub get_or-canonical :
      (key : Key) (groups : Dict Key (List String))
      → is_some (get key groups) ≡ true
      → All (λ (g : Key × List String). canonical g.1 ≢ m) groups
      → canonical (get_or key [] groups) ≢ m
  unfolding get get_or
  get_or-canonical key [] h low = absurd (ground arith)
  get_or-canonical key ((j, macs) ∷ groups) h low = elim (Bool-cases (j == key)) [
    | inl p ↦ rw p low.0
    | inr p ↦ rw p (get_or-canonical key groups (ground arith) low.1)
  ]
