-- ===== src/Polling/Targets.antt =====
-- The targets of all nodes (src/engine/polling_targets.py: get_representative_targets).
use net_lanvas.Base.{
  ℕ, String, some, List, [], ◌∷◌, ◌++◌, nat_eq, eq_ℕ, eq_String, ◌≡◌, ◌≢◌, refl, sym, ap, ◌∙◌,
  arith, All, All-imp, Bool-cases, Option-cases, inl, inr, nat_eq_iff,
}
use net_lanvas.Base.Table.{select}
use net_lanvas.Base.Dict.{Dict, get, get_or, put, get_or-put, Unique, put-Unique, Unique-get}
use net_lanvas.Net.{Node, Interface, Binding, Net}
use net_lanvas.Polling.{
  Cached, Row, most_recent_first, group, representative, targets_of, get_representative_targets,
  joined, first_working, newest_by_subnet,
}
use net_lanvas.Polling.Recent.{Any, most_recent_first-All_from}
use net_lanvas.Polling.Newest.{chosen}
use net_lanvas.Polling.Freshest.{IsTargetOf, ips_of, representative-IsTargetOf}

abbrev Groups : Type 0
Groups = Dict ℕ (List String)

append_assoc : (xs ys zs : List String) → (xs ++ ys) ++ zs ≡ xs ++ (ys ++ zs)
append_assoc [] ys zs = refl
append_assoc (x ∷ xs) ys zs = ap (λ l. x ∷ l) (append_assoc xs ys zs)

append_nil : (xs : List String) → xs ++ [] ≡ xs
append_nil [] = refl
append_nil (x ∷ xs) = ap (λ l. x ∷ l) (append_nil xs)

-- a node's group is what was there with the addresses of its rows in order
get_or-group :
    (id : ℕ) (rows : List Row) (d : Groups)
    → get_or id [] (group rows d) ≡ get_or id [] d ++ ips_of id rows
unfolding select
get_or-group id [] d = sym (append_nil (get_or id [] d))
get_or-group id (r ∷ rows) d =
    let old = get_or r.node_id [] d in
    let rest = get_or-group id rows (put r.node_id (old ++ r.ip_address ∷ []) d) in
    let found = get_or-put r.node_id id [] (old ++ r.ip_address ∷ []) d in
    elim (Bool-cases (nat_eq r.node_id id)) [
      | inl e ↦
          let same : r.node_id ≡ id = (nat_eq_iff r.node_id id).0 e in
          rw e (
            rest
            ∙ ap (λ l. l ++ ips_of id rows)
                ((rw e at found) ∙ ap (λ k. get_or k [] d ++ r.ip_address ∷ []) same)
            ∙ append_assoc (get_or id [] d) (r.ip_address ∷ []) (ips_of id rows))
      | inr e ↦ rw e (rest ∙ ap (λ l. l ++ ips_of id rows) (rw e at found))
    ]

group-Unique : (rows : List Row) (d : Groups) → Unique d → Unique (group rows d)
group-Unique [] d h = h
group-Unique (r ∷ rows) d h =
    group-Unique rows (put r.node_id (get_or r.node_id [] d ++ r.ip_address ∷ []) d)
      (put-Unique r.node_id (get_or r.node_id [] d ++ r.ip_address ∷ []) d h)

All-each {ℓ κ} :
    {A : Type ℓ} (Q : ℕ → A → Type κ) (xs : List A)
    → ((k : ℕ) → All (Q k) xs)
    → All (λ x. (k : ℕ) → Q k x) xs
All-each Q [] h = tt
All-each Q (x ∷ xs) h = (λ k. (h k).0, All-each Q xs (λ k. (h k).1))

get-get_or : (id : ℕ) (d : Groups) (ips : List String) → get id d ≡ some ips → get_or id [] d ≡ ips
unfolding get get_or
get-get_or id [] ips e = absurd (ground arith)
get-get_or id ((j, v) ∷ d) ips e = ground (arith, get-get_or id d ips)

-- each entry holds the addresses of its node's rows
entries_hold :
    (rows : List Row) → All (λ (x : ℕ × List String). x.1 ≡ ips_of x.0 rows) (group rows [])
unfolding select get_or
entries_hold rows =
    let d = group rows [] in
    All-imp _ _ d
      (λ x found. sym (get-get_or x.0 d x.1 (found x.0 refl)) ∙ get_or-group x.0 rows [])
      (All-each (λ k (x : ℕ × List String). x.0 ≡ k → get k d ≡ some x.1) d
        (λ k. Unique-get k d (group-Unique rows [] tt)))

module _ (cache : Dict String Cached) where
  targets_of-All :
      (P : String → Type 0) (d : Groups)
      → All (λ x. (ip : String) → representative cache x.1 ≡ some ip → P ip) d
      → All P (targets_of cache d)
  unfolding targets_of
  targets_of-All P [] h = tt
  targets_of-All P ((id, ips) ∷ d) (h, hs) = elim (Option-cases (representative cache ips)) [
    | inl e ↦ rw e (targets_of-All P d hs)
    | inr (ip, e) ↦ rw e (h ip e, targets_of-All P d hs)
  ]

  -- a node that has a group has a target
  targets_of-Any :
      (P : String → Type 0) (id : ℕ) (d : Groups) (ip : String)
      → representative cache (get_or id [] d) ≡ some ip
      → P ip
      → Any P (targets_of cache d)
  unfolding targets_of get_or representative newest_by_subnet first_working
  targets_of-Any P id [] ip e p = absurd (ground arith)
  targets_of-Any P id ((j, ips) ∷ d) ip e p = elim (Bool-cases (nat_eq j id)) [
    | inl same ↦ let here : representative cache ips ≡ some ip = rw same at e in rw here (inl p)
    | inr other ↦
        let there : representative cache (get_or id [] d) ≡ some ip = rw other at e in
        let rest = targets_of-Any P id d ip there p in
        elim (Option-cases (representative cache ips)) [
          | inl none_here ↦ rw none_here rest
          | inr (jp, found) ↦ rw found (inr rest)
        ]
  ]

ips_of-tail : (id : ℕ) (r : Row) (rows : List Row) → ips_of id (r ∷ rows) ≡ [] → ips_of id rows ≡ []
unfolding select
ips_of-tail id r rows e = elim (Bool-cases (nat_eq r.node_id id)) [
  | inl q ↦
      let cons : r.ip_address ∷ ips_of id rows ≡ [] = rw q at e in absurd (ground (arith, cons))
  | inr q ↦ rw q at e
]

ips_of-head : (r : Row) (rows : List Row) → ips_of r.node_id (r ∷ rows) ≢ []
unfolding select
ips_of-head r rows e = ground (arith, nat_eq_iff r.node_id r.node_id)

-- a node with a row has an address
ips_of_each : (rows : List Row) → All (λ (r : Row). ips_of r.node_id rows ≢ []) rows
ips_of_each [] = tt
ips_of_each (r ∷ rows) = (
  ips_of-head r rows,
  All-imp _ _ rows (λ q some_row e. some_row (ips_of-tail q.node_id r rows e)) (ips_of_each rows),
)

a_target :
    (cache : Dict String Cached) (ips : List String)
    → ips ≢ []
    → (ip : String) × (representative cache ips ≡ some ip)
a_target cache [] h = absurd (h refl)
a_target cache (ip ∷ ips) h = elim (Option-cases (representative cache (ip ∷ ips))) [
  | inl e ↦ absurd (chosen cache ip ips e)
  | inr found ↦ found
]

joined_nothing :
    (nodes : List Node) (interfaces : List Interface) (bindings : List Binding)
    → joined [] nodes interfaces bindings ≡ []
joined_nothing [] interfaces bindings = refl
joined_nothing (n ∷ nodes) interfaces bindings = elim (Option-cases n.device_type) [
  | inl e ↦ rw e (joined_nothing nodes interfaces bindings)
  | inr (t, e) ↦ rw e (joined_nothing nodes interfaces bindings)
]

-- Every target is the address of a row of its node, and every node that has a row has a target.
abbrev pub AreTargets : List Row → List String → Type 0
AreTargets rows targets =
    All (λ ip. (id : ℕ) × IsTargetOf rows id ip) targets
    × All (λ (r : Row). Any (IsTargetOf rows r.node_id) targets) rows

grouped-AreTargets :
    (cache : Dict String Cached) (rows : List Row)
    → AreTargets rows (targets_of cache (group (most_recent_first rows) []))
unfolding get_or
grouped-AreTargets cache rows =
    let sorted = most_recent_first rows in
    (
      targets_of-All cache (λ ip. (id : ℕ) × IsTargetOf rows id ip) (group sorted [])
          (All-imp _ _ (group sorted [])
            (λ x held ip e. (
              x.0,
              representative-IsTargetOf cache rows x.0 ip
                  (ap (representative cache) (sym held) ∙ e),
            ))
            (entries_hold sorted)),
      most_recent_first-All_from _ rows (
          All-imp _ _ sorted
            (λ r some_row.
              let (ip, e) = a_target cache (ips_of r.node_id sorted) some_row in
              targets_of-Any cache (IsTargetOf rows r.node_id) r.node_id (group sorted []) ip
                (ap (representative cache) (get_or-group r.node_id sorted []) ∙ e)
                (representative-IsTargetOf cache rows r.node_id ip e))
            (ips_of_each sorted)),
    )

abbrev pub rows_joined : List String → Net → List Row
rows_joined device_types net =
    joined device_types net.logical_nodes net.l2_interfaces net.l3_bindings

-- Whatever the credential cache holds, every target is the address of a row of the join such that
-- no row of the same node in the same subnet was seen later than it; and every node that has a
-- row has such a target.
pub get_representative_targets-AreTargets :
    (device_types : List String) (cache : Dict String Cached) (net : Net)
    → AreTargets (rows_joined device_types net) (get_representative_targets device_types cache net)
unfolding get_representative_targets
get_representative_targets-AreTargets [] cache net =
    rw (joined_nothing net.logical_nodes net.l2_interfaces net.l3_bindings) (tt, tt)
get_representative_targets-AreTargets (t ∷ types) cache net =
    grouped-AreTargets cache (rows_joined (t ∷ types) net)
