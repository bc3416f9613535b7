-- ===== src/Polling/Freshest.antt =====
-- The targets against the join they are chosen from (src/engine/polling_targets.py:
-- get_representative_targets).
use net_lanvas.Base.{
  ℕ, ◌≤◌, String, some, List, [], ◌∷◌, ◌++◌, nat_eq, map, eq_ℕ, eq_String, ◌≡◌, ◌⊎◌, sym, ap, ◌∙◌,
  arith, All, All-imp, Bool-cases, inl, inr, nat_eq_iff,
}
use net_lanvas.Base.Table.{select, All-select}
use net_lanvas.Base.Dict.{Dict}
use net_lanvas.Polling.{Cached, Row, subnet, most_recent_first, representative}
use net_lanvas.Polling.Recent.{
  Any, Any-imp, AreSorted, most_recent_first-All_from, most_recent_first-Any,
  most_recent_first-AreSorted,
}
use net_lanvas.Polling.Newest.{IsNewest, chosen-IsNewest}

-- No row of the same node in the same subnet was seen later.
abbrev pub IsFreshest : List Row → Row → Type 0
IsFreshest rows q =
    All
      (λ (p : Row).
        p.node_id ≡ q.node_id
        → subnet p.ip_address ≡ subnet q.ip_address
        → p.last_seen ≤ q.last_seen)
      rows

-- The address stands in such a row of the node.
abbrev pub IsTargetOf : List Row → ℕ → String → Type 0
IsTargetOf rows id ip =
    Any (λ (q : Row). (q.node_id ≡ id) × (q.ip_address ≡ ip) × IsFreshest rows q) rows

abbrev pub row_ip : Row → String
row_ip r = r.ip_address

abbrev row_node : Row → ℕ
row_node r = r.node_id

abbrev pub rows_of : ℕ → List Row → List Row
rows_of id rows = select (λ (r : Row). nat_eq r.node_id id) rows

abbrev pub ips_of : ℕ → List Row → List String
ips_of id rows = map row_ip (rows_of id rows)

-- as IsFreshest, among the rows of one node
abbrev IsFirst : List Row → String → Row → Type 0
IsFirst rows ip q =
    (q.ip_address ≡ ip)
    × All (λ (p : Row). subnet p.ip_address ≡ subnet q.ip_address → p.last_seen ≤ q.last_seen) rows

newest_row :
    (rows : List Row) (ip : String)
    → AreSorted rows
    → IsNewest (map row_ip rows) ip
    → Any (IsFirst rows ip) rows
newest_row [] ip h ([], older, split, apart) = absurd (ground arith)
newest_row [] ip h (n ∷ newer, older, split, apart) = absurd (ground arith)
newest_row (r ∷ rows) ip h ([], older, split, apart) =
    let same : r.ip_address ≡ ip = ground arith in
    inl (same, (λ e. omega arith, All-imp _ _ rows (λ p below e. below) h.0))
newest_row (r ∷ rows) ip h (n ∷ newer, older, split, (apart, rest)) =
    let first : r.ip_address ≡ n = ground arith in
    let tail : map row_ip rows ≡ newer ++ ip ∷ older = ground arith in
    inr (
      Any-imp (IsFirst rows ip) (IsFirst (r ∷ rows) ip) rows
        (λ q found.
          (found.0, (λ e. absurd (apart (ap subnet (sym first) ∙ e ∙ ap subnet found.0)), found.1)))
        (newest_row rows ip h.1 (newer, older, tail, rest)))

rows_of-AreSorted : (id : ℕ) (rows : List Row) → AreSorted rows → AreSorted (rows_of id rows)
unfolding select
rows_of-AreSorted id [] h = tt
rows_of-AreSorted id (r ∷ rows) h = elim (Bool-cases (nat_eq r.node_id id)) [
  | inl e ↦ rw e (
    All-select (λ (q : Row). q.last_seen ≤ r.last_seen) (λ q. nat_eq q.node_id id) rows h.0,
    rows_of-AreSorted id rows h.1,
  )
  | inr e ↦ rw e (rows_of-AreSorted id rows h.1)
]

All-rows_of :
    (P : Row → Type 0) (id : ℕ) (rows : List Row)
    → All P (rows_of id rows)
    → All (λ p. p.node_id ≡ id → P p) rows
unfolding select
All-rows_of P id [] h = tt
All-rows_of P id (r ∷ rows) h = elim (Bool-cases (nat_eq r.node_id id)) [
  | inl e ↦
      let split : P r × All P (rows_of id rows) = rw e at h in
      (λ same. split.0, All-rows_of P id rows split.1)
  | inr e ↦
      let split : All P (rows_of id rows) = rw e at h in
      (λ same. absurd (ground (arith, nat_eq_iff r.node_id id)), All-rows_of P id rows split)
]

Any-rows_of :
    (P : Row → Type 0) (id : ℕ) (rows : List Row)
    → Any P (rows_of id rows)
    → Any (λ p. (p.node_id ≡ id) × P p) rows
unfolding select
Any-rows_of P id [] h = absurd h
Any-rows_of P id (r ∷ rows) h = elim (Bool-cases (nat_eq r.node_id id)) [
  | inl e ↦
      let split : P r ⊎ Any P (rows_of id rows) = rw e at h in
      elim split [
        | inl p ↦ inl ((nat_eq_iff r.node_id id).0 e, p)
        | inr more ↦ inr (Any-rows_of P id rows more)
      ]
  | inr e ↦ let split : Any P (rows_of id rows) = rw e at h in inr (Any-rows_of P id rows split)
]

-- the choice among the addresses of one node, in the order of the query
pub representative-IsTargetOf :
    (cache : Dict String Cached) (rows : List Row) (id : ℕ) (ip : String)
    → representative cache (ips_of id (most_recent_first rows)) ≡ some ip
    → IsTargetOf rows id ip
representative-IsTargetOf cache rows id ip e =
    let sorted = most_recent_first rows in
    let first =
      newest_row (rows_of id sorted) ip
        (rows_of-AreSorted id sorted (most_recent_first-AreSorted rows))
        (chosen-IsNewest cache (ips_of id sorted) ip e) in
    most_recent_first-Any _ rows (
      Any-imp _ _ sorted
        (λ q (is_id, found). (
          is_id,
          found.0,
          most_recent_first-All_from _ rows (
              All-imp _ _ sorted (λ p newer same_node. newer (same_node ∙ is_id))
                (All-rows_of
                  (λ (p : Row).
                    subnet p.ip_address ≡ subnet q.ip_address → p.last_seen ≤ q.last_seen)
                  id sorted found.1)),
        ))
        (Any-rows_of (IsFirst (rows_of id sorted) ip) id sorted first))
