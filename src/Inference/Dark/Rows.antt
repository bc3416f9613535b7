-- ===== src/Inference/Dark/Rows.antt =====
-- Which nodes the pass writes to (src/engine/inference_engine.py: run_dark_matter_detection).
use net_lanvas.Base.{
  eq_pair, ℕ, ◌<◌, String, Option, none, some, List, [], ◌∷◌, true, false, elem, eq_ℕ, eq_String,
  ◌≡◌, refl, arith, All, Bool-cases, Option-cases, inl, inr,
}
use net_lanvas.Base.Table.{select-All, All-delete}
use net_lanvas.Base.Keyed.{find_key, delete_key}
use net_lanvas.Net.{Node, Interface, Binding, Net}
use net_lanvas.Net.Pseudo.{pseudo_mac_prefix}
use net_lanvas.Hostname.Priority.{find_node}
use net_lanvas.Unification.{of_node}
use net_lanvas.Unification.Consolidation.{delete_interface}
use net_lanvas.Inference.Pseudo.{bind, is_expired}
use net_lanvas.Inference.Dark.{Port, Marks, judge_all, ports_of, anomalies}
use net_lanvas.Inference.Dark.Identity.{Identity, identity}
use net_lanvas.Inference.Dark.Links.{link}
use net_lanvas.Inference.Dark.Pass.{
  State, place, place_all, purge_interface, purge, purge_all, purged, run_dark_matter_detection,
  committed,
}
use net_lanvas.Inference.Dark.Safe.{
  IsPseudo, IsReal, IsSafe, and_left, of_found, place_stand_in-IsSafe, same-IsSafe,
  link_downstream-IsSafe, judge_all-IsSafe, delete_found-IsSafe, identity-IsPseudo,
}

module _ (k : ℕ) (n : Node) where
  place-IsSafe :
      (now : ℕ) (ambiguous : List Port) (port : Port) (who : Identity) (s : State)
      → IsPseudo who.mac
      → IsSafe k n s.net
      → IsSafe k n (place now ambiguous port who s).net
  unfolding place bind link
  place-IsSafe now ambiguous port who s p safe =
      link_downstream-IsSafe k n who.ip 1 (elem port ambiguous) _ _
        (same-IsSafe k n _ _ refl refl refl (place_stand_in-IsSafe k n who.mac _ _ s.net p safe))

  abbrev SafeResult : Option (List String × State) → Type 0
  SafeResult none = Unit
  SafeResult (some (active, s)) = IsSafe k n s.net

  place_all-IsSafe :
      (now : ℕ) (ambiguous ports : List Port) (active : List String) (s : State)
      → IsSafe k n s.net
      → SafeResult (place_all now ambiguous ports active s)
  unfolding place_all
  place_all-IsSafe now ambiguous [] active s safe = safe
  place_all-IsSafe now ambiguous (port ∷ ports) active s safe =
      elim (Option-cases (identity port)) [
        | inl e ↦ rw (place_all, e) tt
        | inr (who, e) ↦
            rw (place_all, e)
              (place_all-IsSafe now ambiguous ports (who.mac ∷ active)
                (place now ambiguous port who s)
                (place-IsSafe now ambiguous port who s (identity-IsPseudo port e) safe))
      ]

  purge_interface-IsSafe :
      (o : Option Interface) (b : Binding) (net : Net)
      → ((i : Interface) → o ≡ some i → of_node k i ≡ false)
      → IsSafe k n net
      → IsSafe k n (purge_interface o b net)
  unfolding delete_interface delete_key
  purge_interface-IsSafe none b net apart s = s
  purge_interface-IsSafe (some i) b net apart s =
      delete_found-IsSafe k n i.node_id _ (λ id q. ground (arith, apart i refl))
        (record { row = s.row; real = All-delete _ _ net.l2_interfaces s.real; fresh = s.fresh })

  purge-IsSafe :
      (active : List String) (b : Binding) (net : Net)
      → IsPseudo b.mac_address
      → IsSafe k n net
      → IsSafe k n (purge active b net)
  unfolding purge
  purge-IsSafe active b net p s = elim (Bool-cases (elem b.mac_address active)) [
    | inl e ↦ rw (purge, e) s
    | inr e ↦
        rw (purge, e)
          (purge_interface-IsSafe (find_key Interface.mac_address b.mac_address net.l2_interfaces) b
            _ (λ i q. of_found k n b.mac_address i net s p q)
            (same-IsSafe k n net _ refl refl refl s))
  ]

  purge_all-IsSafe :
      (active : List String) (now : ℕ) (expired : List Binding) (net : Net)
      → All (λ (b : Binding). is_expired pseudo_mac_prefix now b ≡ true) expired
      → IsSafe k n net
      → IsSafe k n (purge_all active expired net)
  unfolding purge_all
  purge_all-IsSafe active now [] net p s = s
  purge_all-IsSafe active now (b ∷ expired) net p s =
      purge_all-IsSafe active now expired (purge active b net) p.1
        (purge-IsSafe active b net (and_left _ _ p.0) s)

  abbrev SafeState : Option State → Type 0
  SafeState none = Unit
  SafeState (some s) = find_node k s.net ≡ some n

  purged-IsSafe :
      (now : ℕ) (o : Option (List String × State)) → SafeResult o → SafeState (purged now o)
  purged-IsSafe now none s = tt
  purged-IsSafe now (some (active, s)) safe =
      (purge_all-IsSafe active now _ s.net
        (select-All (is_expired pseudo_mac_prefix now) s.net.l3_bindings) safe).row

settled :
    (k : ℕ) (n : Node) (before : State) (o : Option State)
    → find_node k before.net ≡ some n
    → SafeState k n o
    → find_node k (committed before o).net ≡ some n
settled k n before none e safe = e
settled k n before (some after) e safe = safe

-- The inference of hidden switches writes to no device that was seen: a node that no pseudo
-- interface belongs to, with an id that was given out, has the same row after the pass, which is
-- that of the end of the run or, where the run is broken off, that of the start.
pub run_dark_matter_detection-row :
    (now : ℕ) (s : State) (k : ℕ) (n : Node)
    → find_node k s.net ≡ some n
    → k < s.net.next_node_id
    → IsReal k s.net
    → find_node k (committed s (run_dark_matter_detection now s)).net ≡ some n
unfolding run_dark_matter_detection
run_dark_matter_detection-row now s k n e fresh real =
    let safe : IsSafe k n s.net = record { row = e; real = real; fresh = fresh } in
    let start : Marks = ([], s.net) in
    let (ambiguous, judged) = judge_all (ports_of s.net.endpoint_locations) start in
    settled k n s (run_dark_matter_detection now s) e (
      purged-IsSafe k n now
        (place_all now ambiguous (anomalies judged) [] (record s { net = judged }))
        (place_all-IsSafe k n now ambiguous (anomalies judged) [] (record s { net = judged })
          (judge_all-IsSafe k n (ports_of s.net.endpoint_locations) start safe)))
