-- ===== src/Tracker/Runs.antt =====
-- `run_device_state_tracker` from the tables of the network.
use mathlib.Core.Option
use net_lanvas.Base.{
  ℕ, String, Option, none, some, List, [], ◌∷◌, ◌++◌, map, Bool, ◌&&◌, ◌||◌, any, ◌≡◌, refl, arith,
  elem, ◌==◌, eq_String, eq_iff, if◌then◌else◌, Bool-cases, inl, inr, leb,
}
use net_lanvas.Base.Table.{select}
use net_lanvas.Base.Keyed.{IsPrimary, update_all-IsPrimary, find_key-update_all}
use net_lanvas.Net.{Net, DeviceState, Location, Binding}
use net_lanvas.Alerting.{Conn}
use net_lanvas.Tracker.{
  Tick, Process, state_mac, distinct, add_text, present_macs, cutoff, on_net,
  reset_tick_baseline_if_needed, in_initial_population, in_startup_grace, run_device_state_tracker,
}
use net_lanvas.Tracker.Rows.{AreSeverities}
use net_lanvas.Tracker.Loops.{find_state, IsDistinct}
use net_lanvas.Tracker.Ticks.{next_state, track_rows}

elem-add_text : (s j : String) (xs : List String) → elem j (add_text s xs) ≡ (j == s || elem j xs)
elem-add_text s j xs = elim (Bool-cases (elem s xs)) [
  | inl e ↦ rw e (ground (arith, eq_iff j s))
  | inr e ↦ rw e
]

add_text-IsDistinct : (s : String) (xs : List String) → IsDistinct xs → IsDistinct (add_text s xs)
add_text-IsDistinct s xs d = elim (Bool-cases (elem s xs)) [ inl e ↦ rw e d | inr e ↦ rw e (e, d) ]

elem-distinct : (j : String) (xs : List String) → elem j (distinct xs) ≡ elem j xs
unfolding distinct
elem-distinct j [] = refl
elem-distinct j (s ∷ rest) = rw (elem-add_text s j (distinct rest), elem-distinct j rest)

distinct-IsDistinct : (xs : List String) → IsDistinct (distinct xs)
unfolding distinct
distinct-IsDistinct [] = tt
distinct-IsDistinct (s ∷ rest) = add_text-IsDistinct s (distinct rest) (distinct-IsDistinct rest)

elem-append : (j : String) (xs ys : List String) → elem j (xs ++ ys) ≡ (elem j xs || elem j ys)
elem-append j [] ys = refl
elem-append j (x ∷ xs) ys = ground (arith, elem-append j xs ys)

-- A device is present if it has a location, or a binding refreshed since the previous tick began
-- (this tick, if it is the first).
unfoldable pub is_present : Process → Tick → Net → String → Bool
is_present p t net mac =
    any (λ (l : Location). mac == l.mac_address) net.endpoint_locations
    || any
        (λ (b : Binding).
          leb (cutoff p.previous_tick_started_at t.tick_started_at) b.last_seen
          && mac == b.mac_address)
        net.l3_bindings

elem-locations :
    (mac : String) (ls : List Location)
    → elem mac (map (λ (l : Location). l.mac_address) ls)
      ≡ any (λ (l : Location). mac == l.mac_address) ls
elem-locations mac [] = refl
elem-locations mac (l ∷ ls) = ground (arith, elem-locations mac ls)

elem-bindings :
    (mac : String) (from : ℕ) (bs : List Binding)
    → elem mac
        (map (λ (b : Binding). b.mac_address) (select (λ (b : Binding). leb from b.last_seen) bs))
      ≡ any (λ (b : Binding). leb from b.last_seen && mac == b.mac_address) bs
unfolding select
elem-bindings mac from [] = refl
elem-bindings mac from (b ∷ bs) = ground (arith, elem-bindings mac from bs)

present-IsDistinct : (p : Process) (t : Tick) (net : Net) → IsDistinct (present_macs p t net)
unfolding present_macs
present-IsDistinct p t net = distinct-IsDistinct (
    map (λ (l : Location). l.mac_address) net.endpoint_locations
    ++ map (λ (b : Binding). b.mac_address)
        (select
          (λ (b : Binding). leb (cutoff p.previous_tick_started_at t.tick_started_at) b.last_seen)
          net.l3_bindings))

elem-present_macs :
    (p : Process) (t : Tick) (net : Net) (mac : String)
    → elem mac (present_macs p t net) ≡ is_present p t net mac
unfolding present_macs is_present
elem-present_macs p t net mac = rw (
  elem-distinct mac _,
  elem-append mac,
  elem-locations mac,
  elem-bindings mac (cutoff p.previous_tick_started_at t.tick_started_at) net.l3_bindings,
)

-- the baseline that the first ticks of a process set
unfoldable pub rebase : Tick → DeviceState → DeviceState
rebase t = if leb t.tick 1 then (λ r. record r { last_seen_tick = some t.tick }) else (λ r. r)

find-reset :
    (t : Tick) (net : Net) (mac : String)
    → find_state mac (reset_tick_baseline_if_needed t.tick net).device_state
      ≡ Option.map (rebase t) (find_state mac net.device_state)
unfolding reset_tick_baseline_if_needed rebase
find-reset t net mac = elim (Bool-cases (leb t.tick 1)) [
  | inl e ↦ rw e (find_key-update_all state_mac mac _ net.device_state (λ x. refl))
  | inr e ↦ rw e (map-id (find_state mac net.device_state))
]
  where
    map-id : (o : Option DeviceState) → o ≡ Option.map (λ r. r) o
    map-id none = refl
    map-id (some r) = refl

reset-IsPrimary :
    (t : Tick) (net : Net)
    → IsPrimary state_mac net.device_state
    → IsPrimary state_mac (reset_tick_baseline_if_needed t.tick net).device_state
unfolding reset_tick_baseline_if_needed
reset-IsPrimary t net p = elim (Bool-cases (leb t.tick 1)) [
  | inl e ↦ rw e (update_all-IsPrimary state_mac _ net.device_state (λ x. refl) p)
  | inr e ↦ rw e p
]

is_present-reset :
    (p : Process) (t : Tick) (net : Net) (mac : String)
    → is_present p t (reset_tick_baseline_if_needed t.tick net) mac ≡ is_present p t net mac
unfolding is_present reset_tick_baseline_if_needed
is_present-reset p t net mac = ground arith

-- An order of iteration is one of the set's own members, each once.
pub record IsIteration (iteration : List String → List String) : Type 0 where
  pub same : (xs : List String) (s : String) → elem s (iteration xs) ≡ elem s xs
  pub once : (xs : List String) → IsDistinct xs → IsDistinct (iteration xs)

-- the device's row after the tick, from its row before and its presence
unfoldable pub expected : Process → Tick → Net → String → Option DeviceState
unfolding rebase
expected p t net mac =
    next_state t (is_present p t net mac) mac
      (Option.map (rebase t) (find_state mac net.device_state))

-- In one run of the tracker every device's row becomes the expected one, whatever the order in
-- which the set of present devices is iterated, and the run's changes are committed. The
-- configured severities must be on the scale, and the table keyed by MAC address.
pub run_device_state_tracker_rows :
    (p : Process) (t : Tick) (conn : Conn)
    → AreSeverities t.setting
    → IsIteration t.iteration
    → IsPrimary state_mac conn.net.device_state
    → (mac : String)
    → let after = (run_device_state_tracker p t conn).1 in
      (find_state mac after.net.device_state ≡ expected p t conn.net mac)
      × (after.committed ≡ after.net)
unfolding run_device_state_tracker expected
run_device_state_tracker_rows p t conn severities sets primary mac =
    let begun = on_net (reset_tick_baseline_if_needed t.tick) conn in
    let present = t.iteration (present_macs p t begun.net) in
    let (after, e, committed, rows) =
      track_rows t (in_startup_grace p t.monotonic) (in_initial_population p begun.net t.tick).0
        present begun severities (sets.once _ (present-IsDistinct p t begun.net))
        (reset-IsPrimary t conn.net primary) in
    rw e (
      rw (
        rows mac,
        sets.same (present_macs p t begun.net) mac,
        elem-present_macs p t begun.net mac,
        is_present-reset p t conn.net mac,
        find-reset t conn.net mac,
      ),
      committed,
    )
