-- ===== src/Tracker/Loops.antt =====
-- The two loops of a tick, device by device.
use mathlib.Core.Option
use net_lanvas.Base.{
  String, Option, none, some, List, [], ◌∷◌, Bool, true, false, ◌≡◌, refl, arith, elem, ◌==◌,
  eq_String, eq_iff, if◌then◌else◌, eq_refl, ◌∙◌,
}
use net_lanvas.Base.Keyed.{
  find_key, update_key, IsPrimary, find_key-update_key, find_key-append, append-IsPrimary,
  update_key-IsPrimary,
}
use net_lanvas.Net.{Status, online, offline, DeviceState}
use net_lanvas.Alerting.{Conn, Outcome}
use net_lanvas.Tracker.{Tick, state_mac, first_row, visit_present}
use net_lanvas.Tracker.Rows.{
  Leaves, visited_rows, visit_by-Leaves, known_rows, touched, with_status,
}

abbrev pub find_state : String → List DeviceState → Option DeviceState
find_state mac rows = find_key state_mac mac rows

-- no text stands twice in the list
abbrev pub IsDistinct : List String → Type 0
IsDistinct [] = Unit
IsDistinct (s ∷ rest) = (elem s rest ≡ false) × IsDistinct rest

or_else-if :
    (b : Bool) (x : Option DeviceState) (y : DeviceState)
    → (b ≡ true → x ≡ none)
    → Option.or_else x (if b then some y else none) ≡ (if b then some y else x)
unfolding Option.or_else
or_else-if true x y h = rw (h refl)
or_else-if false none y h = refl
or_else-if false (some x) y h = refl

module _ (t : Tick) where
  -- the row of a device that is present
  unfoldable pub seen : String → Option DeviceState → DeviceState
  seen mac none = first_row mac t
  seen mac (some r) = record r {
    status = online;
    last_seen = t.now;
    last_seen_tick = some t.tick;
    last_status_change = elim r.status [ online ↦ r.last_status_change | _ ↦ t.now ];
  }

  -- the row that going offline leaves
  unfoldable pub gone : DeviceState → DeviceState
  gone r = record r { status = offline; last_status_change = t.now }

  find-two_updates :
      (j mac : String) (f g : DeviceState → DeviceState) (rows : List DeviceState)
      → ((r : DeviceState) → state_mac (f r) ≡ state_mac r)
      → ((r : DeviceState) → state_mac (g r) ≡ state_mac r)
      → find_state j (update_key state_mac mac f (update_key state_mac mac g rows))
        ≡ (if mac == j then Option.map f (Option.map g (find_state j rows)) else find_state j rows)
  find-two_updates j mac f g rows kf kg = ground (
    arith,
    find_key-update_key state_mac j mac f (update_key state_mac mac g rows) kf,
    find_key-update_key state_mac j mac g rows kg,
  )

  find-known :
      (j mac : String) (status : Status) (r : DeviceState) (rows : List DeviceState)
      → r.status ≡ status
      → find_state mac rows ≡ some r
      → find_state j (known_rows t mac status rows)
        ≡ (if mac == j then some (seen mac (some r)) else find_state j rows)
  unfolding seen
  find-known j mac online r rows s h =
      ground (arith, eq_iff mac j, find_key-update_key state_mac j mac (touched t) rows (λ x. refl))
  find-known j mac _ r rows s h = ground (
    arith,
    eq_iff mac j,
    find-two_updates j mac (with_status t online) (touched t) rows (λ x. refl) (λ x. refl),
  )

  find-visited :
      (j mac : String) (found : Option DeviceState) (rows : List DeviceState)
      → find_state mac rows ≡ found
      → find_state j (visited_rows t mac found rows)
        ≡ (if mac == j then some (seen mac found) else find_state j rows)
  unfolding seen Option.or_else find_key
  find-visited j mac none rows h = rw (find_key-append state_mac j rows (first_row mac t ∷ [])) (
      or_else-if (mac == j) (find_state j rows) (first_row mac t)
        (λ e. rw (← (eq_iff mac j).0 e) h))
  find-visited j mac (some r) rows h = find-known j mac r.status r rows refl h

  known-IsPrimary :
      (mac : String) (status : Status) (rows : List DeviceState)
      → IsPrimary state_mac rows
      → IsPrimary state_mac (known_rows t mac status rows)
  known-IsPrimary mac online rows p =
      update_key-IsPrimary state_mac mac (touched t) rows (λ x. refl) p
  known-IsPrimary mac _ rows p =
      update_key-IsPrimary state_mac mac (with_status t online) _ (λ x. refl)
        (update_key-IsPrimary state_mac mac (touched t) rows (λ x. refl) p)

  visited-IsPrimary :
      (mac : String) (found : Option DeviceState) (rows : List DeviceState)
      → find_state mac rows ≡ found
      → IsPrimary state_mac rows
      → IsPrimary state_mac (visited_rows t mac found rows)
  visited-IsPrimary mac none rows h p = append-IsPrimary state_mac rows (first_row mac t) h p
  visited-IsPrimary mac (some r) rows h p = known-IsPrimary mac r.status rows p

  module _ (suppress_alerts suppress_new : Bool) (existing : List DeviceState) where
    -- what the first loop establishes, from the table `rows`
    abbrev AfterPresent : List String → List DeviceState → Outcome (Unit {0}) → Type 0
    AfterPresent macs rows o =
        (rows' : List DeviceState) × Leaves o rows'
        × IsPrimary state_mac rows'
        × ((j : String)
            → find_state j rows'
              ≡ (if elem j macs then some (seen j (find_state j existing)) else find_state j rows))

    -- no row of a device still to be visited has changed
    abbrev Untouched : List String → List DeviceState → Type 0
    Untouched macs rows =
        (j : String) → elem j macs ≡ true → find_state j rows ≡ find_state j existing

    still-Untouched :
        (mac : String) (macs : List String) (rows : List DeviceState) (j : String)
        → IsDistinct (mac ∷ macs)
        → Untouched (mac ∷ macs) rows
        → elem j macs ≡ true
        → find_state mac rows ≡ find_state mac existing
        → find_state j (visited_rows t mac (find_state mac existing) rows) ≡ find_state j existing
    still-Untouched mac macs rows j d u m here =
        ground
          (arith, find-visited j mac (find_state mac existing) rows here, eq_iff mac j, u j, d.0)

    visited_or_later :
        (mac : String) (macs : List String) (rows : List DeviceState) (j : String)
        → find_state mac rows ≡ find_state mac existing
        → ◌≡◌ {A = Option DeviceState}
            (if elem j macs
              then some (seen j (find_state j existing))
              else find_state j (visited_rows t mac (find_state mac existing) rows))
            (if elem j (mac ∷ macs)
              then some (seen j (find_state j existing))
              else find_state j rows)
    visited_or_later mac macs rows j here =
        ground (
          arith,
          find-visited j mac (find_state mac existing) rows here,
          eq_iff mac j,
          eq_iff j mac,
        )

    pub visit_present_rows :
        (macs : List String) (conn : Conn)
        → IsDistinct macs
        → Untouched macs conn.net.device_state
        → IsPrimary state_mac conn.net.device_state
        → AfterPresent macs conn.net.device_state
            (visit_present t suppress_alerts suppress_new existing macs conn)
    unfolding visit_present
    visit_present_rows [] conn d u p = (_, (conn, refl, refl), p, λ j. refl)
    visit_present_rows (mac ∷ macs) conn d u p =
        let rows = conn.net.device_state in
        let found = find_state mac existing in
        let here : find_state mac rows ≡ found = u mac (rw (eq_refl mac)) in
        let (after, e, r) = visit_by-Leaves t suppress_alerts suppress_new mac found conn in
        let (rows', left, p', finds) =
          visit_present_rows macs after d.1
            (λ j m. rw r (still-Untouched mac macs rows j d u m here))
            (rw r (visited-IsPrimary mac found rows here p)) in
        (rows', rw e left, p', λ j. rw r at (finds j) ∙ visited_or_later mac macs rows j here)
