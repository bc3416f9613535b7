-- ===== src/Tracker/Ticks.antt =====
-- A whole tick, device by device.
use mathlib.Core.Option
use net_lanvas.Base.{
  String, Option, none, some, List, [], ◌∷◌, Bool, not, ◌&&◌, any, ◌≡◌, refl, arith, elem,
  eq_String, eq_iff, if◌then◌else◌, Bool-cases, inl, inr, ◌∙◌,
}
use net_lanvas.Base.Table.{select}
use net_lanvas.Base.Keyed.{has_key, IsPrimary, find_key-update_key, any-select_key}
use net_lanvas.Net.{DeviceState}
use net_lanvas.Alerting.{Conn, Outcome, ok, commit}
use net_lanvas.Tracker.{Tick, state_mac, visit_stale, go_offline, is_stale, track, done}
use net_lanvas.Tracker.Rows.{AreSeverities, Leaves, offline_rows, go_offline-Leaves}
use net_lanvas.Tracker.Loops.{find_state, IsDistinct, seen, gone, visit_present_rows}

module _ (t : Tick) (suppress_alerts suppress_new : Bool) where
  stale_step-Leaves :
      (present : List String) (r : DeviceState) (conn : Conn)
      → AreSeverities t.setting
      → Leaves
          (if elem r.mac_address present
            then done conn
            else go_offline t suppress_alerts suppress_new r.mac_address r.status conn)
          (if elem r.mac_address present
            then conn.net.device_state
            else offline_rows t r.mac_address conn.net.device_state)
  stale_step-Leaves present r conn h = elim (Bool-cases (elem r.mac_address present)) [
    | inl e ↦ rw e (conn, refl, refl)
    | inr e ↦ rw e (go_offline-Leaves t suppress_alerts suppress_new r.mac_address r.status conn h)
  ]

  abbrev AfterStale :
      List String → List DeviceState → List DeviceState → Outcome (Unit {0}) → Type 0
  AfterStale present stale rows o =
      (rows' : List DeviceState) × Leaves o rows'
      × ((j : String)
          → find_state j rows' ≡ (
              if any (has_key state_mac j) stale && not (elem j present)
              then Option.map (gone t) (find_state j rows)
              else find_state j rows))

  gone_or_later :
      (present : List String) (r : DeviceState) (stale rows : List DeviceState) (j : String)
      → ◌≡◌ {A = Option DeviceState}
          (let rows' =
              if elem r.mac_address present then rows else offline_rows t r.mac_address rows in
            if any (has_key state_mac j) stale && not (elem j present)
            then Option.map (gone t) (find_state j rows')
            else find_state j rows')
          (if any (has_key state_mac j) (r ∷ stale) && not (elem j present)
            then Option.map (gone t) (find_state j rows)
            else find_state j rows)
  unfolding gone
  gone_or_later present r stale rows j = ground (
    arith,
    find_key-update_key state_mac j r.mac_address (gone t) rows (λ x. refl),
    eq_iff r.mac_address j,
  )

  visit_stale_rows :
      (present : List String) (stale : List DeviceState) (conn : Conn)
      → AreSeverities t.setting
      → AfterStale present stale conn.net.device_state
          (visit_stale t suppress_alerts suppress_new present stale conn)
  unfolding visit_stale
  visit_stale_rows present [] conn h = (_, (conn, refl, refl), λ j. refl)
  visit_stale_rows present (r ∷ stale) conn h =
      let (after, e, left) = stale_step-Leaves present r conn h in
      let (rows', leaves, finds) = visit_stale_rows present stale after h in
      (
        rows',
        rw e leaves,
        λ j. rw left at (finds j) ∙ gone_or_later present r stale conn.net.device_state j,
      )

module _ (t : Tick) where
  -- the row of a device that is absent
  unfoldable pub missed : Option DeviceState → Option DeviceState
  missed none = none
  missed (some r) = some (if is_stale t r then gone t r else r)

  -- what becomes of a device's row in a tick
  unfoldable pub next_state : Bool → String → Option DeviceState → Option DeviceState
  next_state present mac row = if present then some (seen t mac row) else missed row

  absent_state :
      (present : List String) (mac : String) (before middle : List DeviceState)
      (after : Option DeviceState)
      → IsPrimary state_mac middle
      → find_state mac middle ≡ (
          if elem mac present
          then some (seen t mac (find_state mac before))
          else find_state mac before)
      → after ≡ (
          if any (has_key state_mac mac) (select (is_stale t) middle) && not (elem mac present)
          then Option.map (gone t) (find_state mac middle)
          else find_state mac middle)
      → after ≡ next_state (elem mac present) mac (find_state mac before)
  unfolding next_state missed
  absent_state present mac before middle after p first second =
      ground (arith, any-select_key state_mac mac (is_stale t) middle p)

-- Every device's row after a tick is `next_state` of its row before, for every set of present
-- devices in any order. The tick does not raise, and ends by committing.
pub track_rows :
    (t : Tick) (suppress_alerts suppress_new : Bool) (present : List String) (conn : Conn)
    → AreSeverities t.setting
    → IsDistinct present
    → IsPrimary state_mac conn.net.device_state
    → (after : Conn) × (track t suppress_alerts suppress_new present conn ≡ ok tt after)
      × (after.committed ≡ after.net)
      × ((mac : String)
          → find_state mac after.net.device_state
            ≡ next_state t (elem mac present) mac (find_state mac conn.net.device_state))
unfolding track
track_rows t sa sn present conn severities d p =
    let rows = conn.net.device_state in
    let (middle, (seen_conn, e, left), primary, first) =
      visit_present_rows t sa sn rows present conn d (λ j m. refl) p in
    let (rows', (after, e', left'), second) =
      visit_stale_rows t sa sn present (select (is_stale t) seen_conn.net.device_state) seen_conn
        severities in
    (
      commit after,
      rw e (rw e' refl),
      refl,
      λ mac.
          absent_state t present mac rows middle (find_state mac after.net.device_state) primary
            (first mac) (rw (left', ← left) (second mac)),
    )
