-- ===== src/Tracker/Grace.antt =====
-- When a device goes offline.
use net_lanvas.Base.{
  eq_String, ◌+◌, ◌<◌, ◌≤◌, String, Option, none, some, Bool, false, not, ◌&&◌, ◌≡◌, ◌≢◌, arith,
  leb,
}
use net_lanvas.Base.Keyed.{IsPrimary}
use net_lanvas.Net.{Net, offline, DeviceState}
use net_lanvas.Alerting.{Conn}
use net_lanvas.Tracker.{
  Tick, Process, state_mac, is_offline, tick_or, offline_grace_ticks, run_device_state_tracker,
}
use net_lanvas.Tracker.Rows.{AreSeverities}
use net_lanvas.Tracker.Loops.{find_state, seen, gone}
use net_lanvas.Tracker.Ticks.{next_state, missed}
use net_lanvas.Tracker.Runs.{
  IsIteration, is_present, rebase, expected, run_device_state_tracker_rows,
}

abbrev pub is_offline_row : Option DeviceState → Bool
is_offline_row none = false
is_offline_row (some r) = is_offline r.status

module _ (p : Process) (t : Tick) (net : Net) (mac : String) (r : DeviceState) where
  expected_offline :
      find_state mac net.device_state ≡ some r
      → r.status ≢ offline
      → 1 < t.tick
      → is_offline_row (expected p t net mac) ≡ (
          not (is_present p t net mac)
          && leb (tick_or t r.last_seen_tick + offline_grace_ticks) t.tick)
  unfolding expected rebase next_state missed seen gone
  expected_offline found up late = ground arith

  expected_start :
      find_state mac net.device_state ≡ some r
      → r.status ≢ offline
      → t.tick ≤ 1
      → is_offline_row (expected p t net mac) ≡ false
  unfolding expected rebase next_state missed seen gone
  expected_start found up early = ground arith

module _ (p : Process) (t : Tick) (conn : Conn) (mac : String) (r : DeviceState)
    (severities : AreSeverities t.setting) (sets : IsIteration t.iteration)
    (primary : IsPrimary state_mac conn.net.device_state)
    (found : find_state mac conn.net.device_state ≡ some r) (up : r.status ≢ offline) where
  abbrev row_after : Option DeviceState
  row_after = find_state mac (run_device_state_tracker p t conn).1.net.device_state

  -- After the first tick of a process, a device whose row `r` was not offline is offline after a
  -- run exactly if it is absent and at least three ticks have passed since the tick that last saw
  -- it. The configured severities must be on the scale, the set's order an iteration of it, and
  -- the table keyed by MAC address.
  pub run_device_state_tracker_offline :
      1 < t.tick
      → is_offline_row row_after ≡ (
          not (is_present p t conn.net mac)
          && leb (tick_or t r.last_seen_tick + offline_grace_ticks) t.tick)
  run_device_state_tracker_offline late =
      rw ((run_device_state_tracker_rows p t conn severities sets primary mac).0)
        (expected_offline p t conn.net mac r found up late)

  -- In the ticks 0 and 1 of a process no device that was not offline goes offline, however old
  -- its row `r` is. The configured severities must be on the scale, the set's order an iteration
  -- of it, and the table keyed by MAC address.
  pub run_device_state_tracker_start : t.tick ≤ 1 → is_offline_row row_after ≡ false
  run_device_state_tracker_start early =
      rw ((run_device_state_tracker_rows p t conn severities sets primary mac).0)
        (expected_start p t conn.net mac r found up early)
