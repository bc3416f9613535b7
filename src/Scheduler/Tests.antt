-- ===== src/Scheduler/Tests.antt =====
-- Ticks of the telemetry scheduler.
use net_lanvas.Base.{ℕ, Option, none, some, List, [], ◌∷◌, map, true, false, ◌≡◌, refl}
use net_lanvas.Scheduler.{
  Context, submit_telemetry_enabled, maybe_send_daily, should_nag_now, Round, Submission,
  on_tick_10, run_rounds,
}
use net_lanvas.Scheduler.Daily.{sends}

abbrev willing : Context
willing = record {
  submit_telemetry = "Yes";
  instance_id = some "a1";
  has_devices = true;
  stored_sample = none;
  preview_sample = some "log";
}

abbrev empty_boot : Context
empty_boot = record willing { has_devices = false }

-- The first tick with something to report sends, and the next waits a day.
sends_once : sends ((empty_boot, 1000000) ∷ (willing, 1000060) ∷ (willing, 1000120) ∷ []) 0 ≡ 1
unfolding sends maybe_send_daily submit_telemetry_enabled
sends_once = refl

asked_today : should_nag_now willing false (some "2026-09-03") "2026-09-03" ≡ false
unfolding should_nag_now submit_telemetry_enabled
asked_today = refl

abbrev round : ℕ → Context → Option ℕ → Round
round now c tick_counter = record {
  now = now;
  daily_context = c;
  tick_counter = tick_counter;
  tick_10_context = willing;
}

-- The counter comes to 10 twice, since a rebuild resets it.
abbrev rounds : List Round
rounds =
    round 1000000 empty_boot (some 1)
    ∷ round 1000060 willing (some 10)
    ∷ round 1000120 willing none
    ∷ round 1000180 willing (some 10)
    ∷ []

sends_both :
    map Submission.trigger_source (run_rounds rounds 0 false)
    ≡ "daily_periodic" ∷ "tick10_first_send" ∷ []
unfolding run_rounds maybe_send_daily submit_telemetry_enabled on_tick_10
sends_both = refl
