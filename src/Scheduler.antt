-- ===== src/Scheduler.antt =====
-- When telemetry is sent and the user is asked for it (src/telemetry/scheduler.py). The settings
-- and what the builder of the payload and the log sampler return are given for each call.
pub mod Daily
mod Tests
use net_lanvas.Base.{
  ℕ, ◌+◌, ◌*◌, nat_eq, ◌++◌, String, Option, none, some, List, [], ◌∷◌, Bool, true, false, not, any,
  ltb, ◌&&◌, ◌||◌, if◌then◌else◌, eq_String, ◌==◌,
}
use net_lanvas.Base.Text.{codes, codes_eq, lower, is_blank}

abbrev pub daily_interval_seconds : ℕ
daily_interval_seconds = 24 * 3600

-- What a call reads: the settings, the payload's devices, and the two log samples.
pub record Context : Type 0 where
  pub submit_telemetry : String
  pub instance_id : Option String
  pub has_devices : Bool
  pub stored_sample : Option String
  pub preview_sample : Option String

pub record Submission : Type 0 where
  pub instance_id : String
  pub log_sample : Option String
  pub trigger_source : String

unfoldable pub submit_telemetry_enabled : Context → Bool
submit_telemetry_enabled c =
    any (λ word. codes_eq (lower c.submit_telemetry) (codes word)) ("true" ∷ "1" ∷ "yes" ∷ [])

abbrev pub given : Option String → String
given none = ""
given (some s) = s

unfoldable pub on_tick_10 : Context → Option Submission
on_tick_10 c =
    if not (submit_telemetry_enabled c)
    then none
    else if is_blank (given c.instance_id)
    then none
    else if not c.has_devices
    then none
    else some (record {
      instance_id = given c.instance_id;
      log_sample = c.stored_sample;
      trigger_source = "tick10_first_send";
    })

-- The new value of _last_daily_sent_at, and what is submitted.
unfoldable pub maybe_send_daily : Context → ℕ → ℕ → Option Submission × ℕ
maybe_send_daily c now last_daily_sent_at =
    if not (submit_telemetry_enabled c)
    then (none, last_daily_sent_at)
    else if ltb now (last_daily_sent_at + daily_interval_seconds)
    then (none, last_daily_sent_at)
    else if is_blank (given c.instance_id)
    then (none, last_daily_sent_at)
    else if not c.has_devices
    then (none, last_daily_sent_at)
    else (
      some (record {
        instance_id = given c.instance_id;
        log_sample = if is_blank (given c.stored_sample) then c.preview_sample else c.stored_sample;
        trigger_source = "daily_periodic";
      }),
      now,
    )

-- One round of the main loop (src/main.py: background_polling_engine), as far as it sends
-- telemetry: what its two calls read, the time, and the tick's counter where the round gets there.
pub record Round : Type 0 where
  pub now : ℕ
  pub daily_context : Context
  pub tick_counter : Option ℕ
  pub tick_10_context : Context

abbrev pub listed : Option Submission → List Submission
listed none = []
listed (some s) = s ∷ []

-- telemetry_tick10_fired after the round, and what is submitted
abbrev pub fire_tick_10 : Context → Option ℕ → Bool → Option Submission × Bool
fire_tick_10 c none telemetry_tick10_fired = (none, telemetry_tick10_fired)
fire_tick_10 c (some tick_counter) telemetry_tick10_fired =
    if nat_eq tick_counter 10 && not telemetry_tick10_fired
    then (on_tick_10 c, true)
    else (none, telemetry_tick10_fired)

-- The submissions of the rounds of one process, in order.
unfoldable pub run_rounds : List Round → ℕ → Bool → List Submission
unfolding maybe_send_daily on_tick_10
run_rounds [] last_daily_sent_at telemetry_tick10_fired = []
run_rounds (r ∷ rounds) last_daily_sent_at telemetry_tick10_fired =
    let (daily, sent_at) = maybe_send_daily r.daily_context r.now last_daily_sent_at in
    let (first, fired) = fire_tick_10 r.tick_10_context r.tick_counter telemetry_tick10_fired in
    listed daily ++ (listed first ++ run_rounds rounds sent_at fired)

-- last_nagged != today
abbrev differs : Option String → String → Bool
differs none today = true
differs (some day) today = not (day == today)

unfoldable pub should_nag_now : Context → Bool → Option String → String → Bool
should_nag_now c is_registered last_nagged today =
    if is_registered && submit_telemetry_enabled c then false else differs last_nagged today

unfoldable pub mark_nagged : String → Option String → Option String
mark_nagged today last_nagged = some today
