-- ===== src/Scheduler/Daily.antt =====
-- How often a process sends telemetry by itself (src/telemetry/scheduler.py, as src/main.py calls
-- it).
use net_lanvas.Base.{
  ℕ, ◌+◌, ◌≤◌, String, Option, none, some, List, [], ◌∷◌, Bool, true, false, ◌==◌, eq_String,
}
use net_lanvas.Scheduler.{Context, Submission, maybe_send_daily, Round}

abbrev pub count_of : Option Submission → ℕ
count_of none = 0
count_of (some s) = 1

-- The submissions of a sequence of ticks.
unfoldable pub sends : List (Context × ℕ) → ℕ → ℕ
sends [] last_daily_sent_at = 0
sends ((c, now) ∷ ticks) last_daily_sent_at =
    let (submission, after) = maybe_send_daily c now last_daily_sent_at in
    count_of submission + sends ticks after

abbrev pub IsWithin : ℕ → ℕ → List (Context × ℕ) → Type 0
IsWithin first last [] = Unit
IsWithin first last ((c, now) ∷ ticks) = (first ≤ now) × (now ≤ last) × IsWithin first last ticks

abbrev pub is_from : String → Submission → Bool
is_from trigger s = s.trigger_source == trigger

-- the calls of maybe_send_daily
abbrev ticks_of : List Round → List (Context × ℕ)
ticks_of [] = []
ticks_of (r ∷ rounds) = (r.daily_context, r.now) ∷ ticks_of rounds

abbrev pub AreWithin : ℕ → ℕ → List Round → Type 0
AreWithin first last [] = Unit
AreWithin first last (r ∷ rounds) = (first ≤ r.now) × (r.now ≤ last) × AreWithin first last rounds

left_of : Bool → ℕ
left_of true = 0
left_of false = 1
