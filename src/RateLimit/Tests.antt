-- ===== src/RateLimit/Tests.antt =====
-- Runs of the limiter.
use net_lanvas.Base.{String, none, some, List, [], ◌∷◌, ℕ, true, false, ◌≡◌, refl, arith, leb}
use net_lanvas.Base.Table.{select, count}
use net_lanvas.Base.Dict.{get_or, put}
use net_lanvas.Base.Text.{strip, split_on}
use net_lanvas.RateLimit.{is_fresh, is_rate_limited, record_attempt, get_client_ip}
use net_lanvas.RateLimit.Window.{Call, check, attempt, step, run, failures, is_rate_limited_exact}

abbrev login_window : String → String → ℕ
login_window identifier bucket = 300

abbrev calls : List Call
calls =
    attempt "10.0.0.7" "login" 100
    ∷ attempt "10.0.0.8" "login" 200
    ∷ attempt "10.0.0.7" "login" 350
    ∷ check "10.0.0.7" "login" 5 390
    ∷ attempt "10.0.0.7" "login" 401
    ∷ []

-- at 402 the first failure is out of the window
limited_by_two : (is_rate_limited "10.0.0.7" "login" 2 300 402 (run login_window calls [])).0 ≡ true
unfolding is_rate_limited run step record_attempt select get_or put
limited_by_two = refl

not_limited_by_three :
    (is_rate_limited "10.0.0.7" "login" 3 300 402 (run login_window calls [])).0 ≡ false
unfolding is_rate_limited run step record_attempt select get_or put
not_limited_by_three = refl

is_rate_limited_exact_example :
    (is_rate_limited "10.0.0.7" "login" 3 300 402 (run login_window calls [])).0
    ≡ leb 3 (count (is_fresh 300 402) (failures ("10.0.0.7", "login") [] calls))
is_rate_limited_exact_example =
    is_rate_limited_exact login_window "10.0.0.7" "login" calls 3 402 (omega arith)

spoofed : get_client_ip (some "1.2.3.4, , 5.6.7.8,  192.168.1.9") none ≡ "192.168.1.9"
unfolding get_client_ip strip split_on select
spoofed = refl
