-- ===== src/Alerting/Tests.antt =====
-- Runs of the inbox's primitives.
use net_lanvas.Base.{true, false, ◌≡◌, refl}
use net_lanvas.Base.Dict.{get, get_or}
use net_lanvas.Alerting.{severity_meets_threshold}

high_meets_medium : severity_meets_threshold "high" "medium" ≡ true
unfolding severity_meets_threshold get get_or
high_meets_medium = refl

medium_meets_low : severity_meets_threshold "medium" "low" ≡ true
unfolding severity_meets_threshold get get_or
medium_meets_low = refl

typo_meets_nothing : severity_meets_threshold "hihg" "info" ≡ false
unfolding severity_meets_threshold get get_or
typo_meets_nothing = refl
