-- ===== src/Registration/Tests.antt =====
-- A registration.
use net_lanvas.Base.{none, true, false, ◌≡◌}
use net_lanvas.Auth.{ok, ◌>>=◌}
use net_lanvas.Auth.Tests.{marker, marker-Verifies}
use net_lanvas.Registration.{generate_state_token, verify_and_consume_state_token}
use net_lanvas.Registration.Once.{verify_and_consume_state_token_once}

verify_and_consume_state_token_once_example :
    (verify_and_consume_state_token marker
        (generate_state_token marker 1 "state" 100 none).0
        700
        (generate_state_token marker 1 "state" 100 none).1
      ≡ ok (true, none))
    × ((verify_and_consume_state_token marker
            (generate_state_token marker 1 "state" 100 none).0
            700
            (generate_state_token marker 1 "state" 100 none).1
          >>= (λ first. verify_and_consume_state_token marker "state" 701 first.1))
        ≡ ok (false, none))
verify_and_consume_state_token_once_example =
    verify_and_consume_state_token_once marker 1 "state" "state" 100 700 701 none marker-Verifies
