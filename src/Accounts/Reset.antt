-- ===== src/Accounts/Reset.antt =====
-- The recovery of a forgotten login (src/api/server.py: recovery_request, recovery_reset).
use net_lanvas.Base.{ℕ, String, none, some, Bool, false, not, ltb, ◌&&◌, if◌then◌else◌, eq_String}
use net_lanvas.Base.Text.{strip, len, is_blank}
use net_lanvas.RateLimit.{record_attempt, clear_attempts}
use net_lanvas.Auth.{ConfigDb, ok, raise, credentials_exist, revoke_all_sessions_for_user}
use net_lanvas.Auth.Credentials.{
  store_recovery_token, verify_recovery_token, clear_recovery_token, reset_credentials,
  get_sole_user_id,
}
use net_lanvas.ApiTokens.{revoke_all_api_tokens}
use net_lanvas.Accounts.{
  Site, Context, Reply, success, recovery, refused, crashed, ip_of, limited, with_attempts,
  count_failure, window_15_minutes, recovery_request_max_attempts, recovery_reset_max_attempts,
}

-- _request_is_loopback: the peer of the socket, whatever the headers say
unfoldable pub request_is_loopback : Context → Bool
request_is_loopback c = elim c.client [
  | none ↦ false
  | some host ↦
      if is_blank host
      then false
      else elim (c.is_loopback host) [ none ↦ false | some answer ↦ answer ]
]

unfoldable pub issue_recovery : Context → Site → Reply × Site
issue_recovery c site = if not (credentials_exist site.db) then (refused 404, site) else (
  recovery (if c.is_native && request_is_loopback c then some c.token else none),
  record site {
    db = store_recovery_token c.hasher c.salt c.token c.now site.db;
    recovery_file = some c.token;
  },
)

-- every request counts as an attempt
abbrev pub counted : Context → Site → Site
counted c site =
    with_attempts
      (record_attempt (ip_of c) "recovery_request" window_15_minutes c.monotonic site.attempts) site

abbrev pub count_and_issue : Context → Site → Reply × Site
count_and_issue c site = issue_recovery c (counted c site)

unfoldable pub recovery_request : Context → Site → Reply × Site
recovery_request c site =
    limited c "recovery_request" recovery_request_max_attempts (count_and_issue c) site

pub record RecoveryResetRequest : Type 0 where
  pub recovery_token : String
  pub new_username : String
  pub new_password : String

abbrev pub forget_credentials : Context → ℕ → Site → ConfigDb → Site
forget_credentials c user_id site db = record site {
  db = clear_recovery_token (revoke_all_api_tokens (revoke_all_sessions_for_user user_id db)).1;
  recovery_file = none;
  attempts = clear_attempts (ip_of c) "recovery_reset" site.attempts;
}

-- the rest of the route once the recovery token is right
unfoldable pub reset_account : Context → RecoveryResetRequest → Site → Reply × Site
reset_account c req site =
    let new_username = strip req.new_username in
    if is_blank new_username
    then (refused 400, site)
    else if ltb (len req.new_password) 8
    then (refused 400, site)
    else elim (get_sole_user_id site.db) [
      | none ↦ (refused 404, site)
      | some user_id ↦
          elim (reset_credentials c.hasher c.salt user_id new_username req.new_password site.db) [
            | raise ↦ (crashed, site)
            | ok db ↦ (success, forget_credentials c user_id site db)
          ]
    ]

unfoldable pub try_recovery_token : Context → RecoveryResetRequest → Site → Reply × Site
try_recovery_token c req site = elim (verify_recovery_token c.hasher req.recovery_token site.db) [
  | raise ↦ (crashed, site)
  | ok correct ↦
      if correct then reset_account c req site else count_failure c "recovery_reset" 403 site
]

unfoldable pub recovery_reset : Context → RecoveryResetRequest → Site → Reply × Site
recovery_reset c req site =
    limited c "recovery_reset" recovery_reset_max_attempts (try_recovery_token c req) site
