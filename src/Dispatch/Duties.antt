-- ===== src/Dispatch/Duties.antt =====
-- What each channel owes for an alert, said apart from the code that sends
-- (src/engine/alert_dispatcher.py).
use net_lanvas.Base.{
  String, Option, none, some, Bool, true, false, not, ◌&&◌, ◌||◌, if◌then◌else◌, eq_String, ◌==◌,
  ◌≡◌, arith,
}
use net_lanvas.Base.Text.{append, is_blank}
use net_lanvas.Net.{Alert}
use net_lanvas.Alerting.{severity_meets_threshold}
use net_lanvas.Dispatch.{
  World, Config, Account, Request, webhook, ntfy, smtp, relay, smtp_mail, ntfy_body, rpartition,
  email, hook, send_email_smtp, send_email_relay, send_webhook, send_webhook_ntfy,
}

-- A channel owes an alert nothing, or this request, or one that it cannot make.
pub data Duty : Type 0 where
  nothing impossible : Duty
  deliver : Request → Duty

-- Only the outside world says whether a request was delivered.
abbrev pub is_met : World → Duty → Bool
is_met world nothing = true
is_met world impossible = false
is_met world (deliver request) = world request

module _ (world : World) (cfg : Config) (account : Account) where
  abbrev pub is_mail_wanted : Alert → Bool
  is_mail_wanted a = cfg.email_enabled && severity_meets_threshold a.severity cfg.email_min_severity

  -- a relay needs a registered device
  abbrev pub relay_duty : Alert → Option String → Duty
  relay_duty a none = nothing
  relay_duty a (some device_uuid) =
      if is_blank device_uuid || not account.is_registered
      then nothing
      else deliver (relay device_uuid a)

  -- a mail server of one's own needs a host and an address
  abbrev pub smtp_duty : Alert → Duty
  smtp_duty a =
      if is_blank cfg.smtp_host || is_blank cfg.email_to_address
      then impossible
      else deliver (smtp (smtp_mail world cfg a) a)

  abbrev pub email_duty : Alert → Duty
  email_duty a =
      if not (is_mail_wanted a)
      then nothing
      else if cfg.email_delivery_method == "relay"
      then relay_duty a account.device_uuid
      else smtp_duty a

  abbrev pub is_hook_wanted : Alert → Bool
  is_hook_wanted a =
      cfg.webhook_enabled
      && not (is_blank cfg.webhook_url)
      && account.is_entitled
      && severity_meets_threshold a.severity cfg.webhook_min_severity

  -- ntfy needs a server and a topic, on the two sides of the last slash
  abbrev pub ntfy_duty : Alert → Duty
  ntfy_duty a =
      if is_blank (rpartition cfg.webhook_url).0 || is_blank (rpartition cfg.webhook_url).1
      then impossible
      else deliver (
          ntfy (append (rpartition cfg.webhook_url).0 "/")
            (ntfy_body world (rpartition cfg.webhook_url).1 a) a)

  abbrev pub hook_duty : Alert → Duty
  hook_duty a =
      if not (is_hook_wanted a)
      then nothing
      else if cfg.webhook_format == "ntfy"
      then ntfy_duty a
      else deliver (webhook cfg.webhook_url a account.public_key)

  pub email-is_met : (a : Alert) → (email world cfg account a).0 ≡ is_met world (email_duty a)
  unfolding email send_email_smtp send_email_relay
  email-is_met a = ground arith

  pub hook-is_met : (a : Alert) → (hook world cfg account a).0 ≡ is_met world (hook_duty a)
  unfolding hook send_webhook send_webhook_ntfy
  hook-is_met a = ground arith
