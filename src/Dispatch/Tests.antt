-- ===== src/Dispatch/Tests.antt =====
-- A cycle over three alerts while the webhook's receiver is down.
use net_lanvas.Base.{
  ℕ, String, none, some, List, [], ◌∷◌, true, false, ◌≡◌, refl, All, nat_eq, any, if◌then◌else◌,
}
use net_lanvas.Base.Dict.{get, get_or}
use net_lanvas.Base.Keyed.{find_key}
use net_lanvas.Net.{Alert}
use net_lanvas.Alerting.{severity_meets_threshold}
use net_lanvas.Dispatch.{
  World, Config, Account, webhook, ntfy, dispatch_alert, dispatch_all, dispatch_pending_alerts,
}
use net_lanvas.Dispatch.Gates.{IsAllowed, dispatch_pending_alerts-IsAllowed}
use net_lanvas.Dispatch.Retry.{find_alert, batch, outcome, dispatch_pending_alerts_row}

abbrev alert : ℕ → String → ℕ → Alert
alert id severity at = record {
  id = id;
  alert_type = "device_offline";
  severity = severity;
  mac_address = some "00:11:22:33:44:55";
  title = "nas went offline";
  detail = none;
  is_resolution = false;
  created_at = at;
  email_dispatched_at = none;
  webhook_dispatched_at = none;
}

abbrev cfg : Config
cfg = record {
  email_enabled = true;
  email_delivery_method = "smtp";
  email_min_severity = "medium";
  email_to_address = "me@example.org";
  smtp_host = "mail.example.org";
  smtp_port = 0;
  smtp_username = "";
  smtp_password = "";
  smtp_use_tls = true;
  smtp_from_address = "";
  webhook_enabled = true;
  webhook_url = "https://ntfy.example.org/topic";
  webhook_min_severity = "high";
  webhook_format = "ntfy";
}

abbrev account : Account
account = record {
  device_uuid = none;
  is_registered = false;
  public_key = none;
  is_entitled = true;
}

abbrev receiver_down : World
receiver_down (webhook url a key) = false
receiver_down (ntfy url body a) = false
receiver_down _ = true

abbrev inbox : List Alert
inbox = alert 1 "critical" 30 ∷ alert 2 "low" 10 ∷ alert 3 "medium" 20 ∷ []

-- The critical alert is mailed, and its failed webhook stays open; the low one is settled unsent.
first_is_half_done :
    find_alert 1 (dispatch_pending_alerts receiver_down (some cfg) account 99 inbox).0
    ≡ some (record (alert 1 "critical" 30) { email_dispatched_at = some 99 })
unfolding dispatch_pending_alerts dispatch_all dispatch_alert severity_meets_threshold get get_or
    find_key
first_is_half_done = refl

dispatch_pending_alerts_row_example :
    find_alert 1 (dispatch_pending_alerts receiver_down (some cfg) account 99 inbox).0
    ≡ some (
        if any (λ a. nat_eq a.id 1) (batch inbox)
        then outcome receiver_down cfg account 99 (alert 1 "critical" 30)
        else alert 1 "critical" 30)
unfolding find_key
dispatch_pending_alerts_row_example =
    dispatch_pending_alerts_row receiver_down cfg account 99 1 (alert 1 "critical" 30) inbox
      (refl, (refl, (refl, tt))) refl

dispatch_pending_alerts-IsAllowed_example :
    All
      (IsAllowed cfg account)
      (dispatch_pending_alerts receiver_down (some cfg) account 99 inbox).1
dispatch_pending_alerts-IsAllowed_example =
    dispatch_pending_alerts-IsAllowed cfg account receiver_down 99 inbox
