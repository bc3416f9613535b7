-- ===== src/Dispatch/Gates.antt =====
-- Which requests the dispatcher may make at all.
use net_lanvas.Base.{
  ℕ, none, some, List, [], ◌∷◌, true, ◌≡◌, arith, eq_String, All, All-append, take,
}
use net_lanvas.Base.Table.{select}
use net_lanvas.Net.{Alert}
use net_lanvas.Alerting.{severity_meets_threshold}
use net_lanvas.Dispatch.{
  World, Config, Account, Request, webhook, ntfy, smtp, relay, email, hook, unless_done,
  dispatch_alert, dispatch_all, dispatch_pending_alerts, dispatch_batch_limit, by_age, is_pending,
}

module _ (cfg : Config) (account : Account) where
  -- an alert for which the email channel is on, and not done
  pub record WantsEmail (alert : Alert) : Type 0 where
    pub enabled : cfg.email_enabled ≡ true
    pub severe : severity_meets_threshold alert.severity cfg.email_min_severity ≡ true
    pub unsent : alert.email_dispatched_at ≡ none

  -- an alert for which the webhook channel is on, paid for, and not done
  pub record WantsWebhook (alert : Alert) : Type 0 where
    pub enabled : cfg.webhook_enabled ≡ true
    pub entitled : account.is_entitled ≡ true
    pub severe : severity_meets_threshold alert.severity cfg.webhook_min_severity ≡ true
    pub unsent : alert.webhook_dispatched_at ≡ none

  abbrev pub IsAllowed : Request → Type 0
  IsAllowed (webhook url alert key) = WantsWebhook alert
  IsAllowed (ntfy url body alert) = WantsWebhook alert
  IsAllowed (smtp mail alert) = WantsEmail alert
  IsAllowed (relay device_uuid alert) = WantsEmail alert × (account.is_registered ≡ true)

  module _ (world : World) where
    email-IsAllowed :
        (alert : Alert)
        → All IsAllowed (unless_done alert.email_dispatched_at (email world cfg account alert)).1
    unfolding email
    email-IsAllowed alert = ground arith

    hook-IsAllowed :
        (alert : Alert)
        → All IsAllowed (unless_done alert.webhook_dispatched_at (hook world cfg account alert)).1
    unfolding hook
    hook-IsAllowed alert = ground arith

    dispatch_all-IsAllowed :
        (now : ℕ) (pending rows : List Alert)
        → All IsAllowed (dispatch_all world cfg account now pending rows).1
    unfolding dispatch_all dispatch_alert
    dispatch_all-IsAllowed now [] rows = tt
    dispatch_all-IsAllowed now (alert ∷ pending) rows =
        let rows' = (dispatch_alert world cfg account now alert rows).0 in
        All-append IsAllowed _ _
          (All-append IsAllowed _ _ (email-IsAllowed alert) (hook-IsAllowed alert))
          (dispatch_all-IsAllowed now pending rows')

    -- With a stored configuration, every request of a cycle is one that the configuration and the
    -- account allow. A webhook or ntfy request is made only for an entitled account, a relayed
    -- mail only for a registered device, and each only where its channel is enabled, the alert
    -- meets the channel's threshold, and the channel was not settled for that alert before.
    pub dispatch_pending_alerts-IsAllowed :
        (now : ℕ) (rows : List Alert)
        → All IsAllowed (dispatch_pending_alerts world (some cfg) account now rows).1
    unfolding dispatch_pending_alerts
    dispatch_pending_alerts-IsAllowed now rows =
        dispatch_all-IsAllowed now (take dispatch_batch_limit (by_age (select is_pending rows)))
          rows
