-- ===== src/Dispatch.antt =====
-- Delivery of alerts by email and webhook (src/engine/alert_dispatcher.py). The outside world
-- is a function that says of each request whether it succeeds: the program turns every exception
-- of a delivery into False. Each function returns its result beside the requests that it made.
mod Tests
pub mod Duties
pub mod Retry
pub mod Gates
use Prim.Native.Char.{code, Char}
use net_lanvas.Base.{
  ℕ, String, Option, none, some, List, [], ◌∷◌, ◌++◌, Bool, true, false, not, ◌&&◌, ◌||◌, nat_eq,
  leb, take, is_some, if◌then◌else◌, ◌==◌, eq_String,
}
use net_lanvas.Base.Table.{select, update}
use net_lanvas.Base.Dict.{Dict, get_or}
use net_lanvas.Base.Text.{append, is_blank}
use net_lanvas.Net.{Net, Alert}
use net_lanvas.Alerting.{severity_meets_threshold}

pub record NtfyBody : Type 0 where
  pub topic : String
  pub message : String
  pub title : String
  pub priority : ℕ
  pub tag : String

pub record Mail : Type 0 where
  pub subject : String
  pub sender : String
  pub recipient : String
  pub text : String
  pub host : String
  pub port : ℕ
  pub use_tls : Bool
  -- the login, where there is one
  pub login : Option (String × String)

pub data Request : Type 0 where
  webhook : (url : String) (alert : Alert) (public_key : Option String) → Request
  ntfy : (url : String) (body : NtfyBody) (alert : Alert) → Request
  smtp : Mail → (alert : Alert) → Request
  relay : (device_uuid : String) (alert : Alert) → Request

abbrev pub World : Type 0
World = Request → Bool

abbrev pub Sending : Type 0
Sending = Bool × List Request

-- alerting_config; a text column that is NULL is blank here, since the code only tests its truth
pub record Config : Type 0 where
  pub email_enabled : Bool
  pub email_delivery_method : String
  pub email_min_severity : String
  pub email_to_address : String
  pub smtp_host : String
  pub smtp_port : ℕ
  pub smtp_username : String
  pub smtp_password : String
  pub smtp_use_tls : Bool
  pub smtp_from_address : String
  pub webhook_enabled : Bool
  pub webhook_url : String
  pub webhook_min_severity : String
  pub webhook_format : String

-- a or b
abbrev or_else : String → String → String
or_else String.[] b = b
or_else (String.◌∷◌ c s) b = String.◌∷◌ c s

abbrev text_or : Option String → String → String
text_or none b = b
text_or (some a) b = or_else a b

abbrev has_slash : String → Bool
has_slash String.[] = false
has_slash (String.◌∷◌ c s) = nat_eq (code c) b'/' || has_slash s

-- the last separator is further on, is this character, or neither
abbrev pick_last : Bool → Bool → String → String × String → Char → String × String
pick_last true _ s (head, tail) c = (String.◌∷◌ c head, tail)
pick_last false true s (head, tail) c = ("", s)
pick_last false false s (head, tail) c = ("", String.◌∷◌ c s)

-- url.rpartition("/"), without the separator
pub rpartition : String → String × String
rpartition String.[] = ("", "")
rpartition (String.◌∷◌ c s) = pick_last (has_slash s) (nat_eq (code c) b'/') s (rpartition s) c

abbrev ntfy_severity_priority : Dict String ℕ
ntfy_severity_priority =
    ("critical", 5) ∷ ("high", 4) ∷ ("medium", 3) ∷ ("low", 2) ∷ ("info", 1) ∷ []

abbrev ntfy_severity_tags : Dict String String
ntfy_severity_tags =
    ("critical", "rotating_light")
    ∷ ("high", "warning")
    ∷ ("medium", "large_orange_diamond")
    ∷ ("low", "information_source")
    ∷ ("info", "information_source")
    ∷ []

module _ (world : World) where
  abbrev post : Request → Sending
  post request = (world request, request ∷ [])

  send_webhook : String → Alert → Option String → Sending
  send_webhook url alert public_key = post (webhook url alert public_key)

  pub ntfy_body : String → Alert → NtfyBody
  ntfy_body topic alert = record {
    topic = topic;
    message = text_or alert.detail alert.title;
    title = alert.title;
    priority = get_or alert.severity 3 ntfy_severity_priority;
    tag =
        if alert.is_resolution
        then "white_check_mark"
        else get_or alert.severity "information_source" ntfy_severity_tags;
  }

  send_webhook_ntfy : String → Alert → Sending
  unfolding rpartition ntfy_body
  send_webhook_ntfy url alert =
      let (server_root, topic) = rpartition url in
      if is_blank server_root || is_blank topic
      then (false, [])
      else post (ntfy (append server_root "/") (ntfy_body topic alert) alert)

  pub smtp_mail : Config → Alert → Mail
  smtp_mail cfg alert = record {
    subject = append "[NetLanvas] " alert.title;
    sender = or_else cfg.smtp_from_address (or_else cfg.smtp_username "netlanvas@localhost");
    recipient = cfg.email_to_address;
    text = text_or alert.detail alert.title;
    host = cfg.smtp_host;
    port = if nat_eq cfg.smtp_port 0 then 587 else cfg.smtp_port;
    use_tls = cfg.smtp_use_tls;
    login =
        if not (is_blank cfg.smtp_username) && not (is_blank cfg.smtp_password)
        then some (cfg.smtp_username, cfg.smtp_password)
        else none;
  }

  send_email_smtp : Config → Alert → Sending
  unfolding smtp_mail
  send_email_smtp cfg alert =
      if is_blank cfg.smtp_host || is_blank cfg.email_to_address
      then (false, [])
      else post (smtp (smtp_mail cfg alert) alert)

  send_email_relay : String → Alert → Sending
  send_email_relay device_uuid alert = post (relay device_uuid alert)

-- What `dispatch_pending_alerts` reads from config.db beside the configuration itself.
pub record Account : Type 0 where
  pub device_uuid : Option String
  pub is_registered : Bool
  pub public_key : Option String
  pub is_entitled : Bool

abbrev settled : Sending
settled = (true, [])

abbrev pub by_id : Alert → Alert → Bool
by_id alert row = nat_eq row.id alert.id

abbrev pub mark_email : ℕ → Alert → Bool → List Alert → List Alert
mark_email now alert sent rows =
    if sent
    then update (by_id alert) (λ row. record row { email_dispatched_at = some now }) rows
    else rows

abbrev pub mark_hook : ℕ → Alert → Bool → List Alert → List Alert
mark_hook now alert sent rows =
    if sent
    then update (by_id alert) (λ row. record row { webhook_dispatched_at = some now }) rows
    else rows

-- a channel that is done already is left alone
abbrev pub unless_done : Option ℕ → Sending → Sending
unless_done none sending = sending
unless_done (some at) sending = (false, [])

module _ (world : World) (cfg : Config) (account : Account) where
  abbrev relay_if_registered : Alert → Option String → Sending
  relay_if_registered alert none = settled
  relay_if_registered alert (some device_uuid) =
      if not (is_blank device_uuid) && account.is_registered
      then send_email_relay world device_uuid alert
      else settled

  -- the `if should_send` of the email part
  unfoldable pub email : Alert → Sending
  unfolding send_email_relay send_email_smtp
  email alert =
      if cfg.email_enabled && severity_meets_threshold alert.severity cfg.email_min_severity
      then (if cfg.email_delivery_method == "relay"
          then relay_if_registered alert account.device_uuid
          else send_email_smtp world cfg alert)
      else settled

  -- the part about webhooks; an alert that is not to be sent is settled
  unfoldable pub hook : Alert → Sending
  unfolding send_webhook send_webhook_ntfy
  hook alert =
      if cfg.webhook_enabled
        && not (is_blank cfg.webhook_url)
        && severity_meets_threshold alert.severity cfg.webhook_min_severity
        && account.is_entitled
      then (if cfg.webhook_format == "ntfy"
          then send_webhook_ntfy world cfg.webhook_url alert
          else send_webhook world cfg.webhook_url alert account.public_key)
      else settled

  -- the body of the loop
  unfoldable pub dispatch_alert : ℕ → Alert → List Alert → List Alert × List Request
  unfolding email hook update
  dispatch_alert now alert rows =
      let (emailed, mails) = unless_done alert.email_dispatched_at (email alert) in
      let (hooked, posts) = unless_done alert.webhook_dispatched_at (hook alert) in
      (mark_hook now alert hooked (mark_email now alert emailed rows), mails ++ posts)

  unfoldable pub dispatch_all : ℕ → List Alert → List Alert → List Alert × List Request
  dispatch_all now [] rows = (rows, [])
  dispatch_all now (alert ∷ pending) rows =
      let (rows', sent) = dispatch_alert now alert rows in
      let (rows'', more) = dispatch_all now pending rows' in (rows'', sent ++ more)

-- WHERE email_dispatched_at IS NULL OR webhook_dispatched_at IS NULL
abbrev pub is_pending : Alert → Bool
is_pending alert =
    not (is_some alert.email_dispatched_at) || not (is_some alert.webhook_dispatched_at)

insert_by_age : Alert → List Alert → List Alert
insert_by_age a [] = a ∷ []
insert_by_age a (b ∷ rows) =
    let rest = insert_by_age a rows in
    if leb a.created_at b.created_at then a ∷ b ∷ rows else b ∷ rest

-- ORDER BY created_at ASC; rows of one second keep their order
unfoldable pub by_age : List Alert → List Alert
unfolding insert_by_age
by_age [] = []
by_age (a ∷ rows) = insert_by_age a (by_age rows)

abbrev pub dispatch_batch_limit : ℕ
dispatch_batch_limit = 20

-- One cycle. With no configuration row nothing is delivered.
unfoldable pub dispatch_pending_alerts :
    World → Option Config → Account → ℕ → List Alert → List Alert × List Request
unfolding dispatch_all by_age select
dispatch_pending_alerts world none account now rows = (rows, [])
dispatch_pending_alerts world (some cfg) account now rows =
    dispatch_all world cfg account now (take dispatch_batch_limit (by_age (select is_pending rows)))
      rows
