-- ===== src/Dispatch/Retry.antt =====
-- What a cycle of the dispatcher leaves in the inbox.
use mathlib.Core.Option
use net_lanvas.Base.{
  All-take, leb, ℕ, Option, none, some, List, [], ◌∷◌, Bool, true, ◌≡◌, ◌⊎◌, inl, inr, refl, arith,
  eq_ℕ, nat_eq, nat_eq_iff, All, any, take, if◌then◌else◌, Bool-cases, ap,
}
use net_lanvas.Base.Table.{select, All-select}
use net_lanvas.Base.Keyed.{find_key, update_key, find_key-update_key, IsPrimary, IsPrimary-unique}
use net_lanvas.Net.{Alert}
use net_lanvas.Dispatch.Duties.{is_met, email_duty, hook_duty, email-is_met, hook-is_met}
use net_lanvas.Dispatch.{
  World, Config, Account, email, hook, unless_done, mark_email, mark_hook, dispatch_alert,
  dispatch_all, dispatch_pending_alerts, dispatch_batch_limit, by_age, insert_by_age, is_pending,
}

abbrev pub alert_id : Alert → ℕ
alert_id a = a.id

abbrev pub find_alert : ℕ → List Alert → Option Alert
find_alert i rows = find_key alert_id i rows

-- The alerts that one cycle handles.
abbrev pub batch : List Alert → List Alert
batch rows = take dispatch_batch_limit (by_age (select is_pending rows))

module _ (P : Alert → Type 0) where
  All-insert_by_age :
      (a : Alert) (rows : List Alert) → P a → All P rows → All P (insert_by_age a rows)
  unfolding insert_by_age
  All-insert_by_age a [] p h = (p, tt)
  All-insert_by_age a (b ∷ rows) p h = elim (Bool-cases (leb a.created_at b.created_at)) [
    | inl e ↦ rw e (p, h)
    | inr e ↦ rw e (h.0, All-insert_by_age a rows p h.1)
  ]

  All-by_age : (rows : List Alert) → All P rows → All P (by_age rows)
  unfolding by_age
  All-by_age [] h = tt
  All-by_age (a ∷ rows) h = All-insert_by_age a (by_age rows) h.0 (All-by_age rows h.1)

  All-batch : (rows : List Alert) → All P rows → All P (batch rows)
  All-batch rows h =
      All-take P dispatch_batch_limit _ (All-by_age _ (All-select P is_pending rows h))

-- a channel's time after the cycle
abbrev pub marked : Bool → ℕ → Option ℕ → Option ℕ
marked is_settled now none = if is_settled then some now else none
marked is_settled now (some at) = some at

mark : Bool → ℕ → Option ℕ → Option ℕ
mark sent now old = if sent then some now else old

abbrev set_email : Bool → ℕ → Alert → Alert
set_email sent now r = record r { email_dispatched_at = mark sent now r.email_dispatched_at }

abbrev set_hook : Bool → ℕ → Alert → Alert
set_hook sent now r = record r { webhook_dispatched_at = mark sent now r.webhook_dispatched_at }

module _ (now i : ℕ) (a : Alert) (sent : Bool) (rows : List Alert) where
  find-mark_email : find_alert i (mark_email now a sent rows) ≡ (
      if nat_eq a.id i
      then Option.map (set_email sent now) (find_alert i rows)
      else find_alert i rows)
  unfolding mark update_key
  find-mark_email =
      ground (arith, find_key-update_key alert_id i a.id (set_email true now) rows (λ x. refl))

  find-mark_hook : find_alert i (mark_hook now a sent rows) ≡ (
      if nat_eq a.id i
      then Option.map (set_hook sent now) (find_alert i rows)
      else find_alert i rows)
  unfolding mark update_key
  find-mark_hook =
      ground (arith, find_key-update_key alert_id i a.id (set_hook true now) rows (λ x. refl))

module _ (world : World) (cfg : Config) (account : Account) (now : ℕ) where
  abbrev emailed : Alert → Bool
  emailed a = (unless_done a.email_dispatched_at (email world cfg account a)).0

  abbrev hooked : Alert → Bool
  hooked a = (unless_done a.webhook_dispatched_at (hook world cfg account a)).0

  settle : Alert → Alert
  settle a = set_hook (hooked a) now (set_email (emailed a) now a)

  -- The row that an alert of the batch becomes: a channel that was open is settled exactly when
  -- what it owes is delivered, or is nothing, and stays open for the next cycle otherwise.
  pub outcome : Alert → Alert
  outcome a = record a {
    email_dispatched_at =
        marked (is_met world (email_duty world cfg account a)) now a.email_dispatched_at;
    webhook_dispatched_at =
        marked (is_met world (hook_duty world cfg account a)) now a.webhook_dispatched_at;
  }

  settle-outcome : (a : Alert) → settle a ≡ outcome a
  unfolding settle outcome mark
  settle-outcome a =
      ground (arith, email-is_met world cfg account a, hook-is_met world cfg account a)

  find-dispatch_alert :
      (i : ℕ) (a : Alert) (rows : List Alert)
      → find_alert i (dispatch_alert world cfg account now a rows).0 ≡ (
          if nat_eq a.id i
          then Option.map
              (λ r. set_hook (hooked a) now (set_email (emailed a) now r))
              (find_alert i rows)
          else find_alert i rows)
  unfolding dispatch_alert
  find-dispatch_alert i a rows = ground (
    arith,
    find-mark_hook now i a (hooked a) (mark_email now a (emailed a) rows),
    find-mark_email now i a (emailed a) rows,
  )

  settle_again :
      (r : Alert) → set_hook (hooked r) now (set_email (emailed r) now (settle r)) ≡ settle r
  unfolding settle mark
  settle_again r = ground arith

  module _ (i : ℕ) (r : Alert) where
    abbrev Handled : Option Alert → List Alert → Option Alert → Type 0
    Handled before pending after =
        after ≡ (if any (λ a. nat_eq a.id i) pending then some (settle r) else before)

    find-dispatch_same :
        (a : Alert) (rows : List Alert)
        → a ≡ r
        → nat_eq a.id i ≡ true
        → (find_alert i rows ≡ some r) ⊎ (find_alert i rows ≡ some (settle r))
        → find_alert i (dispatch_alert world cfg account now a rows).0 ≡ some (settle r)
    unfolding settle
    find-dispatch_same a rows is_r same (inl found) =
        rw (find-dispatch_alert i a rows, same, found, is_r)
    find-dispatch_same a rows is_r same (inr found) =
        rw (find-dispatch_alert i a rows, same, found, is_r) (ap some (settle_again r))

    find-dispatch_all :
        (pending rows : List Alert)
        → All (λ a. a.id ≡ i → a ≡ r) pending
        → (find_alert i rows ≡ some r) ⊎ (find_alert i rows ≡ some (settle r))
        → Handled
            (find_alert i rows)
            pending
            (find_alert i (dispatch_all world cfg account now pending rows).0)
    unfolding dispatch_all
    find-dispatch_all [] rows only found = refl
    find-dispatch_all (a ∷ pending) rows only found =
        let rows' = (dispatch_alert world cfg account now a rows).0 in
        elim (Bool-cases (nat_eq a.id i)) [
          | inl same ↦
              let is_r : a ≡ r = only.0 ((nat_eq_iff a.id i).0 same) in
              let now_settled : find_alert i rows' ≡ some (settle r) =
                find-dispatch_same a rows is_r same found in
              ground (arith, find-dispatch_all pending rows' only.1 (inr now_settled))
          | inr other ↦
              let unmoved : find_alert i rows' ≡ find_alert i rows =
                rw (find-dispatch_alert i a rows, other) in
              rw other (rw unmoved at (find-dispatch_all pending rows' only.1 (rw unmoved found)))
        ]

    -- One cycle with a stored configuration, seen from the inbox row `r` with the id `i`, in an
    -- inbox keyed by id. If the cycle's batch has that id, each channel of the row that was open
    -- is settled now where the channel owes the alert nothing or the outside world delivers the
    -- request that it owes, and stays open where the request fails or cannot be made, so that the
    -- next cycle tries again; otherwise the row is unchanged. Nothing is owed where the channel is
    -- off or the alert below its threshold, nor to an account that is not entitled (webhooks) or
    -- a device that is not registered (relayed mail).
    pub dispatch_pending_alerts_row :
        (rows : List Alert)
        → IsPrimary alert_id rows
        → find_alert i rows ≡ some r
        → find_alert i (dispatch_pending_alerts world (some cfg) account now rows).0
          ≡ some (if any (λ a. nat_eq a.id i) (batch rows) then outcome r else r)
    unfolding dispatch_pending_alerts
    dispatch_pending_alerts_row rows primary found = ground (
      arith,
      settle-outcome r,
      find-dispatch_all (batch rows) rows
          (All-batch (λ a. a.id ≡ i → a ≡ r) rows (IsPrimary-unique alert_id i rows primary found))
          (inl found),
    )
