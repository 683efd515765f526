-- ===== src/Billing/Webhook.antt =====
-- aci/server/routes/webhooks.py: how a RevenueCat event changes a user, and the handler around it.
pub mod Laws
pub mod Handler
pub mod Audit
mod Tests
use autom.Prelude.{
  ℕ, ◌/◌, String, Bool, true, false, not, ◌&&◌, ◌||◌, Option, none, some, ◌==◌, ltb, eqb,
  if◌then◌else◌,
}
use autom.Prelude.Result.{Exception, Result, ok, err}
use autom.Prelude.Table.{Table}
use autom.Prelude.Text.{lower, is_text, is_truthy}
use autom.Billing.{
  SubscriptionStatus, active, trialing, cancelled, unpaid, expired, Time, SupabaseUser,
}

-- The fields of RevenueCatEvent that the code reads.
pub record RevenueCatEvent : Type 0 where
  pub app_user_id : String
  pub type : String
  pub product_id : Option String
  pub period_type : Option String
  pub purchased_at_ms : ℕ
  pub expiration_date_ms : Option ℕ

abbrev ms_per_day : ℕ
ms_per_day = 86400000

-- `_ms_to_datetime`: None stays None, and a time is kept in milliseconds.
abbrev ms_to_datetime : Option ℕ → Option Time
ms_to_datetime ms = ms

-- `stored and event and event < stored`
unfoldable pub is_stale : Option Time → Option Time → Bool
is_stale (some stored) (some event) = ltb event stored
is_stale _ none = false
is_stale none _ = false

-- `stored and event and stored.date() != event.date()`
pub other_day : Option Time → Option Time → Bool
other_day (some stored) (some event) = not (eqb (stored / ms_per_day) (event / ms_per_day))
other_day _ none = false
other_day none _ = false

-- `if period_type: period_type = period_type.lower()`
lowered : Option String → Option String
lowered none = none
lowered (some s) = if is_truthy s then some (lower s) else some s

abbrev is_expired : Option SubscriptionStatus → Bool
is_expired (some expired) = true
is_expired _ = false

-- The branches on the type of the event, in the order of the tests. `unhandled` also takes
-- "subscription_paused", which only writes to the log.
pub data Kind : Type 0 where
  granting cancellation billing_issue expiration unhandled : Kind

unfoldable pub kind_of : String → Kind
kind_of t =
    if t == "initial_purchase" || t == "renewal" || t == "uncancel" || t == "product_change"
    then granting
    else if t == "cancellation"
    then cancellation
    else if t == "billing_issue"
    then billing_issue
    else if t == "expiration"
    then expiration
    else unhandled

-- `event_type` after `if event_type: event_type = event_type.lower()`, classified.
unfoldable pub event_kind : RevenueCatEvent → Kind
unfolding kind_of
event_kind event = kind_of (if is_truthy event.type then lower event.type else event.type)

-- `period_type == "trial"`, after it was lowered
pub is_trial_period : RevenueCatEvent → Bool
unfolding lowered
is_trial_period event = is_text (lowered event.period_type) "trial"

-- The assignments of the branch of the events that grant access.
unfoldable pub grant : Bool → RevenueCatEvent → SupabaseUser → SupabaseUser
grant trial event user =
    let expires_at = ms_to_datetime event.expiration_date_ms in
    record user {
      subscription_status = if trial then some trialing else some active;
      is_trial = trial;
      trial_ends_at = if trial then expires_at else none;
      subscription_product_id = event.product_id;
      subscription_expires_at = expires_at;
      subscription_period_starts_at = some event.purchased_at_ms;
    }

-- The branches of `_process_revenuecat_event`: the user to commit, or none where it returns early.
unfoldable pub apply_kind : Kind → RevenueCatEvent → SupabaseUser → Option SupabaseUser
unfolding is_stale other_day grant
apply_kind granting event user =
    if is_stale user.subscription_expires_at (ms_to_datetime event.expiration_date_ms)
    then none
    else some (grant (is_trial_period event) event user)
apply_kind cancellation event user =
    if is_expired user.subscription_status
    then some user
    else some (record user { subscription_status = some cancelled })
apply_kind billing_issue event user = some (record user { subscription_status = some unpaid })
apply_kind expiration event user =
    if other_day user.subscription_expires_at (ms_to_datetime event.expiration_date_ms)
    then none
    else some (record user { subscription_status = some expired; is_trial = false })
apply_kind unhandled event user = some user

unfoldable pub apply_event : RevenueCatEvent → SupabaseUser → Option SupabaseUser
apply_event event user = apply_kind (event_kind event) event user

module _ (users : Table SupabaseUser) where
  -- The `try` at the end: the commit raises `commit_error` and is rolled back, or stores the user;
  -- after it the refresh may raise `refresh_error`, and the rollback has nothing left to undo.
  commit_user :
      Option Exception
      → Option Exception
      → SupabaseUser
      → users.Rows
      → Result (Unit {0}) × users.Rows
  commit_user (some e) refresh_error user rows = (err e, rows)
  commit_user none none user rows = (ok tt, users.save user.id user rows)
  commit_user none (some e) user rows = (err e, users.save user.id user rows)

  store_change :
      Option Exception
      → Option Exception
      → Option SupabaseUser
      → users.Rows
      → Result (Unit {0}) × users.Rows
  store_change commit_error refresh_error none rows = (ok tt, rows)
  store_change commit_error refresh_error (some user) rows =
      commit_user commit_error refresh_error user rows

  process_found :
      Option Exception
      → Option Exception
      → RevenueCatEvent
      → Option SupabaseUser
      → users.Rows
      → Result (Unit {0}) × users.Rows
  process_found commit_error refresh_error event none rows = (ok tt, rows)
  process_found commit_error refresh_error event (some user) rows =
      store_change commit_error refresh_error (apply_event event user) rows

  pub process_revenuecat_event :
      Option Exception
      → Option Exception
      → RevenueCatEvent
      → users.Rows
      → Result (Unit {0}) × users.Rows
  unfolding process_found store_change commit_user
  process_revenuecat_event commit_error refresh_error event rows =
      process_found commit_error refresh_error event (users.find event.app_user_id rows) rows
