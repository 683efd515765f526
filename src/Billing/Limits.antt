-- ===== src/Billing/Limits.antt =====
-- aci/server/dependencies.py: the limits of a user's plan, the check for a subscription, and the
-- dependency `UsageLimiter`.
pub mod Laws
pub mod Period
mod Tests
use autom.Prelude.{
  ℕ, String, Bool, true, false, ◌||◌, not, Option, none, some, List, leb, get_or, is_some,
  if◌then◌else◌,
}
use autom.Prelude.Result.{Exception, http, attribute_error, Result, ok, err, ◌>>=◌, ◌>>◌, raise_if}
use autom.Prelude.Text.{opt_truthy}
use autom.Billing.{SubscriptionStatus, active, trialing, Time, SupabaseUser}
use autom.Billing.Usage.{UserUsage, Totals, runs_of, minutes_of, get_usage_between_dates}

-- The TypedDicts. A key that the JSON file leaves out is none; voice minutes are whole numbers.
pub record PlanLimits : Type 0 where
  pub max_automations : Option ℕ
  pub max_automation_runs : Option ℕ
  pub max_voice_agent_minutes : Option ℕ

pub record PlanDetails : Type 0 where
  pub interval : Option String
  pub paid : Option PlanLimits
  pub trial : Option PlanLimits

-- `config.SUBSCRIPTION_PLANS`: what `_load_subscription_plans` of aci/server/config.py read from the
-- JSON file, or the list `[]` that it returns where there is no file or no valid one.
pub data Plans : Type 0 where
  loaded : (String → Option PlanDetails) → Plans
  empty_list : Plans

abbrev pub zero_limits : PlanLimits
zero_limits = record {
  max_automations = some 0;
  max_automation_runs = some 0;
  max_voice_agent_minutes = some 0;
}

abbrev pub one_automation : PlanLimits
one_automation = record zero_limits { max_automations = some 1 }

-- `status in {ACTIVE, TRIALING}`
abbrev pub is_active : Option SubscriptionStatus → Bool
is_active (some active) = true
is_active (some trialing) = true
is_active _ = false

-- `bool(limits)`: an empty dict is false.
pub limits_truthy : PlanLimits → Bool
limits_truthy l =
    is_some l.max_automations || is_some l.max_automation_runs || is_some l.max_voice_agent_minutes

plan_truthy : PlanDetails → Bool
plan_truthy p = is_some p.interval || is_some p.paid || is_some p.trial

-- From `limits_dict` on.
pub of_limits : Option PlanLimits → String → PlanLimits × String
unfolding limits_truthy
of_limits none interval = (zero_limits, "none")
of_limits (some limits) interval =
    if limits_truthy limits then (limits, interval) else (zero_limits, "none")

-- From `plan_details_raw` on.
pub of_plan : Option PlanDetails → Bool → PlanLimits × String
unfolding of_limits plan_truthy
of_plan none is_trial = (zero_limits, "none")
of_plan (some plan) is_trial =
    if plan_truthy plan
    then of_limits (if is_trial then plan.trial else plan.paid) (get_or plan.interval "month")
    else (zero_limits, "none")

-- `config.SUBSCRIPTION_PLANS.get(product_id)`: a list has no `get`.
get_plan : Plans → String → Result (Option PlanDetails)
get_plan (loaded plans) product_id = ok (plans product_id)
get_plan empty_list product_id = err attribute_error

unfoldable pub get_user_limits : Plans → SupabaseUser → Result (PlanLimits × String)
unfolding get_plan of_plan
get_user_limits plans user =
    if not (is_active user.subscription_status)
    then ok (one_automation, "none")
    else if not (opt_truthy user.subscription_product_id)
    then ok (zero_limits, "none")
    else do
      plan ← get_plan plans (get_or user.subscription_product_id "")
      ok (of_plan plan user.is_trial)

-- `_get_subscribed_context_internal`, from the row that the query found.
unfoldable pub get_subscribed_context : Option SupabaseUser → Result (Unit {0})
get_subscribed_context none = err (http 404)
get_subscribed_context (some user) = raise_if (not (is_active user.subscription_status)) (http 402)

pub data LimitType : Type 0 where
  automation_runs voice_minutes automations_total : LimitType

-- `limits.get(key, 0)`
abbrev pub limit_value : LimitType → PlanLimits → ℕ
limit_value automations_total l = get_or l.max_automations 0
limit_value automation_runs l = get_or l.max_automation_runs 0
limit_value voice_minutes l = get_or l.max_voice_agent_minutes 0

-- `if start_date and end_date:`
window_usage : String → List UserUsage → Option Time → Option Time → Option Totals
window_usage user_id rows (some start_date) (some end_date) =
    get_usage_between_dates user_id start_date end_date rows
window_usage user_id rows _ none = none
window_usage user_id rows none _ = none

-- `current_usage_stats`: None without both ends of the billing window.
unfoldable pub usage_in_period : SupabaseUser → List UserUsage → Option Totals
unfolding window_usage
usage_in_period user rows =
    window_usage user.id rows user.subscription_period_starts_at user.subscription_expires_at

-- `total` is the number of the user's automations.
abbrev pub current_usage : LimitType → ℕ → Option Totals → ℕ
current_usage automations_total total stats = total
current_usage automation_runs total stats = runs_of stats
current_usage voice_minutes total stats = minutes_of stats

-- `UsageLimiter.__call__`, from the row that the query found.
check_limit : Plans → LimitType → ℕ → List UserUsage → SupabaseUser → Result Bool
check_limit plans limit_to_check total rows user = do
  limits ← get_user_limits plans user
  let used = current_usage limit_to_check total (usage_in_period user rows)
  raise_if (leb (limit_value limit_to_check limits.0) used) (http 402)
  ok true

unfoldable pub usage_limiter :
    Plans → LimitType → ℕ → List UserUsage → Option SupabaseUser → Result Bool
unfolding check_limit
usage_limiter plans limit_to_check total rows none = err (http 404)
usage_limiter plans limit_to_check total rows (some user) =
    check_limit plans limit_to_check total rows user
