-- ===== src/Billing/Limits/Laws.antt =====
-- Who is let through: the limiter and the subscription check, alone and after a webhook event.
use autom.Prelude.{
  ℕ, ◌<◌, String, ◌≡◌, refl, ap, Bool, true, false, Option, none, some, List, arith, eqb, leb,
  Bool-cases, inl, inr, ◌⊎◌, get_or, if◌then◌else◌,
}
use autom.Prelude.Result.{ok, err, http, attribute_error, >>=-eq-ok, raise_if-ok}
use autom.Prelude.Text.{opt_truthy, is_truthy}
use autom.Billing.{SupabaseUser}
use autom.Billing.Usage.{UserUsage, runs_of}
use autom.Billing.Webhook.{
  RevenueCatEvent, apply_event, event_kind, granting, cancellation, grant, is_stale,
  is_trial_period,
}
use autom.Billing.Webhook.Laws.{apply_event_granting, apply_event_cancellation}
use autom.Billing.Limits.{
  PlanLimits, PlanDetails, Plans, loaded, empty_list, one_automation, is_active, limits_truthy,
  of_plan, get_user_limits, get_subscribed_context, LimitType, automation_runs, voice_minutes,
  automations_total, usage_in_period, check_limit, usage_limiter,
}

-- What a user without an active subscription may do: have the first automation.
abbrev pub first_automation : LimitType → ℕ → Bool
first_automation automations_total total = eqb total 0
first_automation automation_runs total = false
first_automation voice_minutes total = false

-- A user without an active subscription passes the check of the number of automations if there is
-- none yet, and gets a 402 from every other check, whatever the plans, the usage rows and the other
-- columns are.
pub limiter_inactive :
    (plans : Plans) (l : LimitType) (total : ℕ) (rows : List UserUsage) (user : SupabaseUser)
    → is_active user.subscription_status ≡ false
    → usage_limiter plans l total rows (some user)
      ≡ (if first_automation l total then ok true else err (http 402))
unfolding usage_limiter get_user_limits
limiter_inactive plans automations_total total rows user h = rw h (ground arith)
limiter_inactive plans _ total rows user h = rw h (ground arith)

-- Whom the two checks let through.
pub get_subscribed_context-ok :
    (found : Option SupabaseUser)
    → get_subscribed_context found ≡ ok tt
    → (user : SupabaseUser) × (found ≡ some user) × (is_active user.subscription_status ≡ true)
unfolding get_subscribed_context
get_subscribed_context-ok none h = cc
get_subscribed_context-ok (some user) h = (user, refl, ground arith)

pub usage_limiter-ok :
    (plans : Plans) (total : ℕ) (rows : List UserUsage) (user : SupabaseUser) (allowed : Bool)
    → usage_limiter plans automation_runs total rows (some user) ≡ ok allowed
    → (limits : PlanLimits × String) × (get_user_limits plans user ≡ ok limits)
      × (runs_of (usage_in_period user rows) < get_or limits.0.max_automation_runs 0)
unfolding usage_limiter check_limit
usage_limiter-ok plans total rows user allowed h =
    let (limits, found, rest) = >>=-eq-ok (get_user_limits plans user) _ h in
    let (below, done) =
      raise_if-ok
        (leb (get_or limits.0.max_automation_runs 0) (runs_of (usage_in_period user rows)))
        (http 402) _ allowed rest in
    (limits, found, ground (arith, below))

-- An active user with a positive limit of runs, and with one end of the billing window missing, is
-- let through whatever has been used.
pub limiter_without_window :
    (plans : Plans) (total : ℕ) (rows : List UserUsage) (user : SupabaseUser)
    (limits : PlanLimits × String)
    → get_user_limits plans user ≡ ok limits
    → 0 < get_or limits.0.max_automation_runs 0
    → (user.subscription_period_starts_at ≡ none) ⊎ (user.subscription_expires_at ≡ none)
    → usage_limiter plans automation_runs total rows (some user) ≡ ok true
unfolding usage_limiter usage_in_period
limiter_without_window plans total rows user limits h pos gap = ground arith

-- With no plans file, every check of a user who has a subscription and a product raises an
-- AttributeError.
pub limiter_without_plans :
    (l : LimitType) (total : ℕ) (rows : List UserUsage) (user : SupabaseUser)
    → is_active user.subscription_status ≡ true
    → opt_truthy user.subscription_product_id ≡ true
    → usage_limiter empty_list l total rows (some user) ≡ err attribute_error
unfolding usage_limiter get_user_limits
limiter_without_plans l total rows user a p = rw (a, p) refl

-- A cancellation shuts the user out at once, whatever expiry is stored.
pub cancellation_ends_access :
    (event : RevenueCatEvent) (user user' : SupabaseUser)
    → event_kind event ≡ cancellation
    → apply_event event user ≡ some user'
    → get_subscribed_context (some user') ≡ err (http 402)
unfolding get_subscribed_context
cancellation_ends_access event user user' k h =
    ground (arith, apply_event_cancellation event user user' k h)

of_plan_trial :
    (plan : PlanDetails) (l : PlanLimits)
    → plan.trial ≡ some l
    → limits_truthy l ≡ true
    → of_plan (some plan) true ≡ (l, get_or plan.interval "month")
unfolding of_plan
of_plan_trial plan l h t = ground arith

of_plan_paid :
    (plan : PlanDetails) (l : PlanLimits)
    → plan.paid ≡ some l
    → limits_truthy l ≡ true
    → of_plan (some plan) false ≡ (l, get_or plan.interval "month")
unfolding of_plan
of_plan_paid plan l h t = ground arith

-- A purchase of a product, not stale, whose plan has limits for the trial and for the paid period
-- opens the access and brings the limits of the plan: those of the trial if the period is a trial,
-- and else the paid ones.
pub purchase_gives_plan :
    (plans : String → Option PlanDetails) (plan : PlanDetails) (trial paid : PlanLimits)
    (product : String) (event : RevenueCatEvent) (user : SupabaseUser)
    → event_kind event ≡ granting
    → is_stale user.subscription_expires_at event.expiration_date_ms ≡ false
    → event.product_id ≡ some product
    → is_truthy product ≡ true
    → plans product ≡ some plan
    → (plan.trial ≡ some trial) × (limits_truthy trial ≡ true)
    → (plan.paid ≡ some paid) × (limits_truthy paid ≡ true)
    → (user' : SupabaseUser) × (apply_event event user ≡ some user')
      × (get_subscribed_context (some user') ≡ ok tt)
      × (get_user_limits (loaded plans) user'
          ≡ ok (if is_trial_period event then trial else paid, get_or plan.interval "month"))
unfolding grant get_subscribed_context get_user_limits
purchase_gives_plan plans plan trial paid product event user k fresh p t found tl pl = (
  grant (is_trial_period event) event user,
  apply_event_granting event user k fresh,
  elim (Bool-cases (is_trial_period event)) [ inl y ↦ rw y refl | inr n ↦ rw n refl ],
  elim (Bool-cases (is_trial_period event)) [
    | inl y ↦ rw y (rw p (rw t (rw found (ap ok (of_plan_trial plan trial tl.0 tl.1)))))
    | inr n ↦ rw n (rw p (rw t (rw found (ap ok (of_plan_paid plan paid pl.0 pl.1)))))
  ],
)

pub get_user_limits_inactive :
    (plans : Plans) (user : SupabaseUser)
    → is_active user.subscription_status ≡ false
    → get_user_limits plans user ≡ ok (one_automation, "none")
unfolding get_user_limits
get_user_limits_inactive plans user h = rw h refl
