-- ===== src/Billing/Limits/Tests.antt =====
-- The limits at concrete plans, users and usage rows.
use autom.Prelude.{String, ◌≡◌, refl, false, Option, none, some, if◌then◌else◌, ◌==◌}
use autom.Prelude.Text.{lower}
use autom.Prelude.Result.{ok}
use autom.Billing.{active, cancelled, SupabaseUser}
use autom.Billing.Webhook.{
  RevenueCatEvent, apply_event, apply_kind, event_kind, kind_of, is_trial_period, is_stale,
}
use autom.Billing.Limits.{
  PlanLimits, PlanDetails, loaded, get_user_limits, limits_truthy, get_subscribed_context,
}
use autom.Billing.Limits.Laws.{purchase_gives_plan}

abbrev paid_limits : PlanLimits
paid_limits = record {
  max_automations = some 10;
  max_automation_runs = some 100;
  max_voice_agent_minutes = some 60;
}

abbrev trial_limits : PlanLimits
trial_limits = record paid_limits { max_automation_runs = some 5 }

abbrev pro : PlanDetails
pro = record { interval = some "month"; paid = some paid_limits; trial = some trial_limits }

abbrev plans : String → Option PlanDetails
plans product = if product == "pro" then some pro else none

abbrev visitor : SupabaseUser
visitor = record {
  id = "u1";
  subscription_status = none;
  subscription_product_id = none;
  subscription_expires_at = none;
  subscription_period_starts_at = none;
  trial_ends_at = none;
  is_trial = false;
}

-- The start of the billing window is not known.
abbrev subscriber : SupabaseUser
subscriber = record visitor {
  subscription_status = some active;
  subscription_product_id = some "pro";
  subscription_expires_at = some 90000000;
}

abbrev purchase : RevenueCatEvent
purchase = record {
  app_user_id = "u1";
  type = "INITIAL_PURCHASE";
  product_id = some "pro";
  period_type = some "NORMAL";
  purchased_at_ms = 1000;
  expiration_date_ms = some 90000000;
}

abbrev cancel : RevenueCatEvent
cancel = record purchase { type = "CANCELLATION" }

plan_of_subscriber : get_user_limits (loaded plans) subscriber ≡ ok (paid_limits, "month")
unfolding get_user_limits
plan_of_subscriber = refl

cancelled_event :
    apply_event cancel subscriber
    ≡ some (record subscriber { subscription_status = some cancelled })
unfolding apply_event event_kind kind_of apply_kind lower
cancelled_event = refl

purchase_gives_plan_example :
    (user : SupabaseUser) × (apply_event purchase visitor ≡ some user)
    × (get_subscribed_context (some user) ≡ ok tt)
    × (get_user_limits (loaded plans) user
        ≡ ok (if is_trial_period purchase then trial_limits else paid_limits, "month"))
unfolding event_kind kind_of lower is_stale limits_truthy
purchase_gives_plan_example =
    purchase_gives_plan plans pro trial_limits paid_limits "pro" purchase visitor refl refl refl
      refl refl (refl, refl) (refl, refl)
