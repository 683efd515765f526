-- ===== src/Billing/Webhook/Tests.antt =====
-- The laws of the webhook at concrete events, users and tables.
use autom.Prelude.{◌⊎◌, is_some, String, ◌≡◌, refl, true, false, none, some, [], ◌∷◌, get_or, eqb}
use autom.Prelude.Result.{Exception, value_error}
use autom.Prelude.Text.{lower}
use autom.Prelude.Table.{lookup, in_memory, in_memory-IsLawful}
use autom.Billing.{trialing, expired, SupabaseUser}
use autom.Billing.Webhook.{
  RevenueCatEvent, process_revenuecat_event, apply_event, event_kind, apply_kind, other_day,
  expiration, is_trial_period,
}
use autom.Billing.Webhook.Laws.{
  apply_event_idempotent, IsConsistent, apply_all, NotAfter, apply_all-NotAfter,
  expires_only_by_expiration,
}
use autom.Billing.Webhook.Handler.{Faults, State, revenuecat_webhook}
use autom.Billing.Webhook.Audit.{row_of, audit_lem, failure_users, users_lem}

abbrev new_user : SupabaseUser
new_user = record {
  id = "u1";
  subscription_status = none;
  subscription_product_id = none;
  subscription_expires_at = none;
  subscription_period_starts_at = none;
  trial_ends_at = none;
  is_trial = false;
}

abbrev purchase : RevenueCatEvent
purchase = record {
  app_user_id = "u1";
  type = "INITIAL_PURCHASE";
  product_id = some "pro";
  period_type = some "TRIAL";
  purchased_at_ms = 1000;
  expiration_date_ms = some 90000000;
}

abbrev on_trial : SupabaseUser
on_trial = record new_user {
  subscription_status = some trialing;
  subscription_product_id = some "pro";
  subscription_expires_at = some 90000000;
  subscription_period_starts_at = some 1000;
  trial_ends_at = some 90000000;
  is_trial = true;
}

abbrev renewal : RevenueCatEvent
renewal = record purchase {
  type = "RENEWAL";
  period_type = some "NORMAL";
  purchased_at_ms = 90000000;
  expiration_date_ms = some 180000000;
}

abbrev expiry : RevenueCatEvent
expiry = record purchase { type = "EXPIRATION" }

applied : apply_event purchase new_user ≡ some on_trial
unfolding apply_event event_kind apply_kind lower is_trial_period
applied = refl

apply_event_idempotent_example : apply_event purchase on_trial ≡ some on_trial
apply_event_idempotent_example = apply_event_idempotent purchase new_user on_trial applied

apply_all-NotAfter_example :
    NotAfter
      (some 90000000)
      (apply_all (renewal ∷ expiry ∷ purchase ∷ []) on_trial).subscription_expires_at
apply_all-NotAfter_example =
    apply_all-NotAfter (renewal ∷ expiry ∷ purchase ∷ []) on_trial
      ((λ h. cc h), ((λ h. cc h), ((λ h. cc h), tt)))

ended :
    apply_event expiry on_trial
    ≡ some (record on_trial { subscription_status = some expired; is_trial = false })
unfolding apply_event event_kind apply_kind lower is_trial_period
ended = refl

expires_only_by_expiration_example :
    (event_kind expiry ≡ expiration) × (other_day (some 90000000) (some 90000000) ≡ false)
expires_only_by_expiration_example =
    expires_only_by_expiration expiry on_trial
      (record on_trial { subscription_status = some expired; is_trial = false }) ended (λ h. cc h)
      refl

new_user-IsConsistent : IsConsistent new_user
new_user-IsConsistent = record { on_trial = λ h. cc h; paid = λ h. cc h; ended = λ h. refl }

-- The handler over tables in memory, `u1` being the only user.
abbrev no_faults : Faults
no_faults = record { create = none; commit = none; refresh = none; update = none }

abbrev commit_fails : Faults
commit_fails = record no_faults { commit = some value_error }

abbrev refresh_fails : Faults
refresh_fails = record no_faults { refresh = some value_error }

abbrev describe : Exception → String
describe e = "database is locked"

abbrev start : State in_memory in_memory
unfolding in_memory
start = (("u1", new_user) ∷ [], [])

found_user : in_memory.find "u1" start.0 ≡ some new_user
unfolding in_memory lookup
found_user = refl

users_lem_example :
    in_memory.find "u1"
      (revenuecat_webhook in_memory in_memory describe no_faults "e1" purchase start).1.0
    ≡ some (get_or (apply_event purchase new_user) new_user)
users_lem_example =
    users_lem in_memory in_memory describe no_faults "e1" purchase start in_memory-IsLawful refl
      new_user found_user refl "u1"

audit_lem_example :
    let (r, t) = revenuecat_webhook in_memory in_memory describe commit_fails "e1" purchase start in
    in_memory.find "e1" t.1 ≡ some (row_of purchase r)
audit_lem_example =
    audit_lem in_memory in_memory describe commit_fails "e1" purchase start in_memory-IsLawful refl
      refl

failed :
    eqb
      (revenuecat_webhook in_memory in_memory describe refresh_fails "e1" purchase
        start).0.status_code
      200
    ≡ false
unfolding revenuecat_webhook in_memory lookup apply_event event_kind apply_kind lower
    is_trial_period process_revenuecat_event
failed = refl

failure_users_example :
    ((revenuecat_webhook in_memory in_memory describe refresh_fails "e1" purchase start).1.0
      ≡ start.0)
    ⊎ ((refresh_fails.commit ≡ none)
        × (is_some refresh_fails.refresh ≡ true)
        × ((revenuecat_webhook in_memory in_memory describe refresh_fails "e1" purchase start).1.0
            ≡ (revenuecat_webhook in_memory in_memory describe no_faults "e1" purchase start).1.0))
failure_users_example =
    failure_users in_memory in_memory describe refresh_fails "e1" purchase start failed
