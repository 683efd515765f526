-- ===== src/Billing/Limits/Period.antt =====
-- How one more run changes what is counted in a user's billing period.
use autom.Prelude.{
  ◌+◌, ◌≤◌, String, ◌≡◌, refl, Bool, false, Option, none, some, List, arith, ◌==◌, Bool-cases, inl,
  inr,
}
use autom.Billing.{Time, SupabaseUser}
use autom.Billing.Usage.{
  UserUsage, runs_of, create_automation_run_event, automation_run_event, in_window,
}
use autom.Billing.Usage.Laws.{runs_of-create}
use autom.Billing.Limits.{window_usage, usage_in_period}

-- A run of the user adds one at most, and a run of another user adds nothing.
abbrev AddsAtMostOne : SupabaseUser → String → List UserUsage → List UserUsage → Type 0
AddsAtMostOne user owner rows rows' =
    (runs_of (usage_in_period user rows') ≤ runs_of (usage_in_period user rows) + 1)
    × ((owner == user.id) ≡ false
        → runs_of (usage_in_period user rows') ≡ runs_of (usage_in_period user rows))

window_adds :
    (user_id : String) (start_date end_date : Option Time) (id : String) (now : Time)
    (owner : String) (success : Bool) (rows : List UserUsage)
    → let rows' = create_automation_run_event id now owner success rows in
      (runs_of (window_usage user_id rows' start_date end_date)
        ≤ runs_of (window_usage user_id rows start_date end_date) + 1)
      × ((owner == user_id) ≡ false
          → runs_of (window_usage user_id rows' start_date end_date)
            ≡ runs_of (window_usage user_id rows start_date end_date))
unfolding window_usage automation_run_event
window_adds user_id (some s) (some e) id now owner success rows =
    let new = runs_of-create id now owner success user_id s e rows in
    (
      elim (Bool-cases (in_window user_id s e (automation_run_event id now owner success))) [
        | inl inside ↦ omega (arith, (rw inside at new))
        | inr outside ↦ omega (arith, (rw outside at new))
      ],
      λ other. omega (arith, (rw (outside_other other) at new)),
    )
  where
    outside_other :
        (owner == user_id) ≡ false
        → in_window user_id s e (automation_run_event id now owner success) ≡ false
    outside_other h = rw h refl
window_adds user_id (some s) none id now owner success rows = (omega arith, λ other. refl)
window_adds user_id none (some e) id now owner success rows = (omega arith, λ other. refl)
window_adds user_id none none id now owner success rows = (omega arith, λ other. refl)

pub create_adds :
    (user : SupabaseUser) (id : String) (now : Time) (owner : String) (success : Bool)
    (rows : List UserUsage)
    → AddsAtMostOne user owner rows (create_automation_run_event id now owner success rows)
unfolding usage_in_period
create_adds user id now owner success rows =
    window_adds user.id user.subscription_period_starts_at user.subscription_expires_at id now owner
      success rows
