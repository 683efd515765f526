-- ===== src/Automations/Routes/Laws.antt =====
-- Whom the routes let through, and what a manual run does.
use autom.Prelude.{
  ◌<◌, ◌≤◌, String, ◌≡◌, refl, sym, subst, ◌∙◌, true, not, Option, none, some, [], ◌∷◌, ◌++◌, ◌==◌,
  arith, get_or, eq_refl,
}
use autom.Prelude.Rows.{find_row}
use autom.Prelude.Result.{Result, http, ok, err, >>=-eq-ok, ok-eq, raise_if-ok}
use autom.Billing.{Time, SupabaseUser}
use autom.Billing.Usage.{create_automation_run_event}
use autom.Billing.Limits.{
  PlanLimits, Plans, is_active, automation_runs, get_user_limits, get_subscribed_context,
  usage_limiter,
}
use autom.Billing.Limits.Laws.{get_subscribed_context-ok, usage_limiter-ok}
use autom.Billing.Limits.Period.{create_adds}
use autom.Automations.{in_progress, Automation, Db, get_automation, get_run, set_automation}
use autom.Automations.Runs.{new_run, last_run, create_run}
use autom.Automations.Runs.Laws.{create_run_rows}
use autom.Automations.Scheduler.Limit.{used}
use autom.Automations.Routes.{bad_request, check_owned, run_an_automation}

pub check_owned-ok :
    (user_id : String) (found : Option Automation) (owned : Automation)
    → check_owned user_id found ≡ ok owned
    → (found ≡ some owned) × ((owned.user_id == user_id) ≡ true)
check_owned-ok user_id none owned h = cc
check_owned-ok user_id (some a) owned h =
    let (own, same) = raise_if-ok (not (a.user_id == user_id)) (http 403) _ owned h in
    subst (λ x. (some a ≡ some x) × ((x.user_id == user_id) ≡ true)) (ok-eq same)
      (refl, ground (arith, own))

pub bad_request-ok : {A : Type 0} (r : Result A) (a : A) → bad_request r ≡ ok a → r ≡ ok a
bad_request-ok (ok b) a h = h
bad_request-ok (err e) a h = ground arith

module _ (plans : Plans) (find_user : String → Option SupabaseUser) where
  -- A manual run that returns was asked for by a user with an active subscription, for an automation
  -- of that user, with fewer runs in the billing period than the plan's limit. It leaves the new run
  -- in progress, the automation marked, one task behind those that wait, one more row of usage, and
  -- the runs of the period within the limit.
  pub run_an_automation_lem :
      (run_id usage_id : String) (now : Time) (user_id id : String) (db db' : Db)
      → run_an_automation plans find_user run_id usage_id now user_id id db ≡ ok db'
      → (user : SupabaseUser) × (limits : PlanLimits × String) × (a : Automation) × (find_user
            user_id
          ≡ some user)
        × (is_active user.subscription_status ≡ true)
        × (get_user_limits plans user ≡ ok limits)
        × (used user db < get_or limits.0.max_automation_runs 0)
        × (get_automation db id ≡ some a)
        × ((a.user_id == user_id) ≡ true)
        × (db'.automations ≡ (set_automation id (last_run in_progress now) db).automations)
        × (get_run db' run_id ≡ some (new_run run_id now id))
        × (db'.queue ≡ db.queue ++ (run_id, usage_id) ∷ [])
        × (db'.usage ≡ create_automation_run_event usage_id now user_id true db.usage)
        × (used user db' ≤ get_or limits.0.max_automation_runs 0)
  unfolding run_an_automation find_row
  run_an_automation_lem run_id usage_id now user_id id db db' h =
      let (done, f1, h1) = >>=-eq-ok (get_subscribed_context (find_user user_id)) _ h in
      let (user, known, active) = get_subscribed_context-ok (find_user user_id) f1 in
      let (allowed, f2, h2) =
        >>=-eq-ok (usage_limiter plans automation_runs 0 db.usage (find_user user_id)) _ h1 in
      let (limits, bounded, below) =
        usage_limiter-ok plans 0 db.usage user allowed
          (subst (λ o. usage_limiter plans automation_runs 0 db.usage o ≡ ok allowed) known f2) in
      let (a, f3, h3) = >>=-eq-ok (check_owned user_id (get_automation db id)) _ h2 in
      let (here, own) = check_owned-ok user_id (get_automation db id) a f3 in
      let (started, f4, h4) = >>=-eq-ok (create_run run_id now id db) _ h3 in
      let begun =
        set_automation id (last_run in_progress now)
          (record db { runs = new_run run_id now id ∷ db.runs }) in
      let same : begun ≡ started = ok-eq (sym (create_run_rows run_id now id db a here) ∙ f4) in
      let finish = λ (d : Db). record d {
        usage = create_automation_run_event usage_id now user_id true d.usage;
        queue = d.queue ++ (run_id, usage_id) ∷ [];
      } in
      let after : finish begun ≡ db' = subst (λ d. finish d ≡ db') (sym same) (ok-eq h4) in
      let adds = create_adds user usage_id now user_id true db.usage in
      let (marked, begins, queued, counted, within) =
        subst
          (λ d.
            (d.automations ≡ (set_automation id (last_run in_progress now) db).automations)
            × (get_run d run_id ≡ some (new_run run_id now id))
            × (d.queue ≡ db.queue ++ (run_id, usage_id) ∷ [])
            × (d.usage ≡ create_automation_run_event usage_id now user_id true db.usage)
            × (used user d ≤ get_or limits.0.max_automation_runs 0))
          after (refl, rw (eq_refl run_id) refl, refl, refl, ground (arith, adds.0, below)) in
      (
        user, limits, a, known, active, bounded, below, here, own, marked, begins, queued, counted,
        within,
      )
