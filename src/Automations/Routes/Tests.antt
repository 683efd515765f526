-- ===== src/Automations/Routes/Tests.antt =====
-- The laws of the routes at one user, one linked account and one automation.
use autom.Prelude.{
  ℕ, ◌<◌, ◌≤◌, get_or, Option, String, ◌≡◌, refl, true, false, none, some, List, [], ◌∷◌, ◌++◌,
  ◌==◌, arith, All, member,
}
use autom.Prelude.Rows.{find_row, remove_row, update_row}
use autom.Prelude.Result.{Result, ok}
use autom.Accounts.{no_auth, no_auth_credentials, LinkedAccount, Store}
use autom.Accounts.Credentials.{model_dump}
use autom.Accounts.Tables.{new_account}
use autom.Billing.{active, SupabaseUser}
use autom.Billing.Usage.{automation_run_event, create_automation_run_event, get_usage_between_dates}
use autom.Billing.Limits.{
  PlanLimits, Plans, loaded, is_active, get_user_limits, get_subscribed_context, usage_in_period,
  usage_limiter,
}
use autom.Automations.{in_progress, Automation, Db, get_automation, get_run, set_automation}
use autom.Automations.Runs.{new_run, last_run, create_run}
use autom.Automations.Crud.{
  Cron, AutomationCreate, new_automation, create_automation, validate_and_fetch_linked_accounts,
  check_cron_schedule, delete_automation,
}
use autom.Automations.Crud.Lists.{insert, order_by, list_user_automations}
use autom.Automations.Routes.{delete_existing_automation, run_an_automation}
use autom.Automations.Routes.Laws.{run_an_automation_lem}
use autom.Automations.Routes.Others.{deleted, request_spares_others}
use autom.Automations.Scheduler.Limit.{used}
use autom.Automations.Routes.Kept.{
  was_created, was_linked, IsReachable, at_start, next, IsKept, IsReachable-IsKept,
}
use autom.Automations.Routes.Unlink.{delete_all, delete_linked_account}
use autom.Automations.Routes.Unlink.Laws.{unlink_deletes}

abbrev account : LinkedAccount
unfolding model_dump
account = new_account "l1" "u1" "p1" no_auth no_auth_credentials

abbrev no_rows : Db
no_rows = record {
  automations = [];
  runs = [];
  artifacts = [];
  usage = [];
  queue = [];
  notifications = [];
}

abbrev daily : AutomationCreate
daily = record {
  name = "Daily mail";
  description = none;
  goal = "Send the mail";
  is_deep = false;
  active = true;
  linked_account_ids = "l1" ∷ [];
  is_recurring = true;
  cron_schedule = some "0 9 * * *";
}

abbrev row : Automation
row = new_automation "a1" 100 "u1" daily ("l1" ∷ [])

abbrev rows : Db
rows = record no_rows { automations = row ∷ [] }

abbrev cron : Cron
cron = record { is_valid = λ schedule. true; next_gap = λ schedule. 86400 }

abbrev render : String → List (String × String) → Result String
render goal variables = ok goal

reached : IsReachable cron render (account ∷ []) rows
unfolding account create_automation validate_and_fetch_linked_accounts check_cron_schedule
reached =
    next (account ∷ []) (account ∷ []) no_rows rows
      (next [] (account ∷ []) no_rows no_rows (at_start no_rows refl)
        (was_linked account [] no_rows))
      (was_created "a1" 100 "u1" daily (account ∷ []) no_rows rows refl refl)

IsReachable-IsKept_example : IsKept (account ∷ []) rows
IsReachable-IsKept_example = IsReachable-IsKept cron render (account ∷ []) rows reached

abbrev store : Store
store = record { apps = []; configurations = []; accounts = account ∷ [] }

abbrev created_at : String → ℕ
created_at id = 100

unlinks :
    delete_linked_account created_at "u1" "l1" store rows
    ≡ ok (record store { accounts = [] }, no_rows)
unfolding account delete_linked_account list_user_automations order_by insert delete_all
    delete_automation remove_row
unlinks = refl

unlink_deletes_example :
    All
      (λ a.
        (a.user_id == "u1") ≡ true
        → member "l1" a.linked_account_ids ≡ true
        → get_automation no_rows a.id ≡ none)
      rows.automations
unlink_deletes_example =
    unlink_deletes created_at "u1" "l1" store (record store { accounts = [] }) rows no_rows
      (omega arith) unlinks

-- Another user, whose automation is beside the first one.
abbrev other_row : Automation
other_row = record row { id = "a2"; user_id = "u2" }

abbrev both : Db
both = record no_rows { automations = row ∷ other_row ∷ [] }

deletes :
    delete_existing_automation "u1" "a1" both ≡ ok (record no_rows { automations = other_row ∷ [] })
unfolding delete_existing_automation delete_automation find_row remove_row
deletes = refl

request_spares_others_example :
    get_automation (record no_rows { automations = other_row ∷ [] }) "a2" ≡ some other_row
unfolding find_row
request_spares_others_example =
    request_spares_others "u1" "a2" other_row both (record no_rows { automations = other_row ∷ [] })
      (deleted "a1" both (record no_rows { automations = other_row ∷ [] }) deletes) (refl, refl)

abbrev limits : PlanLimits
limits = record {
  max_automations = some 10;
  max_automation_runs = some 1;
  max_voice_agent_minutes = some 60;
}

abbrev plans : Plans
plans =
    loaded (λ product. some (record { interval = some "month"; paid = some limits; trial = none }))

abbrev subscriber : SupabaseUser
subscriber = record {
  id = "u1";
  subscription_status = some active;
  subscription_product_id = some "pro";
  subscription_expires_at = some 1000;
  subscription_period_starts_at = some 0;
  trial_ends_at = none;
  is_trial = false;
}

abbrev a_subscriber : String → Option SupabaseUser
a_subscriber user_id = some subscriber

abbrev after_run : Db
unfolding automation_run_event
after_run = record rows {
  automations = last_run in_progress 200 row ∷ [];
  runs = new_run "r1" 200 "a1" ∷ [];
  usage = automation_run_event "g1" 200 "u1" true ∷ [];
  queue = ("r1", "g1") ∷ [];
}

runs : run_an_automation plans a_subscriber "r1" "g1" 200 "u1" "a1" rows ≡ ok after_run
unfolding run_an_automation create_run find_row update_row usage_limiter get_subscribed_context
    get_user_limits usage_in_period get_usage_between_dates create_automation_run_event
runs = refl

run_an_automation_lem_example :
    (user : SupabaseUser) × (l : PlanLimits × String) × (a : Automation) × (a_subscriber "u1"
      ≡ some user)
    × (is_active user.subscription_status ≡ true)
    × (get_user_limits plans user ≡ ok l)
    × (used user rows < get_or l.0.max_automation_runs 0)
    × (get_automation rows "a1" ≡ some a)
    × ((a.user_id == "u1") ≡ true)
    × (after_run.automations ≡ (set_automation "a1" (last_run in_progress 200) rows).automations)
    × (get_run after_run "r1" ≡ some (new_run "r1" 200 "a1"))
    × (after_run.queue ≡ rows.queue ++ ("r1", "g1") ∷ [])
    × (after_run.usage ≡ create_automation_run_event "g1" 200 "u1" true rows.usage)
    × (used user after_run ≤ get_or l.0.max_automation_runs 0)
run_an_automation_lem_example =
    run_an_automation_lem plans a_subscriber "r1" "g1" 200 "u1" "a1" rows after_run runs
