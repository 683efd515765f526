-- ===== src/Automations/Routes.antt =====
-- aci/server/routes/automations.py: what a user may do with an automation, and
-- `create_automation_from_template` of aci/common/db/crud/automations.py.
pub mod Laws
pub mod Kept
mod Tests
pub mod Unlink
pub mod Runs
pub mod Others
use autom.Prelude.{
  ℕ, String, Bool, true, false, not, ◌&&◌, Option, none, some, List, [], ◌∷◌, ◌++◌, ◌==◌, map,
  is_subset, if◌then◌else◌,
}
use autom.Prelude.Result.{
  Exception, http, value_error, Result, ok, err, ◌>>=◌, ◌>>◌, raise_if, or_raise,
}
use autom.Accounts.{LinkedAccount}
use autom.Billing.{Time, SupabaseUser}
use autom.Billing.Limits.{Plans, automation_runs, get_subscribed_context, usage_limiter}
use autom.Billing.Usage.{create_automation_run_event}
use autom.Automations.{Automation, Db, get_automation}
use autom.Automations.Runs.{create_run}
use autom.Automations.Crud.{
  account_ids, validate_and_fetch_linked_accounts, Cron, AutomationCreate, check_cron_schedule,
  create_automation, AutomationUpdate, update_automation, delete_automation,
}

-- `except ValueError as e: raise HTTPException(400)`
abbrev pub bad_request {ℓ} : {A : Type ℓ} → Result A → Result A
bad_request (err value_error) = err (http 400)
bad_request result = result

-- The automation, if it is there and is the user's.
abbrev pub check_owned : String → Option Automation → Result Automation
check_owned user_id none = err (http 404)
check_owned user_id (some automation) =
    raise_if (not (automation.user_id == user_id)) (http 403) >> ok automation

unfoldable pub get_automation_by_id : String → String → Db → Result Automation
get_automation_by_id user_id automation_id db =
    check_owned user_id (get_automation db automation_id)

unfoldable pub update_existing_automation :
    List LinkedAccount → String → String → AutomationUpdate → Db → Result Db
update_existing_automation accounts user_id automation_id automation_in db = do
  owned ← check_owned user_id (get_automation db automation_id)
  bad_request (update_automation accounts automation_id automation_in db)

unfoldable pub delete_existing_automation : String → String → Db → Result Db
delete_existing_automation user_id automation_id db = do
  owned ← check_owned user_id (get_automation db automation_id)
  ok (delete_automation automation_id db)

-- The two dependencies run first, on the row of the user that the token names. The limit of runs does
-- not look at the number of automations. The ids of the run and of the usage event and the time are
-- given.
unfoldable pub run_an_automation :
    Plans
    → (String → Option SupabaseUser)
    → String
    → String
    → Time
    → String
    → String
    → Db
    → Result Db
run_an_automation plans find_user run_id usage_id now user_id automation_id db = do
  get_subscribed_context (find_user user_id)
  allowed ← usage_limiter plans automation_runs 0 db.usage (find_user user_id)
  owned ← check_owned user_id (get_automation db automation_id)
  started ← create_run run_id now automation_id db
  ok (record started {
    usage = create_automation_run_event usage_id now user_id true started.usage;
    queue = started.queue ++ (run_id, usage_id) ∷ [];
  })

-- A row of AutomationTemplate, with the ids of its required apps.
pub record AutomationTemplate : Type 0 where
  pub id : String
  pub name : String
  pub description : Option String
  pub goal : String
  pub variable_names : List String
  pub required_app_ids : List String
  pub is_deep : Bool

-- AutomationFromTemplateCreate; a variable has a name and a value.
pub record FromTemplate : Type 0 where
  pub variables : List (String × String)
  pub linked_account_ids : List String
  pub is_recurring : Bool
  pub cron_schedule : Option String

-- `required_vars == provided_vars`, as sets
abbrev pub same_set : List String → List String → Bool
same_set xs ys = is_subset xs ys && is_subset ys xs

abbrev pub has_entries : List String → Bool
has_entries [] = false
has_entries (x ∷ xs) = true

-- The check of the required apps, where there are any.
abbrev pub check_apps : List LinkedAccount → String → List String → List String → Result (Unit {0})
check_apps accounts user_id required ids =
    if has_entries required
    then (do
      linked ← validate_and_fetch_linked_accounts accounts user_id ids
      raise_if (not (is_subset required (map (λ la. la.app_id) linked))) value_error)
    else ok tt

abbrev pub from_template : AutomationTemplate → FromTemplate → String → AutomationCreate
from_template template template_data rendered_goal = record {
  name = template.name;
  description = template.description;
  goal = rendered_goal;
  is_deep = template.is_deep;
  active = true;
  linked_account_ids = template_data.linked_account_ids;
  is_recurring = template_data.is_recurring;
  cron_schedule = template_data.cron_schedule;
}

-- `render` is Jinja's: the text of a goal with the variables, or what it raises. The AutomationCreate
-- that is built runs its validator.
unfoldable pub create_automation_from_template :
    Cron
    → (String → List (String × String) → Result String)
    → List LinkedAccount
    → String
    → Time
    → String
    → Option AutomationTemplate
    → FromTemplate
    → Db
    → Result Db
create_automation_from_template cron render accounts new_id now user_id found template_data db = do
  template ← or_raise value_error found
  raise_if (not (same_set template.variable_names (map (λ v. v.0) template_data.variables)))
      value_error
  rendered_goal ← render template.goal template_data.variables
  check_apps accounts user_id template.required_app_ids template_data.linked_account_ids
  check_cron_schedule cron (from_template template template_data rendered_goal)
  create_automation accounts new_id now user_id (from_template template template_data rendered_goal)
      db
