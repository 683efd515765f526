-- ===== src/Automations/Crud.antt =====
-- aci/common/db/crud/automations.py: automations are listed, created, updated, deleted, with the
-- checks of the models of aci/common/schemas/automations.py. The rows of AutomationLinkedAccount are
-- the list `linked_account_ids` of an automation.
pub mod Lists
pub mod Owned
pub mod Laws
use autom.Prelude.{
  ℕ, String, Bool, true, false, not, ◌&&◌, ◌||◌, Option, none, some, List, [], ◌∷◌, ◌++◌, ◌==◌, map,
  keep, any, member, as_set, is_subset, ltb, get_or, if◌then◌else◌,
}
use autom.Prelude.Text.{is_truthy, opt_truthy}
use autom.Prelude.Rows.{remove_row}
use autom.Prelude.Result.{
  Exception, value_error, other, Result, ok, err, ◌>>=◌, ◌>>◌, raise_if, or_raise,
}
use autom.Accounts.{LinkedAccount}
use autom.Billing.{Time}
use autom.Automations.{
  never_run, Automation, AutomationRun, Artifact, Db, get_automation, set_automation,
}

abbrev pub account_ids : List LinkedAccount → List String
account_ids = map (λ la. la.id)

-- `_validate_and_fetch_linked_accounts`; an empty list of ids finds nothing and raises nothing.
unfoldable pub validate_and_fetch_linked_accounts :
    List LinkedAccount → String → List String → Result (List LinkedAccount)
validate_and_fetch_linked_accounts accounts user_id ids =
    let linked = keep (λ la. member la.id ids) accounts in
    do
      raise_if (not (is_subset ids (account_ids linked))) value_error
      raise_if (any (λ la. not (la.user_id == user_id)) linked) value_error
      ok linked

-- What croniter says of a schedule: `is_valid`, and the seconds between its next two times.
pub record Cron : Type 0 where
  pub is_valid : String → Bool
  pub next_gap : String → ℕ

-- The fields of AutomationCreate.
pub record AutomationCreate : Type 0 where
  pub name : String
  pub description : Option String
  pub goal : String
  pub is_deep : Bool
  pub active : Bool
  pub linked_account_ids : List String
  pub is_recurring : Bool
  pub cron_schedule : Option String

abbrev pub minimum_gap : ℕ
minimum_gap = 1800

-- The schedule itself, where there is one.
abbrev pub check_schedule : Cron → Option String → Result (Unit {0})
check_schedule cron none = ok tt
check_schedule cron (some schedule) =
    if is_truthy schedule
    then (do
      raise_if (not (cron.is_valid schedule)) value_error
      raise_if (ltb (cron.next_gap schedule) minimum_gap) value_error)
    else ok tt

-- The validator `check_cron_schedule` of AutomationCreate.
unfoldable pub check_cron_schedule : Cron → AutomationCreate → Result (Unit {0})
check_cron_schedule cron automation_in = do
  raise_if (automation_in.is_recurring && not (opt_truthy automation_in.cron_schedule)) value_error
  raise_if (not automation_in.is_recurring && opt_truthy automation_in.cron_schedule) value_error
  check_schedule cron automation_in.cron_schedule

-- The row that is added. The id is the default of the column and is given.
abbrev pub new_automation : String → Time → String → AutomationCreate → List String → Automation
new_automation new_id now user_id automation_in linked = record {
  id = new_id;
  user_id = user_id;
  name = automation_in.name;
  description = automation_in.description;
  goal = automation_in.goal;
  is_deep = automation_in.is_deep;
  is_recurring = automation_in.is_recurring;
  cron_schedule = automation_in.cron_schedule;
  active = automation_in.active;
  last_run_at = some now;
  last_run_status = never_run;
  linked_account_ids = linked;
}

unfoldable pub create_automation :
    List LinkedAccount → String → Time → String → AutomationCreate → Db → Result Db
create_automation accounts new_id now user_id automation_in db = do
  linked ← validate_and_fetch_linked_accounts accounts user_id automation_in.linked_account_ids
  ok (record db {
    automations =
        new_automation new_id now user_id automation_in (account_ids linked) ∷ db.automations;
  })

-- A field of AutomationUpdate: not set in the request, or set to a value or to None.
pub data Field (A : Type 0) : Type 0 where
  unset : Field A
  set : Option A → Field A

pub record AutomationUpdate : Type 0 where
  pub name : Field String
  pub goal : Field String
  pub linked_account_ids : Field (List String)
  pub is_recurring : Field Bool
  pub cron_schedule : Field String
  pub is_deep : Field Bool
  pub active : Field Bool
  pub description : Field String

-- The validator `check_cron_format` of AutomationUpdate.
abbrev pub check_cron_format : Cron → AutomationUpdate → Result (Unit {0})
check_cron_format cron automation_in = elim automation_in.cron_schedule [
  | unset ↦ ok tt
  | set none ↦ ok tt
  | set (some schedule) ↦ raise_if (is_truthy schedule && not (cron.is_valid schedule)) value_error
]

-- `update_data.get(key, stored)`
abbrev pub field_or : {A : Type 0} → Field A → Option A → Option A
field_or unset stored = stored
field_or (set value) stored = value

-- A column after the `setattr`: a column that is NOT NULL refuses None at the commit.
abbrev pub required : {A : Type 0} → Field A → A → Result A
required unset stored = ok stored
required (set none) stored = err (other "IntegrityError")
required (set (some value)) stored = ok value

-- `bool(x)` of a Bool or None
abbrev pub is_true : Option Bool → Bool
is_true none = false
is_true (some b) = b

-- `update_data.get("is_recurring") is False`
abbrev pub is_switched_off : Field Bool → Bool
is_switched_off (set (some false)) = true
is_switched_off _ = false

-- The associations that are kept, and those that are added.
abbrev pub associations : List String → List String → List String
associations new_ids current =
    keep (λ id. member id new_ids) current ++ keep (λ id. not (member id current)) (as_set new_ids)

abbrev pub update_links :
    List LinkedAccount → Field (List String) → Automation → Result (List String)
update_links accounts unset automation = ok automation.linked_account_ids
update_links accounts (set ids) automation =
    let new_ids = get_or ids [] in
    do
      linked ← validate_and_fetch_linked_accounts accounts automation.user_id (as_set new_ids)
      ok (associations new_ids automation.linked_account_ids)

abbrev pub final_cron : AutomationUpdate → Automation → Option String
final_cron automation_in automation =
    if is_switched_off automation_in.is_recurring
    then none
    else field_or automation_in.cron_schedule automation.cron_schedule

-- The row after the update.
unfoldable pub updated : List LinkedAccount → AutomationUpdate → Automation → Result Automation
updated accounts automation_in automation = do
  raise_if
      (is_true (field_or automation_in.is_recurring (some automation.is_recurring))
        && not (opt_truthy (field_or automation_in.cron_schedule automation.cron_schedule)))
      value_error
  linked ← update_links accounts automation_in.linked_account_ids automation
  name ← required automation_in.name automation.name
  goal ← required automation_in.goal automation.goal
  is_recurring ← required automation_in.is_recurring automation.is_recurring
  is_deep ← required automation_in.is_deep automation.is_deep
  active ← required automation_in.active automation.active
  ok (record automation {
    name = name;
    goal = goal;
    description = field_or automation_in.description automation.description;
    is_recurring = is_recurring;
    cron_schedule = final_cron automation_in automation;
    is_deep = is_deep;
    active = active;
    linked_account_ids = linked;
  })

unfoldable pub update_automation : List LinkedAccount → String → AutomationUpdate → Db → Result Db
unfolding updated
update_automation accounts automation_id automation_in db = do
  automation ← or_raise value_error (get_automation db automation_id)
  row ← updated accounts automation_in automation
  ok (set_automation automation_id (λ a. row) db)

-- The runs of an automation are deleted with it, and the artifacts with their runs.
abbrev pub is_artifact_of : String → List AutomationRun → Artifact → Bool
is_artifact_of automation_id runs artifact =
    any (λ run. run.automation_id == automation_id && member artifact.id run.artifacts) runs

unfoldable pub delete_automation : String → Db → Db
delete_automation automation_id db = record db {
  automations = remove_row (λ a. a.id) automation_id db.automations;
  runs = keep (λ run. not (run.automation_id == automation_id)) db.runs;
  artifacts = keep (λ f. not (is_artifact_of automation_id db.runs f)) db.artifacts;
}
