-- ===== src/Automations.antt =====
-- The automations and their runs: `Automation`, `AutomationRun` and `Artifact` of
-- aci/common/db/sql_models.py, and the state that the scheduler, the worker and the routes share.
pub mod Runs
pub mod Due
pub mod Scheduler
pub mod Execution
pub mod Crud
pub mod Routes
pub mod Worker
mod Tests
use autom.Prelude.{ℕ, String, Bool, Option, List}
use autom.Prelude.Rows.{find_row, update_row}
use autom.Billing.{Time}
use autom.Billing.Usage.{UserUsage}

pub data RunStatus : Type 0 where
  success failure in_progress never_run : RunStatus

-- The columns that the modelled code reads or writes, and the ids of the linked accounts.
pub record Automation : Type 0 where
  pub id : String
  pub user_id : String
  pub name : String
  pub description : Option String
  pub goal : String
  pub is_deep : Bool
  pub is_recurring : Bool
  pub cron_schedule : Option String
  pub active : Bool
  pub last_run_at : Option Time
  pub last_run_status : RunStatus
  pub linked_account_ids : List String

pub record AutomationRun : Type 0 where
  pub id : String
  pub automation_id : String
  pub status : RunStatus
  pub message : String
  pub logs : Option String
  pub started_at : Time
  pub finished_at : Option Time
  pub artifacts : List String

pub record Artifact : Type 0 where
  pub id : String
  pub user_id : String

-- What a call of `send_notification_to_user` is about.
pub data Notification : Type 0 where
  automation_completed automation_failed : String → Notification

-- The tables, the tasks `execute_automation(run_id, usage_id)` that wait in huey's queue, oldest
-- first, and the notifications that were sent.
pub record Db : Type 0 where
  pub automations : List Automation
  pub runs : List AutomationRun
  pub artifacts : List Artifact
  pub usage : List UserUsage
  pub queue : List (String × String)
  pub notifications : List Notification

-- db.get(Automation, id), db.get(AutomationRun, id)
abbrev pub get_automation : Db → String → Option Automation
get_automation db id = find_row (λ a. a.id) id db.automations

abbrev pub get_run : Db → String → Option AutomationRun
get_run db id = find_row (λ r. r.id) id db.runs

abbrev pub set_automation : String → (Automation → Automation) → Db → Db
set_automation id f db = record db { automations = update_row (λ a. a.id) id f db.automations }

abbrev pub set_run : String → (AutomationRun → AutomationRun) → Db → Db
set_run id f db = record db { runs = update_row (λ r. r.id) id f db.runs }
