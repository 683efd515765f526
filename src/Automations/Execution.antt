-- ===== src/Automations/Execution.antt =====
-- aci/server/tasks/tasks.py: `execute_automation`, the task that runs one automation. The commits of
-- the task are taken to succeed.
pub mod Over
pub mod Laws
pub mod Keeps
use autom.Prelude.{
  ℕ, String, Bool, true, false, Option, none, some, List, [], ◌∷◌, ◌++◌, member, if◌then◌else◌,
}
use Prim.Native.String.{◌++◌ as ◌<>◌}
use autom.Prelude.Result.{Exception, value_error, attribute_error, Result, ok, err, ◌>>=◌}
use autom.Billing.{Time}
use autom.Billing.Usage.{update_automation_run_event}
use autom.Automations.{
  RunStatus, success, failure, Automation, AutomationRun, Notification, automation_completed,
  automation_failed, Db, get_automation, get_run,
}
use autom.Automations.Runs.{finalize_run}

-- `AutomationResult` of aci/server/agent/automation_executor.py; `status` is one of two.
pub record AutomationResult : Type 0 where
  pub status : Bool
  pub automation_output : String
  pub artifact_ids : List String

-- `RunStatus[automation_output.status]`
abbrev pub run_status : Bool → RunStatus
run_status true = success
run_status false = failure

-- What `AutomationExecutor(automation, run_id).run()` does: the agent and its model are not
-- modelled, so its outcome is a parameter. It raises, or returns a result or None.
abbrev pub Outcome : Type 0
Outcome = Result (Option AutomationResult)

-- `update_automation_run_event` on the state.
update_usage : String → Bool → Db → Result Db
update_usage usage_id succeeded db = do
  usage ← update_automation_run_event usage_id succeeded db.usage
  ok (record db { usage = usage })

-- The state so far beside what a step raised: the `except` goes on from it.
abbrev pub Step : Type 0
Step = Result (Unit {0}) × Db

kept : Db → Result Db → Step
kept db (ok db') = (ok tt, db')
kept db (err e) = (err e, db)

then_step : Step → (Db → Step) → Step
then_step (ok done, db) next = next db
then_step (err e, db) next = (err e, db)

notify : Notification → Db → Db
notify n db = record db { notifications = db.notifications ++ n ∷ [] }

-- `describe` is `str` of an exception, `apps_of` the names of the apps of an automation's linked
-- accounts, `now` the time of the call. Sending a notification may fail and is caught, so only the
-- attempt is recorded.
module _ (describe : Exception → String) (apps_of : Automation → List String) (now : Time) where
  -- The inner `try`, after the executor has returned.
  notify_success : Automation → Db → Step
  unfolding notify
  notify_success automation db = (
    ok tt,
    if member "NOTIFYME" (apps_of automation)
        then db
        else notify (automation_completed automation.id) db,
  )

  finished : String → String → Automation → Option AutomationResult → Db → Step
  unfolding then_step kept update_usage notify_success
  finished run_id usage_id automation none db =
      then_step
        (kept db
          (finalize_run now run_id failure "Automation executor returned no output" none [] db))
        (λ db'. kept db' (update_usage usage_id false db'))
  finished run_id usage_id automation (some output) db =
      then_step
        (kept db (
          finalize_run now run_id (run_status output.status) output.automation_output none
            output.artifact_ids db))
        (λ db'.
          then_step (kept db' (update_usage usage_id true db'))
            (λ db''. notify_success automation db''))

  attempt : String → String → Outcome → Option Automation → Db → Step
  unfolding finished
  attempt run_id usage_id outcome none db = (err value_error, db)
  attempt run_id usage_id (err e) (some automation) db = (err e, db)
  attempt run_id usage_id (ok output) (some automation) db =
      finished run_id usage_id automation output db

  -- The notification of the `except`; where there is no automation, the log line before it raises.
  notify_failure : Option Automation → Db → Db
  unfolding notify
  notify_failure none db = db
  notify_failure (some automation) db = notify (automation_failed automation.id) db

  -- `except Exception as e`. What it raises itself is caught by the outer `except`.
  recover : String → String → String → Step → Db
  unfolding then_step kept update_usage notify_failure
  recover run_id usage_id automation_id (ok done, db) = db
  recover run_id usage_id automation_id (err e, db) =
      (then_step
        (then_step
          (kept db (
            finalize_run now run_id failure ("An unexpected error occurred: " <> describe e) none []
              db))
          (λ db'. kept db' (update_usage usage_id false db')))
        (λ db''. (ok tt, notify_failure (get_automation db'' automation_id) db''))).1

  execute_found : String → String → Outcome → Option AutomationRun → Db → Db
  unfolding attempt recover
  execute_found run_id usage_id outcome none db = db
  execute_found run_id usage_id outcome (some run) db =
      recover run_id usage_id run.automation_id
        (attempt run_id usage_id outcome (get_automation db run.automation_id) db)

  pub execute_automation : String → String → Outcome → Db → Db
  unfolding execute_found
  execute_automation run_id usage_id outcome db =
      execute_found run_id usage_id outcome (get_run db run_id) db
