-- ===== src/Automations/Worker.antt =====
-- The beat and the tasks together: the queue that `schedule_due_automations` fills is worked off by
-- `execute_automation`, both of aci/server/tasks/tasks.py. huey runs every task that was queued once;
-- here they run one after another, in the order of the queue.
pub mod Laws
use autom.Prelude.{String, ◌≡◌, ◌≢◌, true, some, List, [], ◌∷◌, map, member}
use autom.Prelude.Result.{Exception}
use autom.Billing.{Time}
use autom.Automations.{in_progress, Automation, AutomationRun, Db, get_run}
use autom.Automations.Execution.{Outcome, execute_automation}

-- The ids of the runs of the tasks.
abbrev pub runs_in : List (String × String) → List String
runs_in tasks = map (λ task. task.0) tasks

-- Every run that is in progress is one of these.
abbrev pub ArePending : List String → Db → Type 0
ArePending ids db =
    (j : String) (run : AutomationRun)
    → get_run db j ≡ some run
    → run.status ≡ in_progress
    → member j ids ≡ true

-- Every run that is in progress has a task in the queue.
abbrev pub AreQueued : Db → Type 0
AreQueued db = ArePending (runs_in db.queue) db

-- No run is in progress.
pub record AreEnded (db : Db) : Type 0 where
  pub ended :
      (run_id : String) (run : AutomationRun)
      → get_run db run_id ≡ some run
      → run.status ≢ in_progress

-- `outcome` is what the agent does in a run.
module _ (describe : Exception → String) (apps_of : Automation → List String) (now : Time)
    (outcome : String → Outcome) where
  pub run_tasks : List (String × String) → Db → Db
  run_tasks [] db = db
  run_tasks ((run_id, usage_id) ∷ tasks) db =
      run_tasks tasks (execute_automation describe apps_of now run_id usage_id (outcome run_id) db)

  abbrev pub work_off : Db → Db
  work_off db = run_tasks db.queue (record db { queue = [] })
