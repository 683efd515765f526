-- ===== src/Automations/Runs.antt =====
-- aci/common/db/crud/automation_runs.py: a run is created in progress and finalized with a status.
pub mod Laws
pub mod Owned
use autom.Prelude.{
  ℕ, String, Bool, true, false, not, Option, none, some, List, [], ◌∷◌, ◌++◌, map, ◌==◌, member,
  keep, if◌then◌else◌,
}
use autom.Prelude.Result.{
  Exception, value_error, attribute_error, Result, ok, err, ◌>>=◌, ◌>>◌, raise_if,
}
use autom.Billing.{Time}
use autom.Automations.{
  RunStatus, in_progress, Automation, AutomationRun, Artifact, Db, get_automation, get_run,
  set_automation, set_run,
}

-- `automation.last_run_status = …; automation.last_run_at = …`
abbrev pub last_run : RunStatus → Time → Automation → Automation
last_run status time automation = record automation {
  last_run_status = status;
  last_run_at = some time;
}

-- The run that `create_run` adds; its id is the default of the column and is given here.
abbrev pub new_run : String → Time → String → AutomationRun
new_run run_id start_time automation_id = record {
  id = run_id;
  automation_id = automation_id;
  status = in_progress;
  message = "";
  logs = none;
  started_at = start_time;
  finished_at = none;
  artifacts = [];
}

create_found : String → Time → String → Option Automation → Db → Result Db
create_found run_id start_time automation_id none db = err value_error
create_found run_id start_time automation_id (some automation) db = ok (
    set_automation automation_id (last_run in_progress start_time)
      (record db { runs = new_run run_id start_time automation_id ∷ db.runs }))

unfoldable pub create_run : String → Time → String → Db → Result Db
unfolding create_found
create_run run_id start_time automation_id db =
    create_found run_id start_time automation_id (get_automation db automation_id) db

-- The loop over the new artifacts: one of another owner is refused. `run.automation` is none where
-- the run has no automation.
unfoldable pub check_owner : Option Automation → List Artifact → Result (Unit {0})
check_owner owner [] = ok tt
check_owner none (artifact ∷ rest) = err attribute_error
check_owner (some automation) (artifact ∷ rest) = do
  raise_if (not (artifact.user_id == automation.user_id)) value_error
  check_owner (some automation) rest

-- The artifacts to append: those of `artifact_ids` that the run does not have yet and that exist.
unfoldable pub new_artifacts : List String → AutomationRun → Db → List Artifact
new_artifacts artifact_ids run db =
    let new_ids = keep (λ aid. not (member aid run.artifacts)) artifact_ids in
    keep (λ artifact. member artifact.id new_ids) db.artifacts

-- `run.status = …` down to `run.logs = …`, after the artifacts were appended.
abbrev pub finish :
    RunStatus → String → Option String → Time → List Artifact → AutomationRun → AutomationRun
finish status message logs finish_time added run = record run {
  status = status;
  message = message;
  finished_at = some finish_time;
  logs = elim logs [ none ↦ run.logs | some l ↦ some l ];
  artifacts = run.artifacts ++ map (λ a. a.id) added;
}

-- Both rows after the assignments. An artifact of another run is appended here too, and in the model
-- the list of that run keeps its id.
abbrev pub finalized :
    Time → RunStatus → String → Option String → List Artifact → AutomationRun → Db → Db
finalized finish_time status message logs added run db =
    set_automation run.automation_id (last_run status finish_time)
      (set_run run.id (finish status message logs finish_time added) db)

finalize_found :
    Time → RunStatus → String → Option String → List String → Option AutomationRun → Db → Result Db
finalize_found finish_time status message logs artifact_ids none db = err value_error
finalize_found finish_time status message logs artifact_ids (some run) db =
    let added = new_artifacts artifact_ids run db in
    do
      check_owner (get_automation db run.automation_id) added
      ok (finalized finish_time status message logs added run db)

-- `artifact_ids` of None and of [] do the same.
unfoldable pub finalize_run :
    Time → String → RunStatus → String → Option String → List String → Db → Result Db
unfolding finalize_found
finalize_run finish_time run_id status message logs artifact_ids db =
    finalize_found finish_time status message logs artifact_ids (get_run db run_id) db
