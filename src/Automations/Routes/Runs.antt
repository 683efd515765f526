-- ===== src/Automations/Routes/Runs.antt =====
-- aci/server/routes/automation_runs.py: listing, reading and deleting the runs of an automation,
-- and downloading what a run left, with `list_runs_for_automation` and `delete_run` of aci/common/db/crud/automation_runs.py.
pub mod Laws
use autom.Prelude.{
  ℕ, String, Bool, true, false, not, Option, none, some, List, [], ◌∷◌, ◌==◌, keep, find, leb,
  member, if◌then◌else◌,
}
use autom.Prelude.Result.{
  Exception, value_error, http, attribute_error, Result, ok, err, ◌>>=◌, ◌>>◌, raise_if, or_raise,
}
use autom.Prelude.Rows.{remove_row}
use autom.Artifacts
use autom.Artifacts.{Files, Env, read_artifact, delete_from_storage}
use autom.Automations.{
  RunStatus, success, failure, in_progress, never_run, Automation, AutomationRun, Db,
  get_automation, get_run,
}
use autom.Automations.Crud.Lists.{limit, offset, order_by}

abbrev pub same_status : RunStatus → RunStatus → Bool
same_status success success = true
same_status failure failure = true
same_status in_progress in_progress = true
same_status never_run never_run = true
same_status _ _ = false

-- `if status: stmt.where(AutomationRun.status == status)`
abbrev pub has_status : Option RunStatus → AutomationRun → Bool
has_status none run = true
has_status (some status) run = same_status run.status status

unfoldable pub list_runs_for_automation :
    String → ℕ → ℕ → Option RunStatus → Db → List AutomationRun
list_runs_for_automation automation_id count skip status db = limit count (
    offset skip (
      order_by (λ a b. leb b.started_at a.started_at)
        (keep (has_status status) (keep (λ run. run.automation_id == automation_id) db.runs))))

-- A run without an automation has no `user_id` to read.
unfoldable pub get_run_and_verify_ownership : String → String → Db → Result AutomationRun
get_run_and_verify_ownership user_id run_id db = do
  run ← or_raise (http 404) (get_run db run_id)
  automation ← or_raise attribute_error (get_automation db run.automation_id)
  raise_if (not (automation.user_id == user_id)) (http 403)
  ok run

unfoldable pub list_runs_for_a_specific_automation :
    String → String → ℕ → ℕ → Option RunStatus → Db → Result (List AutomationRun)
list_runs_for_a_specific_automation user_id automation_id count skip status db = do
  automation ← or_raise (http 404) (get_automation db automation_id)
  raise_if (not (automation.user_id == user_id)) (http 404)
  ok (list_runs_for_automation automation_id count skip status db)

-- The artifacts of a run are deleted with it.
unfoldable pub delete_found : String → Option AutomationRun → Db → Db
delete_found run_id none db = db
delete_found run_id (some run) db = record db {
  runs = remove_row (λ r. r.id) run_id db.runs;
  artifacts = keep (λ f. not (member f.id run.artifacts)) db.artifacts;
}

unfoldable pub delete_run : String → Db → Db
delete_run run_id db = delete_found run_id (get_run db run_id) db

-- The body of the loop: what `delete_from_storage` raises is caught.
abbrev pub delete_file : Env → Artifacts.Artifact → Files → Files
delete_file env artifact files =
    elim (delete_from_storage env "artifacts" artifact.file_path files) [
      | ok deleted ↦ deleted
      | err e ↦ files
    ]

unfoldable pub delete_files : Env → List Artifacts.Artifact → Files → Files
delete_files env [] files = files
delete_files env (artifact ∷ rest) files = delete_files env rest (delete_file env artifact files)

-- `files` holds the columns of the artifacts that `Db` does not, and the bucket.
unfoldable pub delete_a_run : Env → String → String → Db → Files → Result (Db × Files)
delete_a_run env user_id run_id db files = do
  run ← get_run_and_verify_ownership user_id run_id db
  ok (
    delete_run run_id db,
    delete_files env (keep (λ a. member a.id run.artifacts) files.artifacts) files,
  )

-- `except ValueError: 404` and `except Exception: 500` of the download
abbrev pub status_of : Exception → ℕ
status_of value_error = 404
status_of _ = 500

abbrev pub or_http {ℓ} : {A : Type ℓ} → Result A → Result A
or_http (ok a) = ok a
or_http (err e) = err (http (status_of e))

-- The path whose content is streamed, its type and the name of the file.
unfoldable pub download_an_artifact_from_a_run :
    Env → String → String → String → Db → Files → Result (String × String × String)
download_an_artifact_from_a_run env user_id run_id artifact_id db files = do
  run ← get_run_and_verify_ownership user_id run_id db
  artifact ←
      or_raise (http 404)
        (find (λ a. a.id == artifact_id) (keep (λ a. member a.id run.artifacts) files.artifacts))
  content ← or_http (read_artifact env artifact_id (some user_id) files)
  ok (content.0, content.1, artifact.filename)
