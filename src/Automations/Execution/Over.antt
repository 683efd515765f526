-- ===== src/Automations/Execution/Over.antt =====
-- A run that `finalize_run` has ended: it and its automation are no longer in progress.
use autom.Prelude.{
  String, ◌≡◌, ◌≢◌, refl, ap, sym, subst, ◌∙◌, Bool, true, false, Option, none, some, List, arith,
  eq_refl,
}
use mathlib.Core.Option
use mathlib.Core.Option.{some-injective}
use autom.Prelude.Rows.{
  find_row, update_row, find_row-update_found, find_row-update_row, key-find_row,
}
use autom.Billing.{Time}
use autom.Automations.{
  Artifact, RunStatus, in_progress, Automation, AutomationRun, Db, get_automation, get_run,
}
use autom.Automations.Runs.{finalized, finish, last_run}
use autom.Automations.Execution.{run_status}

-- The run is there and no longer in progress, and so is its automation, if it has one.
pub record IsOver (run_id automation_id : String) (db : Db) : Type 0 where
  pub run : AutomationRun
  pub found : get_run db run_id ≡ some run
  pub status : run.status ≢ in_progress
  pub of_automation : run.automation_id ≡ automation_id
  pub freed :
      (a : Automation) → get_automation db automation_id ≡ some a → a.last_run_status ≢ in_progress

-- The run is there, whatever its status.
abbrev pub HasRun : String → String → Db → Type 0
HasRun run_id automation_id db =
    (run : AutomationRun) × (get_run db run_id ≡ some run) × (run.automation_id ≡ automation_id)

pub HasRun-IsOver :
    {run_id automation_id : String} {db : Db}
    → IsOver run_id automation_id db
    → HasRun run_id automation_id db
HasRun-IsOver h = (h.run, h.found, h.of_automation)

status-map :
    (status : RunStatus) (now : Time) (o : Option Automation) (a : Automation)
    → Option.map (last_run status now) o ≡ some a
    → a.last_run_status ≡ status
status-map status now none a h = absurd (ground arith)
status-map status now (some b) a h =
    ap (λ (x : Automation). x.last_run_status) (sym (some-injective _ a h))

pub finalized-IsOver :
    (now : Time) (run_id : String) (status : RunStatus) (message : String) (logs : Option String)
    (added : List Artifact) (run : AutomationRun) (db : Db)
    → status ≢ in_progress
    → get_run db run_id ≡ some run
    → IsOver run_id run.automation_id (finalized now status message logs added run db)
finalized-IsOver now run_id status message logs added run db final found =
    let f = finish status message logs now added in
    record {
      run = f run;
      found =
          subst
            (λ k. find_row (λ r. r.id) run_id (update_row (λ r. r.id) k f db.runs) ≡ some (f run))
            (sym (key-find_row (λ r. r.id) run_id db.runs found))
            (find_row-update_found (λ r. r.id) run_id run_id f db.runs run (λ r. refl) found
              ∙ rw (eq_refl run_id) refl);
      status = final;
      of_automation = refl;
      freed = λ a h e. final (
          sym (
            status-map status now (get_automation db run.automation_id) a (
              sym (
                find_row-update_row (λ x. x.id) run.automation_id run.automation_id
                  (last_run status now) db.automations (λ x. refl)
                ∙ rw (eq_refl run.automation_id) refl)
              ∙ h))
          ∙ e);
    }

pub run_status-final : (b : Bool) → run_status b ≢ in_progress
run_status-final true = λ h. absurd (ground arith)
run_status-final false = λ h. absurd (ground arith)
