-- ===== src/Automations/Tests.antt =====
-- The laws of the automations at one user, two automations and a few runs.
use autom.Prelude.{
  member, find, String, ◌≡◌, ◌≤◌, refl, true, false, Option, none, some, List, [], ◌∷◌, arith, keep,
  All, Bool-cases, inl, inr, ◌==◌,
}
use autom.Prelude.Result.{Exception, value_error, Result, ok, err}
use autom.Prelude.Rows.{find_row, update_row, remove_row}
use autom.Artifacts
use autom.Artifacts.{read_artifact}
use autom.Billing.{active, Time, SupabaseUser}
use autom.Billing.Usage.{
  UserUsage, automation_run_event, update_automation_run_event, get_usage_between_dates,
}
use autom.Billing.Limits.{PlanLimits, Plans, loaded, get_user_limits, usage_in_period}
use autom.Automations.{
  success, never_run, Automation, AutomationRun, Artifact, Db, get_automation, get_run,
}
use autom.Automations.Runs.{
  new_run, create_run, check_owner, new_artifacts, finalized, finalize_run,
}
use autom.Automations.Runs.Owned.{AreOwned, finalize_run-AreOwned}
use autom.Automations.Due.{get_due_recurring_automations}
use autom.Automations.Due.Laws.{is_due, get_due-keep}
use autom.Automations.Scheduler.{Env, start_run, process_all, schedule_due_automations}
use autom.Automations.Scheduler.Laws.{started_not_due, start_run_orphan}
use autom.Automations.Scheduler.Limit.{used, process_all_within}
use autom.Automations.Execution.{AutomationResult, Outcome, execute_automation}
use autom.Automations.Execution.Over.{IsOver}
use autom.Automations.Execution.Laws.{execute_automation-IsOver, execute_automation_usage}
use autom.Automations.Routes.Runs.{
  delete_a_run, get_run_and_verify_ownership, delete_run, delete_found, delete_files,
  download_an_artifact_from_a_run,
}
use autom.Automations.Routes.Runs.Laws.{delete_a_run_lem, download_an_artifact_from_a_run_lem}
use autom.Automations.Worker.{AreQueued, AreEnded, work_off}
use autom.Automations.Worker.Laws.{beat_ends_runs}

abbrev daily : Automation
daily = record {
  id = "a1";
  user_id = "u1";
  name = "Daily mail";
  description = none;
  goal = "Send the mail";
  is_deep = false;
  is_recurring = true;
  cron_schedule = some "0 9 * * *";
  active = true;
  last_run_at = none;
  last_run_status = never_run;
  linked_account_ids = [];
}

abbrev weekly : Automation
weekly = record daily { id = "a2"; name = "Weekly mail" }

abbrev run : AutomationRun
run = new_run "r1" 100 "a1"

abbrev report : Artifact
report = record { id = "f1"; user_id = "u1" }

abbrev usage : List UserUsage
unfolding automation_run_event
usage = automation_run_event "g1" 100 "u1" true ∷ []

abbrev marked : List UserUsage
unfolding automation_run_event
marked = automation_run_event "g1" 100 "u1" true ∷ []

abbrev idle : Db
idle = record {
  automations = daily ∷ weekly ∷ [];
  runs = [];
  artifacts = report ∷ [];
  usage = [];
  queue = [];
  notifications = [];
}

-- The run `r1` of the first automation has begun.
abbrev begun : Db
begun = record idle { runs = run ∷ []; usage = usage; queue = ("r1", "g1") ∷ [] }

daily_found : get_automation idle "a1" ≡ some daily
unfolding find_row
daily_found = refl

run_found : get_run begun "r1" ≡ some run
unfolding find_row
run_found = refl

owner_found : get_automation begun "a1" ≡ some daily
unfolding find_row
owner_found = refl

abbrev ended : Db
ended = finalized 200 success "done" none (report ∷ []) run begun

finalize_run_ended : finalize_run 200 "r1" success "done" none ("f1" ∷ []) begun ≡ ok ended
unfolding finalize_run find_row new_artifacts check_owner
finalize_run_ended = refl

finalize_run-AreOwned_example :
    (run' : AutomationRun) × (get_run ended "r1" ≡ some run') × AreOwned ended "u1" run'.artifacts
finalize_run-AreOwned_example =
    finalize_run-AreOwned 200 "r1" success "done" none ("f1" ∷ []) begun ended run daily run_found
      owner_found tt finalize_run_ended

-- croniter: every schedule was last due at 50, or every schedule is refused.
abbrev last_due : String → Time → Time
last_due schedule now = 50

abbrev get_prev : String → Time → Result Time
get_prev schedule now = ok 50

abbrev refused : String → Time → Result Time
refused schedule now = err value_error

get_due-keep_example :
    get_due_recurring_automations (λ schedule time. ok (last_due schedule time)) 60 idle
    ≡ ok (keep (is_due last_due 60) idle.automations)
get_due-keep_example = get_due-keep last_due 60 idle

abbrev env : Env
env = record {
  now = 100;
  run_id = "r1";
  usage_id = "g1";
  deactivation_fails = false;
  run_fails = false;
  usage_fails = false;
  enqueue_fails = false;
}

abbrev no_usage : Env
no_usage = record env { usage_fails = true }

due_after :
    get_due_recurring_automations get_prev 160 (start_run no_usage daily idle) ≡ ok (weekly ∷ [])
unfolding get_due_recurring_automations start_run create_run find_row update_row
due_after = refl

started_not_due_example : All (λ (x : Automation). (x.id == "a1") ≡ false) (weekly ∷ [])
started_not_due_example =
    started_not_due no_usage daily idle daily_found refl get_prev 160 (weekly ∷ []) due_after

start_run_orphan_example :
    (get_run (start_run no_usage daily idle) "r1" ≡ some (new_run "r1" 100 "a1"))
    × ((start_run no_usage daily idle).queue ≡ [])
start_run_orphan_example = start_run_orphan no_usage daily idle daily_found refl (inl refl)

abbrev limits : PlanLimits
limits = record {
  max_automations = some 10;
  max_automation_runs = some 1;
  max_voice_agent_minutes = some 60;
}

abbrev plans : Plans
plans =
    loaded (λ product. some (record { interval = some "month"; paid = some limits; trial = none }))

abbrev visitor : SupabaseUser
visitor = record {
  id = "u1";
  subscription_status = none;
  subscription_product_id = none;
  subscription_expires_at = none;
  subscription_period_starts_at = none;
  trial_ends_at = none;
  is_trial = false;
}

abbrev subscriber : SupabaseUser
subscriber = record visitor {
  subscription_status = some active;
  subscription_product_id = some "pro";
  subscription_period_starts_at = some 0;
  subscription_expires_at = some 1000;
}

abbrev a_visitor : String → Option SupabaseUser
a_visitor user_id = some visitor

abbrev a_subscriber : String → Option SupabaseUser
a_subscriber user_id = some subscriber

plan_of_subscriber : get_user_limits plans subscriber ≡ ok (limits, "month")
unfolding get_user_limits
plan_of_subscriber = refl

nothing_used : used subscriber idle ≤ 1
unfolding usage_in_period get_usage_between_dates
nothing_used = omega arith

process_all_within_example :
    used subscriber (process_all plans a_subscriber (λ id. env) get_prev (daily ∷ weekly ∷ []) idle)
    ≤ 1
process_all_within_example =
    process_all_within plans a_subscriber (λ id. env) get_prev subscriber (limits, "month") refl
      plan_of_subscriber (daily ∷ weekly ∷ []) idle nothing_used

abbrev describe : Exception → String
describe e = "no such tool"

abbrev apps_of : Automation → List String
apps_of automation = []

execute_automation-IsOver_example :
    IsOver "r1" "a1" (execute_automation describe apps_of 200 "r1" "g1" (err value_error) begun)
execute_automation-IsOver_example =
    execute_automation-IsOver describe apps_of 200 "r1" "g1" (err value_error) begun run run_found

-- The agent says that it failed.
abbrev gave_up : AutomationResult
gave_up = record {
  status = false;
  automation_output = "The mailbox is full";
  artifact_ids = "f1" ∷ [];
}

owned : check_owner (some daily) (new_artifacts ("f1" ∷ []) run begun) ≡ ok tt
unfolding check_owner new_artifacts
owned = refl

update_lem : update_automation_run_event "g1" true usage ≡ ok marked
unfolding update_automation_run_event automation_run_event
update_lem = refl

execute_automation_usage_example :
    (execute_automation describe apps_of 200 "r1" "g1" (ok (some gave_up)) begun).usage ≡ marked
execute_automation_usage_example =
    execute_automation_usage describe apps_of 200 "r1" "g1" gave_up begun run daily marked run_found
      owner_found owned update_lem

begun-AreQueued : AreQueued begun
unfolding find_row
begun-AreQueued j other found started = elim (Bool-cases ("r1" == j)) [
  | inl hit ↦ ground (arith, hit)
  | inr miss ↦ absurd (ground (arith, rw miss at found))
]

abbrev env_of : String → Env
env_of automation_id = record env { run_id = automation_id; usage_id = automation_id }

beat_ends_runs_example : AreEnded (
    work_off describe apps_of 200
      (λ run_id. err value_error)
      (schedule_due_automations plans a_subscriber env_of get_prev 160 begun))
beat_ends_runs_example =
    beat_ends_runs describe apps_of 200 (λ run_id. err value_error) plans a_subscriber env_of
      get_prev (λ id. refl) (λ id. refl) 160 begun begun-AreQueued

abbrev storage : Artifacts.Env
storage = record {
  storage_fails = false;
  mime_type = "text/plain";
  now = 100;
  new_id = "f2";
  new_uuid = "x";
}

abbrev no_files : Artifacts.Files
no_files = record { artifacts = []; bucket = [] }

abbrev without_run : Db
without_run = record begun { runs = [] }

abbrev after_deletion : Db × Artifacts.Files
after_deletion = (without_run, no_files)

deletes : delete_a_run storage "u1" "r1" begun no_files ≡ ok after_deletion
unfolding delete_a_run get_run_and_verify_ownership delete_run delete_found delete_files find_row
    remove_row
deletes = refl

delete_a_run_lem_example :
    (get_run without_run "r1" ≡ none)
    × ((j : String) → ("r1" == j) ≡ false → get_run without_run j ≡ get_run begun j)
    × (without_run.automations ≡ begun.automations)
    × ((describe : Exception → String) (apps_of : Automation → List String) (now : Time)
          (usage_id : String) (outcome : Outcome)
        → execute_automation describe apps_of now "r1" usage_id outcome without_run ≡ without_run)
delete_a_run_lem_example = delete_a_run_lem storage "u1" "r1" begun no_files after_deletion deletes

-- The run with one artifact, and the row and the object of it.
abbrev with_report : Db
with_report = record begun { runs = (record run { artifacts = "f1" ∷ [] }) ∷ [] }

abbrev report_row : Artifacts.Artifact
report_row = record {
  id = "f1";
  file_path = "u1/x-report.txt";
  filename = "report.txt";
  user_id = "u1";
  mime_type = "text/plain";
  size_bytes = 2;
  expires_at = some 900;
  run_id = some "r1";
}

abbrev report_files : Artifacts.Files
report_files = record {
  artifacts = report_row ∷ [];
  bucket = (record { path = "u1/x-report.txt"; content = 104 ∷ 105 ∷ [] }) ∷ [];
}

abbrev content_read : String × String × String
content_read = ("u1/x-report.txt", "text/plain", "report.txt")

downloads :
    download_an_artifact_from_a_run storage "u1" "r1" "f1" with_report report_files
    ≡ ok content_read
unfolding download_an_artifact_from_a_run get_run_and_verify_ownership read_artifact find_row
downloads = refl

download_an_artifact_from_a_run_lem_example :
    (r : AutomationRun) × (automation : Automation) × (a : Artifacts.Artifact) × (get_run
        with_report "r1"
      ≡ some r)
    × (get_automation with_report r.automation_id ≡ some automation)
    × ((automation.user_id == "u1") ≡ true)
    × (member "f1" r.artifacts ≡ true)
    × (find (λ (x : Artifacts.Artifact). x.id == "f1") report_files.artifacts ≡ some a)
    × ((a.user_id == "u1") ≡ true)
    × (content_read ≡ (a.file_path, a.mime_type, a.filename))
download_an_artifact_from_a_run_lem_example =
    download_an_artifact_from_a_run_lem storage "u1" "r1" "f1" with_report report_files content_read
      downloads
