-- ===== src/Automations/Execution/Laws.antt =====
-- What `execute_automation` leaves behind, for every outcome of the agent.
use autom.Prelude.{
  String, ◌≡◌, ◌≢◌, refl, sym, member, subst, Bool, true, false, Option, none, some, List, [],
  Bool-cases, inl, inr,
}
use Prim.Native.String.{◌++◌ as ◌<>◌}
use autom.Prelude.Result.{Exception, Result, ok, err, >>=-eq-ok}
use autom.Billing.{Time}
use autom.Billing.Usage.{UserUsage, update_automation_run_event}
use autom.Automations.{
  RunStatus, failure, in_progress, Automation, AutomationRun, Notification, automation_completed,
  automation_failed, Db, get_automation, get_run,
}
use autom.Automations.Runs.{finalized, finalize_run, check_owner, new_artifacts}
use autom.Automations.Runs.Laws.{finalize_run_total, finalize_run_passed, finalize_run_ok}
use autom.Automations.Execution.{
  AutomationResult, run_status, Outcome, Step, update_usage, kept, then_step, finished, attempt,
  recover, execute_found, notify, notify_failure, notify_success, execute_automation,
}
use autom.Automations.Execution.Over.{
  IsOver, HasRun, HasRun-IsOver, finalized-IsOver, run_status-final,
}

-- Where a step leaves the run: over if it returned, there at least if it raised.
After : String → String → Step → Type 0
After run_id automation_id (ok done, db) = IsOver run_id automation_id db
After run_id automation_id (err e, db) = HasRun run_id automation_id db

module _ {run_id automation_id : String} where
  kept-After :
      (db : Db) (r : Result Db)
      → HasRun run_id automation_id db
      → ((db' : Db) → r ≡ ok db' → IsOver run_id automation_id db')
      → After run_id automation_id (kept db r)
  unfolding kept After
  kept-After db (ok db') h k = k db' refl
  kept-After db (err e) h k = h

  then_step-After :
      (s : Step) (next : Db → Step)
      → After run_id automation_id s
      → ((db : Db) → IsOver run_id automation_id db → After run_id automation_id (next db))
      → After run_id automation_id (then_step s next)
  unfolding then_step After
  then_step-After (ok done, db) next h k = k db h
  then_step-After (err e, db) next h k = h

  update_usage-IsOver :
      (usage_id : String) (b : Bool) (db db' : Db)
      → IsOver run_id automation_id db
      → update_usage usage_id b db ≡ ok db'
      → IsOver run_id automation_id db'
  unfolding update_usage
  update_usage-IsOver usage_id b db db' h e =
      let (usage, updated, built) =
        >>=-eq-ok (update_automation_run_event usage_id b db.usage)
          (λ usage. ok (record db { usage = usage })) e in
      let same : record db { usage = usage } ≡ db' = cc built in
      subst (IsOver run_id automation_id) same record {
        run = h.run;
        found = h.found;
        status = h.status;
        of_automation = h.of_automation;
        freed = h.freed;
      }

  notify-IsOver :
      (n : Notification) (db : Db)
      → IsOver run_id automation_id db
      → IsOver run_id automation_id (notify n db)
  unfolding notify
  notify-IsOver n db h = record {
    run = h.run;
    found = h.found;
    status = h.status;
    of_automation = h.of_automation;
    freed = h.freed;
  }

  finalize_run-IsOver :
      (now : Time) (status : RunStatus) (message : String) (logs : Option String)
      (artifact_ids : List String) (db db' : Db)
      → status ≢ in_progress
      → HasRun run_id automation_id db
      → finalize_run now run_id status message logs artifact_ids db ≡ ok db'
      → IsOver run_id automation_id db'
  finalize_run-IsOver now status message logs artifact_ids db db' final (run, found, of) e =
      subst (IsOver run_id automation_id)
        (sym ((finalize_run_ok now run_id status message logs artifact_ids db run found db' e).1))
        (subst
          (λ i.
            IsOver run_id i
              (finalized now status message logs (new_artifacts artifact_ids run db) run db))
          of
          (finalized-IsOver now run_id status message logs (new_artifacts artifact_ids run db) run
            db final found))

  update_usage-After :
      (usage_id : String) (b : Bool) (db : Db)
      → IsOver run_id automation_id db
      → After run_id automation_id (kept db (update_usage usage_id b db))
  update_usage-After usage_id b db h =
      kept-After db (update_usage usage_id b db) (HasRun-IsOver h)
        (λ db' e. update_usage-IsOver usage_id b db db' h e)

module _ (run_id automation_id : String) where
  finalize_run-After :
      (now : Time) (status : RunStatus) (message : String) (artifact_ids : List String) (db : Db)
      → status ≢ in_progress
      → HasRun run_id automation_id db
      → After run_id automation_id
          (kept db (finalize_run now run_id status message none artifact_ids db))
  finalize_run-After now status message artifact_ids db final h =
      kept-After db (finalize_run now run_id status message none artifact_ids db) h
        (λ db' e. finalize_run-IsOver now status message none artifact_ids db db' final h e)

module _ (describe : Exception → String) (apps_of : Automation → List String) (now : Time)
    (run_id automation_id : String) where
  notify_success-After :
      (automation : Automation) (db : Db)
      → IsOver run_id automation_id db
      → After run_id automation_id (notify_success describe apps_of now automation db)
  unfolding notify_success After
  notify_success-After automation db h =
      elim (Bool-cases (member "NOTIFYME" (apps_of automation))) [
        | inl silent ↦ rw silent h
        | inr told ↦ rw told (notify-IsOver (automation_completed automation.id) db h)
      ]

  finished-After :
      (usage_id : String) (automation : Automation) (output : Option AutomationResult) (db : Db)
      → HasRun run_id automation_id db
      → After run_id automation_id
          (finished describe apps_of now run_id usage_id automation output db)
  unfolding finished
  finished-After usage_id automation none db h =
      then_step-After _ _
        (finalize_run-After run_id automation_id now failure _ [] db (run_status-final false) h)
        (λ db' over. update_usage-After usage_id false db' over)
  finished-After usage_id automation (some output) db h =
      then_step-After _ _
        (finalize_run-After run_id automation_id now (run_status output.status)
          output.automation_output output.artifact_ids db (run_status-final output.status) h)
        (λ db' over.
          then_step-After _ _ (update_usage-After usage_id true db' over)
            (λ db'' over'. notify_success-After automation db'' over'))

  attempt-After :
      (usage_id : String) (outcome : Outcome) (automation : Option Automation) (db : Db)
      → HasRun run_id automation_id db
      → After run_id automation_id
          (attempt describe apps_of now run_id usage_id outcome automation db)
  unfolding attempt After
  attempt-After usage_id outcome none db h = h
  attempt-After usage_id (err e) (some automation) db h = h
  attempt-After usage_id (ok output) (some automation) db h =
      finished-After usage_id automation output db h

  notify_failure-IsOver :
      (automation : Option Automation) (db : Db)
      → IsOver run_id automation_id db
      → IsOver run_id automation_id (notify_failure describe apps_of now automation db)
  unfolding notify_failure
  notify_failure-IsOver none db h = h
  notify_failure-IsOver (some automation) db h =
      notify-IsOver (automation_failed automation.id) db h

  -- A step whose failure leaves the state as it is, and a notification after it.
  last_step-IsOver :
      (db : Db) (r : Result Db)
      → IsOver run_id automation_id db
      → ((db' : Db) → r ≡ ok db' → IsOver run_id automation_id db')
      → IsOver run_id automation_id (
          (then_step (kept db r) (λ db'.
            (ok tt, notify_failure describe apps_of now (get_automation db' automation_id) db'))).1)
  unfolding then_step kept
  last_step-IsOver db (ok db') h k =
      notify_failure-IsOver (get_automation db' automation_id) db' (k db' refl)
  last_step-IsOver db (err e) h k = h

  recover-IsOver :
      (usage_id : String) (s : Step)
      → After run_id automation_id s
      → IsOver run_id automation_id (recover describe apps_of now run_id usage_id automation_id s)
  unfolding recover After
  recover-IsOver usage_id (ok done, db) h = h
  recover-IsOver usage_id (err e, db) (run, found, of) =
      let message = "An unexpected error occurred: " <> describe e in
      let final = finalized now failure message none [] run db in
      let over : IsOver run_id automation_id final =
        finalize_run-IsOver now failure message none [] db final (run_status-final false)
          (run, found, of) (finalize_run_total now run_id failure message none db run found) in
      rw (finalize_run_total now run_id failure message none db run found, recover)
        (unfold kept then_step in
          last_step-IsOver final (update_usage usage_id false final) over
            (λ db' e. update_usage-IsOver usage_id false final db' over e))

-- If the run is there when the task starts and no commit fails, then when the task ends, whatever the agent did (it
-- returned a result of either status, returned None or raised) and whether or not the artifacts,
-- the usage row and the automation are there, the run is there with a status other than
-- `in_progress`, and its automation, if there is one, has a last status other than `in_progress`.
pub execute_automation-IsOver :
    (describe : Exception → String) (apps_of : Automation → List String) (now : Time)
    (run_id usage_id : String) (outcome : Outcome) (db : Db) (run : AutomationRun)
    → get_run db run_id ≡ some run
    → IsOver run_id run.automation_id
        (execute_automation describe apps_of now run_id usage_id outcome db)
unfolding execute_automation execute_found
execute_automation-IsOver describe apps_of now run_id usage_id outcome db run found = rw found (
    recover-IsOver describe apps_of now run_id run.automation_id usage_id _ (
      attempt-After describe apps_of now run_id run.automation_id usage_id outcome
        (get_automation db run.automation_id) db (run, found, refl)))

-- If the run and its automation are there, the agent returned a result, of either status, whose
-- artifacts pass the check of the owner, and marking the usage row as a success succeeds, then the
-- usage afterwards is the one in which the row is marked as a success.
pub execute_automation_usage :
    (describe : Exception → String) (apps_of : Automation → List String) (now : Time)
    (run_id usage_id : String) (output : AutomationResult) (db : Db) (run : AutomationRun)
    (a : Automation) (usage : List UserUsage)
    → get_run db run_id ≡ some run
    → get_automation db run.automation_id ≡ some a
    → check_owner (some a) (new_artifacts output.artifact_ids run db) ≡ ok tt
    → update_automation_run_event usage_id true db.usage ≡ ok usage
    → (execute_automation describe apps_of now run_id usage_id (ok (some output)) db).usage ≡ usage
unfolding execute_automation execute_found
execute_automation_usage describe apps_of now run_id usage_id output db run a usage found owner
      owned updated =
    rw (found, execute_found)
      (rw (owner, attempt)
        (unfold finished kept then_step recover notify in
          rw
            (
              finalize_run_passed now run_id (run_status output.status) output.automation_output
                  none output.artifact_ids db run found (rw owner owned),
              updated,
              update_usage,
            )
            (elim (Bool-cases (member "NOTIFYME" (apps_of a))) [
              | inl silent ↦ rw silent refl
              | inr told ↦ rw told refl
            ])))

pub execute_automation-missing :
    (describe : Exception → String) (apps_of : Automation → List String) (now : Time)
    (run_id usage_id : String) (outcome : Outcome) (db : Db)
    → get_run db run_id ≡ none
    → execute_automation describe apps_of now run_id usage_id outcome db ≡ db
unfolding execute_automation execute_found
execute_automation-missing describe apps_of now run_id usage_id outcome db missing = rw missing refl
