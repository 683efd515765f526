-- ===== src/Automations/Execution/Keeps.antt =====
-- What every call that `execute_automation` makes keeps, the whole task keeps.
use autom.Prelude.{
  String, ◌≡◌, ◌≢◌, refl, sym, ap, Bool, true, false, Option, none, some, List, [], Bool-cases,
  Option-cases, inl, inr, member,
}
use Prim.Native.String.{◌++◌ as ◌<>◌}
use autom.Billing.Usage.{update_automation_run_event}
use autom.Prelude.Result.{Exception, Result, ok, err, ok-eq, >>=-eq-ok}
use autom.Billing.{Time}
use autom.Automations.{RunStatus, in_progress, failure, Automation, Db, get_automation, get_run}
use autom.Automations.Runs.{finalize_run}
use autom.Automations.Execution.{
  AutomationResult, run_status, Outcome, Step, update_usage, kept, then_step, finished, attempt,
  recover, execute_found, notify, notify_failure, notify_success, execute_automation,
}
use autom.Automations.Execution.Over.{run_status-final}

-- What a step leaves has a property.
Leaves : (Db → Type 0) → Step → Type 0
Leaves P s = P s.1

module _ (P : Db → Type 0) where
  kept-Leaves :
      (db : Db) (r : Result Db) → P db → ((db' : Db) → r ≡ ok db' → P db') → Leaves P (kept db r)
  unfolding kept Leaves
  kept-Leaves db (ok db') h k = k db' refl
  kept-Leaves db (err e) h k = h

  then_step-Leaves :
      (s : Step) (next : Db → Step)
      → Leaves P s
      → ((db : Db) → P db → Leaves P (next db))
      → Leaves P (then_step s next)
  unfolding then_step Leaves
  then_step-Leaves (ok done, db) next h k = k db h
  then_step-Leaves (err e, db) next h k = h

-- `P` is about the runs and the automations, and finalizing a run keeps it.
module _ (P : Db → Type 0) (describe : Exception → String) (apps_of : Automation → List String)
    (now : Time)
    (finalizes : (run_id : String) (status : RunStatus) (message : String)
        (artifact_ids : List String) (db db' : Db)
      → status ≢ in_progress
      → P db
      → finalize_run now run_id status message none artifact_ids db ≡ ok db'
      → P db')
    (depends : (db db' : Db)
      → db'.runs ≡ db.runs
      → db'.automations ≡ db.automations
      → P db
      → P db') where
  finalize-Leaves :
      (run_id : String) (status : RunStatus) (message : String) (artifact_ids : List String)
      (db : Db)
      → status ≢ in_progress
      → P db
      → Leaves P (kept db (finalize_run now run_id status message none artifact_ids db))
  finalize-Leaves run_id status message artifact_ids db final h =
      kept-Leaves P db _ h (λ db' e. finalizes run_id status message artifact_ids db db' final h e)

  count-Leaves :
      (usage_id : String) (b : Bool) (db : Db)
      → P db
      → Leaves P (kept db (update_usage usage_id b db))
  unfolding update_usage
  count-Leaves usage_id b db h = kept-Leaves P db _ h (λ db' e.
      let (usage, updated, built) =
        >>=-eq-ok (update_automation_run_event usage_id b db.usage)
          (λ usage. ok (record db { usage = usage })) e in
      depends db db' (sym (ap (λ x. x.runs) (ok-eq built)))
        (sym (ap (λ x. x.automations) (ok-eq built))) h)

  notify_success-Leaves :
      (automation : Automation) (db : Db)
      → P db
      → Leaves P (notify_success describe apps_of now automation db)
  unfolding notify_success Leaves notify
  notify_success-Leaves automation db h =
      elim (Bool-cases (member "NOTIFYME" (apps_of automation))) [
        | inl silent ↦ rw silent h
        | inr told ↦ rw told (depends db _ refl refl h)
      ]

  finished-Leaves :
      (run_id usage_id : String) (automation : Automation) (output : Option AutomationResult)
      (db : Db)
      → P db
      → Leaves P (finished describe apps_of now run_id usage_id automation output db)
  unfolding finished
  finished-Leaves run_id usage_id automation none db h =
      then_step-Leaves P _ _ (finalize-Leaves run_id failure _ [] db (run_status-final false) h)
        (λ db' k. count-Leaves usage_id false db' k)
  finished-Leaves run_id usage_id automation (some output) db h =
      then_step-Leaves P _ _
        (finalize-Leaves run_id (run_status output.status) output.automation_output
          output.artifact_ids db (run_status-final output.status) h)
        (λ db' k.
          then_step-Leaves P _ _ (count-Leaves usage_id true db' k)
            (λ db'' l. notify_success-Leaves automation db'' l))

  attempt-Leaves :
      (run_id usage_id : String) (outcome : Outcome) (automation : Option Automation) (db : Db)
      → P db
      → Leaves P (attempt describe apps_of now run_id usage_id outcome automation db)
  unfolding attempt Leaves
  attempt-Leaves run_id usage_id outcome none db h = h
  attempt-Leaves run_id usage_id (err e) (some automation) db h = h
  attempt-Leaves run_id usage_id (ok output) (some automation) db h =
      finished-Leaves run_id usage_id automation output db h

  notified-Leaves :
      (automation : Option Automation) (db : Db)
      → P db
      → Leaves P (ok tt, notify_failure describe apps_of now automation db)
  unfolding notify_failure notify Leaves
  notified-Leaves none db h = h
  notified-Leaves (some automation) db h = depends db _ refl refl h

  recover-keeps :
      (run_id usage_id automation_id : String) (s : Step)
      → Leaves P s
      → P (recover describe apps_of now run_id usage_id automation_id s)
  unfolding recover Leaves
  recover-keeps run_id usage_id automation_id (ok done, db) h = h
  recover-keeps run_id usage_id automation_id (err e, db) h = failed e db h
    where
      failed :
          (e : Exception) (db : Db)
          → P db
          → Leaves P (
              then_step
                (then_step
                  (kept db (
                    finalize_run now run_id failure
                      ("An unexpected error occurred: " <> describe e)
                      none
                      []
                      db))
                  (λ db'. kept db' (update_usage usage_id false db')))
                (λ db''. (
                  ok tt,
                  notify_failure describe apps_of now (get_automation db'' automation_id) db'',
                )))
      failed e db h =
          then_step-Leaves P _ _
            (then_step-Leaves P _ _
              (finalize-Leaves run_id failure _ [] db (run_status-final false) h)
              (λ db' k. count-Leaves usage_id false db' k))
            (λ db' k. notified-Leaves (get_automation db' automation_id) db' k)

  -- The task keeps it.
  pub execute_automation-keeps :
      (run_id usage_id : String) (outcome : Outcome) (db : Db)
      → P db
      → P (execute_automation describe apps_of now run_id usage_id outcome db)
  unfolding execute_automation execute_found
  execute_automation-keeps run_id usage_id outcome db h = elim (Option-cases (get_run db run_id)) [
    | inl missing ↦ rw missing h
    | inr (run, found) ↦ rw found (
        recover-keeps run_id usage_id run.automation_id _
          (attempt-Leaves run_id usage_id outcome (get_automation db run.automation_id) db h))
  ]
