-- ===== src/Automations/Worker/Laws.antt =====
-- When the queue is worked off, no run is in progress.
use autom.Prelude.{
  String, ◌≡◌, ◌≢◌, refl, sym, ap, subst, ◌∙◌, false, Option, none, some, List, [], ◌∷◌, arith,
  ◌==◌, Bool-cases, Option-cases, inl, inr, eq_iff,
}
use mathlib.Core.Option
use mathlib.Core.Option.{some-injective}
use autom.Prelude.Result.{Exception, Result, ok}
use autom.Prelude.Rows.{find_row, find_row-update_row}
use autom.Billing.{Time, SupabaseUser}
use autom.Billing.Limits.{Plans}
use autom.Automations.{RunStatus, in_progress, Automation, AutomationRun, Artifact, Db, get_run}
use autom.Automations.Runs.{finalized, finish, finalize_run, new_artifacts}
use autom.Automations.Runs.Laws.{finalize_run_ok, finalize_run-found}
use autom.Automations.Scheduler.{Env, schedule_due_automations}
use autom.Automations.Scheduler.Queued.{schedule-AreQueued}
use autom.Automations.Execution.{Outcome, execute_automation}
use autom.Automations.Execution.Laws.{execute_automation-IsOver, execute_automation-missing}
use autom.Automations.Execution.Keeps.{execute_automation-keeps}
use autom.Automations.Worker.{runs_in, ArePending, AreQueued, AreEnded, run_tasks, work_off}

finish_status :
    (status : RunStatus) (message : String) (logs : Option String) (time : Time)
    (added : List Artifact) (o : Option AutomationRun) (run : AutomationRun)
    → Option.map (finish status message logs time added) o ≡ some run
    → run.status ≡ status
finish_status status message logs time added none run h = absurd (ground arith)
finish_status status message logs time added (some r) run h =
    ap (λ (x : AutomationRun). x.status) (sym (some-injective _ run h))

module _ (ids : List String) (now : Time) where
  finalized-ArePending :
      (status : RunStatus) (message : String) (added : List Artifact) (r : AutomationRun) (db : Db)
      → status ≢ in_progress
      → ArePending ids db
      → ArePending ids (finalized now status message none added r db)
  finalized-ArePending status message added r db final h j run found started =
      let f = finish status message none now added in
      let rows = find_row-update_row (λ x. x.id) r.id j f db.runs (λ x. refl) in
      elim (Bool-cases (r.id == j)) [
        | inl hit ↦
            let is_new =
              finish_status status message none now added (get_run db j) run
                (rw hit at (sym rows ∙ found)) in
            absurd (final (sym is_new ∙ started))
        | inr miss ↦ h j run (rw miss at (sym rows ∙ found)) started
      ]

  finalize_run-ArePending :
      (run_id : String) (status : RunStatus) (message : String) (artifact_ids : List String)
      (db db' : Db)
      → status ≢ in_progress
      → ArePending ids db
      → finalize_run now run_id status message none artifact_ids db ≡ ok db'
      → ArePending ids db'
  finalize_run-ArePending run_id status message artifact_ids db db' final h e =
      let (r, found) = finalize_run-found now run_id status message none artifact_ids db db' e in
      let same = (finalize_run_ok now run_id status message none artifact_ids db r found db' e).1 in
      subst (ArePending ids) (sym same)
        (finalized-ArePending status message (new_artifacts artifact_ids r db) r db final h)

module _ (describe : Exception → String) (apps_of : Automation → List String) (now : Time)
    (outcome : String → Outcome) where
  run_over :
      (run_id usage_id : String) (db : Db) (run : AutomationRun)
      → get_run (execute_automation describe apps_of now run_id usage_id (outcome run_id) db) run_id
        ≡ some run
      → run.status ≢ in_progress
  run_over run_id usage_id db run found started = elim (Option-cases (get_run db run_id)) [
    | inl missing ↦
        let same =
          execute_automation-missing describe apps_of now run_id usage_id (outcome run_id) db
            missing in
        let gone = sym missing ∙ subst (λ d. get_run d run_id ≡ some run) same found in
        absurd (ground (arith, gone))
    | inr (r, there) ↦
        let over =
          execute_automation-IsOver describe apps_of now run_id usage_id (outcome run_id) db r
            there in
        let same = some-injective over.run run (sym over.found ∙ found) in
        absurd (over.status (ap (λ (x : AutomationRun). x.status) same ∙ started))
  ]

  task-ArePending :
      (run_id usage_id : String) (ids : List String) (db : Db)
      → ArePending (run_id ∷ ids) db
      → ArePending ids (execute_automation describe apps_of now run_id usage_id (outcome run_id) db)
  task-ArePending run_id usage_id ids db h j run found started =
      let before =
        execute_automation-keeps (ArePending (run_id ∷ ids)) describe apps_of now
          (finalize_run-ArePending (run_id ∷ ids) now)
          (λ d d' runs automations k i r f s.
            k i r (subst (λ rows. find_row (λ x. x.id) i rows ≡ some r) runs f) s)
          run_id usage_id (outcome run_id) db h j run found started in
      elim (Bool-cases (run_id == j)) [
        | inl hit ↦
            let same = (eq_iff run_id j).0 hit in
            absurd (
              run_over run_id usage_id db run
                (subst
                  (λ i.
                    get_run
                      (execute_automation describe apps_of now run_id usage_id (outcome run_id) db)
                      i
                    ≡ some run)
                  (sym same) found)
                started)
        | inr miss ↦ rw miss at before
      ]

  run_tasks-ArePending :
      (tasks : List (String × String)) (db : Db)
      → ArePending (runs_in tasks) db
      → ArePending [] (run_tasks describe apps_of now outcome tasks db)
  unfolding run_tasks
  run_tasks-ArePending [] db h = h
  run_tasks-ArePending ((run_id, usage_id) ∷ tasks) db h =
      run_tasks-ArePending tasks _ (task-ArePending run_id usage_id (runs_in tasks) db h)

  -- If every run that is in progress has a task in the queue, no usage row and no task of the beat
  -- fails to be stored, and no commit of a task fails, then after a beat of the scheduler and the
  -- tasks of the queue no run is in progress, whatever the agent did in each of them.
  pub beat_ends_runs :
      (plans : Plans) (find_user : String → Option SupabaseUser) (env : String → Env)
      (get_prev : String → Time → Result Time)
      → ((id : String) → (env id).usage_fails ≡ false)
      → ((id : String) → (env id).enqueue_fails ≡ false)
      → (beat_time : Time) (db : Db) → AreQueued db
      → AreEnded (
          work_off describe apps_of now outcome
            (schedule_due_automations plans find_user env get_prev beat_time db))
  beat_ends_runs plans find_user env get_prev counted queued beat_time db h = record {
    ended = λ run_id run found started.
        let beaten = schedule_due_automations plans find_user env get_prev beat_time db in
        let left =
          run_tasks-ArePending beaten.queue (record beaten { queue = [] })
            (schedule-AreQueued plans find_user env get_prev counted queued beat_time db h) run_id
            run found started in
        absurd (ground (arith, left));
  }
