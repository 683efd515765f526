-- ===== src/Automations/Scheduler/Queued.antt =====
-- A beat of which no write is lost queues a task for every run that it creates.
use autom.Prelude.{
  String, ◌≡◌, true, false, Option, some, List, [], ◌∷◌, ◌++◌, ◌||◌, arith, ◌==◌, member,
  Bool-cases, Option-cases, inl, inr,
}
use autom.Prelude.Result.{Result, ok, err}
use autom.Prelude.Rows.{find_row}
use autom.Billing.{Time, SupabaseUser}
use autom.Billing.Limits.{Plans, PlanLimits, get_user_limits}
use autom.Automations.{Automation, AutomationRun, in_progress, Db, get_automation}
use autom.Automations.Runs.{new_run, create_run}
use autom.Automations.Runs.Laws.{create_run_rows}
use autom.Automations.Due.{get_due_recurring_automations}
use autom.Automations.Scheduler.{
  Env, at_limit, limited, for_user, beat, refuse, start_run, process_automation, process_all,
  schedule_due_automations,
}
use autom.Automations.Worker.{runs_in, AreQueued}

member-runs_in :
    (j run_id usage_id : String) (tasks : List (String × String))
    → member j (runs_in (tasks ++ (run_id, usage_id) ∷ []))
      ≡ (member j (runs_in tasks) || run_id == j)
member-runs_in j run_id usage_id [] = ground arith
member-runs_in j run_id usage_id ((r, u) ∷ tasks) =
    ground (arith, member-runs_in j run_id usage_id tasks)

new_run-AreQueued :
    (run_id usage_id automation_id : String) (now : Time) (db : Db)
    → AreQueued db
    → (j : String) (run : AutomationRun)
    → find_row (λ r. r.id) j (new_run run_id now automation_id ∷ db.runs) ≡ some run
    → run.status ≡ in_progress
    → member j (runs_in (db.queue ++ (run_id, usage_id) ∷ [])) ≡ true
unfolding find_row
new_run-AreQueued run_id usage_id automation_id now db h j run found started =
    elim (Bool-cases (run_id == j)) [
      | inl hit ↦ ground (arith, member-runs_in j run_id usage_id db.queue)
      | inr miss ↦
          let old = h j run (rw miss at found) started in
          ground (arith, member-runs_in j run_id usage_id db.queue)
    ]

module _ (env : Env) (counted : env.usage_fails ≡ false) (queued : env.enqueue_fails ≡ false) where
  start_run-AreQueued : (a : Automation) (db : Db) → AreQueued db → AreQueued (start_run env a db)
  unfolding start_run create_run find_row
  start_run-AreQueued a db h = elim (Bool-cases env.run_fails) [
    | inl lost ↦ rw lost h
    | inr made ↦ elim (Option-cases (get_automation db a.id)) [
      | inl missing ↦ rw (made, create_run, missing) h
      | inr (b, found) ↦
          rw (made, create_run_rows env.run_id env.now a.id db b found)
            (rw (counted, queued) (new_run-AreQueued env.run_id env.usage_id a.id env.now db h))
    ]
  ]

  refuse-AreQueued : (a : Automation) (db : Db) → AreQueued db → AreQueued (refuse env a db)
  unfolding refuse
  refuse-AreQueued a db h = elim (Bool-cases env.deactivation_fails) [
    | inl fails ↦ rw fails h
    | inr works ↦ rw works h
  ]

  limited-AreQueued :
      (a : Automation) (user : SupabaseUser) (limits : Result (PlanLimits × String)) (db : Db)
      → AreQueued db
      → AreQueued (limited env a user limits db)
  unfolding limited
  limited-AreQueued a user (err e) db h = h
  limited-AreQueued a user (ok limits) db h = elim (Bool-cases (at_limit user limits.0 db)) [
    | inl full ↦ rw full (refuse-AreQueued a db h)
    | inr room ↦ rw room (start_run-AreQueued a db h)
  ]

module _ (plans : Plans) (find_user : String → Option SupabaseUser) (env : String → Env)
    (get_prev : String → Time → Result Time)
    (counted : (id : String) → (env id).usage_fails ≡ false)
    (queued : (id : String) → (env id).enqueue_fails ≡ false) where
  process_all-AreQueued :
      (due : List Automation) (db : Db)
      → AreQueued db
      → AreQueued (process_all plans find_user env get_prev due db)
  unfolding process_all process_automation for_user
  process_all-AreQueued [] db h = h
  process_all-AreQueued (a ∷ due) db h =
      process_all-AreQueued due (process_automation plans find_user env get_prev a db)
        (elim (Option-cases (find_user a.user_id)) [
          | inl missing ↦ rw missing h
          | inr (user, found) ↦ rw found (
              limited-AreQueued (env a.id) (counted a.id) (queued a.id) a user
                (get_user_limits plans user) db h)
        ])

  pub schedule-AreQueued :
      (now : Time) (db : Db)
      → AreQueued db
      → AreQueued (schedule_due_automations plans find_user env get_prev now db)
  unfolding schedule_due_automations beat
  schedule-AreQueued now db h = by_due (get_due_recurring_automations get_prev now db)
    where
      by_due :
          (due : Result (List Automation)) → AreQueued (beat plans find_user env get_prev due db)
      by_due (ok due) = process_all-AreQueued due db h
      by_due (err e) = h
