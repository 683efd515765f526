-- ===== src/Automations/Scheduler/Laws.antt =====
-- What one beat of the scheduler does to an automation: which are due, what a start leaves behind,
-- and that a started automation is not due again.
use autom.Prelude.{
  String, ◌≡◌, refl, true, false, Option, some, List, [], ◌∷◌, ◌++◌, arith, ◌==◌, get_or, keep, All,
  Bool-cases, inl, inr, ◌⊎◌, eq_refl,
}
use autom.Prelude.Result.{Exception, Result, ok, err}
use autom.Prelude.Rows.{update_row, find_row}
use autom.Billing.{Time, SupabaseUser}
use autom.Billing.Usage.{create_automation_run_event}
use autom.Billing.Limits.{Plans, is_active}
use autom.Billing.Limits.Laws.{get_user_limits_inactive}
use autom.Automations.{in_progress, Automation, Db, get_automation, get_run, set_automation}
use autom.Automations.Runs.{last_run, new_run}
use autom.Automations.Runs.Laws.{create_run_rows}
use autom.Automations.Due.{is_candidate, get_due_recurring_automations}
use autom.Automations.Due.Laws.{All-get_due, get_due-err}
use autom.Automations.Scheduler.{
  Env, deactivate, refuse, start_run, process_automation, schedule_due_automations,
}

-- After an update of the rows with a key, no row with the key passes a test that the update fails.
update_row-excluded :
    (f : Automation → Automation) (k : String) (rows : List Automation)
    → ((a : Automation) → is_candidate (f a) ≡ false)
    → All (λ x. (x.id == k) ≡ false) (keep is_candidate (update_row (λ a. a.id) k f rows))
unfolding update_row
update_row-excluded f k [] h = tt
update_row-excluded f k (r ∷ rows) h = elim (Bool-cases (r.id == k)) [
  | inl hit ↦ rw hit (rw (h r) (update_row-excluded f k rows h))
  | inr miss ↦ elim (Bool-cases (is_candidate r)) [
    | inl candidate ↦ rw (miss, candidate) (miss, update_row-excluded f k rows h)
    | inr other ↦ rw (miss, other) (update_row-excluded f k rows h)
  ]
]

module _ (env : Env) (a : Automation) (db : Db) (found : get_automation db a.id ≡ some a)
    (created : env.run_fails ≡ false) where
  rows-start_run :
      (start_run env a db).automations
      ≡ (set_automation a.id (last_run in_progress env.now) db).automations
  unfolding start_run
  rows-start_run = rw (created, create_run_rows env.run_id env.now a.id db a found) (ground arith)

  -- An automation that is there and whose run was created is not due in the state that the start
  -- leaves, at any time and whatever failed after the run was created.
  pub started_not_due :
      (get_prev : String → Time → Result Time) (now : Time) (due : List Automation)
      → get_due_recurring_automations get_prev now (start_run env a db) ≡ ok due
      → All (λ x. (x.id == a.id) ≡ false) due
  started_not_due get_prev now due h =
      All-get_due (λ x. (x.id == a.id) ≡ false) get_prev now (start_run env a db) due
        (rw rows-start_run (
          update_row-excluded (last_run in_progress env.now) a.id db.automations
            (λ r. ground arith)))
        h

  -- If the automation is there and the commit of the new run does not fail, but its usage row or
  -- its task cannot be stored, then the run is in progress and the queue is as it was.
  pub start_run_orphan :
      (env.usage_fails ≡ true) ⊎ (env.enqueue_fails ≡ true)
      → (get_run (start_run env a db) env.run_id ≡ some (new_run env.run_id env.now a.id))
        × ((start_run env a db).queue ≡ db.queue)
  unfolding start_run find_row
  start_run_orphan fails =
      ground (arith, create_run_rows env.run_id env.now a.id db a found, eq_refl env.run_id)

  -- If the automation is there, a start of which no write fails makes a run that is in progress,
  -- queues one task for it, and counts it.
  pub start_run_lem :
      env.usage_fails ≡ false
      → env.enqueue_fails ≡ false
      → (get_run (start_run env a db) env.run_id ≡ some (new_run env.run_id env.now a.id))
        × ((start_run env a db).queue ≡ db.queue ++ (env.run_id, env.usage_id) ∷ [])
        × ((start_run env a db).usage
            ≡ create_automation_run_event env.usage_id env.now a.user_id true db.usage)
  unfolding start_run find_row
  start_run_lem u q =
      rw (created, create_run_rows env.run_id env.now a.id db a found)
        (rw (u, q) (rw (eq_refl env.run_id) refl, refl, refl))

module _ (plans : Plans) (find_user : String → Option SupabaseUser) (env : String → Env)
    (get_prev : String → Time → Result Time) where
  -- If the commit of the deactivation does not fail, the loop deactivates an automation of a user
  -- without an active subscription and changes nothing else: no run is made, nothing is counted
  -- and nothing is queued.
  pub process_inactive :
      (a : Automation) (db : Db) (user : SupabaseUser)
      → find_user a.user_id ≡ some user
      → is_active user.subscription_status ≡ false
      → (env a.id).deactivation_fails ≡ false
      → process_automation plans find_user env get_prev a db ≡ set_automation a.id deactivate db
  unfolding process_automation refuse
  process_inactive a db user found inactive fine =
      rw (found, get_user_limits_inactive plans user inactive, fine) (ground arith)

  -- One candidate whose schedule croniter refuses stops the whole beat: nothing is changed.
  pub schedule_bad_cron :
      (now : Time) (db : Db) (xs ys : List Automation) (a : Automation) (e : Exception)
      → db.automations ≡ xs ++ (a ∷ ys)
      → is_candidate a ≡ true
      → get_prev (get_or a.cron_schedule "") now ≡ err e
      → schedule_due_automations plans find_user env get_prev now db ≡ db
  unfolding schedule_due_automations
  schedule_bad_cron now db xs ys a e rows c bad =
      rw ((get_due-err get_prev now db xs ys a e rows c bad).1) refl
