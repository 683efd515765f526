-- ===== src/Automations/Scheduler.antt =====
-- aci/server/tasks/tasks.py: `schedule_due_automations`, the scheduler's beat.
pub mod Laws
pub mod Limit
pub mod Queued
use autom.Prelude.{
  ℕ, String, Bool, true, false, Option, none, some, List, [], ◌∷◌, ◌++◌, leb, get_or, if◌then◌else◌,
}
use autom.Prelude.Result.{Exception, Result, ok, err, ◌>>=◌}
use autom.Billing.{Time, SupabaseUser}
use autom.Billing.Usage.{create_automation_run_event, runs_of}
use autom.Billing.Limits.{Plans, PlanLimits, get_user_limits, usage_in_period}
use autom.Automations.{Automation, Db, set_automation}
use autom.Automations.Runs.{create_run}
use autom.Automations.Due.{get_due_recurring_automations}

-- What the world decides for one automation of a beat: the times and the ids that the calls get, and
-- which of its four writes raises. A commit that raises is rolled back.
pub record Env : Type 0 where
  pub now : Time
  pub run_id : String
  pub usage_id : String
  pub deactivation_fails : Bool
  pub run_fails : Bool
  pub usage_fails : Bool
  pub enqueue_fails : Bool

-- `automation.active = False`
abbrev pub deactivate : Automation → Automation
deactivate automation = record automation { active = false }

-- `execute_automation(run_id, usage_id)` puts the task into huey's queue.
enqueue : Env → Db → Db
enqueue env db =
    if env.enqueue_fails
    then db
    else record db { queue = db.queue ++ (env.run_id, env.usage_id) ∷ [] }

-- From `create_automation_run_event` on; the run was committed.
track_usage : Env → Automation → Db → Db
unfolding enqueue
track_usage env automation db =
    if env.usage_fails
    then db
    else enqueue env (record db {
      usage = create_automation_run_event env.usage_id env.now automation.user_id true db.usage;
    })

created : Env → Automation → Db → Result Db → Db
unfolding track_usage
created env automation db (ok db') = track_usage env automation db'
created env automation db (err e) = db

-- From `create_run` on.
unfoldable pub start_run : Env → Automation → Db → Db
unfolding created
start_run env automation db =
    if env.run_fails
    then db
    else created env automation db (create_run env.run_id env.now automation.id db)

-- The branch for a user at the limit.
pub refuse : Env → Automation → Db → Db
refuse env automation db =
    if env.deactivation_fails then db else set_automation automation.id deactivate db

-- `current_usage >= limit_value`
at_limit : SupabaseUser → PlanLimits → Db → Bool
at_limit user limits db =
    leb (get_or limits.max_automation_runs 0) (runs_of (usage_in_period user db.usage))

limited : Env → Automation → SupabaseUser → Result (PlanLimits × String) → Db → Db
unfolding at_limit
limited env automation user (err e) db = db
limited env automation user (ok limits) db =
    if at_limit user limits.0 db then refuse env automation db else start_run env automation db

module _ (plans : Plans) (find_user : String → Option SupabaseUser) (env : String → Env)
    (get_prev : String → Time → Result Time) where
  for_user : Automation → Option SupabaseUser → Db → Db
  unfolding limited
  for_user automation none db = db
  for_user automation (some user) db =
      limited (env automation.id) automation user (get_user_limits plans user) db

  -- The body of the loop, with its `except`: what an exception leaves is what was committed.
  pub process_automation : Automation → Db → Db
  unfolding for_user
  process_automation automation db = for_user automation (find_user automation.user_id) db

  pub process_all : List Automation → Db → Db
  process_all [] db = db
  process_all (automation ∷ rest) db = process_all rest (process_automation automation db)

  beat : Result (List Automation) → Db → Db
  beat (ok due) db = process_all due db
  beat (err e) db = db

  pub schedule_due_automations : Time → Db → Db
  unfolding beat
  schedule_due_automations now db = beat (get_due_recurring_automations get_prev now db) db
