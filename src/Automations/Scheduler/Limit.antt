-- ===== src/Automations/Scheduler/Limit.antt =====
-- The limit of runs holds over a whole beat.
use autom.Prelude.{
  ◌≤◌, ℕ, String, ◌≡◌, refl, ap, ◌∙◌, true, false, Option, some, List, [], ◌∷◌, arith, ◌==◌, eq_iff,
  leb, get_or, Bool-cases, Option-cases, inl, inr, ◌⊎◌,
}
use autom.Prelude.Result.{Result, ok, err}
use autom.Billing.{Time, SupabaseUser}
use autom.Billing.Usage.{runs_of, create_automation_run_event}
use autom.Billing.Limits.{Plans, PlanLimits, get_user_limits, usage_in_period}
use autom.Billing.Limits.Period.{create_adds}
use autom.Automations.{Automation, Db}
use autom.Automations.Runs.{create_run}
use autom.Automations.Runs.Laws.{usage-create_run}
use autom.Automations.Scheduler.{
  Env, created, track_usage, start_run, refuse, limited, for_user, at_limit, process_automation,
  process_all,
}

-- What is counted for the user in the billing period.
abbrev pub used : SupabaseUser → Db → ℕ
used user db = runs_of (usage_in_period user db.usage)

-- The usage is left alone, or gets the row of one run of the automation's owner.
abbrev Tracks : Env → Automation → Db → Db → Type 0
Tracks env a db db' =
    (db'.usage ≡ db.usage)
    ⊎ (db'.usage ≡ create_automation_run_event env.usage_id env.now a.user_id true db.usage)

Tracks-track_usage : (env : Env) (a : Automation) (db : Db) → Tracks env a db (track_usage env a db)
unfolding track_usage
Tracks-track_usage env a db = elim (Bool-cases env.usage_fails) [
  | inl lost ↦ inl (ground arith)
  | inr stored ↦ inr (ground arith)
]

Tracks-created :
    (env : Env) (a : Automation) (db : Db) (r : Result Db)
    → create_run env.run_id env.now a.id db ≡ r
    → Tracks env a db (created env a db r)
unfolding created
Tracks-created env a db (ok db') q =
    rw (← usage-create_run env.run_id env.now a.id db db' q) (Tracks-track_usage env a db')
Tracks-created env a db (err e) q = inl refl

Tracks-start_run : (env : Env) (a : Automation) (db : Db) → Tracks env a db (start_run env a db)
unfolding start_run
Tracks-start_run env a db = elim (Bool-cases env.run_fails) [
  | inl lost ↦ inl (ground arith)
  | inr stored ↦
      let same : start_run env a db ≡ created env a db (create_run env.run_id env.now a.id db) =
        ground arith in
      rw same (Tracks-created env a db (create_run env.run_id env.now a.id db) refl)
]

usage-refuse : (env : Env) (a : Automation) (db : Db) → (refuse env a db).usage ≡ db.usage
unfolding refuse
usage-refuse env a db = ground arith

Tracks-limited :
    (env : Env) (a : Automation) (owner : SupabaseUser) (l : Result (PlanLimits × String)) (db : Db)
    → Tracks env a db (limited env a owner l db)
unfolding limited
Tracks-limited env a owner (err e) db = inl refl
Tracks-limited env a owner (ok l) db = elim (Bool-cases (at_limit owner l.0 db)) [
  | inl full ↦ rw full (inl (usage-refuse env a db))
  | inr room ↦ rw room (Tracks-start_run env a db)
]

-- The step for the user's own automation: a run is started only below the limit.
own_within :
    (env : Env) (a : Automation) (user : SupabaseUser) (l : PlanLimits × String) (db : Db)
    → used user db ≤ get_or l.0.max_automation_runs 0
    → used user (limited env a user (ok l) db) ≤ get_or l.0.max_automation_runs 0
unfolding limited at_limit
own_within env a user l db h =
    let add = create_adds user env.usage_id env.now a.user_id true db.usage in
    elim (Bool-cases (leb (get_or l.0.max_automation_runs 0) (used user db))) [
      | inl full ↦ rw full (rw (usage-refuse env a db) h)
      | inr room ↦ rw room (elim (Tracks-start_run env a db) [
        | inl same ↦ rw same h
        | inr more ↦ rw more (ground (arith, add.0))
      ])
    ]

-- The step for an automation of another user.
other_same :
    (env : Env) (a : Automation) (owner user : SupabaseUser) (l : Result (PlanLimits × String))
    (db : Db)
    → (a.user_id == user.id) ≡ false
    → used user (limited env a owner l db) ≡ used user db
other_same env a owner user l db other = elim (Tracks-limited env a owner l db) [
  | inl same ↦ rw same refl
  | inr more ↦ rw more ((create_adds user env.usage_id env.now a.user_id true db.usage).1 other)
]

module _ (plans : Plans) (find_user : String → Option SupabaseUser) (env : String → Env)
    (get_prev : String → Time → Result Time) (user : SupabaseUser) (limits : PlanLimits × String)
    (known : find_user user.id ≡ some user) (bounded : get_user_limits plans user ≡ ok limits) where
  process_within :
      (a : Automation) (db : Db)
      → used user db ≤ get_or limits.0.max_automation_runs 0
      → used user (process_automation plans find_user env get_prev a db)
        ≤ get_or limits.0.max_automation_runs 0
  unfolding process_automation for_user
  process_within a db h = elim (Bool-cases (a.user_id == user.id)) [
    | inl own ↦
        let mine = ap find_user ((eq_iff a.user_id user.id).0 own) ∙ known in
        rw (mine, bounded) (own_within (env a.id) a user limits db h)
    | inr other ↦ elim (Option-cases (find_user a.user_id)) [
      | inl missing ↦ rw missing h
      | inr (owner, found) ↦
          rw (found, other_same (env a.id) a owner user (get_user_limits plans owner) db other) h
    ]
  ]

  -- A user whose runs in the billing period are within the plan's limit before a list of due
  -- automations is worked off is within it afterwards, whatever fails on the way.
  pub process_all_within :
      (due : List Automation) (db : Db)
      → used user db ≤ get_or limits.0.max_automation_runs 0
      → used user (process_all plans find_user env get_prev due db)
        ≤ get_or limits.0.max_automation_runs 0
  unfolding process_all
  process_all_within [] db h = h
  process_all_within (a ∷ due) db h =
      process_all_within due (process_automation plans find_user env get_prev a db)
        (process_within a db h)
