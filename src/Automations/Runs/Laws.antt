-- ===== src/Automations/Runs/Laws.antt =====
-- What a run looks like after `create_run` and `finalize_run`.
use autom.Prelude.{
  String, ◌≡◌, refl, sym, subst, Option, none, some, List, [], ◌∷◌, arith, ◌==◌, eq_refl, member,
  Option-cases, inl, inr, keep, if◌then◌else◌,
}
use autom.Prelude.Result.{ok, >>=-eq-ok}
use autom.Prelude.Rows.{find_row, update_row, find_row-update_found, key-find_row}
use autom.Billing.{Time}
use autom.Automations.{
  RunStatus, in_progress, Automation, AutomationRun, Artifact, Db, get_automation, get_run,
  set_automation,
}
use autom.Automations.Runs.{
  last_run, new_run, create_run, check_owner, new_artifacts, finish, finalized, finalize_run,
}

-- If the automation is there, `create_run` returns; the run that is created is found in progress,
-- and its automation is marked as in progress too; all other automations, the usage and the queue
-- stay as they were.
pub create_run_lem :
    (run_id : String) (now : Time) (automation_id : String) (db : Db) (a : Automation)
    → get_automation db automation_id ≡ some a
    → (db' : Db) × (create_run run_id now automation_id db ≡ ok db')
      × (get_run db' run_id ≡ some (new_run run_id now automation_id))
      × ((j : String)
          → get_automation db' j ≡ (
              if automation_id == j
              then some (last_run in_progress now a)
              else get_automation db j))
      × (db'.usage ≡ db.usage)
      × (db'.queue ≡ db.queue)
unfolding create_run find_row
create_run_lem run_id now automation_id db a h = (
  set_automation automation_id (last_run in_progress now)
      (record db { runs = new_run run_id now automation_id ∷ db.runs }),
  rw h refl,
  rw (eq_refl run_id) refl,
  λ j.
      find_row-update_found (λ r. r.id) automation_id j (last_run in_progress now) db.automations a
        (λ r. refl) h,
  refl,
  refl,
)

pub create_run_rows :
    (run_id : String) (now : Time) (automation_id : String) (db : Db) (a : Automation)
    → get_automation db automation_id ≡ some a
    → create_run run_id now automation_id db
      ≡ ok (
          set_automation automation_id
            (last_run in_progress now)
            (record db { runs = new_run run_id now automation_id ∷ db.runs }))
unfolding create_run
create_run_rows run_id now automation_id db a h = rw h refl

-- `finalize_run` of a run that is there succeeds exactly if the check of the owner does.
module _ (finish_time : Time) (run_id : String) (status : RunStatus) (message : String)
    (logs : Option String) (artifact_ids : List String) (db : Db) (run : AutomationRun)
    (found : get_run db run_id ≡ some run) where
  pub finalize_run_passed :
      check_owner (get_automation db run.automation_id) (new_artifacts artifact_ids run db) ≡ ok tt
      → finalize_run finish_time run_id status message logs artifact_ids db
        ≡ ok (finalized finish_time status message logs (new_artifacts artifact_ids run db) run db)
  unfolding finalize_run
  finalize_run_passed h = rw (found, finalize_run) (rw h refl)

  pub finalize_run_ok :
      (db' : Db)
      → finalize_run finish_time run_id status message logs artifact_ids db ≡ ok db'
      → (check_owner (get_automation db run.automation_id) (new_artifacts artifact_ids run db)
          ≡ ok tt)
        × (db'
            ≡ finalized finish_time status message logs (new_artifacts artifact_ids run db) run db)
  unfolding finalize_run
  finalize_run_ok db' h =
      let (u, passed, built) =
        >>=-eq-ok
          (check_owner (get_automation db run.automation_id) (new_artifacts artifact_ids run db))
          (λ u.
            ok (
              finalized finish_time status message logs (new_artifacts artifact_ids run db) run db))
          (rw found at h) in
      (passed, cc built)

  -- If a run that is there with its automation is finalized, both get the status and the time, and
  -- every other run and automation is as it was.
  pub finalize_run_lem :
      (db' : Db) (a : Automation)
      → finalize_run finish_time run_id status message logs artifact_ids db ≡ ok db'
      → get_automation db run.automation_id ≡ some a
      → (j : String)
      → (get_run db' j ≡ (
          if run_id == j
          then some (finish status message logs finish_time (new_artifacts artifact_ids run db) run)
          else get_run db j))
        × (get_automation db' j ≡ (
            if run.automation_id == j
            then some (last_run status finish_time a)
            else get_automation db j))
  finalize_run_lem db' a h owner j =
      let f = finish status message logs finish_time (new_artifacts artifact_ids run db) in
      rw ((finalize_run_ok db' h).1) (
        subst
            (λ k.
              find_row (λ r. r.id) j (update_row (λ r. r.id) k f db.runs)
              ≡ (if run_id == j then some (f run) else get_run db j))
            (sym (key-find_row (λ r. r.id) run_id db.runs found))
            (find_row-update_found (λ r. r.id) run_id j f db.runs run (λ r. refl) found),
        find_row-update_found (λ r. r.id) run.automation_id j (last_run status finish_time)
            db.automations a (λ r. refl) owner,
      )

-- Without artifact ids nothing is checked and nothing is appended.
new_artifacts-nil : (run : AutomationRun) (db : Db) → new_artifacts [] run db ≡ []
unfolding new_artifacts
new_artifacts-nil run db = none_kept db.artifacts
  where
    none_kept : (rows : List Artifact) → keep (λ artifact. member artifact.id []) rows ≡ []
    none_kept [] = refl
    none_kept (r ∷ rows) = none_kept rows

check_owner-nil : (owner : Option Automation) → check_owner owner [] ≡ ok tt
unfolding check_owner
check_owner-nil none = refl
check_owner-nil (some a) = refl

-- So `finalize_run` without artifact ids succeeds on every run that is there.
pub finalize_run_total :
    (finish_time : Time) (run_id : String) (status : RunStatus) (message : String)
    (logs : Option String) (db : Db) (run : AutomationRun)
    → get_run db run_id ≡ some run
    → finalize_run finish_time run_id status message logs [] db
      ≡ ok (finalized finish_time status message logs [] run db)
finalize_run_total finish_time run_id status message logs db run found =
    let nil = new_artifacts-nil run db in
    subst
      (λ xs.
        finalize_run finish_time run_id status message logs [] db
        ≡ ok (finalized finish_time status message logs xs run db))
      nil
      (finalize_run_passed finish_time run_id status message logs [] db run found
        (rw nil (check_owner-nil (get_automation db run.automation_id))))

pub usage-create_run :
    (run_id : String) (now : Time) (automation_id : String) (db db' : Db)
    → create_run run_id now automation_id db ≡ ok db'
    → db'.usage ≡ db.usage
unfolding create_run
usage-create_run run_id now automation_id db db' h = ground arith

pub finalize_run-found :
    (finish_time : Time) (run_id : String) (status : RunStatus) (message : String)
    (logs : Option String) (artifact_ids : List String) (db db' : Db)
    → finalize_run finish_time run_id status message logs artifact_ids db ≡ ok db'
    → (run : AutomationRun) × (get_run db run_id ≡ some run)
unfolding finalize_run
finalize_run-found finish_time run_id status message logs artifact_ids db db' h =
    elim (Option-cases (get_run db run_id)) [
      | inl missing ↦ absurd (ground (arith, rw missing at h))
      | inr found ↦ found
    ]
