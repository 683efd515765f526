-- ===== src/Automations/Routes/Runs/Laws.antt =====
-- What the deletion of a run leaves, and who may download what a run left.
use autom.Prelude.{
  String, ◌≡◌, refl, sym, true, not, some, arith, find, keep, member, ap, subst, ◌∙◌, false, none,
  List, ◌==◌, eq_refl, Option-cases, Bool-cases, eq_iff, inl, inr, if◌then◌else◌,
}
use autom.Prelude.Result.{
  Exception, value_error, attribute_error, http, Result, ok, err, >>=-eq-ok, ok-eq, raise_if-ok,
  or_raise, or_raise-eq,
}
use autom.Prelude.Every.{some-eq, find-eq, find-All, find-kept, keep-All, All-of}
use autom.Prelude.Rows.{find_row-remove_row}
use autom.Billing.{Time}
use autom.Artifacts
use autom.Artifacts.{Files, Env, is_denied, read_artifact}
use autom.Automations.{Automation, AutomationRun, Db, get_automation, get_run}
use autom.Automations.Execution.{Outcome, execute_automation}
use autom.Automations.Execution.Laws.{execute_automation-missing}
use autom.Automations.Routes.Runs.{
  get_run_and_verify_ownership, delete_run, delete_found, delete_a_run, or_http,
  download_an_artifact_from_a_run,
}

get_run-delete_run :
    (run_id j : String) (db : Db)
    → get_run (delete_run run_id db) j ≡ (if run_id == j then none else get_run db j)
unfolding delete_run delete_found
get_run-delete_run run_id j db = elim (Option-cases (get_run db run_id)) [
  | inl missing ↦ rw missing (elim (Bool-cases (run_id == j)) [
    | inl hit ↦ rw hit (subst (λ i. get_run db i ≡ none) ((eq_iff run_id j).0 hit) missing)
    | inr miss ↦ rw miss refl
  ])
  | inr (run, found) ↦ rw found (find_row-remove_row (λ r. r.id) run_id j db.runs)
]

automations-delete_run :
    (run_id : String) (db : Db) → (delete_run run_id db).automations ≡ db.automations
unfolding delete_run delete_found
automations-delete_run run_id db = elim (Option-cases (get_run db run_id)) [
  | inl missing ↦ rw missing refl
  | inr (run, found) ↦ rw found refl
]

-- If a user deletes a run, the run is gone and all other runs are as they were; but all automations
-- are as they were too, also one that was in progress by this run, and the task of the run, which
-- still comes, changes nothing.
pub delete_a_run_lem :
    (env : Env) (user_id run_id : String) (db : Db) (files : Files) (result : Db × Files)
    → delete_a_run env user_id run_id db files ≡ ok result
    → (get_run result.0 run_id ≡ none)
      × ((j : String) → (run_id == j) ≡ false → get_run result.0 j ≡ get_run db j)
      × (result.0.automations ≡ db.automations)
      × ((describe : Exception → String) (apps_of : Automation → List String) (now : Time)
            (usage_id : String) (outcome : Outcome)
          → execute_automation describe apps_of now run_id usage_id outcome result.0 ≡ result.0)
unfolding delete_a_run
delete_a_run_lem env user_id run_id db files result h =
    let (run, found, made) = >>=-eq-ok (get_run_and_verify_ownership user_id run_id db) _ h in
    let after : delete_run run_id db ≡ result.0 = ap (λ x. x.0) (ok-eq made) in
    let gone : get_run result.0 run_id ≡ none =
      subst (λ d. get_run d run_id ≡ none) after
        (get_run-delete_run run_id run_id db ∙ rw (eq_refl run_id) refl) in
    (
      gone,
      λ j other.
          subst (λ d. get_run d j ≡ get_run db j) after
            (get_run-delete_run run_id j db ∙ rw other refl),
      subst (λ d. d.automations ≡ db.automations) after (automations-delete_run run_id db),
      λ describe apps_of now usage_id outcome.
          execute_automation-missing describe apps_of now run_id usage_id outcome result.0 gone,
    )

or_http-ok : {A : Type 0} (r : Result A) {a : A} → or_http r ≡ ok a → r ≡ ok a
or_http-ok (ok b) h = h
or_http-ok (err e) h = cc

owned_run :
    (user_id run_id : String) (db : Db) (run : AutomationRun)
    → get_run_and_verify_ownership user_id run_id db ≡ ok run
    → (automation : Automation) × (get_run db run_id ≡ some run)
      × (get_automation db run.automation_id ≡ some automation)
      × ((automation.user_id == user_id) ≡ true)
unfolding get_run_and_verify_ownership
owned_run user_id run_id db run h =
    let (r, f1, h1) = >>=-eq-ok (or_raise (http 404) (get_run db run_id)) _ h in
    let (automation, f2, h2) =
      >>=-eq-ok (or_raise attribute_error (get_automation db r.automation_id)) _ h1 in
    let (own, h3) = raise_if-ok (not (automation.user_id == user_id)) (http 403) _ run h2 in
    let here = or_raise-eq attribute_error (get_automation db r.automation_id) f2 in
    subst
      (λ x.
        (automation : Automation) × (get_run db run_id ≡ some x)
        × (get_automation db x.automation_id ≡ some automation)
        × ((automation.user_id == user_id) ≡ true))
      (ok-eq h3)
      (automation, or_raise-eq (http 404) (get_run db run_id) f1, here, ground (arith, own))

-- A row that is found among those of a run is the row that the table has under its id.
found_in_run :
    (ids : List String) (artifact_id : String) (rows : List Artifacts.Artifact)
    (artifact : Artifacts.Artifact)
    → find (λ a. a.id == artifact_id) (keep (λ a. member a.id ids) rows) ≡ some artifact
    → (member artifact_id ids ≡ true) × (find (λ a. a.id == artifact_id) rows ≡ some artifact)
found_in_run ids artifact_id rows artifact h =
    let named = find-eq (λ a. a.id == artifact_id) (keep (λ a. member a.id ids) rows) h in
    let kept =
      find-All (λ a. member a.id ids ≡ true) (λ a. a.id == artifact_id)
        (keep (λ a. member a.id ids) rows) (keep-All (λ a. member a.id ids) rows) h in
    let inside = subst (λ k. member k ids ≡ true) ((eq_iff artifact.id artifact_id).0 named) kept in
    (
      inside,
      sym (
            find-kept (λ a. a.id == artifact_id) (λ a. member a.id ids) rows
              (All-of
                (λ a e.
                  subst (λ k. member k ids ≡ true) (sym ((eq_iff a.id artifact_id).0 e)) inside)
                rows))
          ∙ h,
    )

-- What reading a row gives, and the response with a name.
abbrev content_of : Artifacts.Artifact → String × String
content_of a = (a.file_path, a.mime_type)

abbrev with_name : String × String → String → String × String × String
with_name content filename = (content.0, content.1, filename)

same_content :
    (content : String × String) (artifact a : Artifacts.Artifact)
    → content_of a ≡ content
    → artifact ≡ a
    → with_name content artifact.filename ≡ with_name (content_of a) a.filename
same_content content artifact a c e =
    ap (λ k. with_name k artifact.filename) (sym c)
    ∙ ap (λ (x : Artifacts.Artifact). with_name (content_of a) x.filename) e

-- A download that returns was asked for by the owner of the run's automation, for an artifact of the
-- run; the row of the table with that id is that user's, and what is read is the path, the type and
-- the name of this row.
pub download_an_artifact_from_a_run_lem :
    (env : Env) (user_id run_id artifact_id : String) (db : Db) (files : Files)
    (result : String × String × String)
    → download_an_artifact_from_a_run env user_id run_id artifact_id db files ≡ ok result
    → (run : AutomationRun) × (automation : Automation) × (a : Artifacts.Artifact) × (get_run db
          run_id
        ≡ some run)
      × (get_automation db run.automation_id ≡ some automation)
      × ((automation.user_id == user_id) ≡ true)
      × (member artifact_id run.artifacts ≡ true)
      × (find (λ x. x.id == artifact_id) files.artifacts ≡ some a)
      × ((a.user_id == user_id) ≡ true)
      × (result ≡ (a.file_path, a.mime_type, a.filename))
unfolding download_an_artifact_from_a_run read_artifact
download_an_artifact_from_a_run_lem env user_id run_id artifact_id db files result h =
    let (run, f1, h1) = >>=-eq-ok (get_run_and_verify_ownership user_id run_id db) _ h in
    let (automation, here, of, own) = owned_run user_id run_id db run f1 in
    let rows = keep (λ a. member a.id run.artifacts) files.artifacts in
    let (artifact, f2, h2) =
      >>=-eq-ok (or_raise (http 404) (find (λ a. a.id == artifact_id) rows)) _ h1 in
    let (inside, listed) =
      found_in_run run.artifacts artifact_id files.artifacts artifact
        (or_raise-eq (http 404) (find (λ a. a.id == artifact_id) rows) f2) in
    let (content, f3, h3) =
      >>=-eq-ok (or_http (read_artifact env artifact_id (some user_id) files)) _ h2 in
    let read = or_http-ok (read_artifact env artifact_id (some user_id) files) f3 in
    let (a, f4, h4) =
      >>=-eq-ok (or_raise value_error (find (λ x. x.id == artifact_id) files.artifacts)) _ read in
    let (allowed, h5) = raise_if-ok (is_denied (some user_id) a) value_error _ content h4 in
    let (fine, h6) = raise_if-ok env.storage_fails value_error _ content h5 in
    let there = or_raise-eq value_error (find (λ x. x.id == artifact_id) files.artifacts) f4 in
    let same : artifact ≡ a = some-eq (sym listed ∙ there) in
    (
      run,
      automation,
      a,
      here,
      of,
      own,
      inside,
      there,
      ground (arith, allowed),
      sym (ok-eq h3) ∙ same_content content artifact a (ok-eq h6) same,
    )
