-- ===== src/Automations/Runs/Owned.antt =====
-- The artifacts of a run belong to the owner of its automation.
use autom.Prelude.{
  String, ◌≡◌, refl, sym, subst, Bool, true, not, Option, some, List, [], ◌∷◌, ◌++◌, map, arith,
  ◌==◌, eq_iff, eq_refl, member, keep, All, Bool-cases, inl, inr,
}
use mathlib.Core.Option.{some-injective}
use autom.Prelude.Result.{ok}
use autom.Prelude.Rows.{find_row, key-find_row}
use autom.Billing.{Time}
use autom.Automations.{RunStatus, Automation, AutomationRun, Artifact, Db, get_automation, get_run}
use autom.Automations.Runs.{check_owner, new_artifacts, finish, finalize_run}
use autom.Automations.Runs.Laws.{finalize_run_ok, finalize_run_lem}

-- Every artifact of a run that is in the table belongs to the owner of the run's automation.
abbrev pub AreOwned : Db → String → List String → Type 0
AreOwned db owner =
    All (λ aid. (x : Artifact) → find_row (λ a. a.id) aid db.artifacts ≡ some x → x.user_id ≡ owner)

All-check_owner :
    (a : Automation) (xs : List Artifact)
    → check_owner (some a) xs ≡ ok tt
    → All (λ x. x.user_id ≡ a.user_id) xs
unfolding check_owner
All-check_owner a [] h = tt
All-check_owner a (x ∷ xs) h = elim (Bool-cases (x.user_id == a.user_id)) [
  | inl own ↦ ((eq_iff x.user_id a.user_id).0 own, All-check_owner a xs (rw own at h))
  | inr other ↦ absurd (ground arith)
]

All-keep-tail :
    (P : Artifact → Type 0) (p : Artifact → Bool) (r : Artifact) (rows : List Artifact)
    → All P (keep p (r ∷ rows))
    → All P (keep p rows)
All-keep-tail P p r rows h = elim (Bool-cases (p r)) [
  | inl kept ↦ (rw kept at h).1
  | inr dropped ↦ rw dropped at h
]

-- What holds of the rows that a filter keeps holds of a row found by its key that passes the filter.
All-keep-find_row :
    (P : Artifact → Type 0) (p : Artifact → Bool) (k : String) (rows : List Artifact) (x : Artifact)
    → All P (keep p rows)
    → find_row (λ a. a.id) k rows ≡ some x
    → p x ≡ true
    → P x
unfolding find_row
All-keep-find_row P p k [] x h found pass = absurd (ground arith)
All-keep-find_row P p k (r ∷ rows) x h found pass = elim (Bool-cases (r.id == k)) [
  | inl hit ↦
      let e : r ≡ x = some-injective r x (rw hit at found) in
      subst P e ((rw (subst (λ y. p y ≡ true) (sym e) pass) at h).0)
  | inr miss ↦ All-keep-find_row P p k rows x (All-keep-tail P p r rows h) (rw miss at found) pass
]

-- Every row that a filter keeps passes it.
All-keep : (p : Artifact → Bool) (rows : List Artifact) → All (λ r. p r ≡ true) (keep p rows)
All-keep p [] = tt
All-keep p (r ∷ rows) = elim (Bool-cases (p r)) [
  | inl kept ↦ rw kept (kept, All-keep p rows)
  | inr dropped ↦ rw dropped (All-keep p rows)
]

-- The artifacts that pass the check of the owner are owned, and appending keeps the others owned.
AreOwned-append :
    (db : Db) (owner : String) (ids : List String) (added : List Artifact)
    → AreOwned db owner ids
    → AreOwned db owner (map (λ a. a.id) added)
    → AreOwned db owner (ids ++ map (λ a. a.id) added)
AreOwned-append db owner [] added h k = k
AreOwned-append db owner (i ∷ ids) added (here, h) k =
    (here, AreOwned-append db owner ids added h k)

AreOwned-map :
    (db : Db) (owner : String) (p : String → Bool) (added : List Artifact)
    → All (λ x. x.user_id ≡ owner) (keep (λ x. p x.id) db.artifacts)
    → All (λ x. p x.id ≡ true) added
    → AreOwned db owner (map (λ a. a.id) added)
AreOwned-map db owner p [] checked kept = tt
AreOwned-map db owner p (y ∷ added) checked (here, kept) = (
  λ x found.
      All-keep-find_row (λ x. x.user_id ≡ owner) (λ x. p x.id) y.id db.artifacts x checked found
        (subst (λ i. p i ≡ true) (sym (key-find_row (λ a. a.id) y.id db.artifacts found)) here),
  AreOwned-map db owner p added checked kept,
)

-- If the artifacts of a run belong to the owner of its automation, they still do after any
-- `finalize_run` of the run that succeeds, whatever artifact ids it is given.
pub finalize_run-AreOwned :
    (finish_time : Time) (run_id : String) (status : RunStatus) (message : String)
    (logs : Option String) (artifact_ids : List String) (db db' : Db) (run : AutomationRun)
    (a : Automation)
    → get_run db run_id ≡ some run
    → get_automation db run.automation_id ≡ some a
    → AreOwned db a.user_id run.artifacts
    → finalize_run finish_time run_id status message logs artifact_ids db ≡ ok db'
    → (run' : AutomationRun) × (get_run db' run_id ≡ some run')
      × AreOwned db' a.user_id run'.artifacts
finalize_run-AreOwned finish_time run_id status message logs artifact_ids db db' run a found owner
      own h =
    let added = new_artifacts artifact_ids run db in
    let (passed, built) =
      finalize_run_ok finish_time run_id status message logs artifact_ids db run found db' h in
    (
      finish status message logs finish_time added run,
      rw
          ((finalize_run_lem finish_time run_id status message logs artifact_ids db run found db' a
            h owner run_id).0)
          (rw (eq_refl run_id) refl),
      rw built (
          AreOwned-append db a.user_id run.artifacts added own (
            AreOwned-map db a.user_id
              (λ i. member i (keep (λ aid. not (member aid run.artifacts)) artifact_ids)) added
              (unfold new_artifacts in All-check_owner a added (rw owner at passed))
              (unfold new_artifacts in
                All-keep
                  (λ x. member x.id (keep (λ aid. not (member aid run.artifacts)) artifact_ids))
                  db.artifacts))),
    )
