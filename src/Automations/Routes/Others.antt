-- ===== src/Automations/Routes/Others.antt =====
-- What a user's requests leave of the automations of other users.
use autom.Prelude.{
  String, ◌≡◌, refl, sym, subst, ◌∙◌, true, false, not, Option, none, some, List, ◌==◌, arith, map,
  Bool-cases, inl, inr, eq_iff,
}
use autom.Prelude.Every.{some-eq}
use autom.Prelude.Rows.{
  find_row, key-find_row, find_row-update_row, find_row-update_other, find_row-remove_row,
}
use autom.Prelude.Result.{
  Result, ok, value_error, >>=-eq-ok, ok-eq, or_raise, or_raise-eq, raise_if-ok,
}
use autom.Artifacts.{Files, Env}
use autom.Accounts.{LinkedAccount}
use autom.Billing.{Time, SupabaseUser}
use autom.Billing.Limits.{Plans}
use autom.Automations.{in_progress, Automation, Db, get_automation}
use autom.Automations.Runs.{last_run}
use autom.Automations.Crud.{
  Cron, AutomationCreate, AutomationUpdate, create_automation, updated,
  validate_and_fetch_linked_accounts, check_cron_schedule, update_automation, delete_automation,
}
use autom.Automations.Crud.Laws.{updated_lem}
use autom.Automations.Routes.{
  AutomationTemplate, FromTemplate, same_set, check_apps, from_template, check_owned,
  update_existing_automation, delete_existing_automation, run_an_automation,
  create_automation_from_template,
}
use autom.Automations.Routes.Laws.{check_owned-ok, bad_request-ok, run_an_automation_lem}
use autom.Automations.Routes.Runs.{delete_a_run}
use autom.Automations.Routes.Runs.Laws.{delete_a_run_lem}

-- A request of a user that returned. The id of a new automation is not that of another.
pub data Request (user_id : String) : Db → Db → Type 0 where
  created :
      (accounts : List LinkedAccount) (new_id : String) (now : Time)
      (automation_in : AutomationCreate) (db db' : Db)
      → get_automation db new_id ≡ none
      → create_automation accounts new_id now user_id automation_in db ≡ ok db'
      → Request user_id db db'
  rendered :
      (cron : Cron) (render : String → List (String × String) → Result String)
      (accounts : List LinkedAccount) (new_id : String) (now : Time)
      (found : Option AutomationTemplate) (template_data : FromTemplate) (db db' : Db)
      → get_automation db new_id ≡ none
      → create_automation_from_template cron render accounts new_id now user_id found template_data
          db
        ≡ ok db'
      → Request user_id db db'
  changed :
      (accounts : List LinkedAccount) (id : String) (u : AutomationUpdate) (db db' : Db)
      → update_existing_automation accounts user_id id u db ≡ ok db'
      → Request user_id db db'
  deleted :
      (id : String) (db db' : Db)
      → delete_existing_automation user_id id db ≡ ok db'
      → Request user_id db db'
  ran :
      (plans : Plans) (find_user : String → Option SupabaseUser) (run_id usage_id : String)
      (now : Time) (id : String) (db db' : Db)
      → run_an_automation plans find_user run_id usage_id now user_id id db ≡ ok db'
      → Request user_id db db'
  forgot_run :
      (env : Env) (run_id : String) (db db' : Db) (files files' : Files)
      → delete_a_run env user_id run_id db files ≡ ok (db', files')
      → Request user_id db db'

-- The automation with the id is there, and is another user's.
abbrev pub IsOther : String → String → Automation → Db → Type 0
IsOther user_id j a db = (get_automation db j ≡ some a) × ((a.user_id == user_id) ≡ false)

other_id :
    (user_id id j : String) (own a : Automation) (db : Db)
    → get_automation db id ≡ some own
    → (own.user_id == user_id) ≡ true
    → IsOther user_id j a db
    → (id == j) ≡ false
other_id user_id id j own a db here mine (there, other) = elim (Bool-cases (id == j)) [
  | inl hit ↦
      let same =
        some-eq (
          sym here ∙ subst (λ k. get_automation db k ≡ some a) (sym ((eq_iff id j).0 hit)) there) in
      absurd (ground (arith, subst (λ x. (x.user_id == user_id) ≡ true) same mine, other))
  | inr miss ↦ miss
]

module _ (user_id j : String) (a : Automation) where
  create-others :
      (accounts : List LinkedAccount) (new_id : String) (now : Time)
      (automation_in : AutomationCreate) (db db' : Db)
      → get_automation db new_id ≡ none
      → create_automation accounts new_id now user_id automation_in db ≡ ok db'
      → get_automation db j ≡ some a
      → get_automation db' j ≡ some a
  unfolding create_automation find_row
  create-others accounts new_id now automation_in db db' fresh h there =
      let (linked, f, made) =
        >>=-eq-ok
          (validate_and_fetch_linked_accounts accounts user_id automation_in.linked_account_ids) _
          h in
      subst (λ d. get_automation d j ≡ some a) (ok-eq made)
        (elim (Bool-cases (new_id == j)) [
          | inl hit ↦
              let gone = subst (λ k. get_automation db k ≡ none) ((eq_iff new_id j).0 hit) fresh in
              absurd (ground (arith, sym gone ∙ there))
          | inr miss ↦ rw miss there
        ])

  update-others :
      (accounts : List LinkedAccount) (id : String) (u : AutomationUpdate) (db db' : Db)
      → update_automation accounts id u db ≡ ok db'
      → (id == j) ≡ false
      → get_automation db' j ≡ get_automation db j
  unfolding update_automation
  update-others accounts id u db db' h miss =
      let (own, f1, h1) = >>=-eq-ok (or_raise value_error (get_automation db id)) _ h in
      let (row, f2, h2) = >>=-eq-ok (updated accounts u own) _ h1 in
      let named =
        (updated_lem accounts u own row f2).0
        ∙ key-find_row (λ x. x.id) id db.automations
            (or_raise-eq value_error (get_automation db id) f1) in
      subst (λ d. get_automation d j ≡ get_automation db j) (ok-eq h2)
        (find_row-update_other (λ x. x.id) id j (λ x. row) db.automations (λ x. named) miss)

  -- Creating an automation under a new id, from a template or not, updating, deleting and running one,
  -- and deleting a run: whichever of these a user asked for, if it returns, every automation of another
  -- user is there as it was.
  pub request_spares_others :
      (db db' : Db)
      → Request user_id db db'
      → IsOther user_id j a db
      → get_automation db' j ≡ some a
  unfolding update_existing_automation delete_existing_automation delete_automation
      create_automation_from_template
  request_spares_others _ _ (created accounts new_id now u db db' fresh h) o =
      create-others accounts new_id now u db db' fresh h o.0
  request_spares_others _ _
        (rendered cron render accounts new_id now found template_data db db' fresh h) o =
      let (template, f1, h1) = >>=-eq-ok (or_raise value_error found) _ h in
      let (same, h2) =
        raise_if-ok
          (not (same_set template.variable_names (map (λ v. v.0) template_data.variables)))
          value_error _ db' h1 in
      let (goal, f3, h3) = >>=-eq-ok (render template.goal template_data.variables) _ h2 in
      let (u, f4, h4) =
        >>=-eq-ok
          (check_apps accounts user_id template.required_app_ids template_data.linked_account_ids) _
          h3 in
      let (checked, f5, h5) =
        >>=-eq-ok (check_cron_schedule cron (from_template template template_data goal)) _ h4 in
      create-others accounts new_id now (from_template template template_data goal) db db' fresh h5
        o.0
  request_spares_others _ _ (changed accounts id u db db' h) o =
      let (own, f, h1) = >>=-eq-ok (check_owned user_id (get_automation db id)) _ h in
      let (here, mine) = check_owned-ok user_id (get_automation db id) own f in
      update-others accounts id u db db'
        (bad_request-ok (update_automation accounts id u db) db' h1)
        (other_id user_id id j own a db here mine o)
      ∙ o.0
  request_spares_others _ _ (deleted id db db' h) o =
      let (own, f, h1) = >>=-eq-ok (check_owned user_id (get_automation db id)) _ h in
      let (here, mine) = check_owned-ok user_id (get_automation db id) own f in
      subst (λ d. get_automation d j ≡ some a) (ok-eq h1)
        (find_row-remove_row (λ x. x.id) id j db.automations
          ∙ rw (other_id user_id id j own a db here mine o) o.0)
  request_spares_others _ _ (ran plans find_user run_id usage_id now id db db' h) o =
      let (
        user, limits, own, known, active, bounded, below, here, mine, rows, begins, queued, counted,
        within,
      ) =
        run_an_automation_lem plans find_user run_id usage_id now user_id id db db' h in
      subst (λ xs. find_row (λ x. x.id) j xs ≡ some a) (sym rows)
        (find_row-update_row (λ x. x.id) id j (last_run in_progress now) db.automations (λ x. refl)
          ∙ rw (other_id user_id id j own a db here mine o) o.0)
  request_spares_others _ _ (forgot_run env run_id db db' files files' h) o =
      let (gone, kept, rows, task) = delete_a_run_lem env user_id run_id db files (db', files') h in
      subst (λ xs. find_row (λ x. x.id) j xs ≡ some a) (sym rows) o.0
