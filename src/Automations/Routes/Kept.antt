-- ===== src/Automations/Routes/Kept.antt =====
-- What holds of the automations after any requests of users, beats of the scheduler and runs of the
-- worker: their links and their schedules.
use autom.Prelude.{
  ℕ, String, ◌≡◌, sym, subst, true, false, not, Option, List, [], ◌∷◌, ◌==◌, arith, map, keep, All,
  Bool-cases, inl, inr, eq_iff,
}
use autom.Prelude.Rows.{remove_row, update_row}
use autom.Prelude.Every.{All-map, All-update_row, All-remove_row}
use autom.Prelude.Result.{
  value_error, linked_account_not_found, Result, ok, >>=-eq-ok, ok-eq, raise_if-ok, or_raise,
}
use autom.Accounts.{LinkedAccount, Store}
use autom.Accounts.Tables.{get_linked_account_by_id_and_user_id}
use autom.Billing.{Time}
use autom.Automations.{Automation, Db}
use autom.Automations.Crud.{
  Cron, AutomationCreate, check_cron_schedule, create_automation, AutomationUpdate,
  update_automation, delete_automation,
}
use autom.Automations.Crud.Owned.{owns, OwnsLinks, AreLinked}
use autom.Automations.Crud.Laws.{
  IsScheduled, AreScheduled, create_automation-AreLinked, update_automation-AreLinked,
  update_automation-AreScheduled, create_automation-AreScheduled,
}
use autom.Automations.Routes.{
  AutomationTemplate, FromTemplate, from_template, same_set, check_apps,
  create_automation_from_template,
}
use autom.Automations.Routes.Unlink.{
  delete_all, without_link, dependent_automations, delete_linked_account,
}

owns-remove_row :
    (id k user_id : String) (accounts : List LinkedAccount)
    → (k == id) ≡ false
    → owns accounts user_id k ≡ true
    → owns (remove_row (λ la. la.id) id accounts) user_id k ≡ true
unfolding remove_row
owns-remove_row id k user_id [] n h = h
owns-remove_row id k user_id (la ∷ rest) n h =
    let next = owns-remove_row id k user_id rest n in
    ground (arith, next, eq_iff la.id id, eq_iff la.id k, eq_iff k id)

delete_all-All :
    (P : Automation → Type 0) (ds : List Automation) (db : Db)
    → All P db.automations
    → All P (delete_all ds db).automations
unfolding delete_all delete_automation
delete_all-All P [] db h = h
delete_all-All P (d ∷ ds) db h =
    delete_all-All P ds (delete_automation d.id db)
      (All-remove_row (λ a. a.id) P d.id db.automations h)

All-mapped :
    {A B : Type 0} (P : A → Type 0) (Q : B → Type 0) (f : A → B) (xs : List A)
    → ((x : A) → P x → Q (f x))
    → All P xs
    → All Q (map f xs)
All-mapped P Q f [] g h = tt
All-mapped P Q f (x ∷ xs) g h = (g x h.0, All-mapped P Q f xs g h.1)

-- The links without an account's, in the table without the account.
without_link-OwnsLinks :
    (id : String) (accounts : List LinkedAccount) (a : Automation)
    → OwnsLinks accounts a
    → OwnsLinks (remove_row (λ la. la.id) id accounts) (without_link id a)
without_link-OwnsLinks id accounts a h = links a.linked_account_ids h
  where
    links :
        (ids : List String)
        → All (λ k. owns accounts a.user_id k ≡ true) ids
        → All
            (λ k. owns (remove_row (λ la. la.id) id accounts) a.user_id k ≡ true)
            (keep (λ k. not (k == id)) ids)
    links [] h = tt
    links (k ∷ ids) h = elim (Bool-cases (k == id)) [
      | inl y ↦ rw y (links ids h.1)
      | inr n ↦ rw n (owns-remove_row id k a.user_id accounts n h.0, links ids h.1)
    ]

-- Columns of an automation that the scheduler and the worker leave alone.
abbrev pub KeepsOwner : (Automation → Automation) → Type 0
KeepsOwner f =
    (a : Automation)
    → ((f a).user_id ≡ a.user_id)
      × ((f a).linked_account_ids ≡ a.linked_account_ids)
      × ((f a).is_recurring ≡ a.is_recurring)
      × ((f a).cron_schedule ≡ a.cron_schedule)

-- One change of the automations and of the linked accounts that are there. `was_written` is a write
-- of the scheduler, of the worker or of a run to a row, and to the other tables.
pub data Change (cron : Cron) (render : String → List (String × String) → Result String)
    : List LinkedAccount → Db → List LinkedAccount → Db → Type 0 where
  was_created :
      (new_id : String) (now : Time) (user_id : String) (automation_in : AutomationCreate)
      (accounts : List LinkedAccount) (db db' : Db)
      → check_cron_schedule cron automation_in ≡ ok tt
      → create_automation accounts new_id now user_id automation_in db ≡ ok db'
      → Change cron render accounts db accounts db'
  was_rendered :
      (new_id : String) (now : Time) (user_id : String) (found : Option AutomationTemplate)
      (template_data : FromTemplate) (accounts : List LinkedAccount) (db db' : Db)
      → create_automation_from_template cron render accounts new_id now user_id found template_data
          db
        ≡ ok db'
      → Change cron render accounts db accounts db'
  was_updated :
      (id : String) (u : AutomationUpdate) (accounts : List LinkedAccount) (db db' : Db)
      → update_automation accounts id u db ≡ ok db'
      → Change cron render accounts db accounts db'
  was_deleted :
      (id : String) (accounts : List LinkedAccount) (db : Db)
      → Change cron render accounts db accounts (delete_automation id db)
  was_written :
      (id : String) (f : Automation → Automation) (accounts : List LinkedAccount) (db db' : Db)
      → KeepsOwner f
      → db'.automations ≡ update_row (λ a. a.id) id f db.automations
      → Change cron render accounts db accounts db'
  was_linked :
      (la : LinkedAccount) (accounts : List LinkedAccount) (db : Db)
      → Change cron render accounts db (la ∷ accounts) db
  was_unlinked :
      (created_at : String → ℕ) (user_id id : String) (store store' : Store) (db db' : Db)
      → delete_linked_account created_at user_id id store db ≡ ok (store', db')
      → Change cron render store.accounts db store'.accounts db'

abbrev pub IsKept : List LinkedAccount → Db → Type 0
IsKept accounts db = AreLinked accounts db × AreScheduled db

linked-AreLinked :
    (la : LinkedAccount) (accounts : List LinkedAccount) (db : Db)
    → AreLinked accounts db
    → AreLinked (la ∷ accounts) db
linked-AreLinked la accounts db h =
    All-map db.automations
      (λ a owned. All-map a.linked_account_ids (λ id o. ground (arith, o)) owned) h

unlinked-IsKept :
    (created_at : String → ℕ) (user_id id : String) (store store' : Store) (db db' : Db)
    → delete_linked_account created_at user_id id store db ≡ ok (store', db')
    → IsKept store.accounts db
    → IsKept store'.accounts db'
unfolding delete_linked_account
unlinked-IsKept created_at user_id id store store' db db' h kept =
    let ds = dependent_automations created_at user_id id db in
    let (account, f, made) =
      >>=-eq-ok
        (or_raise linked_account_not_found (get_linked_account_by_id_and_user_id user_id id store))
        _ h in
    let left = delete_all-All (OwnsLinks store.accounts) ds db kept.0 in
    let planned = delete_all-All IsScheduled ds db kept.1 in
    subst (λ x. IsKept x.0.accounts x.1) (ok-eq made)
      (
        All-mapped (OwnsLinks store.accounts)
            (OwnsLinks (remove_row (λ la. la.id) account.id store.accounts))
            (without_link account.id) (delete_all ds db).automations
            (λ a o. without_link-OwnsLinks account.id store.accounts a o) left,
        All-mapped IsScheduled IsScheduled (without_link account.id) (delete_all ds db).automations
            (λ a p. p) planned,
      )

module _ (cron : Cron) (render : String → List (String × String) → Result String) where
  rendered-IsKept :
      (new_id : String) (now : Time) (user_id : String) (found : Option AutomationTemplate)
      (template_data : FromTemplate) (accounts : List LinkedAccount) (db db' : Db)
      → create_automation_from_template cron render accounts new_id now user_id found template_data
          db
        ≡ ok db'
      → IsKept accounts db
      → IsKept accounts db'
  unfolding create_automation_from_template
  rendered-IsKept new_id now user_id found template_data accounts db db' h kept =
      let (template, f1, h1) = >>=-eq-ok (or_raise value_error found) _ h in
      let (same, h2) =
        raise_if-ok
          (not (same_set template.variable_names (map (λ v. v.0) template_data.variables)))
          value_error _ db' h1 in
      let (goal, f3, h3) = >>=-eq-ok (render template.goal template_data.variables) _ h2 in
      let (u, f4, h4) =
        >>=-eq-ok
          (check_apps accounts user_id template.required_app_ids template_data.linked_account_ids) _
          h3 in
      let (checked, f5, h5) =
        >>=-eq-ok (check_cron_schedule cron (from_template template template_data goal)) _ h4 in
      (
        create_automation-AreLinked accounts new_id now user_id
            (from_template template template_data goal) db db' h5 kept.0,
        create_automation-AreScheduled accounts cron new_id now user_id
            (from_template template template_data goal) db db' f5 h5 kept.1,
      )

  Change-IsKept :
      (accounts accounts' : List LinkedAccount) (db db' : Db)
      → Change cron render accounts db accounts' db'
      → IsKept accounts db
      → IsKept accounts' db'
  unfolding delete_automation
  Change-IsKept _ _ _ _ (was_created new_id now user_id automation_in accounts db db' checked h)
        kept =
      (
        create_automation-AreLinked accounts new_id now user_id automation_in db db' h kept.0,
        create_automation-AreScheduled accounts cron new_id now user_id automation_in db db' checked
            h kept.1,
      )
  Change-IsKept _ _ _ _ (was_rendered new_id now user_id found template_data accounts db db' h)
        kept =
      rendered-IsKept new_id now user_id found template_data accounts db db' h kept
  Change-IsKept _ _ _ _ (was_updated id u accounts db db' h) kept = (
    update_automation-AreLinked accounts id u db db' h kept.0,
    update_automation-AreScheduled accounts id u db db' h kept.1,
  )
  Change-IsKept _ _ _ _ (was_deleted id accounts db) kept = (
    All-remove_row (λ a. a.id) (OwnsLinks accounts) id db.automations kept.0,
    All-remove_row (λ a. a.id) IsScheduled id db.automations kept.1,
  )
  Change-IsKept _ _ _ _ (was_written id f accounts db db' k e) kept = (
    subst (λ rows. All (OwnsLinks accounts) rows) (sym e)
        (All-update_row (λ a. a.id) (OwnsLinks accounts) (OwnsLinks accounts) id f db.automations
          (λ a m o. rw ((k a).0, (k a).1) o) (λ a o. o) kept.0),
    subst (λ rows. All IsScheduled rows) (sym e)
        (All-update_row (λ a. a.id) IsScheduled IsScheduled id f db.automations
          (λ a m o. rw ((k a).2, (k a).3) o) (λ a o. o) kept.1),
  )
  Change-IsKept _ _ _ _ (was_linked la accounts db) kept =
      (linked-AreLinked la accounts db kept.0, kept.1)
  Change-IsKept _ _ _ _ (was_unlinked created_at user_id id store store' db db' h) kept =
      unlinked-IsKept created_at user_id id store store' db db' h kept

pub data IsReachable (cron : Cron) (render : String → List (String × String) → Result String)
    : List LinkedAccount → Db → Type 0 where
  at_start : (db : Db) → db.automations ≡ [] → IsReachable cron render [] db
  next :
      (accounts accounts' : List LinkedAccount) (db db' : Db)
      → IsReachable cron render accounts db
      → Change cron render accounts db accounts' db'
      → IsReachable cron render accounts' db'

-- From the empty tables on, after any creations, with and without a template, updates and deletions
-- of automations, writes of their runs, and links and deletions of accounts: every account that an
-- automation uses is there and belongs to the owner of the automation, and every recurring
-- automation has a schedule.
pub IsReachable-IsKept :
    (cron : Cron) (render : String → List (String × String) → Result String)
    (accounts : List LinkedAccount) (db : Db)
    → IsReachable cron render accounts db
    → IsKept accounts db
IsReachable-IsKept cron render _ _ (at_start db e) = (
  subst (λ rows. All (OwnsLinks []) rows) (sym e) tt,
  subst (λ rows. All IsScheduled rows) (sym e) tt,
)
IsReachable-IsKept cron render _ _ (next accounts accounts' db db' r c) =
    Change-IsKept cron render accounts accounts' db db' c
      (IsReachable-IsKept cron render accounts db r)
