-- ===== src/Automations/Crud/Laws.antt =====
-- What the crud functions keep of the automations: their links and their schedules.
use autom.Prelude.{
  String, ◌≡◌, refl, sym, subst, Bool, true, false, not, ◌&&◌, Option, none, some, List, arith, All,
  if◌then◌else◌,
}
use autom.Prelude.Text.{opt_truthy}
use autom.Prelude.Every.{All-update_row, find_row-All}
use autom.Prelude.Result.{ok, value_error, >>=-eq-ok, ok-eq, or_raise-eq, raise_if-ok, or_raise}
use autom.Accounts.{LinkedAccount}
use autom.Billing.{Time}
use autom.Automations.{Automation, Db, get_automation}
use autom.Automations.Crud.{
  validate_and_fetch_linked_accounts, Cron, AutomationCreate, check_cron_schedule,
  create_automation, Field, unset, set, AutomationUpdate, field_or, required, is_true,
  is_switched_off, update_links, final_cron, updated, update_automation,
}
use autom.Automations.Crud.Owned.{owns, OwnsLinks, AreLinked, validate_lem, update_links-owned}

-- A recurring automation has a schedule.
abbrev pub IsScheduled : Automation → Type 0
IsScheduled a = (a.is_recurring && not (opt_truthy a.cron_schedule)) ≡ false

abbrev pub AreScheduled : Db → Type 0
AreScheduled db = All IsScheduled db.automations

recurring_cron :
    (recurring : Field Bool) (cron : Field String) (was is : Bool) (stored : Option String)
    → required recurring was ≡ ok is
    → (is_true (field_or recurring (some was)) && not (opt_truthy (field_or cron stored))) ≡ false
    → (is && not (opt_truthy (if is_switched_off recurring then none else field_or cron stored)))
      ≡ false
recurring_cron unset cron was is stored r g = ground arith
recurring_cron (set none) cron was is stored r g = cc
recurring_cron (set (some true)) cron was is stored r g = ground arith
recurring_cron (set (some false)) cron was is stored r g = ground arith

module _ (accounts : List LinkedAccount) where
  -- Creating an automation keeps every automation linked to accounts of its owner only.
  pub create_automation-AreLinked :
      (new_id : String) (now : Time) (user_id : String) (automation_in : AutomationCreate)
      (db db' : Db)
      → create_automation accounts new_id now user_id automation_in db ≡ ok db'
      → AreLinked accounts db
      → AreLinked accounts db'
  unfolding create_automation
  create_automation-AreLinked new_id now user_id automation_in db db' h are =
      let (linked, f, made) =
        >>=-eq-ok
          (validate_and_fetch_linked_accounts accounts user_id automation_in.linked_account_ids) _
          h in
      subst (AreLinked accounts) (ok-eq made)
        ((validate_lem accounts user_id automation_in.linked_account_ids linked f).1, are)

  -- The row of an update, by its columns.
  pub updated_lem :
      (u : AutomationUpdate) (a row : Automation)
      → updated accounts u a ≡ ok row
      → (row.id ≡ a.id)
        × (row.user_id ≡ a.user_id)
        × (update_links accounts u.linked_account_ids a ≡ ok row.linked_account_ids)
        × (required u.is_recurring a.is_recurring ≡ ok row.is_recurring)
        × (row.cron_schedule ≡ final_cron u a)
        × ((is_true (field_or u.is_recurring (some a.is_recurring))
              && not (opt_truthy (field_or u.cron_schedule a.cron_schedule)))
            ≡ false)
  unfolding updated
  updated_lem u a row h =
      let (guard, h0) =
        raise_if-ok
          (is_true (field_or u.is_recurring (some a.is_recurring))
            && not (opt_truthy (field_or u.cron_schedule a.cron_schedule)))
          value_error _ row h in
      let (linked, f1, h1) = >>=-eq-ok (update_links accounts u.linked_account_ids a) _ h0 in
      let (name, f2, h2) = >>=-eq-ok (required u.name a.name) _ h1 in
      let (goal, f3, h3) = >>=-eq-ok (required u.goal a.goal) _ h2 in
      let (is_recurring, f4, h4) = >>=-eq-ok (required u.is_recurring a.is_recurring) _ h3 in
      let (is_deep, f5, h5) = >>=-eq-ok (required u.is_deep a.is_deep) _ h4 in
      let (active, f6, h6) = >>=-eq-ok (required u.active a.active) _ h5 in
      subst
        (λ x.
          (x.id ≡ a.id)
          × (x.user_id ≡ a.user_id)
          × (update_links accounts u.linked_account_ids a ≡ ok x.linked_account_ids)
          × (required u.is_recurring a.is_recurring ≡ ok x.is_recurring)
          × (x.cron_schedule ≡ final_cron u a)
          × ((is_true (field_or u.is_recurring (some a.is_recurring))
                && not (opt_truthy (field_or u.cron_schedule a.cron_schedule)))
              ≡ false))
        (ok-eq h6) (refl, refl, f1, f4, refl, guard)

  -- Updating an automation keeps every automation linked to accounts of its owner only.
  pub update_automation-AreLinked :
      (automation_id : String) (u : AutomationUpdate) (db db' : Db)
      → update_automation accounts automation_id u db ≡ ok db'
      → AreLinked accounts db
      → AreLinked accounts db'
  unfolding update_automation
  update_automation-AreLinked automation_id u db db' h are =
      let (a, f1, h1) = >>=-eq-ok (or_raise value_error (get_automation db automation_id)) _ h in
      let (row, f2, h2) = >>=-eq-ok (updated accounts u a) _ h1 in
      let (same_id, same_user, links, recurring, schedule, guard) = updated_lem u a row f2 in
      let old =
        find_row-All (λ x. x.id) (OwnsLinks accounts) automation_id db.automations are
          (or_raise-eq value_error (get_automation db automation_id) f1) in
      let owned =
        update_links-owned accounts u.linked_account_ids a row.linked_account_ids links old in
      subst (AreLinked accounts) (ok-eq h2) (
        All-update_row (λ x. x.id) (OwnsLinks accounts) (OwnsLinks accounts) automation_id
          (λ x. row) db.automations
          (λ x e o.
            subst (λ user. All (λ id. owns accounts user id ≡ true) row.linked_account_ids)
              (sym same_user) owned)
          (λ x o. o) are)

  updated-IsScheduled :
      (u : AutomationUpdate) (a row : Automation) → updated accounts u a ≡ ok row → IsScheduled row
  updated-IsScheduled u a row h =
      let (same_id, same_user, links, recurring, cron, guard) = updated_lem u a row h in
      rw cron (
        recurring_cron u.is_recurring u.cron_schedule a.is_recurring row.is_recurring
          a.cron_schedule recurring guard)

  -- Updating an automation leaves no recurring automation without a schedule: if every recurring
  -- automation has one before, every one has one after.
  pub update_automation-AreScheduled :
      (automation_id : String) (u : AutomationUpdate) (db db' : Db)
      → update_automation accounts automation_id u db ≡ ok db'
      → AreScheduled db
      → AreScheduled db'
  unfolding update_automation
  update_automation-AreScheduled automation_id u db db' h are =
      let (a, f1, h1) = >>=-eq-ok (or_raise value_error (get_automation db automation_id)) _ h in
      let (row, f2, h2) = >>=-eq-ok (updated accounts u a) _ h1 in
      subst AreScheduled (ok-eq h2) (
        All-update_row (λ x. x.id) IsScheduled IsScheduled automation_id (λ x. row) db.automations
          (λ x e o. updated-IsScheduled u a row f2) (λ x o. o) are)

  -- So does creating one whose request the validator let through.
  pub create_automation-AreScheduled :
      (cron : Cron) (new_id : String) (now : Time) (user_id : String)
      (automation_in : AutomationCreate) (db db' : Db)
      → check_cron_schedule cron automation_in ≡ ok tt
      → create_automation accounts new_id now user_id automation_in db ≡ ok db'
      → AreScheduled db
      → AreScheduled db'
  unfolding create_automation check_cron_schedule
  create_automation-AreScheduled cron new_id now user_id automation_in db db' checked h are =
      let (linked, f, made) =
        >>=-eq-ok
          (validate_and_fetch_linked_accounts accounts user_id automation_in.linked_account_ids) _
          h in
      let (guard, more) =
        raise_if-ok (automation_in.is_recurring && not (opt_truthy automation_in.cron_schedule))
          value_error _ tt checked in
      subst AreScheduled (ok-eq made) (guard, are)
