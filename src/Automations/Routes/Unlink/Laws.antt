-- ===== src/Automations/Routes/Unlink/Laws.antt =====
-- What is left after a linked account was deleted.
use autom.Prelude.{
  ℕ, ◌≤◌, String, ◌≡◌, refl, subst, true, none, List, [], ◌∷◌, ◌==◌, arith, keep, member, length,
  All, eq_iff, if◌then◌else◌,
}
use autom.Prelude.Rows.{find_row-remove_row, find_row-map}
use autom.Prelude.Every.{All-map, All-unkeep}
use autom.Prelude.Result.{ok, linked_account_not_found, >>=-eq-ok, ok-eq, or_raise}
use autom.Accounts.{Store}
use autom.Accounts.Tables.{get_linked_account_by_id_and_user_id}
use autom.Automations.{Automation, Db, get_automation}
use autom.Automations.Crud.{delete_automation}
use autom.Automations.Crud.Lists.{limit, order_by, before, list_user_automations}
use autom.Automations.Crud.Lists.Laws.{All-unorder, length-order_by, limit-all}
use autom.Automations.Routes.Unlink.{
  delete_all, without_link, cascade, dependent_automations, delete_linked_account,
}

-- A deleted automation is gone, and stays so.
delete_automation-gone :
    (id k : String) (db : Db)
    → get_automation (delete_automation id db) k ≡ (if id == k then none else get_automation db k)
unfolding delete_automation
delete_automation-gone id k db = find_row-remove_row (λ a. a.id) id k db.automations

delete_all-gone :
    (ds : List Automation) (db : Db) (k : String)
    → get_automation db k ≡ none
    → get_automation (delete_all ds db) k ≡ none
unfolding delete_all
delete_all-gone [] db k h = h
delete_all-gone (d ∷ ds) db k h =
    delete_all-gone ds (delete_automation d.id db) k
      (ground (arith, delete_automation-gone d.id k db))

get-delete_all :
    (ds : List Automation) (db : Db) → All (λ d. get_automation (delete_all ds db) d.id ≡ none) ds
unfolding delete_all
get-delete_all [] db = tt
get-delete_all (d ∷ ds) db = (
  delete_all-gone ds (delete_automation d.id db) d.id
      (ground (arith, delete_automation-gone d.id d.id db, eq_iff d.id d.id)),
  get-delete_all ds (delete_automation d.id db),
)

cascade-gone :
    (id k : String) (db : Db) → get_automation db k ≡ none → get_automation (cascade id db) k ≡ none
cascade-gone id k db h = find_row-map (λ a. a.id) (without_link id) k db.automations (λ a. refl) h

-- Deleting a linked account deletes every automation of the user that uses it, if the user has no
-- more than 1000 automations.
pub unlink_deletes :
    (created_at : String → ℕ) (user_id id : String) (store store' : Store) (db db' : Db)
    → length (keep (λ a. a.user_id == user_id) db.automations) ≤ 1000
    → delete_linked_account created_at user_id id store db ≡ ok (store', db')
    → All
        (λ a.
          (a.user_id == user_id) ≡ true
          → member id a.linked_account_ids ≡ true
          → get_automation db' a.id ≡ none)
        db.automations
unfolding delete_linked_account list_user_automations
unlink_deletes created_at user_id id store store' db db' few h =
    let mine = keep (λ a. a.user_id == user_id) db.automations in
    let sorted = order_by (before created_at) mine in
    let page = limit 1000 sorted in
    let ds = dependent_automations created_at user_id id db in
    let (account, f, made) =
      >>=-eq-ok
        (or_raise linked_account_not_found (get_linked_account_by_id_and_user_id user_id id store))
        _ h in
    let gone_after = λ (a : Automation). get_automation db' a.id ≡ none in
    let whole : page ≡ sorted =
      limit-all 1000 sorted (rw (length-order_by (before created_at) mine) few) in
    let gone : All (λ a. get_automation (delete_all ds db) a.id ≡ none) ds = get-delete_all ds db in
    let gone' : All gone_after ds =
      All-map ds
        (λ a g.
          subst (λ x. get_automation x.1 a.id ≡ none) (ok-eq made)
            (cascade-gone account.id a.id (delete_all ds db) g))
        gone in
    let uses =
      λ (a : Automation). member id a.linked_account_ids ≡ true → get_automation db' a.id ≡ none in
    let all_page : All uses page =
      All-unkeep gone_after (λ a. member id a.linked_account_ids) page gone' in
    All-unkeep uses (λ a. a.user_id == user_id) db.automations
      (All-unorder uses (before created_at) mine (subst (λ xs. All uses xs) whole all_page))
