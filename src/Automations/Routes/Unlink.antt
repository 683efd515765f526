-- ===== src/Automations/Routes/Unlink.antt =====
-- `delete_linked_account` of aci/server/routes/linked_accounts.py: a linked account is deleted with
-- the automations that use it. The rows of AutomationLinkedAccount with its id go by their foreign
-- key's ON DELETE CASCADE.
pub mod Laws
use autom.Prelude.{
  ℕ, ◌≤◌, zero, suc, String, ◌≡◌, refl, sym, subst, ap, Bool, true, false, not, ◌&&◌, Option, none,
  some, List, [], ◌∷◌, ◌==◌, arith, map, keep, any, member, length, All, Bool-cases, inl, inr,
  eq_iff, if◌then◌else◌,
}
use autom.Prelude.Rows.{find_row, remove_row, find_row-remove_row}
use autom.Prelude.Every.{All-map, All-unkeep, All-keep, All-remove_row}
use autom.Prelude.Result.{
  Result, ok, linked_account_not_found, ◌>>=◌, ◌>>◌, >>=-eq-ok, ok-eq, or_raise,
}
use autom.Accounts.{LinkedAccount, Store}
use autom.Accounts.Tables.{get_linked_account_by_id_and_user_id}
use autom.Accounts.Tables
use autom.Automations.{Automation, Db, get_automation}
use autom.Automations.Crud.{delete_automation}
use autom.Automations.Crud.Lists.{limit, insert, order_by, before, list_user_automations}
use autom.Automations.Crud.Laws.{IsScheduled, AreScheduled}
use autom.Automations.Crud.Owned.{owns, OwnsLinks, AreLinked}

-- The loop over the dependent automations.
unfoldable pub delete_all : List Automation → Db → Db
delete_all [] db = db
delete_all (automation ∷ rest) db = delete_all rest (delete_automation automation.id db)

-- The association rows of an account are deleted.
abbrev pub without_link : String → Automation → Automation
without_link id a = record a {
  linked_account_ids = keep (λ linked. not (linked == id)) a.linked_account_ids;
}

abbrev pub cascade : String → Db → Db
cascade id db = record db { automations = map (without_link id) db.automations }

abbrev pub dependent_automations : (String → ℕ) → String → String → Db → List Automation
dependent_automations created_at user_id id db =
    keep (λ a. member id a.linked_account_ids) (list_user_automations created_at user_id 1000 0 db)

unfoldable pub delete_linked_account :
    (String → ℕ) → String → String → Store → Db → Result (Store × Db)
unfolding delete_all
delete_linked_account created_at user_id id store db = do
  account ←
      or_raise linked_account_not_found (get_linked_account_by_id_and_user_id user_id id store)
  let left = delete_all (dependent_automations created_at user_id id db) db in
      ok (Tables.delete_linked_account account store, cascade account.id left)
