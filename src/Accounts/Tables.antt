-- ===== src/Accounts/Tables.antt =====
-- The queries and writes of aci/common/db/crud/linked_accounts.py, and those of apps.py and
-- app_configurations.py that the routes use. The columns by which a query expects one row at most
-- are unique, so that it finds the first one.
pub mod Laws
use autom.Prelude.{
  ℕ, String, Bool, true, false, not, ◌&&◌, ◌||◌, Option, none, some, List, [], ◌∷◌, ◌==◌, find, any,
  keep, is_some, length, member, if◌then◌else◌,
}
use mathlib.Core.Option
use autom.Prelude.Text.{is_truthy}
use autom.Prelude.Rows.{find_row, update_row, remove_row}
use autom.Prelude.Result.{Exception, other, Result, ok, err, ◌>>=◌, ◌>>◌, raise_if, or_raise}
use autom.Accounts.{
  SecurityScheme, App, AppConfiguration, SecurityCredentials, Dict, LinkedAccount, Store,
}
use autom.Accounts.Credentials.{model_dump}
use autom.Accounts.Manager.{set_account}

-- `get_app` of aci/common/db/crud/apps.py
abbrev pub get_app : String → Bool → Store → Option App
get_app app_name active_only store =
    find (λ app. app.name == app_name && (not active_only || app.active)) store.apps

-- The configuration of an app together with the app.
abbrev pub with_configuration : List AppConfiguration → App → Option (App × AppConfiguration)
with_configuration configurations app =
    Option.map (λ c. (app, c)) (find (λ c. c.app_id == app.id) configurations)

abbrev pub get_app_configuration : String → Store → Option (App × AppConfiguration)
get_app_configuration app_name store = elim (get_app app_name false store) [
  | none ↦ none
  | some app ↦ with_configuration store.configurations app
]

-- The linked account of a user for an app.
abbrev pub is_of : String → String → LinkedAccount → Bool
is_of user_id app_id account = account.user_id == user_id && account.app_id == app_id

abbrev pub get_linked_account_for_app_and_user : String → String → Store → Option LinkedAccount
get_linked_account_for_app_and_user app_id user_id store =
    find (is_of user_id app_id) store.accounts

abbrev pub linked_account_exists_for_app_and_user : String → String → Store → Bool
linked_account_exists_for_app_and_user app_id user_id store =
    any (is_of user_id app_id) store.accounts

-- Where there is no app of that name, the subquery is NULL and no row is equal to it.
abbrev pub get_linked_account : String → String → Store → Option LinkedAccount
get_linked_account user_id app_name store = elim (get_app app_name false store) [
  | none ↦ none
  | some app ↦ get_linked_account_for_app_and_user app.id user_id store
]

abbrev pub get_linked_account_by_id_and_user_id : String → String → Store → Option LinkedAccount
get_linked_account_by_id_and_user_id user_id linked_account_id store =
    find (λ a. a.id == linked_account_id && a.user_id == user_id) store.accounts

abbrev pub get_linked_accounts_by_app_id : String → Store → List LinkedAccount
get_linked_accounts_by_app_id app_id store = keep (λ a. a.app_id == app_id) store.accounts

abbrev pub get_linked_accounts_for_apps : String → List String → Store → List LinkedAccount
get_linked_accounts_for_apps user_id app_ids store =
    keep (λ a. a.user_id == user_id && member a.app_id app_ids) store.accounts

-- A filter by app name, if one is given that is not empty.
abbrev pub named : Option String → Store → LinkedAccount → Bool
named none store account = true
named (some app_name) store account =
    not (is_truthy app_name)
    || any (λ app. app.id == account.app_id && app.name == app_name) store.apps

abbrev pub get_linked_accounts : String → Option String → Store → List LinkedAccount
get_linked_accounts user_id app_name store =
    keep (λ a. a.user_id == user_id && named app_name store a) store.accounts

-- The primary key, and the constraint uc_user_app_linked_account: whether two rows may not both be
-- there.
abbrev pub conflicts : LinkedAccount → LinkedAccount → Bool
conflicts a b = a.id == b.id || is_of a.user_id a.app_id b

abbrev pub add_account : LinkedAccount → Store → Result Store
add_account account store = do
  raise_if (any (conflicts account) store.accounts) (other "IntegrityError")
  ok (record store { accounts = account ∷ store.accounts })

abbrev pub new_account :
    String → String → String → SecurityScheme → SecurityCredentials → LinkedAccount
new_account id user_id app_id scheme credentials = record {
  id = id;
  user_id = user_id;
  app_id = app_id;
  security_scheme = scheme;
  security_credentials = model_dump credentials;
  disabled_functions = [];
  last_used_at = none;
}

-- The new id is the default of the column and is given here. The routes all pass credentials, whose
-- truth is that of an object.
unfoldable pub create_linked_account :
    String → String → String → SecurityScheme → SecurityCredentials → Store → Result Store
create_linked_account new_id user_id app_name scheme credentials store = do
  app ← or_raise (other "NoResultFound") (get_app app_name false store)
  add_account (new_account new_id user_id app.id scheme credentials) store

abbrev pub delete_linked_account : LinkedAccount → Store → Store
delete_linked_account account store = record store {
  accounts = remove_row (λ a. a.id) account.id store.accounts;
}

abbrev pub update_linked_account : LinkedAccount → List String → Store → Store
update_linked_account account disabled_functions =
    set_account account.id (λ a. record a { disabled_functions = disabled_functions })

abbrev pub update_linked_account_last_used_at : ℕ → LinkedAccount → Store → Store
update_linked_account_last_used_at last_used_at account =
    set_account account.id (λ a. record a { last_used_at = some last_used_at })

-- Whether the app of that name is the account's.
abbrev pub is_of_app : Option App → LinkedAccount → Bool
is_of_app none account = false
is_of_app (some app) account = account.app_id == app.id

-- The store after the call, and the number of rows deleted.
abbrev pub delete_linked_accounts_by_app_name : String → Store → Store × ℕ
delete_linked_accounts_by_app_name app_name store =
    let app = get_app app_name false store in
    (
      record store { accounts = keep (λ a. not (is_of_app app a)) store.accounts },
      length (keep (is_of_app app) store.accounts),
    )
