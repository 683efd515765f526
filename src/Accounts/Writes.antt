-- ===== src/Accounts/Writes.antt =====
-- The six ways in which the code writes the table of linked accounts.
use autom.Prelude.{
  if◌then◌else◌, String, ◌≡◌, subst, Bool, true, false, not, Option, some, List, ◌∷◌, arith, keep,
  find, any, Bool-cases, inl, inr,
}
use autom.Prelude.Result.{ok, other, >>=-eq-ok, ok-eq, raise_if-ok, or_raise}
use autom.Accounts.{SecurityCredentials, LinkedAccount, Store, App, AppConfiguration}
use autom.Accounts.Credentials.{scheme_of}
use autom.Accounts.Manager.{
  SecurityCredentialsResponse, types_match, set_account, with_credentials,
  update_linked_account_credentials,
}
use autom.Accounts.Tables.{
  conflicts, new_account, create_linked_account, get_app, delete_linked_account, is_of_app,
}

-- Columns that neither the constraints nor the class of the credentials depend on.
abbrev pub KeepsLink : (LinkedAccount → LinkedAccount) → Type 0
KeepsLink f =
    (a : LinkedAccount)
    → ((f a).id ≡ a.id)
      × ((f a).user_id ≡ a.user_id)
      × ((f a).app_id ≡ a.app_id)
      × ((f a).security_scheme ≡ a.security_scheme)
      × ((f a).security_credentials ≡ a.security_credentials)

pub data Write : Store → Store → Type 0 where
  account_created :
      (new_id user_id app_id : String) (c : SecurityCredentials) (s : Store)
      → any (conflicts (new_account new_id user_id app_id (scheme_of c) c)) s.accounts ≡ false
      → Write s
          (record s { accounts = new_account new_id user_id app_id (scheme_of c) c ∷ s.accounts })
  credentials_set :
      (p : LinkedAccount → Bool) (account : LinkedAccount) (c : SecurityCredentials) (s : Store)
      → find p s.accounts ≡ some account
      → types_match account.security_scheme c ≡ true
      → Write s (set_account account.id (with_credentials c) s)
  columns_set :
      (id : String) (f : LinkedAccount → LinkedAccount) (s : Store)
      → KeepsLink f
      → Write s (set_account id f s)
  account_removed :
      (p : LinkedAccount → Bool) (account : LinkedAccount) (s : Store)
      → find p s.accounts ≡ some account
      → Write s (delete_linked_account account s)
  app_cleared :
      (app : Option App) (s : Store)
      → Write s (record s { accounts = keep (λ a. not (is_of_app app a)) s.accounts })
  none_written :
      (apps : List App) (configurations : List AppConfiguration) (s : Store)
      → Write s (record s { apps = apps; configurations = configurations })

pub update_credentials-Write :
    (store t : Store) (p : LinkedAccount → Bool) (account : LinkedAccount) (c : SecurityCredentials)
    → find p store.accounts ≡ some account
    → update_linked_account_credentials account c store ≡ ok t
    → Write store t
unfolding update_linked_account_credentials
update_credentials-Write store t p account c found e =
    elim (Bool-cases (types_match account.security_scheme c)) [
      | inl y ↦ subst (Write store) (ok-eq (rw y at e)) (credentials_set p account c store found y)
      | inr n ↦ absurd (ground (arith, rw n at e))
    ]

pub create-Write :
    (new_id user_id app_name : String) (c : SecurityCredentials) (store t : Store)
    → create_linked_account new_id user_id app_name (scheme_of c) c store ≡ ok t
    → Write store t
unfolding create_linked_account
create-Write new_id user_id app_name c store t e =
    let app = >>=-eq-ok (or_raise (other "NoResultFound") (get_app app_name false store)) _ e in
    let account = new_account new_id user_id app.0.id (scheme_of c) c in
    let free =
      raise_if-ok (any (conflicts account) store.accounts) (other "IntegrityError") _ t app.2 in
    subst (Write store) (ok-eq free.1) (account_created new_id user_id app.0.id c store free.0)

-- The write that follows a read of the credentials.
pub response-Write :
    (p : LinkedAccount → Bool) (account : LinkedAccount) (r : SecurityCredentialsResponse)
    (s : Store)
    → find p s.accounts ≡ some account
    → types_match account.security_scheme r.credentials ≡ true
    → Write s
        (if r.is_updated then set_account account.id (with_credentials r.credentials) s else s)
response-Write p account r s found same = elim (Bool-cases r.is_updated) [
  | inl y ↦ rw y (credentials_set p account r.credentials s found same)
  | inr n ↦ rw n (none_written s.apps s.configurations s)
]
