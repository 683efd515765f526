-- ===== src/Accounts/Invariant.antt =====
-- Every write keeps the constraints of the table, and the class of the credentials of each row.
use autom.Prelude.{◌≡◌, refl, sym, subst, Bool, true, not, some, find}
use autom.Prelude.Every.{All-and, any-eq-false, All-keep, All-update_row, All-remove_row}
use autom.Prelude.Result.{ok}
use autom.Accounts.{
  SecurityScheme, no_auth, api_key, oauth2, http_basic, http_bearer, SecurityCredentials,
  no_auth_credentials, api_key_credentials, oauth2_credentials, LinkedAccount, Store,
}
use autom.Accounts.Credentials.{model_dump, model_validate, scheme_of, model_validate-model_dump}
use autom.Accounts.Manager.{types_match, set_account, with_credentials}
use autom.Accounts.Tables.{conflicts, new_account, is_of_app}
use autom.Accounts.Tables.Laws.{
  IsTyped, IsSound, IsOnly, find-IsOnly, IsUnique-update_row, IsUnique-remove_row, IsUnique-keep,
}
use autom.Accounts.Writes.{
  Write, account_created, credentials_set, columns_set, account_removed, app_cleared, none_written,
}

types_match-eq :
    (s : SecurityScheme) (c : SecurityCredentials) → types_match s c ≡ true → s ≡ scheme_of c
types_match-eq oauth2 (oauth2_credentials c) h = refl
types_match-eq api_key (api_key_credentials k) h = refl
types_match-eq no_auth no_auth_credentials h = refl
types_match-eq no_auth (api_key_credentials k) h = cc
types_match-eq no_auth (oauth2_credentials c) h = cc
types_match-eq api_key no_auth_credentials h = cc
types_match-eq api_key (oauth2_credentials c) h = cc
types_match-eq oauth2 no_auth_credentials h = cc
types_match-eq oauth2 (api_key_credentials k) h = cc
types_match-eq http_basic c h = cc
types_match-eq http_bearer c h = cc

types_match-IsTyped :
    (a : LinkedAccount) (c : SecurityCredentials)
    → types_match a.security_scheme c ≡ true
    → IsTyped (with_credentials c a)
types_match-IsTyped a c h = (
  c,
  subst (λ s. model_validate s (model_dump c) ≡ ok c) (sym (types_match-eq a.security_scheme c h))
      (model_validate-model_dump c),
)

-- A write of credentials of the right class to the row that was found.
set_credentials-IsSound :
    (store : Store) (p : LinkedAccount → Bool) (account : LinkedAccount) (c : SecurityCredentials)
    → find p store.accounts ≡ some account
    → types_match account.security_scheme c ≡ true
    → IsSound store
    → IsSound (set_account account.id (with_credentials c) store)
set_credentials-IsSound store p account c found h s = (
  IsUnique-update_row account.id (with_credentials c) store.accounts (λ a. (refl, refl, refl)) s.0,
  All-update_row (λ a. a.id) (λ a. IsTyped a × IsOnly account a) IsTyped account.id
      (with_credentials c) store.accounts
      (λ a e t.
        subst (λ x. IsTyped (with_credentials c x)) (sym (t.1 e)) (types_match-IsTyped account c h))
      (λ a t. t.0)
      (All-and IsTyped (IsOnly account) store.accounts s.1
        (find-IsOnly p store.accounts account s.0 found)),
)

pub Write-IsSound : (s t : Store) → Write s t → IsSound s → IsSound t
Write-IsSound _ _ (account_created new_id user_id app_id c s free) sound = (
  (
    any-eq-false (conflicts (new_account new_id user_id app_id (scheme_of c) c)) s.accounts free,
    sound.0,
  ),
  ((c, model_validate-model_dump c), sound.1),
)
Write-IsSound _ _ (credentials_set p account c s found same) sound =
    set_credentials-IsSound s p account c found same sound
Write-IsSound _ _ (columns_set id f s k) sound = (
  IsUnique-update_row id f s.accounts (λ a. ((k a).0, (k a).1, (k a).2)) sound.0,
  All-update_row (λ a. a.id) IsTyped IsTyped id f s.accounts
      (λ a e t. (t.0, rw ((k a).3, (k a).4) t.1)) (λ a t. t) sound.1,
)
Write-IsSound _ _ (account_removed p account s found) sound = (
  IsUnique-remove_row account.id s.accounts sound.0,
  All-remove_row (λ a. a.id) IsTyped account.id s.accounts sound.1,
)
Write-IsSound _ _ (app_cleared app s) sound =
    let kept = λ (a : LinkedAccount). not (is_of_app app a) in
    (IsUnique-keep kept s.accounts sound.0, All-keep IsTyped kept s.accounts sound.1)
Write-IsSound _ _ (none_written apps configurations s) sound = sound
