-- ===== src/Accounts/Stored.antt =====
-- What a write of credentials leaves for the next query: `update_linked_account_credentials` and
-- `create_linked_account` followed by `get_linked_account`.
use autom.Prelude.{
  ℕ, String, ◌≡◌, refl, ap, ◌∙◌, Bool, false, some, List, [], ◌∷◌, ◌==◌, arith, any, All,
  Bool-cases, Option-cases, inl, inr, eq_refl, if◌then◌else◌,
}
use autom.Prelude.Every.{find-none, find-update_row}
use autom.Prelude.Result.{ok}
use autom.Accounts.{
  oauth2, App, AppConfiguration, OAuth2SchemeCredentials, SecurityCredentials, oauth2_credentials,
  LinkedAccount, Store,
}
use autom.Accounts.Credentials.{validate_oauth2, validate_oauth2-model_dump}
use autom.Accounts.OAuth2.{OAuth2Client}
use autom.Accounts.Manager.{
  SecurityCredentialsResponse, access_token_is_expired, get_security_credentials, set_account,
  with_credentials, update_linked_account_credentials, update_security_credentials,
}
use autom.Accounts.Manager.Laws.{get-update_lem, row_again, stored_again}
use autom.Accounts.Tables.{
  get_app, is_of, get_linked_account, conflicts, new_account, create_linked_account,
}
use autom.Accounts.Routes.{Jwt, save_credentials}

-- The account of a user for an app is found again after its credentials were written.
with_credentials-found :
    (user_id app_name : String) (credentials : SecurityCredentials) (account : LinkedAccount)
    (s : Store)
    → get_linked_account user_id app_name s ≡ some account
    → get_linked_account user_id app_name (set_account account.id (with_credentials credentials) s)
      ≡ some (with_credentials credentials account)
with_credentials-found user_id app_name credentials account s h =
    elim (Option-cases (get_app app_name false s)) [
      | inl missing ↦ absurd (ground (arith, rw (get_linked_account, missing) at h))
      | inr (app, here) ↦
          let found = rw (get_linked_account, here) at h in
          rw (get_linked_account, here)
            (find-update_row (λ a. a.id) (is_of user_id app.id) account.id
                (with_credentials credentials) s.accounts (λ a. refl)
              ∙ rw (found, eq_refl account.id) refl)
    ]

module _ (client : OAuth2Client) (now : ℕ) where
  -- The account of a user for an app, of the scheme OAUTH2: if its credentials can be read, the
  -- write after the read succeeds, and then, until the credentials that were returned expire, a
  -- query for the account and another read of it return them again, without a refresh and whatever
  -- the provider would answer.
  pub refresh_once :
      (app configured : App) (configuration : AppConfiguration) (user_id app_name : String)
      (s : Store) (account : LinkedAccount) (c' : OAuth2SchemeCredentials)
      (r : SecurityCredentialsResponse)
      → get_linked_account user_id app_name s ≡ some account
      → account.security_scheme ≡ oauth2
      → get_security_credentials client now app configured configuration account ≡ ok r
      → r.credentials ≡ oauth2_credentials c'
      → (client' : OAuth2Client) (later : ℕ) → access_token_is_expired later c' ≡ false
      → (s' : Store) × (account' : LinkedAccount) × (update_security_credentials account r s
          ≡ ok s')
        × (get_linked_account user_id app_name s' ≡ some account')
        × (get_security_credentials client' later app configured configuration account'
            ≡ ok (record r { is_updated = false }))
  refresh_once app configured configuration user_id app_name s account c' r here e h k client' later
        current =
      let written = get-update_lem client now app configured configuration account r s h in
      let choice = λ (r : SecurityCredentialsResponse) (b : Bool).
        ok (if b then set_account account.id (with_credentials r.credentials) s else s) in
      elim (Bool-cases r.is_updated) [
        | inl new ↦ (
          set_account account.id (with_credentials r.credentials) s,
          with_credentials r.credentials account,
          written ∙ ap (choice r) new,
          with_credentials-found user_id app_name r.credentials account s here,
          row_again client now app configured configuration account c' r e h k client' later
              current,
        )
        | inr old ↦ (
          s,
          account,
          written ∙ ap (choice r) old,
          here,
          stored_again client now app configured configuration account c' r e h old k client' later
              current,
        )
      ]

no-conflicts :
    (account : LinkedAccount) (rows : List LinkedAccount)
    → any (λ b. account.id == b.id) rows ≡ false
    → All (λ b. is_of account.user_id account.app_id b ≡ false) rows
    → any (conflicts account) rows ≡ false
no-conflicts account [] h k = refl
no-conflicts account (b ∷ rows) h k =
    let rest = no-conflicts account rows (ground arith) k.1 in ground (arith, k.0, rest)

module _ {Token : Type 0} (J : Jwt Token) (client : OAuth2Client) (now : ℕ) where
  -- What `save_credentials` leaves, where the account that is there has the scheme OAUTH2.
  pub save_credentials-found :
      (new_id user_id app_name : String) (c : OAuth2SchemeCredentials) (app : App) (s : Store)
      → get_app app_name false s ≡ some app
      → any (λ b. new_id == b.id) s.accounts ≡ false
      → ((account : LinkedAccount)
          → get_linked_account user_id app_name s ≡ some account
          → account.security_scheme ≡ oauth2)
      → (s' : Store) × (account' : LinkedAccount) × (save_credentials J client now new_id user_id
            app_name
            (oauth2_credentials c)
            (get_linked_account user_id app_name s)
            s
          ≡ ok s')
        × (get_linked_account user_id app_name s' ≡ some account')
        × (account'.security_scheme ≡ oauth2)
        × (validate_oauth2 account'.security_credentials ≡ ok c)
  unfolding save_credentials update_linked_account_credentials create_linked_account
  save_credentials-found new_id user_id app_name c app s here fresh typed =
      elim (Option-cases (get_linked_account user_id app_name s)) [
        | inl missing ↦
            let new = new_account new_id user_id app.id oauth2 (oauth2_credentials c) in
            let unfound =
              find-none (is_of user_id app.id) s.accounts
                (rw (get_linked_account, here) at missing) in
            (
              record s { accounts = new ∷ s.accounts },
              new,
              rw (missing, here, no-conflicts new s.accounts fresh unfound) refl,
              rw (get_linked_account, here, eq_refl user_id, eq_refl app.id) refl,
              refl,
              validate_oauth2-model_dump c,
            )
        | inr (account, found) ↦
            let scheme = typed account found in
            (
              set_account account.id (with_credentials (oauth2_credentials c)) s,
              with_credentials (oauth2_credentials c) account,
              rw (found, scheme) refl,
              with_credentials-found user_id app_name (oauth2_credentials c) account s found,
              scheme,
              validate_oauth2-model_dump c,
            )
      ]
