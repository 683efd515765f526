-- ===== src/Accounts/Steps.antt =====
-- Every way in which the routes, the executions of functions and the administrators change the
-- tables, and what holds of the linked accounts after any of them.
use autom.Prelude.{
  ℕ, String, ◌≡◌, refl, sym, ◌∙◌, ◌&&◌, subst, Bool, true, false, not, Option, none, some, List, [],
  ◌==◌, arith, find, is_some, Option-cases, inl, inr,
}
use autom.Prelude.Text.{opt_truthy}
use autom.Prelude.Result.{
  ok, >>=-eq-ok, ok-eq, or_raise-eq, raise_if-ok, or_raise, oauth2_error, no_implementation_found,
  app_configuration_not_found, app_not_found, linked_account_not_found,
  linked_account_already_exists, authentication_error, attribute_error,
}
use autom.Accounts.{
  no_auth_credentials, api_key_credentials, oauth2_credentials, ApiKeyScheme, LinkedAccount, Store,
  App, AppConfiguration, OAuth2SchemeCredentials,
}
use autom.Accounts.OAuth2.{OAuth2Client, manager_of, fetch_token, parse_fetch_token_response}
use autom.Accounts.Manager.{get_security_credentials}
use autom.Accounts.Tables.{
  get_app, get_app_configuration, get_linked_account, get_linked_account_by_id_and_user_id,
  delete_linked_account, update_linked_account_last_used_at, delete_linked_accounts_by_app_name,
  is_of,
}
use autom.Accounts.Tables.Laws.{IsSound}
use autom.Accounts.Manager.Laws.{get-update_lem, get_by_scheme-type}
use autom.Accounts.Writes.{
  Write, columns_set, account_removed, app_cleared, none_written, update_credentials-Write,
  create-Write, response-Write,
}
use autom.Accounts.Links.{Op, links, Write-Op}
use autom.Accounts.Invariant.{Write-IsSound}
use autom.Accounts.Routes.{
  is_no_auth, test_key, OAuth2State, oauth2_scheme_of, text_or_error, signed_or_error, app_of,
  link_account_with_no_auth, link_account_with_api_key, Jwt, Callback, save_credentials, link_state,
  linked_accounts_oauth2_callback, read_linked_account, change_linked_account,
}

-- The account of a user for an app name is an entry that a search finds.
pub found_by_name :
    (user_id app_name : String) (store : Store) (account : LinkedAccount)
    → get_linked_account user_id app_name store ≡ some account
    → (app : App) × (find (is_of user_id app.id) store.accounts ≡ some account)
found_by_name user_id app_name store account h =
    elim (Option-cases (get_app app_name false store)) [
      | inl missing ↦ absurd (ground (arith, rw (get_linked_account, missing) at h))
      | inr (app, e) ↦ (app, rw (get_linked_account, e) at h)
    ]

-- One change of the tables.
pub data Change (functions : String → Bool) (accepts : String → ApiKeyScheme → String → Bool)
    {Token : Type 0} (J : Jwt Token) (client : OAuth2Client) : Store → Store → Type 0 where
  linked_without_auth :
      (new_id user_id app_name : String) (s t : Store)
      → link_account_with_no_auth new_id user_id app_name s ≡ ok t
      → Change functions accepts J client s t
  linked_by_key :
      (new_id user_id app_name key : String) (s t : Store)
      → link_account_with_api_key functions accepts new_id user_id app_name key s ≡ ok t
      → Change functions accepts J client s t
  linked_by_oauth2 :
      (now : ℕ) (new_id : String) (query : Callback Token) (s t : Store)
      → linked_accounts_oauth2_callback J client now new_id query s ≡ ok t
      → Change functions accepts J client s t
  was_read :
      (now : ℕ) (user_id id : String) (s t : Store)
      → read_linked_account J client now user_id id s ≡ ok t
      → Change functions accepts J client s t
  was_changed :
      (user_id id : String) (disabled : List String) (s t : Store)
      → change_linked_account user_id id disabled s ≡ ok t
      → Change functions accepts J client s t
  was_used :
      (now : ℕ) (user_id app_name : String) (account : LinkedAccount) (s : Store)
      → get_linked_account user_id app_name s ≡ some account
      → Change functions accepts J client s (update_linked_account_last_used_at now account s)
  was_deleted :
      (user_id id : String) (account : LinkedAccount) (s : Store)
      → get_linked_account_by_id_and_user_id user_id id s ≡ some account
      → Change functions accepts J client s (delete_linked_account account s)
  app_was_deleted :
      (app_name : String) (s : Store)
      → Change functions accepts J client s (delete_linked_accounts_by_app_name app_name s).0
  administered :
      (apps : List App) (configurations : List AppConfiguration) (s : Store)
      → Change functions accepts J client s
          (record s { apps = apps; configurations = configurations })

pub data IsReachable (functions : String → Bool) (accepts : String → ApiKeyScheme → String → Bool)
    {Token : Type 0} (J : Jwt Token) (client : OAuth2Client) : Store → Type 0 where
  empty :
      IsReachable functions accepts J client
        (record { apps = []; configurations = []; accounts = [] })
  next :
      (s t : Store)
      → IsReachable functions accepts J client s
      → Change functions accepts J client s t
      → IsReachable functions accepts J client t

no_auth-Write :
    (new_id user_id app_name : String) (s t : Store)
    → link_account_with_no_auth new_id user_id app_name s ≡ ok t
    → Write s t
unfolding link_account_with_no_auth
no_auth-Write new_id user_id app_name s t h =
    let (c, found, more) =
      >>=-eq-ok (or_raise app_configuration_not_found (get_app_configuration app_name s)) _ h in
    let (scheme, rest) =
      raise_if-ok (not (is_no_auth c.1.security_scheme)) no_implementation_found _ t more in
    let (free, made) =
      raise_if-ok (is_some (get_linked_account user_id app_name s)) linked_account_already_exists _
        t rest in
    create-Write new_id user_id app_name no_auth_credentials s t made

module _ (functions : String → Bool) (accepts : String → ApiKeyScheme → String → Bool)
    {Token : Type 0} (J : Jwt Token) (client : OAuth2Client) where
  api_key-Write :
      (new_id user_id app_name key : String) (s t : Store)
      → link_account_with_api_key functions accepts new_id user_id app_name key s ≡ ok t
      → Write s t
  unfolding link_account_with_api_key
  api_key-Write new_id user_id app_name key s t h =
      let (app, found, more) = >>=-eq-ok (or_raise app_not_found (get_app app_name true s)) _ h in
      let (scheme, has, rest) =
        >>=-eq-ok (or_raise no_implementation_found app.security_schemes.api_key) _ more in
      let (u, tested, free_or) =
        >>=-eq-ok (test_key functions accepts scheme scheme.test key) _ rest in
      let (free, made) =
        raise_if-ok (is_some (get_linked_account user_id app_name s)) linked_account_already_exists
          _ t free_or in
      create-Write new_id user_id app_name (api_key_credentials key) s t made

  save-Write :
      (now : ℕ) (new_id user_id app_name : String) (c : OAuth2SchemeCredentials)
      (found : Option LinkedAccount) (s t : Store)
      → get_linked_account user_id app_name s ≡ found
      → save_credentials J client now new_id user_id app_name (oauth2_credentials c) found s ≡ ok t
      → Write s t
  unfolding save_credentials
  save-Write now new_id user_id app_name c none s t e h =
      create-Write new_id user_id app_name (oauth2_credentials c) s t h
  save-Write now new_id user_id app_name c (some account) s t e h =
      let (app, found) = found_by_name user_id app_name s account e in
      update_credentials-Write s t (is_of user_id app.id) account (oauth2_credentials c) found h

  link_state-Write :
      (now : ℕ) (new_id code : String) (state : OAuth2State) (s t : Store)
      → link_state J client now new_id code state s ≡ ok t
      → Write s t
  unfolding link_state
  link_state-Write now new_id code state s t h =
      let (app, found, h1) =
        >>=-eq-ok (or_raise app_not_found (get_app state.app_name false s)) _ h in
      let (configured, f2, h2) =
        >>=-eq-ok (or_raise app_configuration_not_found (get_app_configuration state.app_name s)) _
          h1 in
      let (scheme, f3, h3) = >>=-eq-ok (oauth2_scheme_of J client now configured) _ h2 in
      let (same, h4) =
        raise_if-ok (not (scheme.client_id == state.client_id)) oauth2_error _ t h3 in
      let (token, f5, h5) =
        >>=-eq-ok
          (fetch_token client (manager_of state.app_name scheme) state.redirect_uri code
            state.code_verifier)
          _ h4 in
      let (c, f6, h6) =
        >>=-eq-ok (parse_fetch_token_response now (manager_of state.app_name scheme) token) _ h5 in
      save-Write now new_id state.user_id state.app_name c
        (get_linked_account state.user_id state.app_name s) s t refl h6

  callback-Write :
      (now : ℕ) (new_id : String) (query : Callback Token) (s t : Store)
      → linked_accounts_oauth2_callback J client now new_id query s ≡ ok t
      → Write s t
  unfolding linked_accounts_oauth2_callback
  callback-Write now new_id query s t h =
      let (fine, h1) = raise_if-ok (opt_truthy query.error) oauth2_error _ t h in
      let (code, f2, h2) = >>=-eq-ok (text_or_error query.code) _ h1 in
      let (jwt, f3, h3) = >>=-eq-ok (signed_or_error J client now query.state) _ h2 in
      let (state, f4, h4) = >>=-eq-ok (or_raise authentication_error (J.decode jwt)) _ h3 in
      link_state-Write now new_id code state s t h4

  read-Write :
      (now : ℕ) (user_id id : String) (s t : Store)
      → read_linked_account J client now user_id id s ≡ ok t
      → Write s t
  unfolding read_linked_account
  read-Write now user_id id s t h =
      let (account, f1, h1) =
        >>=-eq-ok
          (or_raise linked_account_not_found (get_linked_account_by_id_and_user_id user_id id s)) _
          h in
      let (app, f2, h2) =
        >>=-eq-ok (or_raise attribute_error (app_of J client now account s)) _ h1 in
      let (configured, f3, h3) =
        >>=-eq-ok (or_raise app_configuration_not_found (get_app_configuration app.name s)) _ h2 in
      let (r, got, h4) =
        >>=-eq-ok (get_security_credentials client now app configured.0 configured.1 account) _
          h3 in
      subst (Write s)
        (ok-eq (sym (get-update_lem client now app configured.0 configured.1 account r s got) ∙ h4))
        (response-Write (λ a. a.id == id && a.user_id == user_id) account r s
          (or_raise-eq linked_account_not_found (get_linked_account_by_id_and_user_id user_id id s)
            f1)
          (get_by_scheme-type client now account.security_scheme app configured.0 configured.1
            account r got))

  -- Every change is one of the writes.
  Change-Write : (s t : Store) → Change functions accepts J client s t → Write s t
  unfolding change_linked_account
  Change-Write _ _ (linked_without_auth new_id user_id app_name s t h) =
      no_auth-Write new_id user_id app_name s t h
  Change-Write _ _ (linked_by_key new_id user_id app_name key s t h) =
      api_key-Write new_id user_id app_name key s t h
  Change-Write _ _ (linked_by_oauth2 now new_id query s t h) = callback-Write now new_id query s t h
  Change-Write _ _ (was_read now user_id id s t h) = read-Write now user_id id s t h
  Change-Write _ _ (was_changed user_id id disabled s t h) =
      let (account, found, h1) =
        >>=-eq-ok
          (or_raise linked_account_not_found (get_linked_account_by_id_and_user_id user_id id s)) _
          h in
      subst (Write s) (ok-eq h1) (columns_set account.id _ s (λ a. (refl, refl, refl, refl, refl)))
  Change-Write _ _ (was_used now user_id app_name account s found) =
      columns_set account.id _ s (λ a. (refl, refl, refl, refl, refl))
  Change-Write _ _ (was_deleted user_id id account s found) =
      account_removed (λ a. a.id == id && a.user_id == user_id) account s found
  Change-Write _ _ (app_was_deleted app_name s) = app_cleared (get_app app_name false s) s
  Change-Write _ _ (administered apps configurations s) = none_written apps configurations s

  -- After any changes of the tables by the routes, by executions and by administrators, in any order
  -- and with any answers of the providers, no user has two accounts of an app, no two accounts have
  -- the same id, and the credentials of every account are read by the class of its scheme.
  pub IsReachable-IsSound : (s : Store) → IsReachable functions accepts J client s → IsSound s
  IsReachable-IsSound _ empty = (tt, tt)
  IsReachable-IsSound _ (next s t r c) =
      Write-IsSound s t (Change-Write s t c) (IsReachable-IsSound s r)

  -- The routes, the executions and the administrators use the table as a map from a user and an app
  -- to a scheme and its credentials: from a state that such changes lead to, each further change
  -- adds an entry where there is none, replaces the credentials of one and keeps its scheme, removes
  -- one, removes those of an app, or leaves the map as it is.
  pub Change-Op :
      (s t : Store)
      → IsReachable functions accepts J client s
      → Change functions accepts J client s t
      → Op (links s) (links t)
  Change-Op s t r c = Write-Op s t (Change-Write s t c) (IsReachable-IsSound s r).0
