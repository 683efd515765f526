-- ===== src/Accounts/Flow.antt =====
-- The two halves of linking by OAuth2 together: the request that starts it, and the callback.
use autom.Prelude.{
  ℕ, String, ◌≡◌, refl, sym, subst, ◌∙◌, any, ◌==◌, true, false, Option, none, some, arith, member,
  Option-cases, inl, inr, eq_refl,
}
use autom.Prelude.Text.{is_truthy}
use autom.Prelude.Result.{
  ok, err, value_error, >>=-eq-ok, ok-eq, or_raise-eq, or_raise, app_configuration_not_found,
}
use autom.Accounts.{
  api_key, oauth2, App, AppConfiguration, OAuth2SchemeCredentials, TokenResponse,
  oauth2_credentials, LinkedAccount, Store,
}
use autom.Accounts.OAuth2.{
  OAuth2Client, manager_of, oauth_apps_require_credentials_in_body, parse_fetch_token_response,
}
use autom.Accounts.Manager.{update_linked_account_credentials}
use autom.Accounts.Tables.{get_app, get_app_configuration, get_linked_account}
use autom.Accounts.Credentials.{validate_oauth2}
use autom.Accounts.Stored.{save_credentials-found}
use autom.Accounts.Routes.{
  Jwt, IsJwt, AuthorizationRequest, Callback, state_of, oauth2_scheme_of, link_oauth2_account,
  save_credentials, link_state, linked_accounts_oauth2_callback,
}

-- The callback with a code and a state.
abbrev pub answered : {Token : Type 0} → String → Token → Callback Token
answered code state = record { error = none; code = some code; state = some state }

configured_app :
    (app_name : String) (s : Store) (found : App × AppConfiguration)
    → get_app_configuration app_name s ≡ some found
    → (app : App) × (get_app app_name false s ≡ some app)
configured_app app_name s found h = elim (Option-cases (get_app app_name false s)) [
  | inl gone ↦ absurd (ground (arith, rw (get_app_configuration, gone) at h))
  | inr here ↦ here
]

module _ {Token : Type 0} (J : Jwt Token) (law : IsJwt J) (client : OAuth2Client) (now : ℕ) where
  -- The callback goes on to save the credentials that are read from the provider's answer.
  callback-save :
      (user_id app_name : String) (after : Option String) (default_uri verifier : String)
      (new_id code : String) (s : Store) (request : AuthorizationRequest Token)
      (token : TokenResponse) (c : OAuth2SchemeCredentials)
      → link_oauth2_account J client now user_id app_name after default_uri verifier s ≡ ok request
      → is_truthy code ≡ true
      → client.fetch request.manager
          (member app_name oauth_apps_require_credentials_in_body)
          request.redirect_uri
          code
          request.code_verifier
        ≡ some token
      → parse_fetch_token_response now request.manager token ≡ ok c
      → linked_accounts_oauth2_callback J client now new_id (answered code request.state) s
        ≡ save_credentials J client now new_id user_id app_name
            (oauth2_credentials c)
            (get_linked_account user_id app_name s)
            s
  unfolding link_oauth2_account linked_accounts_oauth2_callback link_state
  callback-save user_id app_name after default_uri verifier new_id code s request token c h t f p =
      let (configured, f1, h1) =
        >>=-eq-ok (or_raise app_configuration_not_found (get_app_configuration app_name s)) _ h in
      let (scheme, f2, h2) = >>=-eq-ok (oauth2_scheme_of J client now configured) _ h1 in
      let found = or_raise-eq app_configuration_not_found (get_app_configuration app_name s) f1 in
      let (app, here) = configured_app app_name s configured found in
      let state = state_of user_id app_name after default_uri verifier scheme in
      let asked : AuthorizationRequest Token = record {
        manager = manager_of app_name scheme;
        redirect_uri = state.redirect_uri;
        state = J.encode state;
        code_verifier = verifier;
      } in
      let same : asked ≡ request = ok-eq h2 in
      let f' =
        subst
          (λ x.
            client.fetch x.manager (member app_name oauth_apps_require_credentials_in_body)
              x.redirect_uri code x.code_verifier
            ≡ some token)
          (sym same) f in
      let p' = subst (λ x. parse_fetch_token_response now x.manager token ≡ ok c) (sym same) p in
      subst
        (λ x.
          linked_accounts_oauth2_callback J client now new_id (answered code x.state) s
          ≡ save_credentials J client now new_id user_id app_name (oauth2_credentials c)
              (get_linked_account user_id app_name s) s)
        same
        (rw
          (
            t,
            law.encode_law state,
            law.decode_law state,
            here,
            found,
            f2,
            eq_refl scheme.client_id,
            f',
            p',
          )
          refl)

  -- A request that `link_oauth2_account` made, answered by the provider with a code and the state of
  -- the request while the app and its configuration are the same: if the provider gives tokens for
  -- the code with the verifier and the redirect URI of the request, credentials are read from them,
  -- an account of the user for the app that is there has the scheme OAUTH2, and no account has the
  -- id of a new one, then the callback returns, and the account of the user for the app is there
  -- with the scheme OAUTH2 and exactly these credentials.
  pub link-callback :
      (user_id app_name : String) (after : Option String) (default_uri verifier : String)
      (new_id code : String) (s : Store) (request : AuthorizationRequest Token)
      (token : TokenResponse) (c : OAuth2SchemeCredentials)
      → link_oauth2_account J client now user_id app_name after default_uri verifier s ≡ ok request
      → is_truthy code ≡ true
      → client.fetch request.manager
          (member app_name oauth_apps_require_credentials_in_body)
          request.redirect_uri
          code
          request.code_verifier
        ≡ some token
      → parse_fetch_token_response now request.manager token ≡ ok c
      → any (λ b. new_id == b.id) s.accounts ≡ false
      → ((account : LinkedAccount)
          → get_linked_account user_id app_name s ≡ some account
          → account.security_scheme ≡ oauth2)
      → (s' : Store) × (account' : LinkedAccount) × (linked_accounts_oauth2_callback J client now
            new_id
            (answered code request.state)
            s
          ≡ ok s')
        × (get_linked_account user_id app_name s' ≡ some account')
        × (account'.security_scheme ≡ oauth2)
        × (validate_oauth2 account'.security_credentials ≡ ok c)
  unfolding link_oauth2_account
  link-callback user_id app_name after default_uri verifier new_id code s request token c h t f p
        fresh typed =
      let (configured, f1, h1) =
        >>=-eq-ok (or_raise app_configuration_not_found (get_app_configuration app_name s)) _ h in
      let (app, here) =
        configured_app app_name s configured
          (or_raise-eq app_configuration_not_found (get_app_configuration app_name s) f1) in
      let (s', account', saved, found, scheme, stored) =
        save_credentials-found J client now new_id user_id app_name c app s here fresh typed in
      (
        s',
        account',
        callback-save user_id app_name after default_uri verifier new_id code s request token c h t
              f p
            ∙ saved,
        found,
        scheme,
        stored,
      )

module _ {Token : Type 0} (J : Jwt Token) (client : OAuth2Client) (now : ℕ) where
  -- A user who linked an app by key and then links it by OAuth2 gets an error from the callback, a
  -- ValueError that nothing handles: the credentials do not fit the scheme of the account.
  pub save_over_key :
      (new_id user_id app_name : String) (c : OAuth2SchemeCredentials) (account : LinkedAccount)
      (s : Store)
      → get_linked_account user_id app_name s ≡ some account
      → account.security_scheme ≡ api_key
      → save_credentials J client now new_id user_id app_name
          (oauth2_credentials c)
          (get_linked_account user_id app_name s)
          s
        ≡ err value_error
  unfolding save_credentials update_linked_account_credentials
  save_over_key new_id user_id app_name c account s h k = rw (h, k) refl
