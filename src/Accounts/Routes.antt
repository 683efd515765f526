-- ===== src/Accounts/Routes.antt =====
-- aci/server/routes/linked_accounts.py: an account is linked, read, changed. The row that a handler
-- returns is in the store after it. Deleting an account also deletes automations, and stands with
-- them.
use autom.Prelude.{
  ℕ, String, ◌≡◌, Bool, true, false, not, Option, none, some, List, ◌==◌, is_some, find, get_or,
  if◌then◌else◌,
}
use autom.Prelude.Text.{is_truthy, opt_truthy}
use autom.Prelude.Result.{
  Result, ok, err, ◌>>=◌, ◌>>◌, raise_if, or_raise, oauth2_error, no_implementation_found,
  app_configuration_not_found, app_not_found, linked_account_not_found,
  linked_account_already_exists, authentication_error, invalid_credentials, attribute_error,
}
use autom.Accounts.{
  SecurityScheme, no_auth, api_key, oauth2, ApiKeyScheme, App, AppConfiguration,
  SecurityCredentials, no_auth_credentials, api_key_credentials, oauth2_credentials, OAuth2Scheme,
  LinkedAccount, Store,
}
use autom.Accounts.OAuth2.{
  OAuth2Client, OAuth2Manager, manager_of, fetch_token, parse_fetch_token_response,
}
use autom.Accounts.Manager.{
  get_app_configuration_oauth2_scheme, get_security_credentials, update_security_credentials,
  update_linked_account_credentials,
}
use autom.Accounts.Tables.{
  get_app, get_app_configuration, get_linked_account, get_linked_account_by_id_and_user_id,
  create_linked_account, update_linked_account,
}

-- `security_scheme == SecurityScheme.…`
abbrev pub is_no_auth : SecurityScheme → Bool
is_no_auth no_auth = true
is_no_auth _ = false

abbrev pub is_oauth2 : SecurityScheme → Bool
is_oauth2 oauth2 = true
is_oauth2 _ = false

unfoldable pub link_account_with_no_auth : String → String → String → Store → Result Store
link_account_with_no_auth new_id user_id app_name store = do
  configuration ← or_raise app_configuration_not_found (get_app_configuration app_name store)
  raise_if (not (is_no_auth configuration.1.security_scheme)) no_implementation_found
  raise_if (is_some (get_linked_account user_id app_name store)) linked_account_already_exists
  create_linked_account new_id user_id app_name no_auth no_auth_credentials store

-- What the test of a key comes to: `functions` is whether the function of a name is there, and
-- `accepts` the `success` of RestAPIKeyFunctionExecutor.test_credentials, which asks the app.
module _ (functions : String → Bool) (accepts : String → ApiKeyScheme → String → Bool) where
  abbrev pub test_key : ApiKeyScheme → Option String → String → Result (Unit {0})
  test_key scheme none key = ok tt
  test_key scheme (some function_name) key =
      if is_truthy function_name
      then (do
        raise_if (not (functions function_name)) app_configuration_not_found
        raise_if (not (accepts function_name scheme key)) invalid_credentials)
      else ok tt

  unfoldable pub link_account_with_api_key :
      String → String → String → String → Store → Result Store
  link_account_with_api_key new_id user_id app_name key store = do
    app ← or_raise app_not_found (get_app app_name true store)
    scheme ← or_raise no_implementation_found app.security_schemes.api_key
    test_key scheme scheme.test key
    raise_if (is_some (get_linked_account user_id app_name store)) linked_account_already_exists
    create_linked_account new_id user_id app_name api_key (api_key_credentials key) store

-- LinkedAccountOAuth2CreateState
pub record OAuth2State : Type 0 where
  pub app_name : String
  pub user_id : String
  pub client_id : String
  pub redirect_uri : String
  pub code_verifier : String
  pub after_oauth2_link_redirect_url : Option String

-- authlib's `jwt` with the signing key, on the dump of a state: none where decoding raises. `Token`
-- is the type of the signed texts, and `is_token` their truth value.
pub record Jwt (Token : Type 0) : Type 0 where
  pub encode : OAuth2State → Token
  pub decode : Token → Option OAuth2State
  pub is_token : Token → Bool

-- A token that was signed decodes to what was signed.
pub record IsJwt {Token : Type 0} (J : Jwt Token) : Type 0 where
  pub decode_law : (state : OAuth2State) → J.decode (J.encode state) ≡ some state
  pub encode_law : (state : OAuth2State) → J.is_token (J.encode state) ≡ true

-- What `create_authorization_url` is given.
pub record AuthorizationRequest (Token : Type 0) : Type 0 where
  pub manager : OAuth2Manager
  pub redirect_uri : String
  pub state : Token
  pub code_verifier : String

abbrev pub state_of : String → String → Option String → String → String → OAuth2Scheme → OAuth2State
state_of user_id app_name after default_uri verifier scheme = record {
  app_name = app_name;
  user_id = user_id;
  client_id = scheme.client_id;
  redirect_uri =
      if opt_truthy scheme.redirect_url then get_or scheme.redirect_url "" else default_uri;
  code_verifier = verifier;
  after_oauth2_link_redirect_url = after;
}

-- The query parameters of the callback.
pub record Callback (Token : Type 0) : Type 0 where
  pub error : Option String
  pub code : Option String
  pub state : Option Token

-- `if not x: raise OAuth2Error`
abbrev pub text_or_error : Option String → Result String
text_or_error none = err oauth2_error
text_or_error (some s) = if is_truthy s then ok s else err oauth2_error

module _ {Token : Type 0} (J : Jwt Token) (client : OAuth2Client) (now : ℕ) where
  -- The configured scheme of an app, if it is OAuth2.
  unfoldable pub oauth2_scheme_of : App × AppConfiguration → Result OAuth2Scheme
  oauth2_scheme_of configured = do
    raise_if (not (is_oauth2 configured.1.security_scheme)) no_implementation_found
    get_app_configuration_oauth2_scheme configured.0 configured.1

  -- The verifier is random and `default_uri` is the callback of this server.
  unfoldable pub link_oauth2_account :
      String
      → String
      → Option String
      → String
      → String
      → Store
      → Result (AuthorizationRequest Token)
  unfolding oauth2_scheme_of
  link_oauth2_account user_id app_name after default_uri verifier store = do
    configured ← or_raise app_configuration_not_found (get_app_configuration app_name store)
    scheme ← oauth2_scheme_of configured
    let state = state_of user_id app_name after default_uri verifier scheme in
        ok (record {
          manager = manager_of app_name scheme;
          redirect_uri = state.redirect_uri;
          state = J.encode state;
          code_verifier = verifier;
        })

  -- The linked account that is there is updated, and else one is created.
  unfoldable pub save_credentials :
      String → String → String → SecurityCredentials → Option LinkedAccount → Store → Result Store
  save_credentials new_id user_id app_name credentials (some account) store =
      update_linked_account_credentials account credentials store
  save_credentials new_id user_id app_name credentials none store =
      create_linked_account new_id user_id app_name oauth2 credentials store

  -- `if not state_jwt: raise OAuth2Error`
  abbrev pub signed_or_error : Option Token → Result Token
  signed_or_error none = err oauth2_error
  signed_or_error (some token) = if J.is_token token then ok token else err oauth2_error

  -- From the decoded state on.
  unfoldable pub link_state : String → String → OAuth2State → Store → Result Store
  unfolding oauth2_scheme_of
  link_state new_id code state store = do
    app ← or_raise app_not_found (get_app state.app_name false store)
    configured ← or_raise app_configuration_not_found (get_app_configuration state.app_name store)
    scheme ← oauth2_scheme_of configured
    raise_if (not (scheme.client_id == state.client_id)) oauth2_error
    token ←
        fetch_token client (manager_of state.app_name scheme) state.redirect_uri code
          state.code_verifier
    credentials ← parse_fetch_token_response now (manager_of state.app_name scheme) token
    save_credentials new_id state.user_id state.app_name (oauth2_credentials credentials)
        (get_linked_account state.user_id state.app_name store) store

  -- The answer is a redirect where the state has a URL for it, and else the account.
  unfoldable pub linked_accounts_oauth2_callback : String → Callback Token → Store → Result Store
  unfolding link_state
  linked_accounts_oauth2_callback new_id query store = do
    raise_if (opt_truthy query.error) oauth2_error
    code ← text_or_error query.code
    state_jwt ← signed_or_error query.state
    state ← or_raise authentication_error (J.decode state_jwt)
    link_state new_id code state store

  -- `linked_account.app`, which the foreign key says is there.
  abbrev pub app_of : LinkedAccount → Store → Option App
  app_of account store = find (λ app. app.id == account.app_id) store.apps

  unfoldable pub read_linked_account : String → String → Store → Result Store
  read_linked_account user_id linked_account_id store = do
    account ←
        or_raise linked_account_not_found
          (get_linked_account_by_id_and_user_id user_id linked_account_id store)
    app ← or_raise attribute_error (app_of account store)
    configured ← or_raise app_configuration_not_found (get_app_configuration app.name store)
    response ← get_security_credentials client now app configured.0 configured.1 account
    update_security_credentials account response store

unfoldable pub change_linked_account : String → String → List String → Store → Result Store
change_linked_account user_id linked_account_id disabled_functions store = do
  account ←
      or_raise linked_account_not_found
        (get_linked_account_by_id_and_user_id user_id linked_account_id store)
  ok (update_linked_account account disabled_functions store)
