-- ===== src/Accounts/Manager.antt =====
-- aci/server/security_credentials_manager.py: the credentials of a linked account, with an expired
-- access token refreshed, and the write that stores a refreshed one.
pub mod Laws
use autom.Prelude.{
  ℕ, suc, String, Bool, true, false, Option, none, some, List, not, is_some, ltb, ◌&&◌, ◌||◌,
  get_or, if◌then◌else◌,
}
use autom.Prelude.Text.{is_truthy, opt_truthy}
use autom.Prelude.Rows.{update_row}
use autom.Prelude.Result.{
  Result, ok, err, value_error, key_error, oauth2_error, no_implementation_found, ◌>>=◌, ◌>>◌,
  raise_if,
}
use autom.Accounts.{
  SecurityScheme, no_auth, api_key, http_basic, http_bearer, oauth2, ApiKeyScheme, OAuth2Scheme,
  OAuth2SchemeOverride, SecuritySchemes, App, AppConfiguration, TokenResponse,
  OAuth2SchemeCredentials, SecurityCredentials, no_auth_credentials, api_key_credentials,
  oauth2_credentials, Dict, LinkedAccount, Store,
}
use autom.Accounts.Credentials.{
  is_empty, model_dump, validate_oauth2, validate_api_key, validate_no_auth, scheme_of,
}
use autom.Accounts.OAuth2.{OAuth2Client, OAuth2Manager, manager_of, refresh_token, expiry}

-- The three classes of `scheme`.
pub data Scheme : Type 0 where
  of_api_key : ApiKeyScheme → Scheme
  of_oauth2 : OAuth2Scheme → Scheme
  of_no_auth : Scheme

pub record SecurityCredentialsResponse : Type 0 where
  pub scheme : Scheme
  pub credentials : SecurityCredentials
  pub is_updated : Bool

-- `d[key]`
abbrev pub entry {ℓ} : {A : Type ℓ} → Option A → Result A
entry none = err key_error
entry (some a) = ok a

-- `oauth2_scheme.model_copy(update=…)`, without the fields of the override that are None
abbrev pub override_scheme : OAuth2Scheme → Option OAuth2SchemeOverride → OAuth2Scheme
override_scheme scheme none = scheme
override_scheme scheme (some o) = record scheme {
  client_id = o.client_id;
  client_secret = o.client_secret;
  redirect_url = elim o.redirect_url [ none ↦ scheme.redirect_url | some url ↦ some url ];
}

abbrev pub get_app_configuration_oauth2_scheme : App → AppConfiguration → Result OAuth2Scheme
get_app_configuration_oauth2_scheme app configuration =
    entry app.security_schemes.oauth2 >>= λ scheme.
    ok (override_scheme scheme configuration.overrides)

abbrev pub access_token_is_expired : ℕ → OAuth2SchemeCredentials → Bool
access_token_is_expired now credentials = elim credentials.expires_at [
  | none ↦ false
  | some expires_at ↦ ltb expires_at now
]

-- `not refresh_token`, for None and the empty text
abbrev pub token_or_error : Option String → Bool → Result String
token_or_error (some token) true = ok token
token_or_error _ _ = err oauth2_error

-- The manager that refreshes: its id, secret and scope are those of the credentials.
abbrev pub refresh_manager : String → OAuth2Scheme → OAuth2SchemeCredentials → OAuth2Manager
refresh_manager app_name scheme credentials = record (manager_of app_name scheme) {
  client_id = credentials.client_id;
  client_secret = credentials.client_secret;
  scope = credentials.scope;
}

module _ (client : OAuth2Client) (now : ℕ) where
  abbrev pub refresh_oauth2_access_token :
      String → OAuth2Scheme → OAuth2SchemeCredentials → Result TokenResponse
  refresh_oauth2_access_token app_name scheme credentials = do
    token ← token_or_error credentials.refresh_token (opt_truthy credentials.refresh_token)
    refresh_token client (refresh_manager app_name scheme credentials) token

  -- The credentials with the fields of a refresh; a number 0 counts as no expiry. A refresh token of
  -- the answer replaces the stored one unless it is empty.
  abbrev pub refreshed_with :
      Option String
      → Option ℕ
      → Option String
      → OAuth2SchemeCredentials
      → Result OAuth2SchemeCredentials
  refreshed_with (some access_token) (some (suc seconds)) given credentials =
      if is_truthy access_token
      then ok (record credentials {
        access_token = access_token;
        expires_at = some (suc seconds);
        refresh_token = if opt_truthy given then given else credentials.refresh_token;
      })
      else err oauth2_error
  refreshed_with _ _ given credentials = err oauth2_error

  abbrev pub with_token : TokenResponse → OAuth2SchemeCredentials → Result OAuth2SchemeCredentials
  with_token token credentials =
      let found = token.data_of in
      refreshed_with found.access_token (expiry now found.expires_at found.expires_in)
        found.refresh_token credentials

  abbrev pub get_fresh :
      String → OAuth2Scheme → OAuth2SchemeCredentials → Bool → Result SecurityCredentialsResponse
  get_fresh app_name scheme credentials false = ok (record {
    scheme = of_oauth2 scheme;
    credentials = oauth2_credentials credentials;
    is_updated = false;
  })
  get_fresh app_name scheme credentials true = do
    token ← refresh_oauth2_access_token app_name scheme credentials
    fresh ← with_token token credentials
    ok (record {
      scheme = of_oauth2 scheme;
      credentials = oauth2_credentials fresh;
      is_updated = true;
    })

  -- `app_configuration.app` is the app of the configuration.
  unfoldable pub get_oauth2_credentials :
      App → App → AppConfiguration → LinkedAccount → Result SecurityCredentialsResponse
  get_oauth2_credentials app configured configuration account = do
    scheme ← get_app_configuration_oauth2_scheme configured configuration
    credentials ← validate_oauth2 account.security_credentials
    get_fresh app.name scheme credentials (access_token_is_expired now credentials)

  unfoldable pub get_api_key_credentials : App → LinkedAccount → Result SecurityCredentialsResponse
  get_api_key_credentials app account = do
    raise_if (is_empty account.security_credentials) no_implementation_found
    scheme ← entry app.security_schemes.api_key
    secret_key ← validate_api_key account.security_credentials
    ok (record {
      scheme = of_api_key scheme;
      credentials = api_key_credentials secret_key;
      is_updated = false;
    })

  unfoldable pub get_no_auth_credentials : App → LinkedAccount → Result SecurityCredentialsResponse
  get_no_auth_credentials app account = do
    raise_if (not app.security_schemes.no_auth) key_error
    validate_no_auth account.security_credentials
    ok (record { scheme = of_no_auth; credentials = no_auth_credentials; is_updated = false })

  abbrev pub get_by_scheme :
      SecurityScheme
      → App
      → App
      → AppConfiguration
      → LinkedAccount
      → Result SecurityCredentialsResponse
  get_by_scheme api_key app configured configuration account = get_api_key_credentials app account
  get_by_scheme oauth2 app configured configuration account =
      get_oauth2_credentials app configured configuration account
  get_by_scheme no_auth app configured configuration account = get_no_auth_credentials app account
  get_by_scheme http_basic app configured configuration account = err no_implementation_found
  get_by_scheme http_bearer app configured configuration account = err no_implementation_found

  abbrev pub get_security_credentials :
      App → App → AppConfiguration → LinkedAccount → Result SecurityCredentialsResponse
  get_security_credentials app configured configuration account =
      get_by_scheme account.security_scheme app configured configuration account

-- validate_scheme_and_credentials_type_match of aci/common/validators/security_scheme.py
abbrev pub types_match : SecurityScheme → SecurityCredentials → Bool
types_match oauth2 (oauth2_credentials c) = true
types_match api_key (api_key_credentials k) = true
types_match no_auth no_auth_credentials = true
types_match _ _ = false

abbrev pub validate_scheme_and_credentials_type_match :
    SecurityScheme → SecurityCredentials → Result (Unit {0})
validate_scheme_and_credentials_type_match scheme credentials =
    raise_if (not (types_match scheme credentials)) value_error

abbrev pub set_account : String → (LinkedAccount → LinkedAccount) → Store → Store
set_account id f store = record store { accounts = update_row (λ a. a.id) id f store.accounts }

abbrev pub with_credentials : SecurityCredentials → LinkedAccount → LinkedAccount
with_credentials credentials account = record account {
  security_credentials = model_dump credentials;
}

-- `update_linked_account_credentials` of aci/common/db/crud/linked_accounts.py
unfoldable pub update_linked_account_credentials :
    LinkedAccount → SecurityCredentials → Store → Result Store
update_linked_account_credentials account credentials store = do
  validate_scheme_and_credentials_type_match account.security_scheme credentials
  ok (set_account account.id (with_credentials credentials) store)

unfoldable pub update_security_credentials :
    LinkedAccount → SecurityCredentialsResponse → Store → Result Store
unfolding update_linked_account_credentials
update_security_credentials account response store =
    if response.is_updated
    then update_linked_account_credentials account response.credentials store
    else ok store
