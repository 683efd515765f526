-- ===== src/Accounts/OAuth2.antt =====
-- aci/server/oauth2_manager.py: the exchange of a code and of a refresh token with the provider,
-- and the credentials that are read from its answer.
use autom.Prelude.{
  ℕ, ◌+◌, String, Bool, true, false, Option, none, some, List, [], ◌∷◌, ◌==◌, member,
}
use autom.Prelude.Result.{Result, ok, err, oauth2_error, ◌>>=◌}
use autom.Accounts.{TokenData, TokenResponse, OAuth2Scheme, OAuth2SchemeCredentials}

-- The fields that `__init__` sets.
pub record OAuth2Manager : Type 0 where
  pub app_name : String
  pub client_id : String
  pub client_secret : String
  pub scope : String
  pub authorize_url : String
  pub access_token_url : String
  pub refresh_token_url : String
  pub token_endpoint_auth_method : Option String

-- The manager for an app, by its scheme.
abbrev pub manager_of : String → OAuth2Scheme → OAuth2Manager
manager_of app_name scheme = record {
  app_name = app_name;
  client_id = scheme.client_id;
  client_secret = scheme.client_secret;
  scope = scheme.scope;
  authorize_url = scheme.authorize_url;
  access_token_url = scheme.access_token_url;
  refresh_token_url = scheme.refresh_token_url;
  token_endpoint_auth_method = scheme.token_endpoint_auth_method;
}

-- What the code asks of authlib's AsyncOAuth2Client: none where the call raises. `fetch` takes
-- whether client id and secret are sent in the body, the redirect URI, the code and the verifier.
pub record OAuth2Client : Type 0 where
  pub fetch : OAuth2Manager → Bool → String → String → String → Option TokenResponse
  pub refresh : OAuth2Manager → String → Option TokenResponse

abbrev pub or_oauth2_error : Option TokenResponse → Result TokenResponse
or_oauth2_error none = err oauth2_error
or_oauth2_error (some token) = ok token

abbrev pub oauth_apps_require_credentials_in_body : List String
oauth_apps_require_credentials_in_body = "TYPEFORM" ∷ "WORDPRESS" ∷ "TODOIST" ∷ []

abbrev pub fetch_token :
    OAuth2Client → OAuth2Manager → String → String → String → Result TokenResponse
fetch_token client self redirect_uri code code_verifier =
    let in_body = member self.app_name oauth_apps_require_credentials_in_body in
    or_oauth2_error (client.fetch self in_body redirect_uri code code_verifier)

abbrev pub refresh_token : OAuth2Client → OAuth2Manager → String → Result TokenResponse
refresh_token client self token = or_oauth2_error (client.refresh self token)

-- `expires_at`, else the time of the call and `expires_in`, else None.
abbrev pub expiry : ℕ → Option ℕ → Option ℕ → Option ℕ
expiry now (some expires_at) expires_in = some expires_at
expiry now none (some expires_in) = some (now + expires_in)
expiry now none none = none

-- The part of the answer with the tokens; Slack has it under `authed_user`.
abbrev pub token_data : Bool → TokenResponse → Result TokenData
token_data false token = ok token.data_of
token_data true token = elim token.authed_user [ none ↦ err oauth2_error | some user ↦ ok user ]

abbrev pub credentials_of :
    ℕ → OAuth2Manager → TokenResponse → TokenData → Option String → Result OAuth2SchemeCredentials
credentials_of now self token found none = err oauth2_error
credentials_of now self token found (some access_token) = ok (record {
  client_id = self.client_id;
  client_secret = self.client_secret;
  scope = self.scope;
  access_token = access_token;
  token_type = found.token_type;
  expires_at = expiry now found.expires_at found.expires_in;
  refresh_token = found.refresh_token;
  raw_token_response = some token.json;
})

unfoldable pub parse_fetch_token_response :
    ℕ → OAuth2Manager → TokenResponse → Result OAuth2SchemeCredentials
parse_fetch_token_response now self token = do
  found ← token_data (self.app_name == "SLACK") token
  credentials_of now self token found found.access_token
