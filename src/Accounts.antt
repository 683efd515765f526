-- ===== src/Accounts.antt =====
-- The accounts that users link: App, AppConfiguration and LinkedAccount of
-- aci/common/db/sql_models.py and the schemas of aci/common/schemas/security_scheme.py.
pub mod Credentials
pub mod OAuth2
pub mod Manager
pub mod Tables
pub mod Routes
pub mod Writes
pub mod Invariant
pub mod Links
pub mod Steps
pub mod Flow
pub mod Stored
mod Tests
use autom.Prelude.{ℕ, String, Bool, Option, none, some, List}

pub data SecurityScheme : Type 0 where
  no_auth api_key http_basic http_bearer oauth2 : SecurityScheme

pub data HttpLocation : Type 0 where
  path query header cookie body : HttpLocation

-- `test` is the name of the test function.
pub record ApiKeyScheme : Type 0 where
  pub location : HttpLocation
  pub name : String
  pub prefix : Option String
  pub test : Option String

pub record OAuth2Scheme : Type 0 where
  pub location : HttpLocation
  pub name : String
  pub prefix : String
  pub client_id : String
  pub client_secret : String
  pub scope : String
  pub authorize_url : String
  pub access_token_url : String
  pub refresh_token_url : String
  pub token_endpoint_auth_method : Option String
  pub redirect_url : Option String

-- The dictionary `App.security_schemes`, each entry as the model that it validates to. The entry of
-- NO_AUTH has no fields.
pub record SecuritySchemes : Type 0 where
  pub api_key : Option ApiKeyScheme
  pub oauth2 : Option OAuth2Scheme
  pub no_auth : Bool

pub record OAuth2SchemeOverride : Type 0 where
  pub client_id : String
  pub client_secret : String
  pub redirect_url : Option String

pub record App : Type 0 where
  pub id : String
  pub name : String
  pub active : Bool
  pub security_schemes : SecuritySchemes

-- `overrides` is the entry of OAUTH2 of `security_scheme_overrides`.
pub record AppConfiguration : Type 0 where
  pub id : String
  pub app_id : String
  pub security_scheme : SecurityScheme
  pub overrides : Option OAuth2SchemeOverride
  pub enabled : Bool

-- The entries of a token response that the code reads, by the types of RFC 6749 and of authlib:
-- those of the response itself, and those of Slack's `authed_user`.
pub record TokenData : Type 0 where
  pub access_token : Option String
  pub token_type : Option String
  pub expires_at : Option ℕ
  pub expires_in : Option ℕ
  pub refresh_token : Option String

-- `json` is the JSON text of the whole response.
pub record TokenResponse : Type 0 where
  pub json : String
  pub data_of : TokenData
  pub authed_user : Option TokenData

pub record OAuth2SchemeCredentials : Type 0 where
  pub client_id : String
  pub client_secret : String
  pub scope : String
  pub access_token : String
  pub token_type : Option String
  pub expires_at : Option ℕ
  pub refresh_token : Option String
  -- The JSON text of the dictionary.
  pub raw_token_response : Option String

-- The three classes of credentials; APIKeySchemeCredentials has the field `secret_key` alone.
pub data SecurityCredentials : Type 0 where
  no_auth_credentials : SecurityCredentials
  api_key_credentials : String → SecurityCredentials
  oauth2_credentials : OAuth2SchemeCredentials → SecurityCredentials

-- A value of the dictionary `security_credentials`. A value that is a dictionary itself, the token
-- response, is given by its JSON text.
pub data Value : Type 0 where
  null : Value
  text : String → Value
  integer : ℕ → Value
  dictionary : String → Value

-- The dictionary `security_credentials`, by the keys that the code names and the other entries.
pub record Dict : Type 0 where
  pub secret_key : Option Value
  pub client_id : Option Value
  pub client_secret : Option Value
  pub scope : Option Value
  pub access_token : Option Value
  pub token_type : Option Value
  pub expires_at : Option Value
  pub refresh_token : Option Value
  pub raw_token_response : Option Value
  pub others : List (String × Value)

pub record LinkedAccount : Type 0 where
  pub id : String
  pub user_id : String
  pub app_id : String
  pub security_scheme : SecurityScheme
  pub security_credentials : Dict
  pub disabled_functions : List String
  pub last_used_at : Option ℕ

-- The three tables.
pub record Store : Type 0 where
  pub apps : List App
  pub configurations : List AppConfiguration
  pub accounts : List LinkedAccount
