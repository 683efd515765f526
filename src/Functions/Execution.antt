-- ===== src/Functions/Execution.antt =====
-- aci/server/function_executors: `execute_function` of function_utils.py, the executors of REST
-- functions, and the request that they send.
pub mod Rest
pub mod Laws
mod Tests
use autom.Prelude.{
  ℕ, String, Bool, true, false, not, Option, none, some, List, is_some, if◌then◌else◌,
}
use autom.Prelude.Result.{
  Result, ok, err, value_error, attribute_error, function_not_found, app_configuration_not_found,
  app_configuration_disabled, linked_account_not_found, invalid_function_input, ◌>>=◌, ◌>>◌,
  raise_if, or_raise,
}
use autom.Accounts.{
  SecurityScheme, no_auth, api_key, oauth2, http_basic, http_bearer, SecurityCredentials,
  no_auth_credentials, api_key_credentials, oauth2_credentials, App, AppConfiguration,
  LinkedAccount, Store,
}
use autom.Accounts.OAuth2.{OAuth2Client}
use autom.Accounts.Manager.{
  SecurityCredentialsResponse, Scheme, of_api_key, of_oauth2, of_no_auth, get_security_credentials,
  update_security_credentials,
}
use autom.Accounts.Tables.{
  get_app_configuration, get_linked_account, update_linked_account_last_used_at,
}
use autom.Functions.{Json, object, Fields, no_fields}
use autom.Functions.Visible.{filter_visible_properties}
use autom.Functions.Nulls.{remove_none_values}
use autom.Functions.Schema.{Schema, inject_required_but_invisible_defaults}
use autom.Functions.Execution.Rest.{
  Function, Protocol, rest, connector, Parts, Request, inject_key, inject_token, Urls,
  build_request,
}

-- FunctionExecutionResult
pub data Outcome : Type 0 where
  failure : String → Outcome
  success : Json → Outcome

-- What the code asks of libraries and of the world: `jsonschema.validate`, the two URL functions, a
-- random User-Agent, the answer to a request, a connector's work, and the time when it is done.
pub record World : Type 0 where
  pub is_valid : Json → Fields → Bool
  pub urls : Urls
  pub agent : Option String
  pub send : Request → Outcome
  pub run_connector : Function → Fields → LinkedAccount → Result Outcome
  pub done_at : ℕ

-- The executors that `get_executor` chooses from.
pub data Executor : Type 0 where
  api_key_executor oauth2_executor no_auth_executor connector_executor : Executor

unfoldable pub get_executor : Protocol → SecurityScheme → Result Executor
get_executor rest api_key = ok api_key_executor
get_executor rest oauth2 = ok oauth2_executor
get_executor rest no_auth = ok no_auth_executor
get_executor rest http_basic = err value_error
get_executor rest http_bearer = err value_error
get_executor connector scheme = ok connector_executor

-- `_inject_credentials` by the class of the executor; a scheme or credentials of another class do not
-- have the attributes that it reads.
unfoldable pub inject_credentials : Executor → Scheme → SecurityCredentials → Parts → Result Parts
inject_credentials api_key_executor (of_api_key scheme) (api_key_credentials key) parts =
    inject_key scheme key parts
inject_credentials oauth2_executor (of_oauth2 scheme) (oauth2_credentials c) parts =
    inject_token scheme c.access_token parts
inject_credentials no_auth_executor scheme credentials parts = ok parts
inject_credentials _ scheme credentials parts = err attribute_error

-- A dictionary stays one.
abbrev pub fields_of : Json → Fields
fields_of (object fields) = fields
fields_of _ = no_fields

module _ (world : World) where
  -- `_preprocess_function_input`
  unfoldable pub preprocess_function_input : Function → Fields → Result Fields
  preprocess_function_input function input = do
    raise_if (not (world.is_valid (filter_visible_properties function.parameters) input))
        invalid_function_input
    filled ← inject_required_but_invisible_defaults function.schema input
    ok (fields_of (remove_none_values (object filled)))

  -- `execute` and the `_execute` of the executor
  unfoldable pub execute :
      Executor → Function → Fields → SecurityCredentialsResponse → LinkedAccount → Result Outcome
  unfolding preprocess_function_input
  execute connector_executor function input response account = do
    ready ← preprocess_function_input function input
    world.run_connector function ready account
  execute executor function input response account = do
    ready ← preprocess_function_input function input
    request ←
        build_request world.urls world.agent
          (inject_credentials executor response.scheme response.credentials) function ready
    ok (world.send request)

  module _ (client : OAuth2Client) (now : ℕ) (functions : String → Option Function) where
    -- Up to the first commit: the function, the account, its credentials, and the store with them.
    unfoldable pub fetch_credentials :
        String
        → String
        → Store
        → Result (Function × LinkedAccount × SecurityCredentialsResponse × Store)
    fetch_credentials function_name user_id store = do
      function ← or_raise function_not_found (functions function_name)
      configured ←
          or_raise app_configuration_not_found (get_app_configuration function.app_name store)
      raise_if (not configured.1.enabled) app_configuration_disabled
      account ←
          or_raise linked_account_not_found (get_linked_account user_id function.app_name store)
      response ← get_security_credentials client now configured.0 configured.0 configured.1 account
      stored ← update_security_credentials account response store
      ok (function, account, response, stored)

    -- The store after the call, and what the call returns or raises.
    abbrev pub used : LinkedAccount → Result Outcome → Store → Store × Result Outcome
    used account (err e) stored = (stored, err e)
    used account (ok outcome) stored =
        (update_linked_account_last_used_at world.done_at account stored, ok outcome)

    abbrev pub execute_fetched :
        Fields
        → Store
        → Result (Function × LinkedAccount × SecurityCredentialsResponse × Store)
        → Store × Result Outcome
    execute_fetched input store (err e) = (store, err e)
    execute_fetched input store (ok fetched) =
        used fetched.1
          (get_executor fetched.0.protocol fetched.1.security_scheme >>= λ executor.
            execute executor fetched.0 input fetched.2 fetched.1)
          fetched.3

    -- `functions` finds the active function of a name.
    unfoldable pub execute_function : String → String → Fields → Store → Store × Result Outcome
    execute_function function_name user_id input store =
        execute_fetched input store (fetch_credentials function_name user_id store)
