-- ===== src/Functions/Execution/Tests.antt =====
-- The laws of executions at one function with a key in a header.
use autom.Prelude.{String, ◌≡◌, refl, true, false, none, some, [], ◌∷◌, if◌then◌else◌}
use mathlib.Core.Option
use autom.Prelude.Result.{ok}
use autom.Accounts.{
  header, ApiKeyScheme, App, AppConfiguration, api_key, api_key_credentials, LinkedAccount, Store,
}
use autom.Accounts.OAuth2.{OAuth2Client}
use autom.Accounts.Credentials.{model_validate-model_dump}
use autom.Accounts.Manager.{of_api_key}
use autom.Accounts.Tables.{new_account}
use autom.Accounts.Tables.Laws.{IsSound}
use autom.Functions.{
  Json, text, array, object, no_items, item, Fields, no_fields, field, get_field, set_field,
}
use autom.Functions.Schema.{schema, no_properties}
use autom.Functions.Visible.{contains, kind_of_schema, filter_visible_properties}
use autom.Functions.Visible.Laws.{filter_visible_properties_lem}
use autom.Functions.Execution.Rest.{Function, rest, Request, put_secret, merge, Urls, build_request}
use autom.Functions.Execution.{
  World, success, api_key_executor, get_executor, inject_credentials, execute_function,
}
use autom.Functions.Execution.Laws.{secret_at, request_carries_secret, execute_function-IsSound}

abbrev hidden : Json
hidden = object (field "type" (text "string") no_fields)

abbrev properties : Fields
properties = field "to" hidden (field "api" hidden no_fields)

-- A schema that shows one of two properties.
abbrev parameters : Fields
parameters = field "type" (text "object") (
    field "properties" (object properties)
      (field "visible" (array (item (text "to") no_items)) no_fields))

filter_visible_properties_lem_example :
    (shown shown_ps : Fields) × (filter_visible_properties (object parameters) ≡ object shown)
    × (get_field "visible" shown ≡ none)
    × (get_field "properties" shown ≡ some (object shown_ps))
    × ((name : String)
        → get_field name shown_ps ≡ (
            if contains name (item (text "to") no_items)
            then Option.map filter_visible_properties (get_field name properties)
            else none))
unfolding get_field kind_of_schema
filter_visible_properties_lem_example =
    filter_visible_properties_lem parameters properties (item (text "to") no_items) refl refl

abbrev send_mail : Function
send_mail = record {
  name = "MAIL__SEND";
  app_name = "MAIL";
  protocol = rest;
  parameters = object parameters;
  schema =
      schema
        (record {
          type = some "object";
          has_properties = true;
          required = some [];
          visible = some [];
          additional_properties = some false;
          default = none;
        })
        no_properties;
  method = "POST";
  server_url = "https://mail";
  path = "/send";
}

abbrev key_scheme : ApiKeyScheme
key_scheme = record { location = header; name = "X-Key"; prefix = some "Key"; test = none }

abbrev urls : Urls
urls = record { parse = λ path. (path, no_fields); replace = λ name value url. url }

-- The input tries to set the header itself.
abbrev input : Fields
input = field "header" (object (field "X-Key" (text "mine") no_fields)) no_fields

abbrev sent : Request
sent = record {
  method = "POST";
  url = "https://mail/send";
  params = none;
  headers = some (field "X-Key" (text "Key k1") no_fields);
  cookies = none;
  json = none;
}

builds :
    build_request urls none
      (inject_credentials api_key_executor (of_api_key key_scheme) (api_key_credentials "k1"))
      send_mail
      input
    ≡ ok sent
unfolding build_request inject_credentials get_field set_field put_secret merge
builds = refl

request_carries_secret_example : secret_at header "X-Key" sent ≡ some (text "Key k1")
unfolding get_executor
request_carries_secret_example =
    request_carries_secret urls none send_mail input api_key api_key_executor
      (of_api_key key_scheme) (api_key_credentials "k1") (header, "X-Key", "Key k1") sent refl refl
      refl builds

abbrev world : World
world = record {
  is_valid = λ schema input. true;
  urls = urls;
  agent = none;
  send = λ request. success (text "sent");
  run_connector = λ function input account. ok (success (text "done"));
  done_at = 200;
}

abbrev client : OAuth2Client
client = record {
  fetch = λ manager in_body redirect_uri code verifier. none;
  refresh = λ manager refresh_token. none;
}

abbrev app : App
app = record {
  id = "p1";
  name = "MAIL";
  active = true;
  security_schemes = record { api_key = some key_scheme; oauth2 = none; no_auth = false };
}

abbrev configuration : AppConfiguration
configuration = record {
  id = "f1";
  app_id = "p1";
  security_scheme = api_key;
  overrides = none;
  enabled = true;
}

abbrev account : LinkedAccount
account = new_account "l1" "u1" "p1" api_key (api_key_credentials "k1")

abbrev store : Store
store = record { apps = app ∷ []; configurations = configuration ∷ []; accounts = account ∷ [] }

execute_function-IsSound_example :
    IsSound
      (execute_function world client 100 (λ name. some send_mail) "MAIL__SEND" "u1" input store).0
execute_function-IsSound_example =
    execute_function-IsSound world client 100 (λ name. some send_mail) "MAIL__SEND" "u1" input store
      (
        (tt, tt),
        ((api_key_credentials "k1", model_validate-model_dump (api_key_credentials "k1")), tt),
      )
