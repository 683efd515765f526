-- ===== src/Functions/Execution/Rest.antt =====
-- `_execute` and `_inject_credentials` of the REST executors: how the input of a function and the
-- credentials become a request.
use Prim.Native.String.{◌++◌ as ◌<>◌}
use autom.Prelude.{String, Bool, false, ◌||◌, Option, none, some, ◌==◌, get_or, if◌then◌else◌}
use autom.Prelude.Text.{lower, is_truthy}
use autom.Prelude.Result.{Result, ok, err, attribute_error, no_implementation_found, ◌>>=◌}
use autom.Accounts.{HttpLocation, path, query, header, cookie, body, ApiKeyScheme, OAuth2Scheme}
use autom.Functions.{
  Json, null, boolean, number, text, array, object, Fields, no_fields, field, get_field, set_field,
}
use autom.Functions.Schema.{Schema}

pub data Protocol : Type 0 where
  rest connector : Protocol

-- A row of Function with its RestMetadata: `method`, `server_url` and `path`. `schema` is what the
-- injection of defaults reads of `parameters`.
pub record Function : Type 0 where
  pub name : String
  pub app_name : String
  pub protocol : Protocol
  pub parameters : Json
  pub schema : Schema
  pub method : String
  pub server_url : String
  pub path : String

-- The dictionaries that the credentials are put into.
pub record Parts : Type 0 where
  pub headers : Fields
  pub query : Fields
  pub body : Fields
  pub cookies : Fields

-- The arguments of `httpx.Request`; an empty dictionary is given as None.
pub record Request : Type 0 where
  pub method : String
  pub url : String
  pub params : Option Fields
  pub headers : Option Fields
  pub cookies : Option Fields
  pub json : Option Fields

-- `security_key` and the access token, with the prefix if there is one.
abbrev pub with_prefix : String → String → String
with_prefix prefix secret = if is_truthy prefix then prefix <> (" " <> secret) else secret

-- The `match` on the location.
unfoldable pub put_secret : HttpLocation → String → String → Parts → Result Parts
put_secret header name secret parts =
    ok (record parts { headers = set_field name (text secret) parts.headers })
put_secret query name secret parts =
    ok (record parts { query = set_field name (text secret) parts.query })
put_secret body name secret parts =
    ok (record parts { body = set_field name (text secret) parts.body })
put_secret cookie name secret parts =
    ok (record parts { cookies = set_field name (text secret) parts.cookies })
put_secret path name secret parts = err no_implementation_found

-- `_inject_credentials` of the executors of API_KEY and of OAUTH2
abbrev pub inject_key : ApiKeyScheme → String → Parts → Result Parts
inject_key scheme secret_key =
    put_secret scheme.location scheme.name (with_prefix (get_or scheme.prefix "") secret_key)

abbrev pub inject_token : OAuth2Scheme → String → Parts → Result Parts
inject_token scheme access_token =
    put_secret scheme.location scheme.name (with_prefix scheme.prefix access_token)

-- `function_input.get(key, {})`. The schema of a REST function makes every part an object
-- (aci/common/validator.py); a part that is not one is refused here, whichever it is.
abbrev pub part_of : Option Json → Result Fields
part_of none = ok no_fields
part_of (some (object fields)) = ok fields
part_of (some null) = err attribute_error
part_of (some (boolean b)) = err attribute_error
part_of (some (number n)) = err attribute_error
part_of (some (text s)) = err attribute_error
part_of (some (array items)) = err attribute_error

-- `{**static, **dynamic}`
unfoldable pub merge : Fields → Fields → Fields
merge static no_fields = static
merge static (field key value others) = merge (set_field key value static) others

-- `any(k.lower() == 'user-agent' for k in headers.keys())`
abbrev pub has_user_agent : Fields → Bool
has_user_agent no_fields = false
has_user_agent (field key value others) = lower key == "user-agent" || has_user_agent others

-- The random User-Agent is given; none where there is none to be had.
abbrev pub with_user_agent : Option String → Fields → Fields
with_user_agent none headers = headers
with_user_agent (some agent) headers =
    if has_user_agent headers then headers else set_field "User-Agent" (text agent) headers

abbrev pub or_none : Fields → Option Fields
or_none no_fields = none
or_none (field key value others) = some (field key value others)

-- `urlparse` and `parse_qs` with the first of the values, and `url.replace("{name}", str(value))`,
-- are given.
pub record Urls : Type 0 where
  pub parse : String → String × Fields
  pub replace : String → Json → String → String

abbrev pub fill : Urls → Fields → String → String
fill urls no_fields url = url
fill urls (field name value others) url = fill urls others (urls.replace name value url)

-- From the five parts of the input to the request; `inject` is the executor's.
unfoldable pub build_request :
    Urls → Option String → (Parts → Result Parts) → Function → Fields → Result Request
build_request urls agent inject function input = do
  path_params ← part_of (get_field "path" input)
  query_params ← part_of (get_field "query" input)
  headers ← part_of (get_field "header" input)
  cookies ← part_of (get_field "cookie" input)
  body_fields ← part_of (get_field "body" input)
  let parsed = urls.parse function.path in
      (do
        parts ← inject (record {
          headers = with_user_agent agent headers;
          query = merge parsed.1 query_params;
          body = body_fields;
          cookies = cookies;
        })
        ok (record {
          method = function.method;
          url = fill urls path_params (function.server_url <> parsed.0);
          params = or_none parts.query;
          headers = or_none parts.headers;
          cookies = or_none parts.cookies;
          json = or_none parts.body;
        }))
