-- ===== src/Functions/Execution/Laws.antt =====
-- What a request carries, and what an execution leaves in the tables.
use autom.Prelude.{
  ℕ, String, ◌≡◌, refl, sym, subst, ◌∙◌, true, not, Option, none, some, get_or, eq_refl,
}
use autom.Prelude.Result.{
  Result, ok, err, >>=-eq-ok, ok-eq, or_raise-eq, raise_if-ok, or_raise, function_not_found,
  app_configuration_not_found, app_configuration_disabled, linked_account_not_found,
}
use autom.Accounts.{
  HttpLocation, path, query, header, cookie, body, SecurityScheme, no_auth, api_key, oauth2,
  http_basic, http_bearer, SecurityCredentials, no_auth_credentials, api_key_credentials,
  oauth2_credentials, LinkedAccount, Store,
}
use autom.Accounts.OAuth2.{OAuth2Client}
use autom.Prelude.Every.{some-eq}
use autom.Accounts.Manager.{
  types_match, SecurityCredentialsResponse, Scheme, of_api_key, of_oauth2, of_no_auth,
  get_security_credentials, update_security_credentials,
}
use autom.Accounts.Manager.Laws.{get-update_lem, get_by_scheme-type}
use autom.Accounts.Tables.{get_app_configuration, get_linked_account, is_of}
use autom.Accounts.Tables.Laws.{IsSound}
use autom.Accounts.Writes.{columns_set, response-Write}
use autom.Accounts.Invariant.{Write-IsSound}
use autom.Accounts.Steps.{found_by_name}
use autom.Functions.{Json, text, Fields, no_fields, field, get_field, set_field}
use autom.Functions.Schema.Present.{get_field-set_field}
use autom.Functions.Execution.Rest.{
  Function, rest, Parts, Request, with_prefix, put_secret, part_of, merge, with_user_agent, or_none,
  Urls, build_request,
}
use autom.Functions.Execution.{
  Outcome, World, Executor, get_executor, inject_credentials, fetch_credentials, used,
  execute_fetched, execute_function,
}

-- The entry of a name in the part of a request that a location stands for.
abbrev pub entry_at : String → Option Fields → Option Json
entry_at name none = none
entry_at name (some fields) = get_field name fields

abbrev pub secret_at : HttpLocation → String → Request → Option Json
secret_at header name request = entry_at name request.headers
secret_at query name request = entry_at name request.params
secret_at body name request = entry_at name request.json
secret_at cookie name request = entry_at name request.cookies
secret_at path name request = none

entry_at-or_none :
    (name : String) (fields : Fields) → entry_at name (or_none fields) ≡ get_field name fields
unfolding get_field
entry_at-or_none name no_fields = refl
entry_at-or_none name (field key value others) = refl

set_found :
    (name : String) (value : Json) (fields : Fields)
    → entry_at name (or_none (set_field name value fields)) ≡ some value
set_found name value fields =
    rw
      (
        entry_at-or_none name (set_field name value fields),
        get_field-set_field name name value fields,
        eq_refl name,
      )
      refl

-- What `build_request` makes of the parts.
abbrev made_of : String → String → Parts → Request
made_of method url parts = record {
  method = method;
  url = url;
  params = or_none parts.query;
  headers = or_none parts.headers;
  cookies = or_none parts.cookies;
  json = or_none parts.body;
}

put_secret-secret_at :
    (location : HttpLocation) (name secret method url : String) (before after : Parts)
    → put_secret location name secret before ≡ ok after
    → secret_at location name (made_of method url after) ≡ some (text secret)
unfolding put_secret
put_secret-secret_at header name secret method url before after h =
    subst (λ x. secret_at header name (made_of method url x) ≡ some (text secret)) (ok-eq h)
      (set_found name (text secret) before.headers)
put_secret-secret_at query name secret method url before after h =
    subst (λ x. secret_at query name (made_of method url x) ≡ some (text secret)) (ok-eq h)
      (set_found name (text secret) before.query)
put_secret-secret_at body name secret method url before after h =
    subst (λ x. secret_at body name (made_of method url x) ≡ some (text secret)) (ok-eq h)
      (set_found name (text secret) before.body)
put_secret-secret_at cookie name secret method url before after h =
    subst (λ x. secret_at cookie name (made_of method url x) ≡ some (text secret)) (ok-eq h)
      (set_found name (text secret) before.cookies)
put_secret-secret_at path name secret method url before after h = cc

build_request_parts :
    (urls : Urls) (agent : Option String) (inject : Parts → Result Parts) (function : Function)
    (input : Fields) (request : Request)
    → build_request urls agent inject function input ≡ ok request
    → (before after : Parts) × (url : String) × (inject before ≡ ok after)
      × (made_of function.method url after ≡ request)
unfolding build_request
build_request_parts urls agent inject function input request h =
    let (ps, f1, h1) = >>=-eq-ok (part_of (get_field "path" input)) _ h in
    let (qs, f2, h2) = >>=-eq-ok (part_of (get_field "query" input)) _ h1 in
    let (hs, f3, h3) = >>=-eq-ok (part_of (get_field "header" input)) _ h2 in
    let (cs, f4, h4) = >>=-eq-ok (part_of (get_field "cookie" input)) _ h3 in
    let (bs, f5, h5) = >>=-eq-ok (part_of (get_field "body" input)) _ h4 in
    let parsed = urls.parse function.path in
    let before : Parts = record {
      headers = with_user_agent agent hs;
      query = merge parsed.1 qs;
      body = bs;
      cookies = cs;
    } in
    let (after, f6, h6) = >>=-eq-ok (inject before) _ h5 in (before, after, _, f6, ok-eq h6)

-- The place, the name and the text that the scheme of an app and the credentials come to.
abbrev pub secret_of : Scheme → SecurityCredentials → Option (HttpLocation × String × String)
secret_of (of_api_key scheme) (api_key_credentials key) =
    some (scheme.location, scheme.name, with_prefix (get_or scheme.prefix "") key)
secret_of (of_api_key scheme) no_auth_credentials = none
secret_of (of_api_key scheme) (oauth2_credentials c) = none
secret_of (of_oauth2 scheme) (oauth2_credentials c) =
    some (scheme.location, scheme.name, with_prefix scheme.prefix c.access_token)
secret_of (of_oauth2 scheme) no_auth_credentials = none
secret_of (of_oauth2 scheme) (api_key_credentials key) = none
secret_of of_no_auth credentials = none

-- The executors put in what `secret_of` says.
injected :
    (kind : SecurityScheme) (executor : Executor) (scheme : Scheme)
    (credentials : SecurityCredentials) (s : HttpLocation × String × String)
    → get_executor rest kind ≡ ok executor
    → types_match kind credentials ≡ true
    → secret_of scheme credentials ≡ some s
    → (parts : Parts)
    → inject_credentials executor scheme credentials parts ≡ put_secret s.0 s.1 s.2 parts
unfolding get_executor inject_credentials
injected api_key executor (of_api_key scheme) (api_key_credentials key) s g t e parts =
    rw (sym (ok-eq g), sym (some-eq e)) refl
injected oauth2 executor (of_oauth2 scheme) (oauth2_credentials c) s g t e parts =
    rw (sym (ok-eq g), sym (some-eq e)) refl
injected no_auth executor (of_api_key scheme) (api_key_credentials key) s g t e parts = cc
injected oauth2 executor (of_api_key scheme) (api_key_credentials key) s g t e parts = cc
injected http_basic executor (of_api_key scheme) (api_key_credentials key) s g t e parts = cc
injected http_bearer executor (of_api_key scheme) (api_key_credentials key) s g t e parts = cc
injected no_auth executor (of_oauth2 scheme) (oauth2_credentials c) s g t e parts = cc
injected api_key executor (of_oauth2 scheme) (oauth2_credentials c) s g t e parts = cc
injected http_basic executor (of_oauth2 scheme) (oauth2_credentials c) s g t e parts = cc
injected http_bearer executor (of_oauth2 scheme) (oauth2_credentials c) s g t e parts = cc
injected kind executor (of_api_key scheme) no_auth_credentials s g t e parts = cc
injected kind executor (of_api_key scheme) (oauth2_credentials c) s g t e parts = cc
injected kind executor (of_oauth2 scheme) no_auth_credentials s g t e parts = cc
injected kind executor (of_oauth2 scheme) (api_key_credentials key) s g t e parts = cc
injected kind executor of_no_auth credentials s g t e parts = cc

-- Whatever the input of a function is, the request that the executor of an account builds carries
-- the secret of the account, after its prefix, at the place and under the name that the scheme of
-- the app says: an entry of the input under that name does not take its place. The secret is the
-- key of an account with an API key and the access token of an account with OAuth2.
pub request_carries_secret :
    (urls : Urls) (agent : Option String) (function : Function) (input : Fields)
    (kind : SecurityScheme) (executor : Executor) (scheme : Scheme)
    (credentials : SecurityCredentials) (s : HttpLocation × String × String) (request : Request)
    → get_executor rest kind ≡ ok executor
    → types_match kind credentials ≡ true
    → secret_of scheme credentials ≡ some s
    → build_request urls agent (inject_credentials executor scheme credentials) function input
      ≡ ok request
    → secret_at s.0 s.1 request ≡ some (text s.2)
request_carries_secret urls agent function input kind executor scheme credentials s request g t e
      h =
    let (before, after, url, f, made) =
      build_request_parts urls agent (inject_credentials executor scheme credentials) function input
        request h in
    subst (λ r. secret_at s.0 s.1 r ≡ some (text s.2)) made
      (put_secret-secret_at s.0 s.1 s.2 function.method url before after
        (sym (injected kind executor scheme credentials s g t e before) ∙ f))

module _ (world : World) (client : OAuth2Client) (now : ℕ)
    (functions : String → Option Function) where
  fetch_credentials-Write :
      (function_name user_id : String) (store : Store)
      (fetched : Function × LinkedAccount × SecurityCredentialsResponse × Store)
      → fetch_credentials world client now functions function_name user_id store ≡ ok fetched
      → IsSound store
      → IsSound fetched.3
  unfolding fetch_credentials
  fetch_credentials-Write function_name user_id store fetched h sound =
      let (function, f1, h1) =
        >>=-eq-ok (or_raise function_not_found (functions function_name)) _ h in
      let (configured, f2, h2) =
        >>=-eq-ok
          (or_raise app_configuration_not_found (get_app_configuration function.app_name store)) _
          h1 in
      let (enabled, h3) =
        raise_if-ok (not configured.1.enabled) app_configuration_disabled _ fetched h2 in
      let (account, f4, h4) =
        >>=-eq-ok
          (or_raise linked_account_not_found (get_linked_account user_id function.app_name store)) _
          h3 in
      let (r, f5, h5) =
        >>=-eq-ok
          (get_security_credentials client now configured.0 configured.0 configured.1 account) _
          h4 in
      let (stored, f6, h6) = >>=-eq-ok (update_security_credentials account r store) _ h5 in
      let (app, found) = found_by_name user_id function.app_name store account (
        or_raise-eq linked_account_not_found (get_linked_account user_id function.app_name store)
          f4) in
      let same =
        get_by_scheme-type client now account.security_scheme configured.0 configured.0 configured.1
          account r f5 in
      let after = ok-eq (
        sym (get-update_lem client now configured.0 configured.0 configured.1 account r store f5)
        ∙ f6) in
      subst (λ x. IsSound x.3) (ok-eq h6)
        (subst IsSound after (
          Write-IsSound store _ (response-Write (is_of user_id app.id) account r store found same)
            sound))

  used-IsSound :
      (account : LinkedAccount) (outcome : Result Outcome) (stored : Store)
      → IsSound stored
      → IsSound (used world client now functions account outcome stored).0
  used-IsSound account (err e) stored sound = sound
  used-IsSound account (ok outcome) stored sound =
      Write-IsSound stored _ (columns_set account.id _ stored (λ a. (refl, refl, refl, refl, refl)))
        sound

  -- An execution keeps the accounts as they must be, whether it returns or raises and wherever it
  -- raises: no user has two accounts of an app, no two accounts have the same id, and the
  -- credentials of every account are read by the class of its scheme.
  pub execute_function-IsSound :
      (function_name user_id : String) (input : Fields) (store : Store)
      → IsSound store
      → IsSound (execute_function world client now functions function_name user_id input store).0
  unfolding execute_function
  execute_function-IsSound function_name user_id input store sound =
      by_fetched (fetch_credentials world client now functions function_name user_id store) refl
    where
      by_fetched :
          (r : Result (Function × LinkedAccount × SecurityCredentialsResponse × Store))
          → fetch_credentials world client now functions function_name user_id store ≡ r
          → IsSound (execute_fetched world client now functions input store r).0
      by_fetched (err e) h = sound
      by_fetched (ok fetched) h =
          used-IsSound fetched.1 _ fetched.3
            (fetch_credentials-Write function_name user_id store fetched h sound)
