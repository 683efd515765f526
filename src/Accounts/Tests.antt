-- ===== src/Accounts/Tests.antt =====
-- The laws of the linked accounts at one user, an app with a key and an app with OAuth2.
use Prim.Native.Char.{Char}
use autom.Prelude.{
  String, ◌≡◌, refl, ap, sym, subst, ◌∙◌, any, ◌==◌, Bool, true, false, none, some, List, [], ◌∷◌,
  ◌++◌, arith, length,
}
use autom.Prelude.Result.{ok, ◌>>=◌}
use autom.Accounts.{
  api_key, oauth2, header, OAuth2Scheme, ApiKeyScheme, App, AppConfiguration, TokenData,
  TokenResponse, OAuth2SchemeCredentials, api_key_credentials, oauth2_credentials, LinkedAccount,
  Store,
}
use autom.Accounts.Credentials.{model_dump, validate_oauth2}
use autom.Accounts.Credentials.Column.{
  Crypto, IsDocumented, after, process_bind_param, process_result_value,
}
use autom.Accounts.Credentials.RoundTrip.{get_validated, stored_credentials}
use autom.Accounts.OAuth2.{parse_fetch_token_response, OAuth2Client, manager_of}
use autom.Accounts.Manager.{
  of_oauth2, SecurityCredentialsResponse, get_oauth2_credentials, get_security_credentials,
  update_security_credentials,
}
use autom.Accounts.Stored.{refresh_once}
use autom.Prelude.Every.{some-eq}
use autom.Accounts.Tables.{get_linked_account, new_account, create_linked_account}
use autom.Accounts.Tables.Laws.{IsSound}
use autom.Accounts.Links.{Op, links}
use autom.Accounts.Routes.{
  Jwt, IsJwt, OAuth2State, AuthorizationRequest, link_account_with_api_key, link_oauth2_account,
  oauth2_scheme_of, state_of, linked_accounts_oauth2_callback,
}
use autom.Accounts.Steps.{
  Change, IsReachable, empty, next, administered, linked_by_key, IsReachable-IsSound, Change-Op,
}
use autom.Accounts.Flow.{answered, link-callback}

-- A code that hides nothing but has the documented laws: a byte is a character.
to_chars : String → List Char
to_chars String.[] = []
to_chars (String.◌∷◌ c s) = c ∷ to_chars s

of_chars : List Char → String
of_chars [] = ""
of_chars (c ∷ s) = String.◌∷◌ c (of_chars s)

of_chars-to_chars : (s : String) → of_chars (to_chars s) ≡ s
unfolding of_chars to_chars
of_chars-to_chars String.[] = refl
of_chars-to_chars (String.◌∷◌ c s) = ap (String.◌∷◌ c) (of_chars-to_chars s)

to_chars-of_chars : (s : List Char) → to_chars (of_chars s) ≡ s
unfolding of_chars to_chars
to_chars-of_chars [] = refl
to_chars-of_chars (c ∷ s) = ap (λ t. c ∷ t) (to_chars-of_chars s)

abbrev tag : List Char
unfolding to_chars
tag = to_chars "sixteen bytes tag"

abbrev plain_crypto : Crypto Char
plain_crypto = record {
  utf8 = to_chars;
  from_utf8 = of_chars;
  b64encode = of_chars;
  b64decode = to_chars;
  seal = λ nonce plain. tag ++ plain;
  unseal = λ nonce sealed. ok (after 17 sealed);
}

plain_crypto_laws : IsDocumented plain_crypto
unfolding tag
plain_crypto_laws = record {
  utf8_law = of_chars-to_chars;
  b64_law = to_chars-of_chars;
  seal_law = λ nonce plain. refl;
  seal_long = λ nonce plain. omega arith;
}

twelve_bytes : length (to_chars "twelve bytes") ≡ 12
unfolding to_chars
twelve_bytes = refl

stored_credentials_example :
    (process_result_value plain_crypto (
        process_bind_param plain_crypto
          (λ key. to_chars "twelve bytes")
          (some (model_dump (api_key_credentials "k1"))))
      >>= λ read. get_validated api_key read)
    ≡ ok (api_key_credentials "k1")
stored_credentials_example =
    stored_credentials plain_crypto plain_crypto_laws (λ key. to_chars "twelve bytes")
      (λ key. twelve_bytes) (api_key_credentials "k1")

abbrev key_scheme : ApiKeyScheme
key_scheme = record { location = header; name = "X-Key"; prefix = none; test = none }

abbrev oauth2_scheme : OAuth2Scheme
oauth2_scheme = record {
  location = header;
  name = "Authorization";
  prefix = "Bearer";
  client_id = "c";
  client_secret = "s";
  scope = "mail";
  authorize_url = "https://a";
  access_token_url = "https://t";
  refresh_token_url = "https://r";
  token_endpoint_auth_method = none;
  redirect_url = none;
}

-- An app with both schemes, configured for OAuth2.
abbrev mail : App
mail = record {
  id = "p1";
  name = "MAIL";
  active = true;
  security_schemes = record {
    api_key = some key_scheme;
    oauth2 = some oauth2_scheme;
    no_auth = false;
  };
}

abbrev mail_configuration : AppConfiguration
mail_configuration = record {
  id = "f1";
  app_id = "p1";
  security_scheme = oauth2;
  overrides = none;
  enabled = true;
}

abbrev no_store : Store
no_store = record { apps = []; configurations = []; accounts = [] }

abbrev store : Store
store = record { apps = mail ∷ []; configurations = mail_configuration ∷ []; accounts = [] }

abbrev by_key : LinkedAccount
unfolding model_dump
by_key = new_account "l1" "u1" "p1" api_key (api_key_credentials "k1")

abbrev linked : Store
linked = record store { accounts = by_key ∷ [] }

-- The provider answers every question with the same tokens.
abbrev tokens : TokenData
tokens = record {
  access_token = some "t2";
  token_type = some "Bearer";
  expires_at = none;
  expires_in = some 3600;
  refresh_token = some "r2";
}

abbrev token : TokenResponse
token = record { json = "{}"; data_of = tokens; authed_user = none }

abbrev client : OAuth2Client
client = record {
  fetch = λ manager in_body redirect_uri code verifier. some token;
  refresh = λ manager refresh_token. some token;
}

abbrev jwt : Jwt OAuth2State
jwt = record { encode = λ state. state; decode = λ state. some state; is_token = λ state. true }

jwt_laws : IsJwt jwt
jwt_laws = record { decode_law = λ state. refl; encode_law = λ state. refl }

abbrev accepts : String → ApiKeyScheme → String → Bool
accepts name scheme key = true

abbrev functions : String → Bool
functions name = true

-- The app is set up, and the user links it by key.
set_up : IsReachable functions accepts jwt client store
set_up = next no_store store empty (administered (mail ∷ []) (mail_configuration ∷ []) no_store)

link_by_key : Change functions accepts jwt client store linked
unfolding link_account_with_api_key create_linked_account model_dump
link_by_key = linked_by_key "l1" "u1" "MAIL" "k1" store linked refl

IsReachable-IsSound_example : IsSound linked
IsReachable-IsSound_example =
    IsReachable-IsSound functions accepts jwt client linked (next store linked set_up link_by_key)

Change-Op_example : Op (links store) (links linked)
Change-Op_example = Change-Op functions accepts jwt client store linked set_up link_by_key

-- Credentials that expired at 50.
abbrev old : OAuth2SchemeCredentials
old = record {
  client_id = "c0";
  client_secret = "s0";
  scope = "mail";
  access_token = "t1";
  token_type = some "Bearer";
  expires_at = some 50;
  refresh_token = some "r1";
  raw_token_response = none;
}

abbrev fresh : OAuth2SchemeCredentials
fresh = record old { access_token = "t2"; expires_at = some 3700; refresh_token = some "r2" }

abbrev account : LinkedAccount
unfolding model_dump
account = new_account "l1" "u1" "p1" oauth2 (oauth2_credentials old)

abbrev refreshed_response : SecurityCredentialsResponse
refreshed_response = record {
  scheme = of_oauth2 oauth2_scheme;
  credentials = oauth2_credentials fresh;
  is_updated = true;
}

reads :
    get_security_credentials client 100 mail mail mail_configuration account ≡ ok refreshed_response
unfolding get_oauth2_credentials validate_oauth2 model_dump
reads = refl

abbrev with_old : Store
with_old = record store { accounts = account ∷ [] }

old_found : get_linked_account "u1" "MAIL" with_old ≡ some account
unfolding account
old_found = refl

refresh_once_example :
    (s' : Store) × (account' : LinkedAccount) × (update_security_credentials account
        refreshed_response with_old
      ≡ ok s')
    × (get_linked_account "u1" "MAIL" s' ≡ some account')
    × (get_security_credentials client 3600 mail mail mail_configuration account'
        ≡ ok (record refreshed_response { is_updated = false }))
unfolding account
refresh_once_example =
    refresh_once client 100 mail mail mail_configuration "u1" "MAIL" with_old account fresh
      refreshed_response old_found refl reads refl client 3600 refl

abbrev request : AuthorizationRequest OAuth2State
request = record {
  manager = manager_of "MAIL" oauth2_scheme;
  redirect_uri = "https://back";
  state = state_of "u1" "MAIL" none "https://back" "v" oauth2_scheme;
  code_verifier = "v";
}

abbrev linked_credentials : OAuth2SchemeCredentials
linked_credentials = record {
  client_id = "c";
  client_secret = "s";
  scope = "mail";
  access_token = "t2";
  token_type = some "Bearer";
  expires_at = some 3700;
  refresh_token = some "r2";
  raw_token_response = some "{}";
}

starts :
    link_oauth2_account jwt client 100 "u1" "MAIL" none "https://back" "v" with_old ≡ ok request
unfolding link_oauth2_account oauth2_scheme_of
starts = refl

parses : parse_fetch_token_response 100 request.manager token ≡ ok linked_credentials
unfolding parse_fetch_token_response
parses = refl

old_typed :
    (x : LinkedAccount)
    → get_linked_account "u1" "MAIL" with_old ≡ some x
    → x.security_scheme ≡ oauth2
unfolding account
old_typed x h = subst (λ y. y.security_scheme ≡ oauth2) (some-eq (sym old_found ∙ h)) refl

new_fresh : any (λ b. "l2" == b.id) with_old.accounts ≡ false
unfolding account
new_fresh = refl

link-callback_example :
    (s' : Store) × (account' : LinkedAccount) × (linked_accounts_oauth2_callback jwt client 100 "l2"
        (answered "code" request.state)
        with_old
      ≡ ok s')
    × (get_linked_account "u1" "MAIL" s' ≡ some account')
    × (account'.security_scheme ≡ oauth2)
    × (validate_oauth2 account'.security_credentials ≡ ok linked_credentials)
link-callback_example =
    link-callback jwt jwt_laws client 100 "u1" "MAIL" none "https://back" "v" "l2" "code" with_old
      request token linked_credentials starts refl refl parses new_fresh old_typed
