-- ===== src/Accounts/Credentials.antt =====
-- The credentials of a linked account as a dictionary: `model_dump` and `model_validate` of the
-- three classes of aci/common/schemas/security_scheme.py.
pub mod Column
pub mod RoundTrip
use autom.Prelude.{
  ℕ, String, ◌≡◌, refl, Bool, true, false, not, ◌&&◌, Option, none, some, List, [], ◌∷◌, is_some,
  arith,
}
use autom.Prelude.Result.{Result, ok, err, value_error, ◌>>=◌, raise_if, ◌>>◌}
use autom.Accounts.{
  SecurityScheme, no_auth, api_key, oauth2, http_basic, http_bearer, TokenResponse,
  OAuth2SchemeCredentials, SecurityCredentials, no_auth_credentials, api_key_credentials,
  oauth2_credentials, Value, null, text, integer, dictionary, Dict,
}

-- `{}`
abbrev pub empty_dict : Dict
empty_dict = record {
  secret_key = none;
  client_id = none;
  client_secret = none;
  scope = none;
  access_token = none;
  token_type = none;
  expires_at = none;
  refresh_token = none;
  raw_token_response = none;
  others = [];
}

has_none {ℓ} : {A : Type ℓ} → List A → Bool
has_none [] = true
has_none (x ∷ xs) = false

-- `not d`
unfoldable pub is_empty : Dict → Bool
unfolding has_none
is_empty d =
    not (is_some d.secret_key)
    && not (is_some d.client_id)
    && not (is_some d.client_secret)
    && not (is_some d.scope)
    && not (is_some d.access_token)
    && not (is_some d.token_type)
    && not (is_some d.expires_at)
    && not (is_some d.refresh_token)
    && not (is_some d.raw_token_response)
    && has_none d.others

-- A field whose value may be None.
abbrev pub dump_option {ℓ} : {A : Type ℓ} → (A → Value) → Option A → Option Value
dump_option f none = some null
dump_option f (some a) = some (f a)

-- `credentials.model_dump(mode="json")`
unfoldable pub model_dump : SecurityCredentials → Dict
model_dump no_auth_credentials = empty_dict
model_dump (api_key_credentials secret_key) = record empty_dict {
  secret_key = some (text secret_key);
}
model_dump (oauth2_credentials c) = record empty_dict {
  client_id = some (text c.client_id);
  client_secret = some (text c.client_secret);
  scope = some (text c.scope);
  access_token = some (text c.access_token);
  token_type = dump_option text c.token_type;
  expires_at = dump_option integer c.expires_at;
  refresh_token = dump_option text c.refresh_token;
  raw_token_response = dump_option dictionary c.raw_token_response;
}

-- A field of type `str`, `str | None`, `int | None` and `dict | None`. A ValidationError is a
-- ValueError. A text where a number is expected is refused, also one that pydantic would read as a
-- number.
abbrev pub required_text : Option Value → Result String
required_text (some (text s)) = ok s
required_text _ = err value_error

abbrev pub optional_text : Option Value → Result (Option String)
optional_text none = ok none
optional_text (some null) = ok none
optional_text (some (text s)) = ok (some s)
optional_text (some (integer n)) = err value_error
optional_text (some (dictionary d)) = err value_error

abbrev pub optional_integer : Option Value → Result (Option ℕ)
optional_integer none = ok none
optional_integer (some null) = ok none
optional_integer (some (integer n)) = ok (some n)
optional_integer (some (text s)) = err value_error
optional_integer (some (dictionary d)) = err value_error

abbrev pub optional_dictionary : Option Value → Result (Option String)
optional_dictionary none = ok none
optional_dictionary (some null) = ok none
optional_dictionary (some (dictionary d)) = ok (some d)
optional_dictionary (some (text s)) = err value_error
optional_dictionary (some (integer n)) = err value_error

-- OAuth2SchemeCredentials.model_validate(d)
unfoldable pub validate_oauth2 : Dict → Result OAuth2SchemeCredentials
validate_oauth2 d = do
  client_id ← required_text d.client_id
  client_secret ← required_text d.client_secret
  scope ← required_text d.scope
  access_token ← required_text d.access_token
  token_type ← optional_text d.token_type
  expires_at ← optional_integer d.expires_at
  refresh_token ← optional_text d.refresh_token
  raw_token_response ← optional_dictionary d.raw_token_response
  ok (record {
    client_id = client_id;
    client_secret = client_secret;
    scope = scope;
    access_token = access_token;
    token_type = token_type;
    expires_at = expires_at;
    refresh_token = refresh_token;
    raw_token_response = raw_token_response;
  })

-- APIKeySchemeCredentials.model_validate(d), which ignores the other entries
unfoldable pub validate_api_key : Dict → Result String
validate_api_key d = required_text d.secret_key

-- NoAuthSchemeCredentials.model_validate(d), which forbids any entry
unfoldable pub validate_no_auth : Dict → Result (Unit {0})
unfolding is_empty
validate_no_auth d = raise_if (not (is_empty d)) value_error

-- The validation by the class that belongs to a scheme.
unfoldable pub model_validate : SecurityScheme → Dict → Result SecurityCredentials
unfolding validate_no_auth validate_api_key validate_oauth2
model_validate no_auth d = validate_no_auth d >> ok no_auth_credentials
model_validate api_key d = validate_api_key d >>= λ k. ok (api_key_credentials k)
model_validate oauth2 d = validate_oauth2 d >>= λ c. ok (oauth2_credentials c)
model_validate http_basic d = err value_error
model_validate http_bearer d = err value_error

-- The class of credentials that belongs to a scheme.
abbrev pub scheme_of : SecurityCredentials → SecurityScheme
scheme_of no_auth_credentials = no_auth
scheme_of (api_key_credentials k) = api_key
scheme_of (oauth2_credentials c) = oauth2

pub validate_oauth2-model_dump :
    (c : OAuth2SchemeCredentials) → validate_oauth2 (model_dump (oauth2_credentials c)) ≡ ok c
unfolding model_dump validate_oauth2
validate_oauth2-model_dump c = ground arith

pub model_validate-model_dump :
    (c : SecurityCredentials) → model_validate (scheme_of c) (model_dump c) ≡ ok c
unfolding model_validate model_dump is_empty has_none
model_validate-model_dump no_auth_credentials = refl
model_validate-model_dump (api_key_credentials k) = refl
model_validate-model_dump (oauth2_credentials c) = rw (validate_oauth2-model_dump c) refl
