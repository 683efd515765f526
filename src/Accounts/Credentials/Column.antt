-- ===== src/Accounts/Credentials/Column.antt =====
-- aci/common/db/custom_sql_types.py: the encryption of the secrets in the columns, on the way to
-- the database and back, on top of aci/common/encryption.py.
use autom.Prelude.{
  ℕ, ◌≤◌, String, ◌≡◌, Option, none, some, List, [], ◌∷◌, ◌++◌, zero, suc, length, is_some, ltb,
  if◌then◌else◌,
}
use autom.Prelude.Result.{Result, ok, value_error, ◌>>=◌, ◌>>◌, raise_if}
use autom.Accounts.{Value, text, dictionary, Dict}

-- What the columns use of Python's libraries: UTF-8, base64, and AES-GCM under the key of the
-- configuration, which seals and opens with a nonce. `Byte` is the type of a byte. `json.dumps` and
-- `json.loads` stand between a dictionary and its JSON text, by which it is given.
pub record Crypto (Byte : Type 0) : Type 0 where
  pub utf8 : String → List Byte
  pub from_utf8 : List Byte → String
  pub b64encode : List Byte → String
  pub b64decode : String → List Byte
  pub seal : List Byte → List Byte → List Byte
  pub unseal : List Byte → List Byte → Result (List Byte)

-- Their documented behaviour: what was encoded decodes to itself, and a message sealed with a nonce
-- opens with that nonce. A sealed message has at least the 16 bytes of its tag.
pub record IsDocumented {Byte : Type 0} (C : Crypto Byte) : Type 0 where
  pub utf8_law : (s : String) → C.from_utf8 (C.utf8 s) ≡ s
  pub b64_law : (b : List Byte) → C.b64decode (C.b64encode b) ≡ b
  pub seal_law : (nonce plain : List Byte) → C.unseal nonce (C.seal nonce plain) ≡ ok plain
  pub seal_long : (nonce plain : List Byte) → 16 ≤ length (C.seal nonce plain)

module _ {Byte : Type 0} where
  -- `b[:n]` and `b[n:]`
  abbrev pub first : ℕ → List Byte → List Byte
  first zero b = []
  first (suc n) [] = []
  first (suc n) (x ∷ b) = x ∷ first n b

  abbrev pub after : ℕ → List Byte → List Byte
  after zero b = b
  after (suc n) [] = []
  after (suc n) (x ∷ b) = after n b

module _ {Byte : Type 0} (C : Crypto Byte) where
  -- `os.urandom(12)` is given.
  unfoldable pub encrypt : List Byte → List Byte → List Byte
  encrypt nonce plain_data = nonce ++ C.seal nonce plain_data

  unfoldable pub decrypt : List Byte → Result (List Byte)
  decrypt cipher_data = do
    raise_if (ltb (length cipher_data) 13) value_error
    C.unseal (first 12 cipher_data) (after 12 cipher_data)

  -- `_encrypt_value` and `_decrypt_value`
  unfoldable pub encrypt_value : List Byte → String → String
  unfolding encrypt
  encrypt_value nonce value = C.b64encode (encrypt nonce (C.utf8 value))

  unfoldable pub decrypt_value : String → Result String
  unfolding decrypt
  decrypt_value value = decrypt (C.b64decode value) >>= λ plain. ok (C.from_utf8 plain)

  -- `if isinstance(value, str): …`, where a missing entry is not a text.
  abbrev pub encrypt_text : List Byte → Option Value → Option Value
  encrypt_text nonce (some (text s)) = some (text (encrypt_value nonce s))
  encrypt_text nonce value = value

  abbrev pub decrypt_text : Option Value → Result (Option Value)
  decrypt_text (some (text s)) = decrypt_value s >>= λ plain. ok (some (text plain))
  decrypt_text value = ok value

  -- The raw token response is a dictionary, which is stored as the encrypted text of its JSON.
  abbrev pub encrypt_dictionary : List Byte → Option Value → Option Value
  encrypt_dictionary nonce (some (dictionary t)) = some (text (encrypt_value nonce (t)))
  encrypt_dictionary nonce value = value

  abbrev pub decrypt_dictionary : Option Value → Result (Option Value)
  decrypt_dictionary (some (text s)) = decrypt_value s >>= λ plain. ok (some (dictionary plain))
  decrypt_dictionary value = ok value

  -- EncryptedSecurityCredentials.process_bind_param; every call of `_encrypt_value` draws a nonce of
  -- its own, given by the key whose value it encrypts.
  unfoldable pub bind_dict : (String → List Byte) → Dict → Dict
  bind_dict nonces d =
      if is_some d.secret_key
      then (record d { secret_key = encrypt_text (nonces "secret_key") d.secret_key })
      else if is_some d.access_token
      then (record d {
        client_secret = encrypt_text (nonces "client_secret") d.client_secret;
        access_token = encrypt_text (nonces "access_token") d.access_token;
        refresh_token = encrypt_text (nonces "refresh_token") d.refresh_token;
        raw_token_response = encrypt_dictionary (nonces "raw_token_response") d.raw_token_response;
      })
      else d

  unfoldable pub process_bind_param : (String → List Byte) → Option Dict → Option Dict
  unfolding bind_dict
  process_bind_param nonces none = none
  process_bind_param nonces (some value) = some (bind_dict nonces value)

  unfoldable pub decrypt_api_key : Dict → Result Dict
  decrypt_api_key d =
      decrypt_text d.secret_key >>= λ secret_key. ok (record d { secret_key = secret_key })

  unfoldable pub decrypt_oauth2 : Dict → Result Dict
  decrypt_oauth2 d = do
    client_secret ← decrypt_text d.client_secret
    access_token ← decrypt_text d.access_token
    refresh_token ← decrypt_text d.refresh_token
    raw_token_response ← decrypt_dictionary d.raw_token_response
    ok (record d {
      client_secret = client_secret;
      access_token = access_token;
      refresh_token = refresh_token;
      raw_token_response = raw_token_response;
    })

  unfoldable pub result_dict : Dict → Result Dict
  unfolding decrypt_api_key decrypt_oauth2
  result_dict d =
      if is_some d.secret_key
      then decrypt_api_key d
      else if is_some d.access_token
      then decrypt_oauth2 d
      else ok d

  -- EncryptedSecurityCredentials.process_result_value
  unfoldable pub process_result_value : Option Dict → Result (Option Dict)
  unfolding result_dict
  process_result_value none = ok none
  process_result_value (some value) = result_dict value >>= λ d. ok (some d)
