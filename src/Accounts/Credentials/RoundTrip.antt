-- ===== src/Accounts/Credentials/RoundTrip.antt =====
-- What was written to the column of the credentials is read back.
use autom.Prelude.{
  String, ◌≡◌, refl, sym, ap, Bool, true, false, Option, none, some, List, [], ◌∷◌, ◌++◌, length,
  is_some, arith, Bool-cases, inl, inr, ltb, ◌+◌,
}
use autom.Prelude.Result.{Result, ok, err, value_error, ◌>>=◌}
use autom.Accounts.{
  SecurityScheme, SecurityCredentials, no_auth_credentials, api_key_credentials, oauth2_credentials,
  Value, null, text, integer, dictionary, Dict,
}
use autom.Accounts.Credentials.{model_dump, model_validate, scheme_of, model_validate-model_dump}
use autom.Accounts.Credentials.Column.{
  Crypto, IsDocumented, first, after, decrypt, encrypt, encrypt_value, decrypt_value, encrypt_text,
  decrypt_text, encrypt_dictionary, decrypt_dictionary, bind_dict, decrypt_api_key, decrypt_oauth2,
  result_dict, process_bind_param, process_result_value,
}

module _ {Byte : Type 0} where
  length-append : (a b : List Byte) → length (a ++ b) ≡ length a + length b
  length-append [] b = omega arith
  length-append (x ∷ a) b = let rest = length-append a b in omega arith

  -- The nonce and the sealed message are found again.
  first-append : (a b : List Byte) → first (length a) (a ++ b) ≡ a
  first-append [] b = refl
  first-append (x ∷ a) b = ap (λ c. x ∷ c) (first-append a b)

  after-append : (a b : List Byte) → after (length a) (a ++ b) ≡ b
  after-append [] b = refl
  after-append (x ∷ a) b = after-append a b

abbrev pub holds_text : Option Value → Bool
holds_text (some (text s)) = true
holds_text _ = false

-- The validation of a column that may be NULL.
abbrev pub get_validated : SecurityScheme → Option Dict → Result SecurityCredentials
get_validated scheme none = err value_error
get_validated scheme (some d) = model_validate scheme d

module _ {Byte : Type 0} (C : Crypto Byte) (D : IsDocumented C) where
  long_enough :
      (nonce plain : List Byte)
      → length nonce ≡ 12
      → ltb (length (nonce ++ C.seal nonce plain)) 13 ≡ false
  long_enough nonce plain h =
      let tag = D.seal_long nonce plain in
      let sum = length-append nonce (C.seal nonce plain) in ground arith

  decrypt_value-encrypt_value :
      (nonce : List Byte) (s : String)
      → length nonce ≡ 12
      → decrypt_value C (encrypt_value C nonce s) ≡ ok s
  unfolding decrypt_value encrypt_value decrypt encrypt
  decrypt_value-encrypt_value nonce s h =
      rw
        (
          D.b64_law,
          long_enough nonce (C.utf8 s) h,
          sym h,
          first-append nonce (C.seal nonce (C.utf8 s)),
          after-append nonce (C.seal nonce (C.utf8 s)),
          D.seal_law,
          D.utf8_law,
        )
        refl

  decrypt_text-encrypt_text :
      (nonce : List Byte) (v : Option Value)
      → length nonce ≡ 12
      → decrypt_text C (encrypt_text C nonce v) ≡ ok v
  decrypt_text-encrypt_text nonce none h = refl
  decrypt_text-encrypt_text nonce (some null) h = refl
  decrypt_text-encrypt_text nonce (some (text s)) h =
      rw (decrypt_value-encrypt_value nonce s h) refl
  decrypt_text-encrypt_text nonce (some (integer n)) h = refl
  decrypt_text-encrypt_text nonce (some (dictionary t)) h = refl

  decrypt_dictionary-encrypt_dictionary :
      (nonce : List Byte) (v : Option Value)
      → length nonce ≡ 12
      → holds_text v ≡ false
      → decrypt_dictionary C (encrypt_dictionary C nonce v) ≡ ok v
  decrypt_dictionary-encrypt_dictionary nonce none h t = refl
  decrypt_dictionary-encrypt_dictionary nonce (some null) h t = refl
  decrypt_dictionary-encrypt_dictionary nonce (some (text s)) h t = cc
  decrypt_dictionary-encrypt_dictionary nonce (some (integer n)) h t = refl
  decrypt_dictionary-encrypt_dictionary nonce (some (dictionary d)) h t =
      rw (decrypt_value-encrypt_value nonce (d) h) refl

  is_some-encrypt_text :
      (nonce : List Byte) (v : Option Value) → is_some (encrypt_text C nonce v) ≡ is_some v
  is_some-encrypt_text nonce none = refl
  is_some-encrypt_text nonce (some null) = refl
  is_some-encrypt_text nonce (some (text s)) = refl
  is_some-encrypt_text nonce (some (integer n)) = refl
  is_some-encrypt_text nonce (some (dictionary t)) = refl

  module _ (nonces : String → List Byte) (twelve : (key : String) → length (nonces key) ≡ 12) where
    result_dict-bind_dict :
        (d : Dict)
        → holds_text d.raw_token_response ≡ false
        → result_dict C (bind_dict C nonces d) ≡ ok d
    unfolding result_dict bind_dict decrypt_api_key decrypt_oauth2
    result_dict-bind_dict d t = elim (Bool-cases (is_some d.secret_key)) [
      | inl api ↦
          rw
            (
              api,
              is_some-encrypt_text (nonces "secret_key") d.secret_key,
              api,
              decrypt_text-encrypt_text (nonces "secret_key") d.secret_key (twelve "secret_key"),
            )
            refl
      | inr no_api ↦ elim (Bool-cases (is_some d.access_token)) [
        | inl oauth ↦
            rw
              (
                no_api,
                oauth,
                no_api,
                is_some-encrypt_text (nonces "access_token") d.access_token,
                oauth,
                decrypt_text-encrypt_text (nonces "client_secret") d.client_secret
                    (twelve "client_secret"),
                decrypt_text-encrypt_text (nonces "access_token") d.access_token
                    (twelve "access_token"),
                decrypt_text-encrypt_text (nonces "refresh_token") d.refresh_token
                    (twelve "refresh_token"),
                decrypt_dictionary-encrypt_dictionary (nonces "raw_token_response")
                    d.raw_token_response (twelve "raw_token_response") t,
              )
              refl
        | inr no_oauth ↦ rw (no_api, no_oauth, no_api, no_oauth) refl
      ]
    ]

    -- What is written to the column of the credentials is read back: a dictionary whose
    -- `raw_token_response` is not a text, when every nonce has 12 bytes.
    pub process_result_value-process_bind_param :
        (d : Dict)
        → holds_text d.raw_token_response ≡ false
        → process_result_value C (process_bind_param C nonces (some d)) ≡ ok (some d)
    unfolding process_result_value process_bind_param
    process_result_value-process_bind_param d t = rw (result_dict-bind_dict d t) refl

    holds_text-model_dump :
        (c : SecurityCredentials) → holds_text (model_dump c).raw_token_response ≡ false
    unfolding model_dump
    holds_text-model_dump no_auth_credentials = refl
    holds_text-model_dump (api_key_credentials k) = refl
    holds_text-model_dump (oauth2_credentials c) = ground arith

    -- Credentials that are dumped, encrypted, stored, read, decrypted and validated by the class of
    -- their scheme are the same credentials, when every nonce has 12 bytes.
    pub stored_credentials :
        (c : SecurityCredentials)
        → (process_result_value C (process_bind_param C nonces (some (model_dump c))) >>= λ read.
            get_validated (scheme_of c) read)
          ≡ ok c
    stored_credentials c =
        rw
          (
            process_result_value-process_bind_param (model_dump c) (holds_text-model_dump c),
            model_validate-model_dump c,
          )
          refl
