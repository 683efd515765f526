-- ===== src/Accounts/Manager/Laws.antt =====
-- What the credentials manager returns, and what the write that follows it stores.
use autom.Prelude.{
  ℕ, zero, suc, String, ◌≡◌, refl, ap, ◌∙◌, sym, subst, true, false, Option, none, some, arith,
  Bool-cases, inl, inr, is_some, not, if◌then◌else◌,
}
use autom.Prelude.Text.{is_truthy, opt_truthy}
use autom.Prelude.Result.{ok, raise_if, key_error, no_implementation_found, ◌>>=◌, >>=-eq-ok}
use autom.Accounts.{
  SecurityScheme, no_auth, api_key, http_basic, http_bearer, oauth2, OAuth2Scheme, App,
  AppConfiguration, TokenResponse, OAuth2SchemeCredentials, oauth2_credentials, LinkedAccount,
  Store,
}
use autom.Accounts.Credentials.{
  is_empty, validate_oauth2, validate_no_auth, validate_api_key, validate_oauth2-model_dump,
}
use autom.Accounts.OAuth2.{OAuth2Client, expiry}
use autom.Accounts.Manager.{
  of_oauth2, SecurityCredentialsResponse, entry, get_app_configuration_oauth2_scheme,
  access_token_is_expired, refresh_oauth2_access_token, refreshed_with, with_token, get_fresh,
  get_oauth2_credentials, get_by_scheme, get_api_key_credentials, get_no_auth_credentials,
  get_security_credentials, types_match, set_account, with_credentials,
  update_linked_account_credentials, update_security_credentials,
}

ok-inj {ℓ} : {A : Type ℓ} {x y : A} → ok x ≡ ok y → x ≡ y
ok-inj h = cc

module _ (client : OAuth2Client) (now : ℕ) where
  -- What a refresh keeps of the stored credentials, and what it sets.
  abbrev pub IsRefreshOf : OAuth2SchemeCredentials → OAuth2SchemeCredentials → Type 0
  IsRefreshOf old new =
      (new.client_id ≡ old.client_id)
      × (new.client_secret ≡ old.client_secret)
      × (new.scope ≡ old.scope)
      × (is_truthy new.access_token ≡ true)
      × (is_some new.expires_at ≡ true)
      × (opt_truthy new.refresh_token ≡ true)

  refreshed_with-IsRefreshOf :
      (given_access : Option String) (given_expiry : Option ℕ) (given : Option String)
      (old new : OAuth2SchemeCredentials)
      → opt_truthy old.refresh_token ≡ true
      → refreshed_with client now given_access given_expiry given old ≡ ok new
      → IsRefreshOf old new
  refreshed_with-IsRefreshOf none e given old new t h = cc
  refreshed_with-IsRefreshOf (some a) none given old new t h = cc
  refreshed_with-IsRefreshOf (some a) (some zero) given old new t h = cc
  refreshed_with-IsRefreshOf (some a) (some (suc n)) given old new t h = ground arith

  has_refresh_token :
      (app_name : String) (scheme : OAuth2Scheme) (c : OAuth2SchemeCredentials) (t : TokenResponse)
      → refresh_oauth2_access_token client now app_name scheme c ≡ ok t
      → opt_truthy c.refresh_token ≡ true
  has_refresh_token app_name scheme c t h = elim (Bool-cases (opt_truthy c.refresh_token)) [
    | inl y ↦ y
    | inr n ↦ ground arith
  ]

  get_fresh_expired :
      (app_name : String) (scheme : OAuth2Scheme) (c : OAuth2SchemeCredentials)
      (r : SecurityCredentialsResponse)
      → get_fresh client now app_name scheme c true ≡ ok r
      → (c' : OAuth2SchemeCredentials) × (r ≡ (record {
        scheme = of_oauth2 scheme;
        credentials = oauth2_credentials c';
        is_updated = true;
      }))
        × IsRefreshOf c c'
  get_fresh_expired app_name scheme c r h =
      let asked =
        >>=-eq-ok (refresh_oauth2_access_token client now app_name scheme c)
          (λ token. with_token client now token c >>= λ fresh. ok (record {
            scheme = of_oauth2 scheme;
            credentials = oauth2_credentials fresh;
            is_updated = true;
          }))
          h in
      let read =
        >>=-eq-ok (with_token client now asked.0 c)
          (λ fresh. ok (record {
            scheme = of_oauth2 scheme;
            credentials = oauth2_credentials fresh;
            is_updated = true;
          }))
          asked.2 in
      (
        read.0,
        cc,
        refreshed_with-IsRefreshOf asked.0.data_of.access_token
            (expiry now asked.0.data_of.expires_at asked.0.data_of.expires_in)
            asked.0.data_of.refresh_token c read.0
            (has_refresh_token app_name scheme c asked.0 asked.1) read.1,
      )

  -- The two ways in which `_get_oauth2_credentials` returns.
  pub data Returned (scheme : OAuth2Scheme) (c : OAuth2SchemeCredentials)
      : SecurityCredentialsResponse → Type 0 where
    as_stored :
        access_token_is_expired now c ≡ false
        → Returned scheme c (record {
          scheme = of_oauth2 scheme;
          credentials = oauth2_credentials c;
          is_updated = false;
        })
    refreshed :
        (c' : OAuth2SchemeCredentials)
        → access_token_is_expired now c ≡ true
        → IsRefreshOf c c'
        → Returned scheme c (record {
          scheme = of_oauth2 scheme;
          credentials = oauth2_credentials c';
          is_updated = true;
        })

  get_fresh-Returned :
      (app_name : String) (scheme : OAuth2Scheme) (c : OAuth2SchemeCredentials)
      (r : SecurityCredentialsResponse)
      → get_fresh client now app_name scheme c (access_token_is_expired now c) ≡ ok r
      → Returned scheme c r
  get_fresh-Returned app_name scheme c r h = elim (Bool-cases (access_token_is_expired now c)) [
    | inl old ↦
        let got =
          get_fresh_expired app_name scheme c r
            (subst (λ b. get_fresh client now app_name scheme c b ≡ ok r) old h) in
        subst (λ x. Returned scheme c x) (sym got.1) (refreshed got.0 old got.2)
    | inr current ↦
        subst (λ x. Returned scheme c x)
          (ok-inj (subst (λ b. get_fresh client now app_name scheme c b ≡ ok r) current h))
          (as_stored current)
  ]

  get_oauth2_credentials-Returned :
      (app configured : App) (configuration : AppConfiguration) (account : LinkedAccount)
      (r : SecurityCredentialsResponse)
      → get_oauth2_credentials client now app configured configuration account ≡ ok r
      → (scheme : OAuth2Scheme) × (c : OAuth2SchemeCredentials)
        × (get_app_configuration_oauth2_scheme configured configuration ≡ ok scheme)
        × (validate_oauth2 account.security_credentials ≡ ok c)
        × Returned scheme c r
  unfolding get_oauth2_credentials
  get_oauth2_credentials-Returned app configured configuration account r h =
      let found = >>=-eq-ok (get_app_configuration_oauth2_scheme configured configuration) _ h in
      let read = >>=-eq-ok (validate_oauth2 account.security_credentials) _ found.2 in
      (found.0, read.0, found.1, read.1, get_fresh-Returned app.name found.0 read.0 r read.2)

  Returned-type :
      (scheme : OAuth2Scheme) (c : OAuth2SchemeCredentials) (r : SecurityCredentialsResponse)
      → Returned scheme c r
      → types_match oauth2 r.credentials ≡ true
  Returned-type scheme c _ (as_stored e) = refl
  Returned-type scheme c _ (refreshed c' e k) = refl

  Returned-scheme :
      (scheme : OAuth2Scheme) (c : OAuth2SchemeCredentials) (r : SecurityCredentialsResponse)
      → Returned scheme c r
      → r.scheme ≡ of_oauth2 scheme
  Returned-scheme scheme c _ (as_stored e) = refl
  Returned-scheme scheme c _ (refreshed c' e k) = refl

  pub get_by_scheme-type :
      (scheme : SecurityScheme) (app configured : App) (configuration : AppConfiguration)
      (account : LinkedAccount) (r : SecurityCredentialsResponse)
      → get_by_scheme client now scheme app configured configuration account ≡ ok r
      → types_match scheme r.credentials ≡ true
  unfolding get_api_key_credentials get_no_auth_credentials
  get_by_scheme-type no_auth app configured configuration account r h =
      let a = >>=-eq-ok (raise_if (not app.security_schemes.no_auth) key_error) _ h in
      let b = >>=-eq-ok (validate_no_auth account.security_credentials) _ a.2 in
      subst (λ x. types_match no_auth x.credentials ≡ true) (ok-inj b.2) refl
  get_by_scheme-type api_key app configured configuration account r h =
      let a =
        >>=-eq-ok (raise_if (is_empty account.security_credentials) no_implementation_found) _ h in
      let b = >>=-eq-ok (entry app.security_schemes.api_key) _ a.2 in
      let c = >>=-eq-ok (validate_api_key account.security_credentials) _ b.2 in
      subst (λ x. types_match api_key x.credentials ≡ true) (ok-inj c.2) refl
  get_by_scheme-type http_basic app configured configuration account r h = cc
  get_by_scheme-type http_bearer app configured configuration account r h = cc
  get_by_scheme-type oauth2 app configured configuration account r h =
      let got = get_oauth2_credentials-Returned app configured configuration account r h in
      Returned-type got.0 got.1 r got.4

  -- What `get_security_credentials` returns has the class that belongs to the scheme of the account,
  -- so that the write after it never fails: it stores the credentials if they are new, and changes
  -- nothing else and nothing otherwise.
  pub get-update_lem :
      (app configured : App) (configuration : AppConfiguration) (account : LinkedAccount)
      (r : SecurityCredentialsResponse) (store : Store)
      → get_security_credentials client now app configured configuration account ≡ ok r
      → update_security_credentials account r store
        ≡ ok (
            if r.is_updated
            then set_account account.id (with_credentials r.credentials) store
            else store)
  unfolding update_security_credentials update_linked_account_credentials
  get-update_lem app configured configuration account r store h =
      let same_type =
        get_by_scheme-type account.security_scheme app configured configuration account r h in
      elim (Bool-cases r.is_updated) [ inl y ↦ rw (y, same_type) refl | inr n ↦ rw n refl ]

  -- An account of the scheme OAUTH2: the credentials that `get_security_credentials` returns are the
  -- stored ones as long as they have not expired; expired ones are refreshed, which keeps client id,
  -- secret and scope and sets an access token, an expiry and a refresh token that are not empty.
  -- There is no other way to return.
  pub get_security_credentials-Returned :
      (app configured : App) (configuration : AppConfiguration) (account : LinkedAccount)
      (r : SecurityCredentialsResponse)
      → account.security_scheme ≡ oauth2
      → get_security_credentials client now app configured configuration account ≡ ok r
      → (scheme : OAuth2Scheme) × (c : OAuth2SchemeCredentials)
        × (get_app_configuration_oauth2_scheme configured configuration ≡ ok scheme)
        × (validate_oauth2 account.security_credentials ≡ ok c)
        × Returned scheme c r
  get_security_credentials-Returned app configured configuration account r e h =
      get_oauth2_credentials-Returned app configured configuration account r
        (subst (λ s. get_by_scheme client now s app configured configuration account ≡ ok r) e h)

  -- A row with the credentials that a read returned gives them again, until they expire.
  pub row_again :
      (app configured : App) (configuration : AppConfiguration) (account : LinkedAccount)
      (c' : OAuth2SchemeCredentials) (r : SecurityCredentialsResponse)
      → account.security_scheme ≡ oauth2
      → get_security_credentials client now app configured configuration account ≡ ok r
      → r.credentials ≡ oauth2_credentials c'
      → (client' : OAuth2Client) (later : ℕ) → access_token_is_expired later c' ≡ false
      → get_security_credentials client' later app configured configuration
          (with_credentials r.credentials account)
        ≡ ok (record r { is_updated = false })
  unfolding get_oauth2_credentials
  row_again app configured configuration account c' r e h k client' later current =
      let (scheme, c, found, valid, back) =
        get_security_credentials-Returned app configured configuration account r e h in
      let same = Returned-scheme scheme c r back in
      rw (k, e, found, validate_oauth2-model_dump c', current, same) refl

  not_updated :
      (scheme : OAuth2Scheme) (c c' : OAuth2SchemeCredentials) (r : SecurityCredentialsResponse)
      → Returned scheme c r
      → r.is_updated ≡ false
      → r.credentials ≡ oauth2_credentials c'
      → c ≡ c'
  not_updated scheme c c' _ (as_stored e) n k = cc
  not_updated scheme c c' _ (refreshed c'' e i) n k = absurd (ground arith)

  -- And so does the row itself, where the read found them in it.
  pub stored_again :
      (app configured : App) (configuration : AppConfiguration) (account : LinkedAccount)
      (c' : OAuth2SchemeCredentials) (r : SecurityCredentialsResponse)
      → account.security_scheme ≡ oauth2
      → get_security_credentials client now app configured configuration account ≡ ok r
      → r.is_updated ≡ false
      → r.credentials ≡ oauth2_credentials c'
      → (client' : OAuth2Client) (later : ℕ) → access_token_is_expired later c' ≡ false
      → get_security_credentials client' later app configured configuration account
        ≡ ok (record r { is_updated = false })
  unfolding get_oauth2_credentials
  stored_again app configured configuration account c' r e h n k client' later current =
      let (scheme, c, found, valid, back) =
        get_security_credentials-Returned app configured configuration account r e h in
      let same = Returned-scheme scheme c r back in
      let valid' = valid ∙ ap ok (not_updated scheme c c' r back n k) in
      rw (k, e, found, valid', current, same) refl
