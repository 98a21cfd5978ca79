-- ===== src/Tls/FailClosed.antt =====
-- tls.go: a partial configuration never yields credentials and never passes for plaintext.
use herrscher_transport.Prelude.{
  ◌≡◌, refl, ◌≢◌, ◌↔◌, ◌⊎◌, inl, inr, String, Bool, true, false, List, [], ◌∷◌, none, some, arith,
  eq_iff, ◌==◌, ◌||◌,
}
use herrscher_transport.Errors.{
  Error, ok, err, Result-cases, bind-eq-ok, ok-injective, tls_half_configured,
}
use herrscher_transport.Errors.Format.{env_tls_ca, env_tls_cert, env_tls_key}
use herrscher_transport.Tls.{
  TlsConfig, missing_of, validate, Files, load_cert_and_pool, server_credentials,
  client_credentials, Credentials, version_tls12,
}

abbrev pub IsPlaintext : TlsConfig → Type 0
IsPlaintext c = (c.ca_file_name ≡ "") × (c.cert_file ≡ "") × (c.key_file ≡ "")

abbrev pub IsMutual : TlsConfig → Type 0
IsMutual c = (c.ca_file_name ≢ "") × (c.cert_file ≢ "") × (c.key_file ≢ "")

abbrev pub names_setting : String → List String → Bool
names_setting name [] = false
names_setting name (n ∷ names) = n == name || names_setting name names

-- Validate accepts exactly the configurations with nothing set and those with all three files set.
pub validate_iff :
    (B : Type 0) (c : TlsConfig) → (validate B c ≡ ok tt) ↔ (IsPlaintext c ⊎ IsMutual c)
unfolding validate
validate_iff B c = (
  (λ h. ground (arith, eq_iff c.ca_file_name "", eq_iff c.cert_file "", eq_iff c.key_file "")),
  (λ h. ground (arith, eq_iff c.ca_file_name "", eq_iff c.cert_file "", eq_iff c.key_file "")),
)

-- When Validate fails, its error names the settings that are empty, and only those.
pub validate_names :
    (B : Type 0) (c : TlsConfig) (names : List String)
    → validate B c ≡ err (tls_half_configured names)
    → (names_setting env_tls_ca names ≡ (c.ca_file_name == ""))
      × (names_setting env_tls_cert names ≡ (c.cert_file == ""))
      × (names_setting env_tls_key names ≡ (c.key_file == ""))
unfolding validate
validate_names B c names h = ground arith

module _ {B : Type 0} (F : Files B) where
  open F use {Certificate, Pool, Pem, load_key_pair, read_file, certs_from_pem}

  load_pem :
      (c : TlsConfig) (cert : Certificate) (pool : Pool)
      → load_cert_and_pool F c ≡ ok (cert, pool)
      → (pem : Pem) × (read_file c.ca_file_name ≡ ok pem) × (certs_from_pem pem ≡ some pool)
  unfolding load_cert_and_pool
  load_pem c cert pool h = elim (Result-cases (read_file c.ca_file_name)) [
    | inl (pem, e) ↦ (pem, e, ground arith)
    | inr (bad, e) ↦ absurd (ground arith)
  ]

  load_sound :
      (c : TlsConfig) (cert : Certificate) (pool : Pool)
      → load_cert_and_pool F c ≡ ok (cert, pool)
      → IsMutual c × (load_key_pair c.cert_file c.key_file ≡ ok cert)
  unfolding load_cert_and_pool
  load_sound c cert pool h =
      ground (arith, eq_iff c.ca_file_name "", eq_iff c.cert_file "", eq_iff c.key_file "")

  -- A server's credentials are built only when all three files are set, and from those files: it
  -- demands and verifies certificates of its clients against the CA, and speaks TLS 1.2 at least.
  pub server_credentials_sound :
      (c : TlsConfig) (cr : Credentials F)
      → server_credentials F c ≡ ok cr
      → IsMutual c
        × (load_key_pair c.cert_file c.key_file ≡ ok cr.certificate)
        × ((pem : Pem) × (read_file c.ca_file_name ≡ ok pem) × (certs_from_pem pem ≡ cr.client_cas))
        × (cr.client_cas ≢ none)
        × (cr.require_and_verify_client_cert ≡ true)
        × (cr.min_version ≡ version_tls12 F)
  unfolding server_credentials
  server_credentials_sound c cr h =
      let (loaded, e, built) = bind-eq-ok (load_cert_and_pool F c) _ h in
      let (full, key_pair) = load_sound c loaded.0 loaded.1 e in
      let (pem, read, parsed) = load_pem c loaded.0 loaded.1 e in
      rw (← ok-injective built) (full, key_pair, (pem, read, parsed), (λ n. cc), refl, refl)

  -- With some settings but not all, both kinds of credentials fail with the half-configured error,
  -- whatever the files hold.
  pub partial_refused :
      (c : TlsConfig)
      → ¬ IsPlaintext c
      → ¬ IsMutual c
      → (names : List String) × (server_credentials F c ≡ err (tls_half_configured names))
        × (client_credentials F c ≡ err (tls_half_configured names))
  unfolding server_credentials client_credentials missing_of
  partial_refused c p m = (
    missing_of c,
    ground (arith, eq_iff c.ca_file_name "", eq_iff c.cert_file "", eq_iff c.key_file ""),
    ground (arith, eq_iff c.ca_file_name "", eq_iff c.cert_file "", eq_iff c.key_file ""),
  )

  -- The two kinds of credentials fail alike, error for error.
  pub credentials_fail_alike :
      (c : TlsConfig) (e : Error B)
      → (server_credentials F c ≡ err e) ↔ (client_credentials F c ≡ err e)
  unfolding server_credentials client_credentials
  credentials_fail_alike c e = ((λ h. ground arith), (λ h. ground arith))
