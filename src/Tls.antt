-- ===== src/Tls.antt =====
-- tls.go: the TLS settings and the credentials built from them. Reading the files and parsing their
-- PEM content are crypto/tls, crypto/x509 and os: the record `Files` holds what the code calls.
pub mod FailClosed
use herrscher_transport.Prelude.{
  ℕ, String, Bool, true, false, not, ◌||◌, List, [], ◌∷◌, ◌++◌, ◌==◌, Option, none, some,
  if◌then◌else◌,
}
use herrscher_transport.Errors.{
  Error, Result, ok, err, ◌>>=◌, wrapped, tls_half_configured, tls_not_configured, ca_file,
}
use herrscher_transport.Errors.Format.{env_tls_ca, env_tls_cert, env_tls_key}

pub record TlsConfig : Type 0 where
  pub ca_file_name : String
  pub cert_file : String
  pub key_file : String

-- c.CAFile != ""
abbrev pub is_set : String → Bool
is_set file = not (file == "")

-- TLSConfig.Enabled
unfoldable pub enabled : TlsConfig → Bool
enabled c = is_set c.ca_file_name || is_set c.cert_file || is_set c.key_file

abbrev pub when_empty : String → String → List String
when_empty file name = if file == "" then name ∷ [] else []

-- The names appended to `missing`, in order.
unfoldable pub missing_of : TlsConfig → List String
missing_of c =
    when_empty c.ca_file_name env_tls_ca
    ++ (when_empty c.cert_file env_tls_cert ++ when_empty c.key_file env_tls_key)

abbrev pub half_configured : {B : Type 0} → List String → Result B (Unit {0})
half_configured [] = ok tt
half_configured (name ∷ names) = err (tls_half_configured (name ∷ names))

-- TLSConfig.Validate
unfoldable pub validate : (B : Type 0) → TlsConfig → Result B (Unit {0})
unfolding enabled missing_of
validate B c = if not (enabled c) then ok tt else half_configured (missing_of c)

pub record Files (B : Type 0) : Type 1 where
  pub Certificate : Type 0
  pub Pem : Type 0
  pub Pool : Type 0
  pub load_key_pair : (cert_file key_file : String) → Result B Certificate
  pub read_file : String → Result B Pem
  -- AppendCertsFromPEM on an empty pool: the pool, if a certificate was parsed
  pub certs_from_pem : Pem → Option Pool

module _ {B : Type 0} (F : Files B) where
  open F use {Certificate, Pem, Pool, load_key_pair, read_file, certs_from_pem}

  abbrev pub pool_or_error : String → Option Pool → Result B Pool
  pool_or_error file none = err (ca_file file)
  pool_or_error file (some pool) = ok pool

  -- TLSConfig.loadCertAndPool
  unfoldable pub load_cert_and_pool : TlsConfig → Result B (Certificate × Pool)
  unfolding enabled validate
  load_cert_and_pool c = if not (enabled c) then err tls_not_configured else do
    u ← validate B c
    cert ← wrapped "transport: load keypair" (load_key_pair c.cert_file c.key_file)
    pem ← wrapped "transport: read CA" (read_file c.ca_file_name)
    pool ← pool_or_error c.ca_file_name (certs_from_pem pem)
    ok (cert, pool)

  -- tls.Config as the two functions fill it; `none` is a field that they leave nil.
  pub record Credentials : Type 0 where
    pub certificate : Certificate
    pub client_cas : Option Pool
    pub root_cas : Option Pool
    pub require_and_verify_client_cert : Bool
    pub min_version : ℕ

  abbrev pub version_tls12 : ℕ
  version_tls12 = 0x0303

  -- TLSConfig.ServerCredentials
  unfoldable pub server_credentials : TlsConfig → Result B Credentials
  unfolding load_cert_and_pool
  server_credentials c = do
    loaded ← load_cert_and_pool c
    ok (record {
      certificate = loaded.0;
      client_cas = some loaded.1;
      root_cas = none;
      require_and_verify_client_cert = true;
      min_version = version_tls12;
    })

  -- TLSConfig.ClientCredentials
  unfoldable pub client_credentials : TlsConfig → Result B Credentials
  unfolding load_cert_and_pool
  client_credentials c = do
    loaded ← load_cert_and_pool c
    ok (record {
      certificate = loaded.0;
      client_cas = none;
      root_cas = some loaded.1;
      require_and_verify_client_cert = false;
      min_version = version_tls12;
    })
