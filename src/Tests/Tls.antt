-- ===== src/Tests/Tls.antt =====
-- TLS settings on small examples.
use herrscher_transport.Prelude.{ℕ, ◌≡◌, refl, ◌≢◌, String, true, none, some, arith, eq_iff}
use herrscher_transport.Errors.{ok}
use herrscher_transport.Tls.{TlsConfig, Files, Credentials, server_credentials, version_tls12}
use herrscher_transport.Tls.FailClosed.{IsMutual, server_credentials_sound}

abbrev whole : TlsConfig
whole = record { ca_file_name = "ca"; cert_file = "cert"; key_file = "key" }

abbrev part : TlsConfig
part = record { ca_file_name = "ca"; cert_file = ""; key_file = "" }

abbrev files : Files ℕ
files = record {
  Certificate = String;
  Pem = ℕ;
  Pool = ℕ;
  load_key_pair = λ cert key. ok cert;
  read_file = λ file. ok 3;
  certs_from_pem = λ pem. some pem;
}

abbrev built : Credentials files
built = record {
  certificate = "cert";
  client_cas = some 3;
  root_cas = none;
  require_and_verify_client_cert = true;
  min_version = version_tls12 files;
}

server_credentials_sound_example :
    IsMutual whole
    × (files.load_key_pair "cert" "key" ≡ ok built.certificate)
    × ((pem : ℕ) × (files.read_file "ca" ≡ ok pem) × (files.certs_from_pem pem ≡ built.client_cas))
    × (built.client_cas ≢ none)
    × (built.require_and_verify_client_cert ≡ true)
    × (built.min_version ≡ version_tls12 files)
unfolding server_credentials
server_credentials_sound_example = server_credentials_sound files whole built refl

ca_set : ◌≢◌ {A = String} "ca" ""
ca_set e = ground (arith, eq_iff "ca" "")
