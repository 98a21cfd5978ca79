-- ===== src/Errors/Notice.antt =====
-- The `Notice` methods of errors.go. contracts.Notice is a code with named text arguments; the
-- codes are the constants of the contracts module that errors.go names.
use herrscher_transport.Prelude.{String, List, [], ◌∷◌, join}
use herrscher_transport.Errors.{Error, tls_half_configured}
use herrscher_transport.Errors.Format.{Format, env_tls_ca, text}

pub data Code : Type 0 where
  address_plaintext_refused unexpected setting_missing setting_invalid : Code

pub record Notice : Type 0 where
  pub code : Code
  pub args : List (String × String)

-- PlaintextDialError.Notice
unfoldable pub plaintext_dial_notice : String → Notice
plaintext_dial_notice addr = record {
  code = address_plaintext_refused;
  args = ("Address", addr) ∷ [];
}

-- TLSHalfConfiguredError.Notice
unfoldable pub half_configured_notice : {B : Type 0} → Format B → List String → Notice
half_configured_notice {B} F [] =
    let e : Error B = tls_half_configured [] in
    record { code = unexpected; args = ("Detail", text F e) ∷ [] }
half_configured_notice F (first ∷ others) = record {
  code = setting_missing;
  args = ("Settings", join ", " (first ∷ others)) ∷ [];
}

-- CAFileError.Notice
unfoldable pub ca_file_notice : String → Notice
ca_file_notice file = record {
  code = setting_invalid;
  args = ("Setting", env_tls_ca) ∷ ("Value", file) ∷ [];
}
