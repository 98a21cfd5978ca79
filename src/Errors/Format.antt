-- ===== src/Errors/Format.antt =====
-- The texts of errors.go: `Error()` of every error type.

use herrscher_transport.Prelude.{ℕ, String, ◌⧺◌, join}
use herrscher_transport.Errors.{
  Error, invalid_frame, tls_not_configured, port_registered, plugin_service_registered, nil_hook,
  no_announce_key, weak_announce_key, unauthenticated_announcement, stale_announcement,
  oversized_announcement, malformed_announcement, unusable_announcement, addr_refused,
  backend_stream_not_responder, unexpected_eof, eof, unknown_port, unknown_method, arg_count,
  plaintext_dial, tls_half_configured, ca_file, remote, budget, external, wrap, noted, wrap_both,
}

-- What fmt and the contracts module supply: `%q` of a text, `%d` of a count, and the text of a
-- contracts.BudgetError. Nothing is assumed of them.
pub record Format (B : Type 0) : Type 0 where
  pub quote : String → String
  pub decimal : ℕ → String
  pub budget_text : B → String

abbrev pub env_tls_ca : String
env_tls_ca = "HERRSCHER_TLS_CA"

abbrev pub env_tls_cert : String
env_tls_cert = "HERRSCHER_TLS_CERT"

abbrev pub env_tls_key : String
env_tls_key = "HERRSCHER_TLS_KEY"

-- err.Error()
module _ {B : Type 0} (F : Format B) where
  open F use {quote, decimal, budget_text}

  -- err.Error()
  unfoldable pub text : Error B → String
  text invalid_frame = "transport: invalid frame (neither event nor done)"
  text tls_not_configured = "transport: TLS not configured"
  text port_registered = "transport: port already registered"
  text plugin_service_registered = "transport: Plugin service already registered on this server"
  text nil_hook = "transport: nil announcement hook"
  text no_announce_key = "transport: no announce key"
  text weak_announce_key = "transport: announce key shorter than 32 bytes or all zero"
  text unauthenticated_announcement = "transport: announcement failed authentication"
  text stale_announcement = "transport: announcement outside the freshness window"
  text oversized_announcement = "transport: announcement exceeds the size bound"
  text malformed_announcement = "transport: malformed announcement"
  text unusable_announcement =
      "transport: announcement lacks an instance id, a category or a host:port address"
  text addr_refused = "transport: announced address refused by the allowlist"
  text backend_stream_not_responder = "backend stream: server does not respond"
  text unexpected_eof = "unexpected EOF"
  text eof = "EOF"
  text (unknown_port port) = "transport: unknown port " ⧺ quote port
  text (unknown_method service method) = "transport: unknown method " ⧺ service ⧺ "." ⧺ method
  text (arg_count want got) = "transport: expected " ⧺ decimal want ⧺ " args, got " ⧺ decimal got
  text (plaintext_dial addr) =
      "transport: refusing plaintext dial to non-loopback address "
      ⧺ quote addr
      ⧺ "; configure TLS for remote plugins"
  text (tls_half_configured missing) =
      "transport: TLS half-configured: "
      ⧺ join ", " missing
      ⧺ " missing (set "
      ⧺ env_tls_ca
      ⧺ ", "
      ⧺ env_tls_cert
      ⧺ " and "
      ⧺ env_tls_key
      ⧺ " together, or none for loopback plaintext)"
  text (ca_file file) = "transport: CA " ⧺ quote file ⧺ " held no usable certificate"
  text (remote message) = message
  text (budget b) = budget_text b
  text (external message) = message
  text (wrap context e) = context ⧺ ": " ⧺ text e
  text (noted e note) = text e ⧺ ": " ⧺ note
  text (wrap_both e f) = text e ⧺ ": " ⧺ text f
