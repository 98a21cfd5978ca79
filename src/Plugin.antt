-- ===== src/Plugin.antt =====
-- The generic Plugin service: the envelopes of proto/transport.proto, `fail` of memory_skeleton.go,
-- and the router of plugin_router.go.
pub mod Claims
pub mod Routing
pub mod Proxy
use herrscher_transport.Prelude.{Bool, String, Option, none, some, List, [], ◌∷◌, get, put}
use herrscher_transport.Errors.{Error, Result, ok, err, noted, unknown_port, port_registered}
use herrscher_transport.Errors.Format.{text}
use herrscher_transport.Codec.{Bytes}
use herrscher_transport.Exec.{Exec, pure}
use herrscher_transport.WireError.{ErrorWire, encode_wire_error}

pub record MethodEnvelope : Type 0 where
  pub port : String
  pub method : String
  pub json_payload : Bytes

pub record ResultEnvelope : Type 0 where
  pub json_payload : Bytes
  pub error : String

-- A skeleton: what serves the calls of one port, on the objects of the state `S`.
abbrev pub PluginServer : Type 0 → Type 0 → Type 0
PluginServer B S = MethodEnvelope → Exec B S ResultEnvelope

module _ {B : Type 0} (E : ErrorWire B) where
  open E use {format}

  -- fail
  unfoldable pub fail : Error B → ResultEnvelope
  fail e = record { json_payload = encode_wire_error E e; error = text format e }

  -- The ends of a handler: every failure is sent by `fail`, a payload in an envelope without error.
  abbrev pub envelope : Result B Bytes → ResultEnvelope
  envelope (ok payload) = record { json_payload = payload; error = "" }
  envelope (err e) = fail e

  abbrev pub answer : {S : Type 0} → Exec B S Bytes → Exec B S ResultEnvelope
  answer m s = (ok (envelope (m s).0), (m s).1)

pub record PluginRouter (B S : Type 0) : Type 0 where
  pub ports : List (String × PluginServer B S)

module _ {B S : Type 0} where
  -- The map that NewPluginRouter makes.
  abbrev pub empty_router : PluginRouter B S
  empty_router = record { ports = [] }

  add_unless :
      PluginRouter B S
      → String
      → PluginServer B S
      → Option (PluginServer B S)
      → Result B (PluginRouter B S)
  add_unless r port skeleton (some _) = err (noted port_registered port)
  add_unless r port skeleton none = ok (record { ports = put r.ports port skeleton })

  -- PluginRouter.add
  unfoldable pub add : PluginRouter B S → String → PluginServer B S → Result B (PluginRouter B S)
  unfolding add_unless
  add r port skeleton = add_unless r port skeleton (get r.ports port)

module _ {B S : Type 0} (E : ErrorWire B) where
  dispatch : Option (PluginServer B S) → PluginServer B S
  dispatch none env = pure (fail E (unknown_port env.port))
  dispatch (some skeleton) env = skeleton env

  -- PluginRouter.Call
  unfoldable pub router_call : PluginRouter B S → PluginServer B S
  unfolding dispatch
  router_call r env = dispatch (get r.ports env.port) env
