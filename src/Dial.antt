-- ===== src/Dial.antt =====
-- remote_registry.go: dialing an announced plugin, and the proxies that own their connection.
-- net.SplitHostPort, net.ParseIP with IsLoopback, and gRPC are parameters.
pub mod Loopback
use herrscher_transport.Prelude.{Bool, true, String, Option, none, some, ◌==◌, ◌⧺◌, if◌then◌else◌}
use herrscher_transport.Registry.{RemoteEntry}
use herrscher_transport.Memory.Proxy.{MemoryProxy, new_memory_proxy}
use herrscher_transport.Orchestrator.Proxy.{OrchestratorProxy, new_orchestrator_proxy}
use herrscher_transport.Backend.Proxy.{BackendProxy, new_backend_proxy}
use herrscher_transport.Errors.{Error, Result, ok, err, ◌>>=◌, wrap, plaintext_dial}

pub record Network (B : Type 0) : Type 1 where
  pub Credentials : Type 0
  pub Conn : Type 0
  pub quote : String → String
  pub split_host_port : String → Result B (String × String)
  -- ip := net.ParseIP(host); ip != nil && ip.IsLoopback()
  pub is_loopback_ip : String → Bool
  -- insecure.NewCredentials()
  pub insecure : Credentials
  -- grpc.NewClient(addr, grpc.WithTransportCredentials(creds))
  pub new_client : String → Credentials → Result B Conn
  pub close_conn : Conn → Result B (Unit {0})

module _ {B : Type 0} (N : Network B) where
  open N use {Credentials, Conn, quote, split_host_port, is_loopback_ip, insecure, new_client}

  loopback_host : String → Result B (String × String) → Result B (Unit {0})
  loopback_host addr (err e) = err (wrap ("transport: invalid gRPC address " ⧺ quote addr) e)
  loopback_host addr (ok (host, port)) =
      if host == "localhost"
      then ok tt
      else if is_loopback_ip host
      then ok tt
      else err (plaintext_dial addr)

  -- requireLoopback
  unfoldable pub require_loopback : String → Result B (Unit {0})
  unfolding loopback_host
  require_loopback addr = loopback_host addr (split_host_port addr)

  -- The credentials to dial with: those given, or none in the clear.
  choose_credentials : String → Option Credentials → Result B Credentials
  unfolding require_loopback
  choose_credentials addr (some creds) = ok creds
  choose_credentials addr none = do u ← require_loopback addr; ok insecure

  module _ {Manifest : Type 0} where
    -- dialConn; the first argument is ctx.Err()
    unfoldable pub dial_conn :
        Option (Error B) → RemoteEntry Manifest → Option Credentials → Result B Conn
    unfolding choose_credentials
    dial_conn (some e) entry creds = err e
    dial_conn none entry creds = do
      chosen ← choose_credentials entry.grpc_addr creds
      new_client entry.grpc_addr chosen

    -- DialBackend
    unfoldable pub dial_backend :
        Option (Error B) → RemoteEntry Manifest → Option Credentials → Result B (BackendProxy Conn)
    unfolding dial_conn
    dial_backend ctx_err e creds = do
      conn ← dial_conn ctx_err e creds
      ok (record (new_backend_proxy conn) { dialed = some conn })

  -- pb.NewPluginClient is generated code.
  module _ {Manifest Client : Type 0} (new_plugin_client : Conn → Client) where
    -- DialMemory
    unfoldable pub dial_memory :
        Option (Error B)
        → RemoteEntry Manifest
        → Option Credentials
        → Result B (MemoryProxy Client Conn)
    unfolding dial_conn
    dial_memory ctx_err e creds = do
      conn ← dial_conn ctx_err e creds
      ok (record (new_memory_proxy (new_plugin_client conn)) { dialed = some conn })

    -- DialOrchestrator
    unfoldable pub dial_orchestrator :
        Option (Error B)
        → RemoteEntry Manifest
        → Option Credentials
        → Result B (OrchestratorProxy Client Conn)
    unfolding dial_conn
    dial_orchestrator ctx_err e creds = do
      conn ← dial_conn ctx_err e creds
      ok (record (new_orchestrator_proxy (new_plugin_client conn)) { dialed = some conn })
