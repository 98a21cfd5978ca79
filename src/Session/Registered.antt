-- ===== src/Session/Registered.antt =====
-- A host that finds a Memory and an Orchestrator in its registry, dials them, and calls them.
use herrscher_transport.Prelude.{◌≡◌, String, Bool, Option, List, Any, ◌∙◌, inl, inr}
use herrscher_transport.Errors.{Error, ok}
use herrscher_transport.Codec.RoundTrip.{KeepsElements}
use herrscher_transport.WireError.{ErrorWire}
use herrscher_transport.Announce.{AnnounceKey, Packages, OnRejected}
use herrscher_transport.Registry.{RemoteEntry, Directory, memories, orchestrators}
use herrscher_transport.Registry.Watching.{Message}
use herrscher_transport.Registry.Vetted.{IsVetted, watching, by_category-IsVetted}
use herrscher_transport.Dial.{Network, dial_memory, dial_orchestrator}
use herrscher_transport.Dial.Loopback.{IsDialed, dial_memory_sound, dial_orchestrator_sound}
use herrscher_transport.Plugin.{PluginServer, PluginRouter, router_call}
use herrscher_transport.Memory.{MemoryTypes, Memory, register_memory_skeleton}
use herrscher_transport.Memory.Proxy.{MemoryProxy, memory_proxy}
use herrscher_transport.Orchestrator.{
  OrchestratorTypes, Orchestrator, register_orchestrator_skeleton,
}
use herrscher_transport.Orchestrator.Proxy.{OrchestratorProxy, orchestrator_proxy}
use herrscher_transport.Session.{Op, run_session}
use herrscher_transport.Session.Served.{SessionSurvives, relay_replies, run_session-served}

module _ {B S : Type 0} (N : Network B) (E : ErrorWire B)
    (new_plugin_client : N.Conn → PluginServer B S) where
  open N use {Credentials, Conn, new_client}

  -- Whoever dials the address reaches the router.
  abbrev pub Serves : PluginRouter B S → String → Type 0
  Serves r addr =
      (creds : Credentials) (conn : Conn)
      → new_client addr creds ≡ ok conn
      → new_plugin_client conn ≡ router_call E r

  reaches :
      {Manifest : Type 0} {ctx_err : Option (Error B)} {creds : Option Credentials}
      (e : RemoteEntry Manifest) (conn : Conn) (r : PluginRouter B S)
      → Serves r e.grpc_addr
      → IsDialed N ctx_err e creds conn
      → new_plugin_client conn ≡ router_call E r
  reaches e conn r serves (alive, inl (c, given, made)) = serves c conn made
  reaches e conn r serves (alive, inr (none_given, local, made)) = serves N.insecure conn made

module _ {B Manifest W S : Type 0} (P : Packages B Manifest) (D : Directory B Manifest)
    (N : Network B) (E : ErrorWire B) (laws : KeepsElements E.wire) (TM : MemoryTypes B)
    (TO : OrchestratorTypes B) (new_plugin_client : N.Conn → PluginServer B S) where
  open N use {Conn, Credentials}

  module _ (memory : Memory TM S) (orchestrator : Orchestrator TO S) (key : AnnounceKey)
      (on_rejected : OnRejected P W) (allow : Option (String → Bool)) where
    -- A host that watches for announcements, picks any entries among the memories and the orchestrators
    -- of its registry, dials them and calls them, calls the real objects: if the process at the two
    -- addresses registered the skeletons of a memory and then of an orchestrator on its router, the
    -- replies and effects are those of the same calls on the real objects, errors as relayed (for calls
    -- whose arguments, answers and errors survive the wire). And whatever messages arrived, each entry
    -- was announced under the key and is allowed by the gate, and each connection was dialed with the
    -- credentials given or, without any, to a loopback address.
    pub registered_session :
        (ms : List Message) (w : W) (e_memory e_orchestrator : RemoteEntry Manifest)
        → Any (λ x. x ≡ e_memory) (memories D (watching P D key on_rejected allow ms w))
        → Any (λ x. x ≡ e_orchestrator) (orchestrators D (watching P D key on_rejected allow ms w))
        → (ctx_err : Option (Error B)) (creds : Option Credentials)
          (p_memory : MemoryProxy (PluginServer B S) Conn)
          (p_orchestrator : OrchestratorProxy (PluginServer B S) Conn)
        → dial_memory N new_plugin_client ctx_err e_memory creds ≡ ok p_memory
        → dial_orchestrator N new_plugin_client ctx_err e_orchestrator creds ≡ ok p_orchestrator
        → (empty r_memory r : PluginRouter B S)
        → register_memory_skeleton E TM memory empty ≡ ok r_memory
        → register_orchestrator_skeleton E TO orchestrator r_memory ≡ ok r
        → Serves N E new_plugin_client r e_memory.grpc_addr
        → Serves N E new_plugin_client r e_orchestrator.grpc_addr
        → (ops : List (Op TM TO)) (s : S) → SessionSurvives E laws TM TO memory orchestrator ops s
        → (run_session TM TO
              (memory_proxy E TM p_memory.client)
              (orchestrator_proxy E TO p_orchestrator.client)
              ops
              s
            ≡ relay_replies E laws TM TO memory orchestrator
                (run_session TM TO memory orchestrator ops s))
          × IsVetted P D key on_rejected allow ms e_memory
          × IsVetted P D key on_rejected allow ms e_orchestrator
          × ((c : Conn) × IsDialed N ctx_err e_memory creds c)
          × ((c : Conn) × IsDialed N ctx_err e_orchestrator creds c)
    unfolding memories orchestrators
    registered_session ms w e_memory e_orchestrator listed listed' ctx_err creds p_memory
          p_orchestrator dialed dialed' empty r_memory r first second serves serves' ops s
          survives =
        let (conn, made, client, _) =
          dial_memory_sound N new_plugin_client ctx_err e_memory creds p_memory dialed in
        let (conn', made', client', _) =
          dial_orchestrator_sound N new_plugin_client ctx_err e_orchestrator creds p_orchestrator
            dialed' in
        let served =
          run_session-served E laws TM TO memory orchestrator empty r_memory r first second ops s
            survives in
        (
          rw
              (
                client ∙ reaches N E new_plugin_client e_memory conn r serves made,
                client' ∙ reaches N E new_plugin_client e_orchestrator conn' r serves' made',
              )
              served,
          (by_category-IsVetted P D key on_rejected allow ms w D.category_memory e_memory listed).1,
          (by_category-IsVetted P D key on_rejected allow ms w D.category_orchestrator
              e_orchestrator listed').1,
          (conn, made),
          (conn', made'),
        )
