-- ===== src/Orchestrator/Proxy.antt =====
-- orchestrator_proxy.go: the methods of an Orchestrator whose real object is behind a Plugin client.
pub mod Degraded
use herrscher_transport.Prelude.{String, [], List, Option, none, some}
use herrscher_transport.Codec.{Slot, Args}
use herrscher_transport.Errors.{Result, ok, err}
use herrscher_transport.Exec.{Exec, lift, ◌>>=◌}
use herrscher_transport.WireError.{ErrorWire}
use herrscher_transport.Plugin.{PluginServer, ResultEnvelope}
use herrscher_transport.Plugin.Proxy.{call, result_of, no_result}
use herrscher_transport.Orchestrator
use herrscher_transport.Orchestrator.{
  OrchestratorTypes, Orchestrator, port_orchestrator, method_context, method_observe,
  method_consolidate,
}

-- OrchestratorProxy, by its two fields: the client that it calls, and the connection that it owns, if
-- it dialed one.
pub record OrchestratorProxy (Client Conn : Type 0) : Type 0 where
  pub client : Client
  pub dialed : Option Conn

-- NewOrchestratorProxy
abbrev pub new_orchestrator_proxy : {Client Conn : Type 0} → Client → OrchestratorProxy Client Conn
new_orchestrator_proxy c = record { client = c; dialed = none }

-- OrchestratorProxy.Close, of Close of the connection
unfoldable pub close_orchestrator_proxy :
    {B Client Conn : Type 0}
    → (Conn → Result B (Unit {0}))
    → OrchestratorProxy Client Conn
    → Result B (Unit {0})
close_orchestrator_proxy close_conn p = elim p.dialed [ some conn ↦ close_conn conn | none ↦ ok tt ]

module _ {B S : Type 0} (E : ErrorWire B) (T : OrchestratorTypes B)
    (client : PluginServer B S) where
  open T use {Prompt, text_codec}

  -- OrchestratorProxy.call
  abbrev pub call_orchestrator : String → (cs : List (Slot B)) → Args cs → Exec B S ResultEnvelope
  call_orchestrator method cs vals = call E client port_orchestrator method cs vals

  abbrev pub or_empty : Result B String → String
  or_empty (ok out) = out
  or_empty (err e) = ""

  ask_context : Exec B S String
  ask_context = do res ← call_orchestrator method_context [] tt; lift (result_of E text_codec res)

  -- Every failure degrades to "".
  unfoldable pub context : S → String × S
  unfolding ask_context
  context s = (or_empty (ask_context s).0, (ask_context s).1)

  unfoldable pub observe : Prompt → String → Exec B S (Unit {0})
  observe pr reply = do
    res ← call_orchestrator method_observe (Orchestrator.observe_args T) (pr, (reply, tt))
    lift (no_result res)

  unfoldable pub consolidate : Exec B S (Unit {0})
  consolidate = do res ← call_orchestrator method_consolidate [] tt; lift (no_result res)

  -- OrchestratorProxy, as a contracts.Orchestrator
  unfoldable pub orchestrator_proxy : Orchestrator T S
  unfolding context observe consolidate
  orchestrator_proxy = record { context = context; observe = observe; consolidate = consolidate }
