-- ===== src/Orchestrator.antt =====
-- orchestrator_skeleton.go: a real Orchestrator behind the Plugin service, modelled as the memory is.
pub mod Proxy
pub mod Through
use herrscher_transport.Prelude.{String, List, [], ◌∷◌, ◌==◌, if◌then◌else◌}
use herrscher_transport.Errors.{Result, ok, unknown_port, unknown_method}
use herrscher_transport.Codec.{Codec, Slot, slot, decode_args}
use herrscher_transport.Exec.{Exec, lift, pure, ◌>>=◌}
use herrscher_transport.WireError.{ErrorWire}
use herrscher_transport.Plugin.{PluginServer, PluginRouter, fail, answer, add}
use herrscher_transport.Plugin.Proxy.{result_payload, no_payload}

abbrev pub port_orchestrator : String
port_orchestrator = "orchestrator"

abbrev pub method_context : String
method_context = "Context"

abbrev pub method_observe : String
method_observe = "Observe"

abbrev pub method_consolidate : String
method_consolidate = "Consolidate"

pub record OrchestratorTypes (B : Type 0) : Type 1 where
  pub Prompt : Type 0
  pub text_codec : Codec B String
  pub prompt_codec : Codec B Prompt

-- contracts.Orchestrator; Context returns no error.
pub record Orchestrator {B : Type 0} (T : OrchestratorTypes B) (S : Type 0) : Type 0 where
  pub context : S → String × S
  pub observe : T.Prompt → String → Exec B S (Unit {0})
  pub consolidate : Exec B S (Unit {0})

abbrev pub observe_args : {B : Type 0} → OrchestratorTypes B → List (Slot B)
observe_args T = slot T.prompt_codec ∷ slot T.text_codec ∷ []

module _ {B S : Type 0} (E : ErrorWire B) (T : OrchestratorTypes B) (real : Orchestrator T S) where
  open E use {wire}
  open T use {text_codec}

  abbrev pub run_context : Exec B S String
  run_context s = (ok (real.context s).0, (real.context s).1)

  unfoldable pub context : PluginServer B S
  context env = answer E do out ← run_context; lift (result_payload E text_codec out)

  unfoldable pub observe : PluginServer B S
  observe env = answer E do
    args ← lift (decode_args wire (observe_args T) env.json_payload)
    u ← real.observe args.0 args.1.0
    lift (no_payload u)

  unfoldable pub consolidate : PluginServer B S
  consolidate env = answer E do u ← real.consolidate; lift (no_payload u)

  by_method : PluginServer B S
  unfolding context observe consolidate
  by_method env =
      if env.method == method_context
      then context env
      else if env.method == method_observe
      then observe env
      else if env.method == method_consolidate
      then consolidate env
      else pure (fail E (unknown_method port_orchestrator env.method))

  -- orchestratorServer.Call
  unfoldable pub orchestrator_call : PluginServer B S
  unfolding by_method
  orchestrator_call env =
      if env.port == port_orchestrator then by_method env else pure (fail E (unknown_port env.port))

  -- RegisterOrchestratorSkeleton
  unfoldable pub register_orchestrator_skeleton : PluginRouter B S → Result B (PluginRouter B S)
  register_orchestrator_skeleton r = add r port_orchestrator orchestrator_call
