-- ===== src/Orchestrator/Through.antt =====
-- orchestrator_proxy.go over a client that reaches the skeleton of orchestrator_skeleton.go, directly or
-- by a router: each method is the real one, with its errors relayed.
use herrscher_transport.Prelude.{◌≡◌, subst, String, []}
use herrscher_transport.Errors.{ok, ok-injective}
use herrscher_transport.Codec.{Bytes}
use herrscher_transport.Codec.RoundTrip.{Carries, KeepsElements}
use herrscher_transport.WireError.{ErrorWire}
use herrscher_transport.Plugin.{MethodEnvelope, PluginServer}
use herrscher_transport.Plugin.Proxy.{result_of, result_payload, no_payload, no_result}
use herrscher_transport.Plugin.Proxy.Loop.{
  SendsErrors, delivered, method_lem, returned, returned_nothing,
}
use herrscher_transport.Orchestrator
use herrscher_transport.Orchestrator.{
  OrchestratorTypes, Orchestrator, run_context, orchestrator_call, register_orchestrator_skeleton,
}
use herrscher_transport.Orchestrator.Proxy

abbrev pub sent : String → Bytes → MethodEnvelope
sent method payload = record {
  port = Orchestrator.port_orchestrator;
  method = method;
  json_payload = payload;
}

module _ {B S : Type 0} (E : ErrorWire B) (laws : KeepsElements E.wire) (T : OrchestratorTypes B)
    (real : Orchestrator T S) (client : PluginServer B S)
    (reaches : (method : String) (payload : Bytes) (s : S)
      → client (sent method payload) s ≡ orchestrator_call E T real (sent method payload) s) where
  open E use {wire}
  open T use {Prompt, text_codec, prompt_codec}

  pub context_through :
      (s : S)
      → Carries wire text_codec (real.context s).0
      → Proxy.context E T client s ≡ real.context s
  unfolding Proxy.context orchestrator_call
  context_through s ct =
      let asked =
        method_lem E laws client Orchestrator.port_orchestrator Orchestrator.method_context [] tt tt
          (run_context E T real) (result_payload E text_codec) (result_of E text_codec) s
          (λ payload d s'. rw (reaches Orchestrator.method_context payload s'))
          (returned E laws text_codec (ok (real.context s).0)
            (λ v p. subst (Carries wire text_codec) (ok-injective p) ct) (λ e bad. absurd (cc))) in
      rw asked

  pub observe_through :
      (pr : Prompt) (reply : String) (s : S)
      → Carries wire prompt_codec pr
      → Carries wire text_codec reply
      → SendsErrors E (real.observe pr reply s).0
      → Proxy.observe E T client pr reply s ≡ delivered E (real.observe pr reply s)
  unfolding Proxy.observe orchestrator_call
  observe_through pr reply s cp cr se =
      method_lem E laws client Orchestrator.port_orchestrator Orchestrator.method_observe
        (Orchestrator.observe_args T) (pr, (reply, tt)) (cp, (cr, tt)) (real.observe pr reply)
        no_payload no_result s
        (λ payload d s'. rw (reaches Orchestrator.method_observe payload s', d))
        (returned_nothing E _ se)

  pub consolidate_through :
      (s : S)
      → SendsErrors E (real.consolidate s).0
      → Proxy.consolidate E T client s ≡ delivered E (real.consolidate s)
  unfolding Proxy.consolidate orchestrator_call
  consolidate_through s se =
      method_lem E laws client Orchestrator.port_orchestrator Orchestrator.method_consolidate [] tt
        tt real.consolidate no_payload no_result s
        (λ payload d s'. rw (reaches Orchestrator.method_consolidate payload s'))
        (returned_nothing E _ se)
