-- ===== src/Tests/Orchestrator.antt =====
-- An orchestrator that counts, called through its proxy.
use herrscher_transport.Prelude.{ℕ, ◌≡◌, refl, ◌↔◌, ◌⊎◌, String, List, [], ◌∷◌, get, put}
use herrscher_transport.Errors.{ok, err, external}
use herrscher_transport.Exec.{lift}
use herrscher_transport.Plugin.{PluginServer, PluginRouter, empty_router, add, router_call}
use herrscher_transport.Plugin.Proxy.{call, accept, result_of, result_payload}
use herrscher_transport.Codec.{encode_args, decode_args}
use herrscher_transport.Orchestrator.{
  OrchestratorTypes, Orchestrator, orchestrator_call, register_orchestrator_skeleton,
}
use herrscher_transport.Orchestrator.Proxy
use herrscher_transport.Orchestrator.Proxy.Degraded.{IsAnswer, context_degrades}
use herrscher_transport.Tests.Wire.{plain, number_codec, text_codec}

abbrev pub types : OrchestratorTypes ℕ
types = record { Prompt = ℕ; text_codec = text_codec; prompt_codec = number_codec }

abbrev pub real : Orchestrator types (List ℕ)
real = record {
  context = λ s. ("hi", 0 ∷ s);
  observe = λ pr reply s. (ok tt, pr ∷ s);
  consolidate = λ s. (ok tt, []);
}

abbrev router : PluginRouter ℕ (List ℕ)
router = record { ports = ("orchestrator", orchestrator_call plain types real) ∷ [] }

registered : register_orchestrator_skeleton plain types real empty_router ≡ ok router
unfolding register_orchestrator_skeleton add get put
registered = refl

abbrev down : PluginServer ℕ (List ℕ)
down env = lift (err (external "unavailable"))

-- The peer is down: Context degrades. The router is reached: the text of the real orchestrator comes.
degraded : (Proxy.context plain types down (1 ∷ [])).0 ≡ ""
unfolding Proxy.context call encode_args
degraded = refl

answered : (Proxy.context plain types (router_call plain router) (1 ∷ [])).0 ≡ "hi"
unfolding Proxy.context call encode_args orchestrator_call router_call get accept result_of
    decode_args result_payload
answered = refl

abbrev greeting : String
greeting = "hi"

context_degrades_example :
    ((Proxy.context plain types (router_call plain router) (1 ∷ [])).0 ≡ greeting) ↔ (
      IsAnswer plain types (router_call plain router) (1 ∷ []) greeting
      ⊎ ((greeting ≡ "")
          × ((text : String) → ¬ IsAnswer plain types (router_call plain router) (1 ∷ []) text)))
context_degrades_example = context_degrades plain types (router_call plain router) (1 ∷ []) greeting
