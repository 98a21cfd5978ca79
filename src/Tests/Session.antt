-- ===== src/Tests/Session.antt =====
-- A host on the memory and the orchestrator of one process.
use herrscher_transport.Prelude.{ℕ, ◌≡◌, refl, pos, List, [], ◌∷◌, subst, get, put}
use herrscher_transport.Errors.{ok, err, wrap, budget}
use herrscher_transport.Plugin.{PluginRouter, empty_router, router_call, add}
use herrscher_transport.Plugin.Proxy.Loop.{IsSendable}
use herrscher_transport.Memory.{memory_call}
use herrscher_transport.Memory.Proxy.{memory_proxy}
use herrscher_transport.Orchestrator.{orchestrator_call, register_orchestrator_skeleton}
use herrscher_transport.Orchestrator.Proxy.{orchestrator_proxy}
use herrscher_transport.Session.{
  Op, run_op, run_session, recall_op, record_op, context_op, observe_op, subgraph_reply, done_reply,
  context_reply,
}
use herrscher_transport.Session.Served.{SessionSurvives, relay_replies, run_session-served}
use herrscher_transport.Tests.Wire.{plain, plain_wire_keeps}
use herrscher_transport.Tests.Memory as MemoryTest
use herrscher_transport.Tests.Orchestrator as OrchestratorTest

abbrev pub both : PluginRouter ℕ (List ℕ)
both = record {
  ports =
      ("memory", memory_call plain MemoryTest.types MemoryTest.real)
      ∷ ("orchestrator", orchestrator_call plain OrchestratorTest.types OrchestratorTest.real)
      ∷ [];
}

pub second_registered :
    register_orchestrator_skeleton plain OrchestratorTest.types OrchestratorTest.real
      MemoryTest.router
    ≡ ok both
unfolding register_orchestrator_skeleton add get put
second_registered = refl

abbrev pub calls : List (Op MemoryTest.types OrchestratorTest.types)
calls =
    context_op ∷ recall_op "a" (pos 2) ∷ record_op 1 ∷ observe_op 6 "a" ∷ recall_op "a" (pos 2) ∷ []

-- What the host sees: the memory counts what the orchestrator has stored between its answers.
replies :
    run_session MemoryTest.types OrchestratorTest.types MemoryTest.real OrchestratorTest.real calls
      []
    ≡ (
      context_reply "hi"
          ∷ subgraph_reply (ok 1)
          ∷ done_reply (err (wrap "store" (budget 5)))
          ∷ done_reply (ok tt)
          ∷ subgraph_reply (ok 2)
          ∷ [],
      6 ∷ 0 ∷ [],
    )
unfolding run_session
replies = refl

pub calls_survive :
    SessionSurvives plain plain_wire_keeps MemoryTest.types OrchestratorTest.types MemoryTest.real
      OrchestratorTest.real calls []
unfolding run_op
calls_survive = (
  (104 ∷ 105 ∷ [], refl, refl, refl),
  (
    (
      (97 ∷ [], refl, refl, refl),
      (0 ∷ 2 ∷ [], refl, refl, refl),
      (λ v p. (v ∷ [], refl, refl, refl)),
      (λ e p. absurd (cc)),
    ),
    (
      (
        (1 ∷ [], refl, refl, refl),
        (λ e p.
            subst (IsSendable plain) (MemoryTest.err_injective MemoryTest.over_budget e p)
              MemoryTest.sendable),
      ),
      (
        ((6 ∷ [], refl, refl, refl), (97 ∷ [], refl, refl, refl), (λ e p. absurd (cc))),
        (
          (
            (97 ∷ [], refl, refl, refl),
            (0 ∷ 2 ∷ [], refl, refl, refl),
            (λ v p. (v ∷ [], refl, refl, refl)),
            (λ e p. absurd (cc)),
          ),
          tt,
        ),
      ),
    ),
  ),
)

run_session-served_example :
    run_session MemoryTest.types OrchestratorTest.types
      (memory_proxy plain MemoryTest.types (router_call plain both))
      (orchestrator_proxy plain OrchestratorTest.types (router_call plain both))
      calls
      []
    ≡ relay_replies plain plain_wire_keeps MemoryTest.types OrchestratorTest.types MemoryTest.real
        OrchestratorTest.real
        (run_session MemoryTest.types OrchestratorTest.types MemoryTest.real OrchestratorTest.real
          calls [])
run_session-served_example =
    run_session-served plain plain_wire_keeps MemoryTest.types OrchestratorTest.types
      MemoryTest.real OrchestratorTest.real empty_router MemoryTest.router both
      MemoryTest.registered second_registered calls [] calls_survive
