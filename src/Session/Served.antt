-- ===== src/Session/Served.antt =====
-- A session over the proxies is the session on the real objects, with errors relayed.
use herrscher_transport.Prelude.{◌≡◌, refl, String, List, [], ◌∷◌, map, ap, ◌∙◌}
use herrscher_transport.Errors.{ok}
use herrscher_transport.Codec.{Bytes}
use herrscher_transport.Codec.RoundTrip.{Carries, KeepsElements}
use herrscher_transport.Exec.{Exec}
use herrscher_transport.WireError.{ErrorWire}
use herrscher_transport.Plugin.{ResultEnvelope, PluginServer, PluginRouter, router_call}
use herrscher_transport.Plugin.Routing.{router_call-add, router_call-add_other}
use herrscher_transport.Plugin.Proxy.Loop.{SendsErrors, CarriesResult, relayed}
use herrscher_transport.Memory.{MemoryTypes, Memory, memory_call, register_memory_skeleton}
use herrscher_transport.Memory.Through as MemoryThrough
use herrscher_transport.Memory.Proxy.{memory_proxy}
use herrscher_transport.Orchestrator
use herrscher_transport.Orchestrator.{
  OrchestratorTypes, Orchestrator, orchestrator_call, register_orchestrator_skeleton,
}
use herrscher_transport.Orchestrator.Through as OrchestratorThrough
use herrscher_transport.Orchestrator.Proxy.{orchestrator_proxy}
use herrscher_transport.Session.{
  Op, Reply, run_op, run_session, recall_op, record_op, search_op, links_op, unlink_op, context_op,
  observe_op, consolidate_op, subgraph_reply, nodes_reply, done_reply, context_reply,
}

module _ {B S : Type 0} (E : ErrorWire B) (laws : KeepsElements E.wire) (TM : MemoryTypes B)
    (TO : OrchestratorTypes B) (memory : Memory TM S) (orchestrator : Orchestrator TO S) where
  open E use {wire}

  abbrev pub relay_reply : Reply TM TO → Reply TM TO
  relay_reply (subgraph_reply r) = subgraph_reply (relayed E r)
  relay_reply (nodes_reply r) = nodes_reply (relayed E r)
  relay_reply (done_reply r) = done_reply (relayed E r)
  relay_reply (context_reply text) = context_reply text

  -- The arguments of the call and what the real object answers in that state survive the wire.
  abbrev pub Survives : Op TM TO → S → Type 0
  Survives (recall_op key depth) s =
      Carries wire TM.text_codec key
      × Carries wire TM.int_codec depth
      × CarriesResult E laws TM.subgraph_codec (memory.recall key depth s).0
      × SendsErrors E (memory.recall key depth s).0
  Survives (record_op n) s = Carries wire TM.node_codec n × SendsErrors E (memory.record_node n s).0
  Survives (search_op q) s =
      Carries wire TM.query_codec q
      × CarriesResult E laws TM.nodes_codec (memory.search_nodes q s).0
      × SendsErrors E (memory.search_nodes q s).0
  Survives (links_op from to rel) s =
      Carries wire TM.text_codec from
      × Carries wire TM.text_codec to
      × Carries wire TM.text_codec rel
      × SendsErrors E (memory.links from to rel s).0
  Survives (unlink_op from to) s =
      Carries wire TM.text_codec from
      × Carries wire TM.text_codec to
      × SendsErrors E (memory.unlink from to s).0
  Survives context_op s = Carries wire TO.text_codec (orchestrator.context s).0
  Survives (observe_op pr reply) s =
      Carries wire TO.prompt_codec pr
      × Carries wire TO.text_codec reply
      × SendsErrors E (orchestrator.observe pr reply s).0
  Survives consolidate_op s = SendsErrors E (orchestrator.consolidate s).0

  -- Each call of the session survives the wire, in the state in which it is made.
  abbrev pub SessionSurvives : List (Op TM TO) → S → Type 0
  SessionSurvives [] s = Unit
  SessionSurvives (op ∷ ops) s =
      Survives op s × SessionSurvives ops (run_op TM TO memory orchestrator op s).1

  abbrev pub relay_replies : List (Reply TM TO) × S → List (Reply TM TO) × S
  relay_replies r = (map relay_reply r.0, r.1)

  module _ (client : PluginServer B S)
      (to_memory : (method : String) (payload : Bytes) (s : S)
        → client (MemoryThrough.sent method payload) s
          ≡ memory_call E TM memory (MemoryThrough.sent method payload) s)
      (to_orchestrator : (method : String) (payload : Bytes) (s : S)
        → client (OrchestratorThrough.sent method payload) s
          ≡ orchestrator_call E TO orchestrator (OrchestratorThrough.sent method payload) s) where
    op_through :
        (op : Op TM TO) (s : S)
        → Survives op s
        → run_op TM TO (memory_proxy E TM client) (orchestrator_proxy E TO client) op s
          ≡ (let here = run_op TM TO memory orchestrator op s in (relay_reply here.0, here.1))
    unfolding run_op memory_proxy orchestrator_proxy
    op_through (recall_op key depth) s (a, b, c, d) =
        rw (MemoryThrough.recall_through E laws TM memory client to_memory key depth s a b c d) refl
    op_through (record_op n) s (a, b) =
        rw (MemoryThrough.record_through E laws TM memory client to_memory n s a b) refl
    op_through (search_op q) s (a, b, c) =
        rw (MemoryThrough.search_through E laws TM memory client to_memory q s a b c) refl
    op_through (links_op from to rel) s (a, b, c, d) =
        rw (MemoryThrough.links_through E laws TM memory client to_memory from to rel s a b c d)
          refl
    op_through (unlink_op from to) s (a, b, c) =
        rw (MemoryThrough.unlink_through E laws TM memory client to_memory from to s a b c) refl
    op_through context_op s a =
        ap (λ r. (context_reply r.0, r.1))
          (OrchestratorThrough.context_through E laws TO orchestrator client to_orchestrator s a)
    op_through (observe_op pr reply) s (a, b, c) =
        rw
          (OrchestratorThrough.observe_through E laws TO orchestrator client to_orchestrator pr
            reply s a b c)
          refl
    op_through consolidate_op s a =
        rw
          (OrchestratorThrough.consolidate_through E laws TO orchestrator client to_orchestrator s
            a)
          refl

    run_through :
        (ops : List (Op TM TO)) (s : S)
        → SessionSurvives ops s
        → run_session TM TO (memory_proxy E TM client) (orchestrator_proxy E TO client) ops s
          ≡ relay_replies (run_session TM TO memory orchestrator ops s)
    unfolding run_session
    run_through [] s h = refl
    run_through (op ∷ ops) s (h, hs) = rw (op_through op s h) (rw (run_through ops _ hs) refl)

  -- A host calls a MemoryProxy and an OrchestratorProxy over one client of the router on which the
  -- skeletons of a real memory and then of a real orchestrator were registered, with any calls in any
  -- order. It gets the replies, and has the effects, of the same calls on the real objects, with each
  -- error as relayed and the text of Context as it is, if array elements survive the wire, and at
  -- each call the arguments, the answer and the error do, and the error has a text.
  pub run_session-served :
      (empty r_memory r : PluginRouter B S)
      → register_memory_skeleton E TM memory empty ≡ ok r_memory
      → register_orchestrator_skeleton E TO orchestrator r_memory ≡ ok r
      → (ops : List (Op TM TO)) (s : S) → SessionSurvives ops s
      → run_session TM TO
          (memory_proxy E TM (router_call E r))
          (orchestrator_proxy E TO (router_call E r))
          ops
          s
        ≡ relay_replies (run_session TM TO memory orchestrator ops s)
  unfolding register_memory_skeleton register_orchestrator_skeleton
  run_session-served empty r_memory r first second ops s h =
      run_through (router_call E r)
        (λ method payload s'.
          ap (λ (f : Exec B S ResultEnvelope). f s')
            (router_call-add_other E r_memory r Orchestrator.port_orchestrator
                (MemoryThrough.sent method payload) (orchestrator_call E TO orchestrator) (λ e. cc)
                second
              ∙ router_call-add E empty r_memory (MemoryThrough.sent method payload)
                  (memory_call E TM memory) first))
        (λ method payload s'.
          ap (λ (f : Exec B S ResultEnvelope). f s')
            (router_call-add E r_memory r (OrchestratorThrough.sent method payload)
              (orchestrator_call E TO orchestrator) second))
        ops s h
