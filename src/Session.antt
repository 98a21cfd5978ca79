-- ===== src/Session.antt =====
-- A host that calls the Memory and the Orchestrator of one plugin process, over the proxies of
-- memory_proxy.go and orchestrator_proxy.go or on the real objects. S is the state of the process.
pub mod Served
pub mod Registered
pub mod Responded
use herrscher_transport.Prelude.{ℤ, String, List, [], ◌∷◌}
use herrscher_transport.Errors.{Result}
use herrscher_transport.Memory.{MemoryTypes, Memory}
use herrscher_transport.Orchestrator.{OrchestratorTypes, Orchestrator}

module _ {B : Type 0} (TM : MemoryTypes B) (TO : OrchestratorTypes B) where
  -- A call of the host.
  pub data Op : Type 0 where
    recall_op : (key : String) → (depth : ℤ) → Op
    record_op : (n : TM.Node) → Op
    search_op : (q : TM.Query) → Op
    links_op : (from to rel : String) → Op
    unlink_op : (from to : String) → Op
    context_op : Op
    observe_op : (pr : TO.Prompt) → (reply : String) → Op
    consolidate_op : Op

  -- What the host gets back.
  pub data Reply : Type 0 where
    subgraph_reply : Result B TM.Subgraph → Reply
    nodes_reply : Result B (List TM.Node) → Reply
    done_reply : Result B (Unit {0}) → Reply
    context_reply : String → Reply

  abbrev as_reply : {S A : Type 0} → (A → Reply) → A × S → Reply × S
  as_reply reply r = (reply r.0, r.1)

  module _ {S : Type 0} (memory : Memory TM S) (orchestrator : Orchestrator TO S) where
    unfoldable pub run_op : Op → S → Reply × S
    run_op (recall_op key depth) s = as_reply subgraph_reply (memory.recall key depth s)
    run_op (record_op n) s = as_reply done_reply (memory.record_node n s)
    run_op (search_op q) s = as_reply nodes_reply (memory.search_nodes q s)
    run_op (links_op from to rel) s = as_reply done_reply (memory.links from to rel s)
    run_op (unlink_op from to) s = as_reply done_reply (memory.unlink from to s)
    run_op context_op s = as_reply context_reply (orchestrator.context s)
    run_op (observe_op pr reply) s = as_reply done_reply (orchestrator.observe pr reply s)
    run_op consolidate_op s = as_reply done_reply (orchestrator.consolidate s)

    -- One call after another, each in the state that the last one left.
    unfoldable pub run_session : List Op → S → List Reply × S
    unfolding run_op
    run_session [] s = ([], s)
    run_session (op ∷ ops) s =
        let here = run_op op s in let rest = run_session ops here.1 in (here.0 ∷ rest.0, rest.1)
