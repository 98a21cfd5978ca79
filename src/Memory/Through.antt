-- ===== src/Memory/Through.antt =====
-- memory_proxy.go over a client that reaches the skeleton of memory_skeleton.go, directly or by a router:
-- each method is the real one, with its errors relayed.
use herrscher_transport.Prelude.{◌≡◌, ℤ, String}
use herrscher_transport.Codec.{Bytes}
use herrscher_transport.Codec.RoundTrip.{Carries, KeepsElements}
use herrscher_transport.WireError.{ErrorWire}
use herrscher_transport.Plugin.{MethodEnvelope, PluginServer}
use herrscher_transport.Plugin.Proxy.{result_of, result_payload, no_payload, no_result}
use herrscher_transport.Plugin.Proxy.Loop.{
  SendsErrors, CarriesResult, delivered, method_lem, returned, returned_nothing,
}
use herrscher_transport.Memory
use herrscher_transport.Memory.{MemoryTypes, Memory, memory_call, register_memory_skeleton}
use herrscher_transport.Memory.Proxy

abbrev pub sent : String → Bytes → MethodEnvelope
sent method payload = record { port = Memory.port_memory; method = method; json_payload = payload }

module _ {B S : Type 0} (E : ErrorWire B) (laws : KeepsElements E.wire) (T : MemoryTypes B)
    (real : Memory T S) (client : PluginServer B S)
    (reaches : (method : String) (payload : Bytes) (s : S)
      → client (sent method payload) s ≡ memory_call E T real (sent method payload) s) where
  open E use {wire}
  open T use {
    Subgraph, Node, Query, text_codec, int_codec, subgraph_codec, node_codec, query_codec,
    nodes_codec,
  }

  pub recall_through :
      (key : String) (depth : ℤ) (s : S)
      → Carries wire text_codec key
      → Carries wire int_codec depth
      → CarriesResult E laws subgraph_codec (real.recall key depth s).0
      → SendsErrors E (real.recall key depth s).0
      → Proxy.recall E T client key depth s ≡ delivered E (real.recall key depth s)
  unfolding Proxy.recall memory_call
  recall_through key depth s ck cd cr se =
      method_lem E laws client Memory.port_memory Memory.method_recall (Memory.recall_args T)
        (key, (depth, tt)) (ck, (cd, tt)) (real.recall key depth) (result_payload E subgraph_codec)
        (result_of E subgraph_codec) s
        (λ payload d s'. rw (reaches Memory.method_recall payload s', d))
        (returned E laws subgraph_codec _ cr se)

  pub record_through :
      (n : Node) (s : S)
      → Carries wire node_codec n
      → SendsErrors E (real.record_node n s).0
      → Proxy.record_node E T client n s ≡ delivered E (real.record_node n s)
  unfolding Proxy.record_node memory_call
  record_through n s cn se =
      method_lem E laws client Memory.port_memory Memory.method_record (Memory.record_args T)
        (n, tt) (cn, tt) (real.record_node n) no_payload no_result s
        (λ payload d s'. rw (reaches Memory.method_record payload s', d)) (returned_nothing E _ se)

  pub search_through :
      (q : Query) (s : S)
      → Carries wire query_codec q
      → CarriesResult E laws nodes_codec (real.search_nodes q s).0
      → SendsErrors E (real.search_nodes q s).0
      → Proxy.search_nodes E T client q s ≡ delivered E (real.search_nodes q s)
  unfolding Proxy.search_nodes memory_call
  search_through q s cq cr se =
      method_lem E laws client Memory.port_memory Memory.method_search (Memory.search_args T)
        (q, tt) (cq, tt) (real.search_nodes q) (result_payload E nodes_codec)
        (result_of E nodes_codec) s
        (λ payload d s'. rw (reaches Memory.method_search payload s', d))
        (returned E laws nodes_codec _ cr se)

  pub links_through :
      (from to rel : String) (s : S)
      → Carries wire text_codec from
      → Carries wire text_codec to
      → Carries wire text_codec rel
      → SendsErrors E (real.links from to rel s).0
      → Proxy.links E T client from to rel s ≡ delivered E (real.links from to rel s)
  unfolding Proxy.links memory_call
  links_through from to rel s cf ct cr se =
      method_lem E laws client Memory.port_memory Memory.method_links (Memory.links_args T)
        (from, (to, (rel, tt))) (cf, (ct, (cr, tt))) (real.links from to rel) no_payload no_result s
        (λ payload d s'. rw (reaches Memory.method_links payload s', d)) (returned_nothing E _ se)

  pub unlink_through :
      (from to : String) (s : S)
      → Carries wire text_codec from
      → Carries wire text_codec to
      → SendsErrors E (real.unlink from to s).0
      → Proxy.unlink E T client from to s ≡ delivered E (real.unlink from to s)
  unfolding Proxy.unlink memory_call
  unlink_through from to s cf ct se =
      method_lem E laws client Memory.port_memory Memory.method_unlink (Memory.unlink_args T)
        (from, (to, tt)) (cf, (ct, tt)) (real.unlink from to) no_payload no_result s
        (λ payload d s'. rw (reaches Memory.method_unlink payload s', d)) (returned_nothing E _ se)
