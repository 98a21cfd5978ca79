-- ===== src/Memory/EndToEnd.antt =====
-- A call on a MemoryProxy whose client reaches the router of a registered memory is the call on the
-- real memory: same result, same effects, errors relayed.
use herrscher_transport.Prelude.{◌≡◌, ℤ, String, ap}
use herrscher_transport.Errors.{Error, ok, err}
use herrscher_transport.Errors.Format.{text}
use herrscher_transport.Codec.{Bytes}
use herrscher_transport.Codec.RoundTrip.{Carries, KeepsElements}
use herrscher_transport.Exec.{Exec}
use herrscher_transport.WireError.{ErrorWire}
use herrscher_transport.Plugin.{ResultEnvelope, PluginRouter, router_call}
use herrscher_transport.Plugin.Routing.{router_call-add}
use herrscher_transport.Plugin.Proxy.Loop.{SendsErrors, CarriesResult, delivered, method_silent}
use herrscher_transport.Memory
use herrscher_transport.Memory.{MemoryTypes, Memory, memory_call, register_memory_skeleton}
use herrscher_transport.Memory.Proxy
use herrscher_transport.Memory.Through.{sent, recall_through}

module _ {B S : Type 0} (E : ErrorWire B) (laws : KeepsElements E.wire) (T : MemoryTypes B)
    (real : Memory T S) (empty r : PluginRouter B S)
    (registered : register_memory_skeleton E T real empty ≡ ok r) where
  open E use {wire}
  open T use {
    Subgraph, Node, Query, text_codec, int_codec, subgraph_codec, node_codec, query_codec,
    nodes_codec,
  }

  reaches :
      (method : String) (payload : Bytes) (s : S)
      → router_call E r (sent method payload) s ≡ memory_call E T real (sent method payload) s
  unfolding register_memory_skeleton
  reaches method payload s =
      ap (λ (f : Exec B S ResultEnvelope). f s)
        (router_call-add E empty r (sent method payload) (memory_call E T real) registered)

  -- Recall, called on a proxy whose client reaches the router that serves the skeleton of the real
  -- memory, returns the subgraph of the real Recall, or its error as relayed, and has its effects,
  -- if array elements, the arguments, the subgraph and the error survive the wire and the error has
  -- a text.
  pub recall_end_to_end :
      (key : String) (depth : ℤ) (s : S)
      → Carries wire text_codec key
      → Carries wire int_codec depth
      → CarriesResult E laws subgraph_codec (real.recall key depth s).0
      → SendsErrors E (real.recall key depth s).0
      → Proxy.recall E T (router_call E r) key depth s ≡ delivered E (real.recall key depth s)
  recall_end_to_end key depth s ck cd cr se =
      recall_through E laws T real (router_call E r) reaches key depth s ck cd cr se

  -- An error of the real Record whose text is empty is lost: the proxy's Record, whose client
  -- reaches the router that serves the real memory's skeleton, reports success, if array elements
  -- and the node survive the wire.
  pub record_silent :
      (n : Node) (s : S) (e : Error B)
      → Carries wire node_codec n
      → (real.record_node n s).0 ≡ err e
      → text E.format e ≡ ""
      → Proxy.record_node E T (router_call E r) n s ≡ (ok tt, (real.record_node n s).1)
  unfolding Proxy.record_node memory_call
  record_silent n s e cn failed silent =
      method_silent E laws (router_call E r) Memory.port_memory Memory.method_record
        (Memory.record_args T) (n, tt) (cn, tt) (real.record_node n) s e
        (λ payload d s'. rw (reaches Memory.method_record payload s', d)) failed silent
