-- ===== src/Memory/Proxy.antt =====
-- memory_proxy.go: the methods of a Memory whose real object is behind a Plugin client.
use herrscher_transport.Prelude.{ℤ, String, List, Option, none, some}
use herrscher_transport.Errors.{Result, ok}
use herrscher_transport.Codec.{Slot, Args}
use herrscher_transport.Exec.{Exec, lift, ◌>>=◌}
use herrscher_transport.WireError.{ErrorWire}
use herrscher_transport.Plugin.{PluginServer, ResultEnvelope}
use herrscher_transport.Plugin.Proxy.{call, result_of, no_result}
use herrscher_transport.Memory
use herrscher_transport.Memory.{
  MemoryTypes, Memory, port_memory, method_recall, method_record, method_search, method_links,
  method_unlink,
}

-- MemoryProxy, by its two fields: the client that it calls, and the connection that it owns, if it
-- dialed one.
pub record MemoryProxy (Client Conn : Type 0) : Type 0 where
  pub client : Client
  pub dialed : Option Conn

-- NewMemoryProxy
abbrev pub new_memory_proxy : {Client Conn : Type 0} → Client → MemoryProxy Client Conn
new_memory_proxy c = record { client = c; dialed = none }

-- MemoryProxy.Close, of Close of the connection
unfoldable pub close_memory_proxy :
    {B Client Conn : Type 0}
    → (Conn → Result B (Unit {0}))
    → MemoryProxy Client Conn
    → Result B (Unit {0})
close_memory_proxy close_conn p = elim p.dialed [ some conn ↦ close_conn conn | none ↦ ok tt ]

module _ {B S : Type 0} (E : ErrorWire B) (T : MemoryTypes B) (client : PluginServer B S) where
  open T use {Subgraph, Node, Query, subgraph_codec, nodes_codec}

  -- MemoryProxy.call
  abbrev pub call_memory : String → (cs : List (Slot B)) → Args cs → Exec B S ResultEnvelope
  call_memory method cs vals = call E client port_memory method cs vals

  unfoldable pub recall : String → ℤ → Exec B S Subgraph
  recall key depth = do
    res ← call_memory method_recall (Memory.recall_args T) (key, (depth, tt))
    lift (result_of E subgraph_codec res)

  unfoldable pub record_node : Node → Exec B S (Unit {0})
  record_node n = do
    res ← call_memory method_record (Memory.record_args T) (n, tt)
    lift (no_result res)

  unfoldable pub search_nodes : Query → Exec B S (List Node)
  search_nodes q = do
    res ← call_memory method_search (Memory.search_args T) (q, tt)
    lift (result_of E nodes_codec res)

  unfoldable pub links : String → String → String → Exec B S (Unit {0})
  links from to rel = do
    res ← call_memory method_links (Memory.links_args T) (from, (to, (rel, tt)))
    lift (no_result res)

  unfoldable pub unlink : String → String → Exec B S (Unit {0})
  unlink from to = do
    res ← call_memory method_unlink (Memory.unlink_args T) (from, (to, tt))
    lift (no_result res)

  -- MemoryProxy, as a contracts.Memory
  unfoldable pub memory_proxy : Memory T S
  unfolding recall record_node search_nodes links unlink
  memory_proxy = record {
    recall = recall;
    record_node = record_node;
    search_nodes = search_nodes;
    links = links;
    unlink = unlink;
  }
