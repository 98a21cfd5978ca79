-- ===== src/Memory.antt =====
-- memory_skeleton.go: a real Memory behind the Plugin service. The types of contracts.Memory are
-- parameters, each with its codec; the real object is its methods, on the state of what it reaches.
-- The `ctx` arguments are left out: this code only hands them on.
pub mod Proxy
pub mod Through
pub mod EndToEnd
use herrscher_transport.Prelude.{ℤ, String, List, [], ◌∷◌, ◌==◌, if◌then◌else◌}
use herrscher_transport.Errors.{Result, ok, unknown_port, unknown_method}
use herrscher_transport.Codec.{Codec, Slot, slot, decode_args}
use herrscher_transport.Exec.{Exec, lift, pure, ◌>>=◌}
use herrscher_transport.WireError.{ErrorWire}
use herrscher_transport.Plugin.{
  MethodEnvelope, ResultEnvelope, PluginServer, PluginRouter, fail, answer, add,
}
use herrscher_transport.Plugin.Proxy.{result_payload, no_payload}

abbrev pub port_memory : String
port_memory = "memory"

abbrev pub method_recall : String
method_recall = "Recall"

abbrev pub method_record : String
method_record = "Record"

abbrev pub method_search : String
method_search = "Search"

abbrev pub method_links : String
method_links = "Links"

abbrev pub method_unlink : String
method_unlink = "Unlink"

pub record MemoryTypes (B : Type 0) : Type 1 where
  pub Subgraph : Type 0
  pub Node : Type 0
  pub Query : Type 0
  pub text_codec : Codec B String
  pub int_codec : Codec B ℤ
  pub subgraph_codec : Codec B Subgraph
  pub node_codec : Codec B Node
  pub query_codec : Codec B Query
  pub nodes_codec : Codec B (List Node)

-- contracts.Memory
pub record Memory {B : Type 0} (T : MemoryTypes B) (S : Type 0) : Type 0 where
  pub recall : String → ℤ → Exec B S T.Subgraph
  pub record_node : T.Node → Exec B S (Unit {0})
  pub search_nodes : T.Query → Exec B S (List T.Node)
  pub links : String → String → String → Exec B S (Unit {0})
  pub unlink : String → String → Exec B S (Unit {0})

module _ {B : Type 0} (T : MemoryTypes B) where
  open T use {text_codec, int_codec, node_codec, query_codec}

  -- The argument lists of the methods.
  abbrev pub recall_args : List (Slot B)
  recall_args = slot text_codec ∷ slot int_codec ∷ []

  abbrev pub record_args : List (Slot B)
  record_args = slot node_codec ∷ []

  abbrev pub search_args : List (Slot B)
  search_args = slot query_codec ∷ []

  abbrev pub links_args : List (Slot B)
  links_args = slot text_codec ∷ slot text_codec ∷ slot text_codec ∷ []

  abbrev pub unlink_args : List (Slot B)
  unlink_args = slot text_codec ∷ slot text_codec ∷ []

module _ {B S : Type 0} (E : ErrorWire B) (T : MemoryTypes B) (real : Memory T S) where
  open E use {wire}
  open T use {subgraph_codec, nodes_codec}

  unfoldable pub recall : PluginServer B S
  recall env = answer E do
    args ← lift (decode_args wire (recall_args T) env.json_payload)
    sub ← real.recall args.0 args.1.0
    lift (result_payload E subgraph_codec sub)

  unfoldable pub record_node : PluginServer B S
  record_node env = answer E do
    args ← lift (decode_args wire (record_args T) env.json_payload)
    u ← real.record_node args.0
    lift (no_payload u)

  unfoldable pub search_nodes : PluginServer B S
  search_nodes env = answer E do
    args ← lift (decode_args wire (search_args T) env.json_payload)
    nodes ← real.search_nodes args.0
    lift (result_payload E nodes_codec nodes)

  unfoldable pub links : PluginServer B S
  links env = answer E do
    args ← lift (decode_args wire (links_args T) env.json_payload)
    u ← real.links args.0 args.1.0 args.1.1.0
    lift (no_payload u)

  unfoldable pub unlink : PluginServer B S
  unlink env = answer E do
    args ← lift (decode_args wire (unlink_args T) env.json_payload)
    u ← real.unlink args.0 args.1.0
    lift (no_payload u)

  by_method : PluginServer B S
  unfolding recall record_node search_nodes links unlink
  by_method env =
      if env.method == method_recall
      then recall env
      else if env.method == method_record
      then record_node env
      else if env.method == method_search
      then search_nodes env
      else if env.method == method_links
      then links env
      else if env.method == method_unlink
      then unlink env
      else pure (fail E (unknown_method port_memory env.method))

  -- memoryServer.Call
  unfoldable pub memory_call : PluginServer B S
  unfolding by_method
  memory_call env =
      if env.port == port_memory then by_method env else pure (fail E (unknown_port env.port))

  -- RegisterMemorySkeleton
  unfoldable pub register_memory_skeleton : PluginRouter B S → Result B (PluginRouter B S)
  register_memory_skeleton r = add r port_memory memory_call
