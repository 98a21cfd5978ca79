-- ===== src/Tests/Memory.antt =====
-- A memory that stores numbers, called through its proxy.
use herrscher_transport.Prelude.{
  ℕ, zero, suc, ◌≡◌, refl, ◌≢◌, some, List, [], ◌∷◌, length, arith, eq_iff, get, put,
}
use herrscher_transport.Errors.{Error, Result, ok, err, external, budget, wrap, as_budget}
use herrscher_transport.Errors.Format.{text}
use herrscher_transport.Exec.{Exec}
use herrscher_transport.WireError.Relay.{relay, CarriesBudget, decode-encode_wire_error}
use herrscher_transport.WireError.{encode_wire_error, decode_wire_error}
use herrscher_transport.Plugin.{PluginRouter, empty_router, router_call, add}
use herrscher_transport.Plugin.Proxy.Loop.{IsSendable}
use herrscher_transport.Memory.{MemoryTypes, Memory, memory_call, register_memory_skeleton}
use herrscher_transport.Memory.Proxy
use herrscher_transport.Memory.EndToEnd.{record_silent}
use herrscher_transport.Tests.Wire.{
  plain, plain_wire_keeps, number_codec, bytes_codec, int_codec, text_codec,
}

abbrev pub types : MemoryTypes ℕ
types = record {
  Subgraph = ℕ;
  Node = ℕ;
  Query = ℕ;
  text_codec = text_codec;
  int_codec = int_codec;
  subgraph_codec = number_codec;
  node_codec = number_codec;
  query_codec = number_codec;
  nodes_codec = bytes_codec;
}

-- Recording 0 fails without a text, recording 1 is over the budget.
abbrev store : ℕ → Exec ℕ (List ℕ) (Unit {0})
store zero s = (err (external ""), s)
store (suc zero) s = (err (wrap "store" (budget 5)), s)
store (suc (suc n)) s = (ok tt, n ∷ s)

abbrev pub real : Memory types (List ℕ)
real = record {
  recall = λ key depth s. (ok (length s), s);
  record_node = store;
  search_nodes = λ q s. (ok (q ∷ s), s);
  links = λ from to rel s. (ok tt, 9 ∷ s);
  unlink = λ from to s. (ok tt, []);
}

abbrev pub router : PluginRouter ℕ (List ℕ)
router = record { ports = ("memory", memory_call plain types real) ∷ [] }

pub registered : register_memory_skeleton plain types real empty_router ≡ ok router
unfolding register_memory_skeleton add get put
registered = refl

abbrev pub over_budget : Error ℕ
over_budget = wrap "store" (budget 5)

carries_over_budget : (b : ℕ) → as_budget over_budget ≡ some b → CarriesBudget plain b
carries_over_budget b p = record {
  content = b ∷ [];
  payload = 7 ∷ b ∷ [];
  budget_marshal = refl;
  budget_unmarshal = refl;
  marshal = refl;
  unmarshal = refl;
  not_empty = λ e. cc;
}

over_budget-text : text plain.format over_budget ≢ ""
unfolding text
over_budget-text e = ground (arith, eq_iff "store: over budget" "")

pub sendable : IsSendable plain over_budget
sendable = (over_budget-text, carries_over_budget)

pub err_injective : (e f : Error ℕ) → ◌≡◌ {A = Result ℕ (Unit {0})} (err e) (err f) → e ≡ f
err_injective e f p = cc

record_silent_example :
    Proxy.record_node plain types (router_call plain router) 0 (4 ∷ []) ≡ (ok tt, 4 ∷ [])
unfolding text
record_silent_example =
    record_silent plain plain_wire_keeps types real empty_router router registered 0 (4 ∷ [])
      (external "") (0 ∷ [], refl, refl, refl) refl refl

decode-encode_wire_error_example :
    decode_wire_error plain (encode_wire_error plain over_budget) (text plain.format over_budget)
    ≡ relay plain over_budget
decode-encode_wire_error_example = decode-encode_wire_error plain over_budget carries_over_budget

-- The budget error arrives as itself, out of its context.
relayed_budget : relay plain over_budget ≡ budget 5
unfolding relay as_budget
relayed_budget = refl
