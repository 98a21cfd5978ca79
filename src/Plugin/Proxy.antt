-- ===== src/Plugin/Proxy.antt =====
-- What memory_proxy.go and orchestrator_proxy.go share: the method `call`, a request that a skeleton
-- answers in an envelope. `client` is the generated gRPC client, as a function on the state of the
-- objects that it reaches.
pub mod Loop
use herrscher_transport.Prelude.{String, List, ◌==◌, if◌then◌else◌, [], ◌∷◌}
use herrscher_transport.Errors
use herrscher_transport.Errors.{Result, ok, err}
use herrscher_transport.Codec.{Bytes, Codec, Slot, slot, Args, encode_args, decode_args}
use herrscher_transport.Exec.{Exec, lift, pure, ◌>>=◌}
use herrscher_transport.WireError.{ErrorWire, decode_wire_error}
use herrscher_transport.Plugin.{MethodEnvelope, ResultEnvelope, PluginServer}

module _ {B : Type 0} (E : ErrorWire B) where
  open E use {wire}

  -- An error text in the envelope is an error of the call.
  unfoldable pub accept : ResultEnvelope → Result B ResultEnvelope
  accept res =
      if res.error == "" then ok res else err (decode_wire_error E res.json_payload res.error)

  -- `var out T; if err := decodeArgs(res.JsonPayload, &out)`
  unfoldable pub result_of : {A : Type 0} → Codec B A → ResultEnvelope → Result B A
  result_of c res = Errors.◌>>=◌ (decode_args wire (slot c ∷ []) res.json_payload) (λ out. ok out.0)

  -- `return encodeArgs(result)`
  unfoldable pub result_payload : {A : Type 0} → Codec B A → A → Result B Bytes
  result_payload c v = encode_args wire (slot c ∷ []) (v, tt)

module _ {B : Type 0} where
  -- `return &pb.ResultEnvelope{}, nil`, and the reply without result on the other side
  abbrev pub no_payload : Unit {0} → Result B Bytes
  no_payload u = ok []

  abbrev pub no_result : ResultEnvelope → Result B (Unit {0})
  no_result res = ok tt

module _ {B S : Type 0} (E : ErrorWire B) (client : PluginServer B S) where
  open E use {wire}

  unfoldable pub call : String → String → (cs : List (Slot B)) → Args cs → Exec B S ResultEnvelope
  unfolding accept
  call port method cs vals = do
    payload ← lift (encode_args wire cs vals)
    res ← client (record { port = port; method = method; json_payload = payload })
    lift (accept E res)
