-- ===== src/Plugin/Proxy/Loop.antt =====
-- A proxy's call through a skeleton is the call on the real object, with its errors relayed.
use herrscher_transport.Prelude.{◌≡◌, refl, ◌≢◌, String, List, [], ◌∷◌, arith, eq_iff}
use herrscher_transport.Errors
use herrscher_transport.Errors.{Error, Result, ok, err}
use herrscher_transport.Errors.Format.{text}
use herrscher_transport.Codec.{Bytes, Codec, Slot, slot, Args, decode_args}
use herrscher_transport.Codec.RoundTrip.{Carries, CarriesAll, KeepsElements, encode_args_carried}
use herrscher_transport.Exec.{Exec, lift, follow, ◌>>=◌}
use herrscher_transport.WireError.{ErrorWire}
use herrscher_transport.WireError.Relay.{relay, CarriesError, decode-encode_wire_error}
use herrscher_transport.Plugin.{ResultEnvelope, PluginServer, fail, envelope, answer}
use herrscher_transport.Plugin.Proxy.{
  accept, call, result_of, result_payload, no_payload, no_result,
}

module _ {B : Type 0} (E : ErrorWire B) where
  open E use {wire, format}

  -- The outcome that a client should see.
  abbrev pub relayed {ℓ} : {A : Type ℓ} → Result B A → Result B A
  relayed (ok v) = ok v
  relayed (err e) = err (relay E e)

  abbrev pub delivered : {S A : Type 0} → Result B A × S → Result B A × S
  delivered r = (relayed r.0, r.1)

  -- The error can be told from success on the wire, and its budget error survives it.
  abbrev pub IsSendable : Error B → Type 0
  IsSendable e = (text format e ≢ "") × CarriesError E e

  abbrev pub SendsErrors : {A : Type 0} → Result B A → Type 0
  SendsErrors r = (e : Error B) → r ≡ err e → IsSendable e

  accept-fail : (e : Error B) → IsSendable e → accept E (fail E e) ≡ err (relay E e)
  unfolding accept fail
  accept-fail e (t, c) = ground (arith, eq_iff (text format e) "", decode-encode_wire_error E e c)

  abbrev in_envelope : Result B Bytes → Result B ResultEnvelope
  in_envelope (ok payload) = ok (record { json_payload = payload; error = "" })
  in_envelope (err e) = err e

  accept-envelope :
      (r : Result B Bytes) → SendsErrors r → accept E (envelope E r) ≡ relayed (in_envelope r)
  unfolding accept
  accept-envelope (ok payload) h = refl
  accept-envelope (err e) h = accept-fail e (h e refl)

module _ {B A : Type 0} (E : ErrorWire B) (laws : KeepsElements E.wire) (c : Codec B A) where
  open E use {wire}

  -- A result that survives its codec comes back from the payload that it was sent in.
  result_lem :
      (v : A)
      → Carries wire c v
      → (payload : Bytes) × (result_payload E c v ≡ ok payload)
        × (result_of E c (record { json_payload = payload; error = "" }) ≡ ok v)
  unfolding result_payload result_of
  result_lem v h =
      let (payload, encoded, decoded) =
        encode_args_carried wire laws (slot c ∷ []) (v, tt) (h, tt) in
      (payload, encoded, rw decoded)

  abbrev pub CarriesResult : Result B A → Type 0
  CarriesResult r = (v : A) → r ≡ ok v → Carries wire c v

  pub returned :
      (r : Result B A)
      → CarriesResult r
      → SendsErrors E r
      → SendsErrors E (Errors.◌>>=◌ r (result_payload E c))
        × (Errors.◌>>=◌
              (relayed E (in_envelope E (Errors.◌>>=◌ r (result_payload E c))))
              (result_of E c)
            ≡ relayed E r)
  returned (err e) h k = ((λ e' p. k e' (cc)), refl)
  returned (ok v) h k =
      let (payload, encoded, decoded) = result_lem v (h v refl) in
      rw encoded ((λ e bad. cc), decoded)

module _ {B : Type 0} (E : ErrorWire B) where
  -- A method without result sends an empty payload.
  pub returned_nothing :
      (r : Result B (Unit {0}))
      → SendsErrors E r
      → SendsErrors E (Errors.◌>>=◌ r no_payload)
        × (Errors.◌>>=◌ (relayed E (in_envelope E (Errors.◌>>=◌ r no_payload))) no_result
            ≡ relayed E r)
  returned_nothing (err e) k = ((λ e' p. k e' (cc)), refl)
  returned_nothing (ok u) k = ((λ e bad. cc), refl)

follow-lift :
    {B S A C : Type 0} (r : Result B A) (f : A → Result B C) (s : S)
    → follow r (λ v. lift (f v)) s ≡ (Errors.◌>>=◌ r f, s)
follow-lift (ok v) f s = refl
follow-lift (err e) f s = refl

module _ {B S : Type 0} (E : ErrorWire B) (laws : KeepsElements E.wire) (server : PluginServer B S)
    (port method : String) (cs : List (Slot B)) (vals : Args cs)
    (carried : CarriesAll E.wire cs vals) where
  open E use {wire}

  -- On a payload that decodes to the arguments, the server answers by `body`.
  abbrev pub IsServed : Exec B S Bytes → Type 0
  IsServed body =
      (payload : Bytes)
      → decode_args wire cs payload ≡ ok vals
      → (s : S)
      → server (record { port = port; method = method; json_payload = payload }) s ≡ answer E body s

  -- The proxy's call accepts or refuses the envelope of `body`.
  call_lem :
      (body : Exec B S Bytes)
      → IsServed body
      → (s : S)
      → call E server port method cs vals s ≡ (accept E (envelope E (body s).0), (body s).1)
  unfolding call
  call_lem body served s =
      let (payload, encoded, decoded) = encode_args_carried wire laws cs vals carried in
      rw encoded (rw (served payload decoded s))

  -- A method through its proxy and skeleton, where `from_payload` undoes `to_payload`.
  pub method_lem :
      {A : Type 0} (act : Exec B S A) (to_payload : A → Result B Bytes)
      (from_payload : ResultEnvelope → Result B A) (s : S)
      → IsServed (act >>= λ v. lift (to_payload v))
      → SendsErrors E (Errors.◌>>=◌ (act s).0 to_payload)
        × (Errors.◌>>=◌ (relayed E (in_envelope E (Errors.◌>>=◌ (act s).0 to_payload))) from_payload
            ≡ relayed E (act s).0)
      → (call E server port method cs vals >>= λ res. lift (from_payload res)) s
        ≡ delivered E (act s)
  method_lem act to_payload from_payload s served (sends, returns) =
      let body = follow-lift (act s).0 to_payload (act s).1 in
      rw (call_lem (act >>= λ v. lift (to_payload v)) served s) (
        rw body (
          rw (accept-envelope E (Errors.◌>>=◌ (act s).0 to_payload) sends) (
            rw
              (follow-lift (relayed E (in_envelope E (Errors.◌>>=◌ (act s).0 to_payload)))
                from_payload (act s).1)
              (rw returns))))

  -- The failure of a method whose text is empty is taken for a reply.
  pub method_silent :
      (act : Exec B S (Unit {0})) (s : S) (e : Error B)
      → IsServed (act >>= λ v. lift (no_payload v))
      → (act s).0 ≡ err e
      → text E.format e ≡ ""
      → (call E server port method cs vals >>= λ res. lift (no_result res)) s ≡ (ok tt, (act s).1)
  unfolding accept fail
  method_silent act s e served failed silent =
      rw (call_lem (act >>= λ v. lift (no_payload v)) served s) (rw failed (rw silent))
