-- ===== src/Orchestrator/Proxy/Degraded.antt =====
-- orchestrator_proxy.go, Context: every failure of the call degrades to "".
use herrscher_transport.Prelude.{
  ◌≡◌, ◌≢◌, refl, sym, ◌∙◌, ap, subst, ◌↔◌, ◌⊎◌, inl, inr, String, [], ◌∷◌, ◌==◌, eq_iff,
  Bool-cases,
}
use herrscher_transport.Errors.{Error, Result, ok, err, Result-cases, ok-injective}
use herrscher_transport.Codec.{Bytes, slot, encode_args, decode_args}
use herrscher_transport.Exec.{Exec, lift, follow, ◌>>=◌}
use herrscher_transport.WireError.{ErrorWire}
use herrscher_transport.Plugin.{ResultEnvelope, PluginServer}
use herrscher_transport.Plugin.Proxy.{call, accept, result_of}
use herrscher_transport.Orchestrator.{OrchestratorTypes, port_orchestrator, method_context}
use herrscher_transport.Orchestrator.Proxy
use herrscher_transport.Orchestrator.Proxy.{or_empty, ask_context}
use herrscher_transport.Orchestrator.Through.{sent}

follow-eq-ok :
    {B S A C : Type 0} (r : Result B A) (f : A → Exec B S C) (s : S) (c : C)
    → (follow r f s).0 ≡ ok c
    → (a : A) × (r ≡ ok a) × ((f a s).0 ≡ ok c)
follow-eq-ok (ok a) f s c h = (a, refl, h)
follow-eq-ok (err e) f s c h = cc

module _ {B S : Type 0} (E : ErrorWire B) (T : OrchestratorTypes B)
    (client : PluginServer B S) where
  open E use {wire}
  open T use {text_codec}

  -- The peer answers Context with a text: the request is encoded, the call succeeds, its answer carries
  -- no error, and what it carries is decoded.
  abbrev pub IsAnswer : S → String → Type 0
  IsAnswer s out =
      (payload : Bytes) × (res : ResultEnvelope) × (encode_args wire [] tt ≡ ok payload)
      × ((client (sent method_context payload) s).0 ≡ ok res)
      × (res.error ≡ "")
      × (decode_args wire (slot text_codec ∷ []) res.json_payload ≡ ok (out, tt))

  accepted : (res out : ResultEnvelope) → accept E res ≡ ok out → (res ≡ out) × (res.error ≡ "")
  unfolding accept
  accepted res out h = elim (Bool-cases (res.error == "")) [
    | inl none_told ↦ (ok-injective (rw none_told at h), (eq_iff res.error "").0 none_told)
    | inr told ↦ cc (rw told at h)
  ]

  read_text :
      (res : ResultEnvelope) (out : String)
      → result_of E text_codec res ≡ ok out
      → decode_args wire (slot text_codec ∷ []) res.json_payload ≡ ok (out, tt)
  unfolding result_of
  read_text res out h =
      elim (Result-cases (decode_args wire (slot text_codec ∷ []) res.json_payload)) [
        | inl ((text, rest), is) ↦ is ∙ ap (λ t. ok (t, tt)) (ok-injective (rw is at h))
        | inr (e, is) ↦ cc (rw is at h)
      ]

  call-IsAnswer : (s : S) (out : String) → (ask_context E T client s).0 ≡ ok out → IsAnswer s out
  unfolding ask_context call
  call-IsAnswer s out h =
      let asked = call E client port_orchestrator method_context [] tt s in
      let (answer, called, told) =
        follow-eq-ok asked.0 (λ res. lift (result_of E text_codec res)) asked.1 out h in
      let (payload, encoded, went) =
        follow-eq-ok (encode_args wire [] tt)
          (λ p. client (sent method_context p) >>= (λ res. lift (accept E res))) s answer called in
      let (res, answered, taken) =
        follow-eq-ok (client (sent method_context payload) s).0 (λ res. lift (accept E res))
          (client (sent method_context payload) s).1 answer went in
      let (same, no_error) = accepted res answer taken in
      (
        payload,
        res,
        encoded,
        answered,
        no_error,
        read_text res out (subst (λ r. result_of E text_codec r ≡ ok out) (sym same) told),
      )

  IsAnswer-call : (s : S) (out : String) → IsAnswer s out → (ask_context E T client s).0 ≡ ok out
  unfolding ask_context call accept result_of
  IsAnswer-call s out (payload, res, encoded, answered, no_error, is) =
      rw (encoded, answered, (eq_iff res.error "").1 no_error, is) refl

  err-ne-ok : {A : Type 0} (r : Result B A) (e : Error B) (a : A) → r ≡ err e → r ≢ ok a
  err-ne-ok r e a failed is = let bad : err e ≡ ok a = sym failed ∙ is in cc

  -- Context returns a text exactly when the peer answers with it, or when it is "" and the peer answers
  -- with none: the arguments are not encoded, the call fails, the answer carries an error, or what it
  -- carries is not decoded.
  pub context_degrades :
      (s : S) (out : String)
      → ((Proxy.context E T client s).0 ≡ out)
        ↔ (IsAnswer s out ⊎ ((out ≡ "") × ((text : String) → ¬ IsAnswer s text)))
  unfolding Proxy.context
  context_degrades s out = elim (Result-cases (ask_context E T client s).0) [
    | inl (text, is) ↦ rw is (
      (λ h. inl (call-IsAnswer s out (is ∙ ap (λ t. ok t) h))),
      (λ h. elim h [
        | inl answer ↦ ok-injective (sym is ∙ IsAnswer-call s out answer)
        | inr (empty, never) ↦ absurd (never text (call-IsAnswer s text is))
      ]),
    )
    | inr (e, is) ↦ rw is (
      (λ h. inr (sym h, λ text answer. err-ne-ok _ e text is (IsAnswer-call s text answer))),
      (λ h. elim h [
        | inl answer ↦ absurd (err-ne-ok _ e out is (IsAnswer-call s out answer))
        | inr (empty, never) ↦ sym empty
      ]),
    )
  ]
