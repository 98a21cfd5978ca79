-- ===== src/Backend/Respond.antt =====
-- backend_stream.go: BackendProxy.Respond against backendServer.respond, over a stream that may break.
use herrscher_transport.Prelude.{
  ℕ, ◌≡◌, refl, some, List, [], length, take, ltb, if◌then◌else◌, ◌∙◌, sym, subst,
}
use herrscher_transport.Errors.{Error, Result, ok, ok-injective}
use herrscher_transport.Codec.{Bytes, Wire, encode_args, decode_args}
use herrscher_transport.Codec.RoundTrip.{Carries, KeepsElements, encode_args_carried}
use herrscher_transport.Plugin.{MethodEnvelope, ResultEnvelope}
use herrscher_transport.Backend
use herrscher_transport.Backend.{
  BackendFrame, BackendTypes, Backend, Turn, port_backend, respond_method, prompt_args, serve_turn,
}
use herrscher_transport.Backend.Proxy
use herrscher_transport.Backend.Proxy.{Reply, receive, receive_failure, open_respond_stream}
use herrscher_transport.Backend.Turns.{send_upto, EncodesTurn}
use herrscher_transport.Backend.EndToEnd.{DecodesTurn, replay, turn_failure, turn_end_to_end}

abbrev pub request : Bytes → MethodEnvelope
request payload = record { port = port_backend; method = respond_method; json_payload = payload }

module _ {B S H : Type 0} (W : Wire B) (T : BackendTypes B) (enc : BackendFrame T.Event → Bytes)
    (real : Backend T S) (on_event : T.Event → H → H) where
  open W use {format}
  open T use {Prompt, prompt_codec}

  -- The server, asked for a prompt that it can decode, serves the real turn.
  served :
      (capacity : ℕ) (broken : Error B) (prompt : Prompt) (payload : Bytes) (s : S)
      → decode_args W (prompt_args T) payload ≡ ok (prompt, tt)
      → Backend.respond W T (send_upto capacity broken) real (request payload) [] s
        ≡ (serve_turn W T (send_upto capacity broken) [] (real prompt s).0, (real prompt s).1)
  unfolding Backend.respond
  served capacity broken prompt payload s d = rw d refl

  opened :
      (send_msg : MethodEnvelope → Result B (Unit {0})) (frames : List ResultEnvelope)
      (ending : Error B) (prompt : Prompt) (payload : Bytes) (h : H)
      → encode_args W (prompt_args T) (prompt, tt) ≡ ok payload
      → send_msg (request payload) ≡ ok tt
      → Proxy.respond W T
          (some on_event)
          (ok tt)
          send_msg
          (ok tt)
          (record { frames = frames; ending = ending })
          prompt
          h
        ≡ receive W T (some on_event) frames ending h
  unfolding Proxy.respond open_respond_stream
  opened send_msg frames ending prompt payload h e m = rw (e, m) refl

  -- Respond of the proxy against a server on the same stream, which opens and takes the request and
  -- breaks after `capacity` frames, if array elements, the prompt and the frames of the turn survive
  -- the wire: the state of the real backend is that after one call for the prompt. If all frames go
  -- out, the hook has seen all events of the turn in order, and Respond returns its reply and the
  -- text of its error, if that is not empty. Otherwise the hook has seen, in order, exactly the
  -- events that went out, and Respond returns an error made from the end of the stream.
  pub respond_end_to_end :
      KeepsElements W
      → (capacity : ℕ) (broken ending : Error B) (send_msg : MethodEnvelope → Result B (Unit {0}))
        (prompt : Prompt) (payload : Bytes) (s : S) (h : H)
      → Carries W prompt_codec prompt
      → encode_args W (prompt_args T) (prompt, tt) ≡ ok payload
      → send_msg (request payload) ≡ ok tt
      → EncodesTurn T enc format (real prompt s).0
      → DecodesTurn W T enc on_event (real prompt s).0
      → let served_call =
          Backend.respond W T (send_upto capacity broken) real (request payload) [] s in
        let turn = (real prompt s).0 in
        (served_call.1 ≡ (real prompt s).1)
        × (Proxy.respond W T
              (some on_event)
              (ok tt)
              send_msg
              (ok tt)
              (record { frames = served_call.0.1; ending = ending })
              prompt
              h
            ≡ (if ltb (length turn.events) capacity
                then (
                  (turn.reply, turn_failure W T enc on_event turn.failure),
                  replay W T enc on_event turn.events h,
                )
                else (
                  ("", some (receive_failure ending)),
                  replay W T enc on_event (take capacity turn.events) h,
                )))
  respond_end_to_end laws capacity broken ending send_msg prompt payload s h c e m encodes decodes =
      let (payload', e', d') = encode_args_carried W laws (prompt_args T) (prompt, tt) (c, tt) in
      let same : payload' ≡ payload = ok-injective (sym e' ∙ e) in
      let d = subst (λ p. decode_args W (prompt_args T) p ≡ ok (prompt, tt)) same d' in
      rw (served capacity broken prompt payload s d) (
        refl,
        opened send_msg (serve_turn W T (send_upto capacity broken) [] (real prompt s).0).1 ending
              prompt payload h e m
            ∙ turn_end_to_end W T enc on_event capacity broken ending (real prompt s).0 h encodes
                decodes,
      )
