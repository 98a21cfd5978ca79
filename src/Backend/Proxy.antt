-- ===== src/Backend/Proxy.antt =====
-- backend_stream.go, the client: BackendProxy.Respond and the frames that it receives. The stream is
-- what RecvMsg gives: some frames, and the error that ends them.
use herrscher_transport.Prelude.{
  Bool, true, false, not, String, Option, none, some, List, [], ◌∷◌, ◌==◌, if◌then◌else◌,
}
use herrscher_transport.Errors.{
  Error, Result, ok, err, wrap, remote, invalid_frame, unexpected_eof, is_eof, ◌>>=◌, wrapped,
}
use herrscher_transport.Codec.{Bytes, Wire, encode_args}
use herrscher_transport.Plugin.{MethodEnvelope, ResultEnvelope}
use herrscher_transport.Backend.{
  BackendFrame, BackendTypes, port_backend, respond_method, prompt_args,
}

pub record FrameOutcome (B : Type 0) : Type 0 where
  pub reply : String
  pub terminal : Bool
  pub failure : Option (Error B)

-- BackendProxy, by its two fields: the connection that it opens streams on, and the one that it owns, if
-- it dialed it.
pub record BackendProxy (Conn : Type 0) : Type 0 where
  pub cc : Conn
  pub dialed : Option Conn

-- NewBackendProxy
abbrev pub new_backend_proxy : {Conn : Type 0} → Conn → BackendProxy Conn
new_backend_proxy cc = record { cc = cc; dialed = none }

-- BackendProxy.Close, of Close of the connection
unfoldable pub close_backend_proxy :
    {B Conn : Type 0} → (Conn → Result B (Unit {0})) → BackendProxy Conn → Result B (Unit {0})
close_backend_proxy close_conn p = elim p.dialed [ some conn ↦ close_conn conn | none ↦ ok tt ]

-- receiveFailure
unfoldable pub receive_failure : {B : Type 0} → Error B → Error B
unfolding is_eof
receive_failure e =
    if is_eof e
    then wrap "backend: stream ended before reply{done}" unexpected_eof
    else wrap "backend: remote stream" e

pub record Incoming (B : Type 0) : Type 0 where
  pub frames : List ResultEnvelope
  pub ending : Error B

-- What Respond returns.
abbrev pub Reply : Type 0 → Type 0
Reply B = String × Option (Error B)

module _ {B : Type 0} (W : Wire B) (T : BackendTypes B) {S : Type 0}
    (on_event : Option (T.Event → S → S)) where
  open T use {Event, frame_codec}

  -- A nil onEvent is not called.
  abbrev pub hand_over : Event → S → S
  hand_over event s = elim on_event [ none ↦ s | some f ↦ f event s ]

  abbrev going_on : FrameOutcome B
  going_on = record { reply = ""; terminal = false; failure = none }

  abbrev ended : String → Option (Error B) → FrameOutcome B
  ended reply failure = record { reply = reply; terminal = true; failure = failure }

  final_frame : BackendFrame Event → FrameOutcome B
  final_frame f =
      if not f.done
      then ended "" (some invalid_frame)
      else if not (f.failure == "")
      then ended f.reply (some (remote f.failure))
      else ended f.reply none

  decoded_frame : Result B (BackendFrame Event) → S → FrameOutcome B × S
  unfolding final_frame
  decoded_frame (err e) s = (ended "" (some (wrap "backend: decode frame" e)), s)
  decoded_frame (ok f) s = elim f.event [
    | some event ↦ (going_on, hand_over event s)
    | none ↦ (final_frame f, s)
  ]

  -- applyBackendFrame
  unfoldable pub apply_backend_frame : ResultEnvelope → S → FrameOutcome B × S
  unfolding decoded_frame
  apply_backend_frame frame s = decoded_frame (frame_codec.unmarshal frame.json_payload) s

  -- The loop of Respond.
  unfoldable pub receive : List ResultEnvelope → Error B → S → Reply B × S
  unfolding receive_failure apply_backend_frame
  receive [] ending s = (("", some (receive_failure ending)), s)
  receive (frame ∷ frames) ending s =
      let (outcome, s') = apply_backend_frame frame s in
      let rest = receive frames ending s' in
      if outcome.terminal then ((outcome.reply, outcome.failure), s') else rest

  -- openRespondStream: NewStream, SendMsg of the request, CloseSend
  unfoldable pub open_respond_stream :
      Result B (Unit {0})
      → (MethodEnvelope → Result B (Unit {0}))
      → Result B (Unit {0})
      → Bytes
      → Result B (Unit {0})
  open_respond_stream new_stream send_msg close_send payload = do
    a ← wrapped "backend: open stream" new_stream
    b ←
        wrapped "backend: send prompt" (
          send_msg
            (record { port = port_backend; method = respond_method; json_payload = payload }))
    wrapped "backend: close send" close_send

  after_open : Incoming B → S → Result B (Unit {0}) → Reply B × S
  after_open incoming s (err e) = (("", some e), s)
  after_open incoming s (ok u) = receive incoming.frames incoming.ending s

  -- BackendProxy.Respond
  unfoldable pub respond :
      Result B (Unit {0})
      → (MethodEnvelope → Result B (Unit {0}))
      → Result B (Unit {0})
      → Incoming B
      → T.Prompt
      → S
      → Reply B × S
  unfolding after_open open_respond_stream
  respond new_stream send_msg close_send incoming prompt s = after_open incoming s (
      encode_args W (prompt_args T) (prompt, tt)
      >>= open_respond_stream new_stream send_msg close_send)
