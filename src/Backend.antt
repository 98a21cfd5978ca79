-- ===== src/Backend.antt =====
-- backend_stream.go, the server: a real Backend behind the streaming service. The types of
-- contracts.Backend are parameters. A turn of the real backend is the events that it hands to onEvent,
-- in the order in which the calls take the lock: those before `closed` is set, and those after it,
-- from goroutines that outlive the call. The `ctx` arguments are left out: this code only hands them on.
pub mod Proxy
pub mod Turns
pub mod Interleaved
pub mod EndToEnd
pub mod Respond
pub mod Service
use mathlib.Core.List.{foldl}
use herrscher_transport.Prelude.{
  Bool, true, false, not, ◌||◌, String, Option, none, some, List, [], ◌∷◌, ◌==◌, if◌then◌else◌,
}
use herrscher_transport.Errors.{Error, Result, ok, err, wrap, unknown_port}
use herrscher_transport.Errors.Format.{Format, text}
use herrscher_transport.Codec.{Bytes, Wire, Codec, Slot, slot, decode_args}
use herrscher_transport.Exec.{Exec}
use herrscher_transport.Plugin.{MethodEnvelope, ResultEnvelope}

abbrev pub port_backend : String
port_backend = "backend"

abbrev pub respond_method : String
respond_method = "Respond"

-- `failure` is the field Error.
pub record BackendFrame (Event : Type 0) : Type 0 where
  pub event : Option Event
  pub done : Bool
  pub reply : String
  pub failure : String

pub record BackendTypes (B : Type 0) : Type 1 where
  pub Event : Type 0
  pub Prompt : Type 0
  pub prompt_codec : Codec B Prompt
  pub frame_codec : Codec B (BackendFrame Event)

pub record Turn (B Event : Type 0) : Type 0 where
  pub events : List Event
  pub late_events : List Event
  pub reply : String
  pub failure : Option (Error B)

-- contracts.Backend
abbrev pub Backend : {B : Type 0} → BackendTypes B → Type 0 → Type 0
Backend {B} T S = T.Prompt → S → Turn B T.Event × S

abbrev pub prompt_args : {B : Type 0} → BackendTypes B → List (Slot B)
prompt_args T = slot T.prompt_codec ∷ []

-- errString
unfoldable pub err_string : {B : Type 0} → Format B → Option (Error B) → String
err_string F none = ""
err_string F (some e) = text F e

-- The variables that onEvent shares with `respond`, and the stream, whose SendMsg is `send`.
pub record Sending (B N : Type 0) : Type 0 where
  pub send_err : Option (Error B)
  pub closed : Bool
  pub stream : N

abbrev pub is_some : {A : Type 0} → Option A → Bool
is_some none = false
is_some (some a) = true

abbrev pub event_frame : {B : Type 0} (T : BackendTypes B) → T.Event → BackendFrame T.Event
event_frame T event = record { event = some event; done = false; reply = ""; failure = "" }

abbrev pub done_frame :
    {B : Type 0} → Format B → (T : BackendTypes B) → Turn B T.Event → BackendFrame T.Event
done_frame F T turn = record {
  event = none;
  done = true;
  reply = turn.reply;
  failure = err_string F turn.failure;
}

abbrev pub frame_envelope : Bytes → ResultEnvelope
frame_envelope payload = record { json_payload = payload; error = "" }

module _ {B N : Type 0} (W : Wire B) (T : BackendTypes B)
    (send : ResultEnvelope → Exec B N (Unit {0})) where
  open W use {format}
  open T use {Event, prompt_codec, frame_codec}

  note_send : Result B (Unit {0}) × N → Sending B N → Sending B N
  note_send (ok u, n) st = record st { stream = n }
  note_send (err e, n) st = record st { send_err = some e; stream = n }

  send_event : Result B Bytes → Sending B N → Sending B N
  unfolding note_send
  send_event (err e) st = record st { send_err = some e }
  send_event (ok payload) st = note_send (send (frame_envelope payload) st.stream) st

  -- onEvent, under the lock
  unfoldable pub on_event : Sending B N → Event → Sending B N
  unfolding send_event
  on_event st event =
      if st.closed || is_some st.send_err
      then st
      else send_event (frame_codec.marshal (event_frame T event)) st

  -- The calls of onEvent that take the lock before `closed` is set, then that write, then the others.
  unfoldable pub run_turn : N → Turn B Event → Sending B N
  unfolding on_event
  run_turn n turn =
      let before =
        foldl on_event (record { send_err = none; closed = false; stream = n }) turn.events in
      foldl on_event (record before { closed = true }) turn.late_events

  sent_reply : Result B (Unit {0}) × N → Result B (Unit {0}) × N
  sent_reply (ok u, n) = (ok tt, n)
  sent_reply (err e, n) = (err (wrap "transport: send backend reply" e), n)

  send_reply : Result B Bytes → N → Result B (Unit {0}) × N
  unfolding sent_reply
  send_reply (err e) n = (err (wrap "transport: encode backend reply" e), n)
  send_reply (ok payload) n = sent_reply (send (frame_envelope payload) n)

  -- What follows the turn: the stream's error, or the terminal frame.
  unfoldable pub finish : Turn B Event → Sending B N → Result B (Unit {0}) × N
  unfolding send_reply
  finish turn st = elim st.send_err [
    | some e ↦ (err (wrap "transport: backend event stream" e), st.stream)
    | none ↦ send_reply (frame_codec.marshal (done_frame format T turn)) st.stream
  ]

  unfoldable pub serve_turn : N → Turn B Event → Result B (Unit {0}) × N
  unfolding finish run_turn
  serve_turn n turn = finish turn (run_turn n turn)

  -- The outcome on the stream, and the state of the real backend.
  module _ {S : Type 0} (real : Backend T S) where
    ask : MethodEnvelope → N → S → Result B (T.Prompt × Unit {0}) → (Result B (Unit {0}) × N) × S
    unfolding serve_turn
    ask req n s (err e) = ((err (wrap "transport: decode backend prompt" e), n), s)
    ask req n s (ok args) = let (turn, s') = real args.0 s in (serve_turn n turn, s')

    -- backendServer.respond
    unfoldable pub respond : MethodEnvelope → N → S → (Result B (Unit {0}) × N) × S
    unfolding ask
    respond req n s =
        if not (req.port == port_backend)
        then ((err (unknown_port req.port), n), s)
        else ask req n s (decode_args W (prompt_args T) req.json_payload)
