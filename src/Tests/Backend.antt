-- ===== src/Tests/Backend.antt =====
-- A turn of two events over connections of several capacities.
use herrscher_transport.Prelude.{
  ℕ, zero, suc, ◌≡◌, refl, ◌↔◌, ◌<◌, true, false, String, none, some, List, [], ◌∷◌, ◌==◌, ◌⧺◌,
  eq_refl, if◌then◌else◌, length, take,
}
use herrscher_transport.Errors.{Error, Result, ok, err, external, remote, eof}
use herrscher_transport.Codec.{Bytes, encode_args}
use herrscher_transport.Errors.Format.{text}
use herrscher_transport.Backend.{
  on_event, finish, BackendFrame, BackendTypes, Turn, serve_turn, err_string, Backend,
}
use herrscher_transport.Backend.Proxy.{receive, receive_failure}
use herrscher_transport.Backend.Turns.{send_upto, all_frames, serve_turn_prefix}
use herrscher_transport.Backend.Interleaved.{
  Reaches, ended, opened, emitted, closed, emitted_closing, replied, emitted_ended, sequential,
  interleaved-serve_turn,
}
use herrscher_transport.Backend
use herrscher_transport.Backend.Proxy
use herrscher_transport.Backend.Respond.{request, respond_end_to_end}
use herrscher_transport.Backend.Service.{Served, Srv, StreamDesc, GrpcServer, RunsStreams}
use herrscher_transport.Exec.{Exec}
use herrscher_transport.Plugin.{MethodEnvelope, ResultEnvelope}
use herrscher_transport.Tests.Wire.{plain_wire, number_codec, plain_wire_keeps}

abbrev word : String → ℕ
word s = if s == "" then 0 else 1

abbrev pub enc : BackendFrame ℕ → Bytes
enc f = elim f.event [ some n ↦ 1 ∷ n ∷ [] | none ↦ 2 ∷ word f.reply ∷ word f.failure ∷ [] ]

abbrev spoken : ℕ → String → String
spoken zero s = ""
spoken (suc n) s = s

abbrev dec : Bytes → Result ℕ (BackendFrame ℕ)
dec (suc zero ∷ n ∷ []) = ok (record { event = some n; done = false; reply = ""; failure = "" })
dec (suc (suc zero) ∷ r ∷ f ∷ []) =
    ok (record { event = none; done = true; reply = spoken r "hi"; failure = spoken f "no" })
dec b = err (external "not a frame")

abbrev pub types : BackendTypes ℕ
types = record {
  Event = ℕ;
  Prompt = ℕ;
  prompt_codec = number_codec;
  frame_codec = record { marshal = λ f. ok (enc f); unmarshal = dec };
}

abbrev turn : Turn ℕ ℕ
turn = record {
  events = 5 ∷ 8 ∷ [];
  late_events = 9 ∷ [];
  reply = "hi";
  failure = some (external "no");
}

abbrev pub broken : Error ℕ
broken = external "broken pipe"

abbrev pub note : ℕ → List ℕ → List ℕ
note n s = n ∷ s

-- Two events go out; one is emitted while respond ends the turn, and one behind the terminal frame.
raced : Reaches plain_wire types (send_upto 3 broken) turn [] (5 ∷ 8 ∷ []) (ended (ok tt)) (record {
  send_err = none;
  closed = true;
  stream = all_frames types enc plain_wire.format turn;
})
unfolding on_event finish
raced = emitted_ended 4 (replied (emitted_closing 9 (closed (emitted 8 (emitted 5 opened)))))

interleaved-serve_turn_example :
    serve_turn plain_wire types (send_upto 3 broken) [] (sequential turn (5 ∷ 8 ∷ []))
    ≡ (ok tt, all_frames types enc plain_wire.format turn)
interleaved-serve_turn_example =
    interleaved-serve_turn plain_wire types (send_upto 3 broken) turn [] raced

serve_turn_prefix_example :
    ((serve_turn plain_wire types (send_upto 1 broken) [] turn).1
      ≡ take 1 (all_frames types enc plain_wire.format turn))
    × (((serve_turn plain_wire types (send_upto 1 broken) [] turn).0 ≡ ok tt)
        ↔ (length turn.events < 1))
serve_turn_prefix_example =
    serve_turn_prefix plain_wire types enc 1 broken turn ((refl, (refl, tt)), refl)

-- The whole turn arrives, with the text of its error.
whole_turn :
    receive plain_wire types
      (some note)
      (serve_turn plain_wire types (send_upto 3 broken) [] turn).1
      eof
      []
    ≡ (("hi", some (remote "no")), 8 ∷ 5 ∷ [])
unfolding receive serve_turn err_string text
whole_turn = refl

abbrev pub real : Backend types (List ℕ)
real prompt s = (turn, prompt ∷ s)

abbrev pub array_of_6 : Bytes
array_of_6 = 1 ∷ 6 ∷ 0 ∷ []

respond_end_to_end_example :
    let served_call =
      Backend.respond plain_wire types
        (send_upto 1 broken)
        real
        (request (array_of_6))
        []
        (2 ∷ []) in
    (served_call.1 ≡ 6 ∷ 2 ∷ [])
    × (Proxy.respond plain_wire types
          (some note)
          (ok tt)
          (λ env. ok tt)
          (ok tt)
          (record { frames = served_call.0.1; ending = eof })
          6
          []
        ≡ (("", some (receive_failure eof)), 5 ∷ []))
unfolding err_string text encode_args
respond_end_to_end_example =
    respond_end_to_end plain_wire types enc real note plain_wire_keeps 1 broken eof (λ env. ok tt) 6
      array_of_6 (2 ∷ []) [] (6 ∷ [], refl, refl, refl) refl refl ((refl, (refl, tt)), refl)
      ((refl, (refl, tt)), refl)

-- A server is the handlers by their full methods.
abbrev Handlers : Type 0
Handlers = List (String × Served ℕ (List ResultEnvelope) (List ℕ))

abbrev enter_streams :
    String
    → List (StreamDesc ℕ (List ResultEnvelope) (List ℕ))
    → Srv ℕ (List ResultEnvelope) (List ℕ)
    → Handlers
    → Handlers
enter_streams service [] srv server = server
enter_streams service (stream ∷ streams) srv server =
    ("/" ⧺ service ⧺ "/" ⧺ stream.stream_name, stream.handler srv)
    ∷ enter_streams service streams srv server

abbrev handler_of : Handlers → String → Served ℕ (List ResultEnvelope) (List ℕ)
handler_of [] name n s = ((err (external "unimplemented"), n), s)
handler_of ((key, handler) ∷ server) name n s =
    let others = handler_of server name n s in if key == name then handler n s else others

abbrev pub grpc : GrpcServer ℕ (List ResultEnvelope) (List ℕ)
grpc = record {
  Server = Handlers;
  register_service = λ server desc srv. enter_streams desc.service_name desc.streams srv server;
  open_stream = handler_of;
}

abbrev received : Exec ℕ (List ResultEnvelope) MethodEnvelope
received n = (ok (request array_of_6), n)

pub runs_streams : RunsStreams received plain_wire types (send_upto 1 broken) grpc
runs_streams server service stream metadata srv n s =
    rw (eq_refl ("/" ⧺ service ⧺ "/" ⧺ stream.stream_name)) refl
