-- ===== src/Session/Responded.antt =====
-- A host that finds a Backend in its registry, dials it, and asks it for a turn.
use herrscher_transport.Prelude.{
  ℕ, ◌≡◌, String, Bool, Option, some, List, [], Any, length, take, ltb, if◌then◌else◌, inl, inr,
}
use herrscher_transport.Errors.{Error, Result, ok}
use herrscher_transport.Exec.{Exec}
use herrscher_transport.Codec.{Bytes, Wire, encode_args}
use herrscher_transport.Codec.RoundTrip.{Carries, KeepsElements}
use herrscher_transport.Announce.{AnnounceKey, Packages, OnRejected}
use herrscher_transport.Registry.{RemoteEntry, Directory, backends}
use herrscher_transport.Registry.Watching.{Message}
use herrscher_transport.Registry.Vetted.{IsVetted, watching, by_category-IsVetted}
use herrscher_transport.Dial.{Network, dial_backend}
use herrscher_transport.Dial.Loopback.{IsDialed, dial_backend_sound}
use herrscher_transport.Plugin.{MethodEnvelope, ResultEnvelope}
use herrscher_transport.Backend.{BackendFrame, BackendTypes, Backend, prompt_args}
use herrscher_transport.Backend.Proxy
use herrscher_transport.Backend.Proxy.{BackendProxy, close_backend_proxy, receive_failure}
use herrscher_transport.Backend.Turns.{send_upto, EncodesTurn}
use herrscher_transport.Backend.EndToEnd.{DecodesTurn, replay, turn_failure}
use herrscher_transport.Backend.Respond.{request, respond_end_to_end}
use herrscher_transport.Backend.Service.{
  Served, GrpcServer, RunsStreams, register_backend_skeleton, backend_respond_full_method,
  open_stream-register_backend_skeleton,
}

-- What the server receives on a stream that carries the request.
abbrev pub receives : {B : Type 0} → Bytes → Exec B (List ResultEnvelope) MethodEnvelope
receives payload n = (ok (request payload), n)

module _ {B S : Type 0} (N : Network B) (W : Wire B) (T : BackendTypes B)
    (G : GrpcServer B (List ResultEnvelope) S)
    (open_on : N.Conn → String → Served B (List ResultEnvelope) S) (real : Backend T S)
    (capacity : ℕ) (broken : Error B) (payload : Bytes) where
  -- Whoever dials the address and opens a stream reaches the server, on which the skeleton of the real
  -- backend was registered last.
  abbrev pub ServesBackend : G.Server → String → Type 0
  ServesBackend server addr =
      (creds : N.Credentials) (conn : N.Conn) (method : String)
      → N.new_client addr creds ≡ ok conn
      → open_on conn method
        ≡ G.open_stream
            (register_backend_skeleton (receives payload) W T (send_upto capacity broken) G server
              real)
            method

  reaches :
      {Manifest : Type 0} {ctx_err : Option (Error B)} {creds : Option N.Credentials}
      (e : RemoteEntry Manifest) (conn : N.Conn) (server : G.Server)
      → ServesBackend server e.grpc_addr
      → IsDialed N ctx_err e creds conn
      → (method : String)
      → open_on conn method
        ≡ G.open_stream
            (register_backend_skeleton
              (receives payload)
              W
              T
              (send_upto capacity broken)
              G
              server
              real)
            method
  reaches e conn server serves (alive, inl (c, given, made)) method = serves c conn method made
  reaches e conn server serves (alive, inr (none_given, local, made)) method =
      serves N.insecure conn method made

module _ {B Manifest V S H : Type 0} (P : Packages B Manifest) (D : Directory B Manifest)
    (N : Network B) (W : Wire B) (laws : KeepsElements W) (T : BackendTypes B)
    (enc : BackendFrame T.Event → Bytes) (G : GrpcServer B (List ResultEnvelope) S)
    (open_on : N.Conn → String → Served B (List ResultEnvelope) S) (real : Backend T S)
    (on_event : T.Event → H → H) (capacity : ℕ) (broken ending : Error B) (payload : Bytes) where
  open W use {format}
  open T use {Prompt, prompt_codec}

  -- A host that watches for announcements, picks any entry among the backends of its registry, dials it
  -- and asks it for a turn, calls the real backend: if the server at the address registered the
  -- skeleton of that backend last and runs its streams, and the prompt and the frames of the turn
  -- survive the wire, then the real backend is called once, for the prompt. If all frames go out, the
  -- hook has seen all events in order, and Respond returns the reply and the text of the error;
  -- otherwise the hook has seen the events that went out, and Respond returns an error. And
  -- whatever messages arrived, the entry was announced under the key and is allowed by the gate; the
  -- connection was dialed with the credentials given or, without any, to a loopback address; and
  -- closing the proxy closes it.
  pub registered_respond :
      (key : AnnounceKey) (on_rejected : OnRejected P V) (allow : Option (String → Bool))
      (ms : List Message) (v : V) (e : RemoteEntry Manifest)
      → Any (λ x. x ≡ e) (backends D (watching P D key on_rejected allow ms v))
      → (ctx_err : Option (Error B)) (creds : Option N.Credentials) (p : BackendProxy N.Conn)
      → dial_backend N ctx_err e creds ≡ ok p
      → (server : G.Server) → RunsStreams (receives payload) W T (send_upto capacity broken) G
      → ServesBackend N W T G open_on real capacity broken payload server e.grpc_addr
      → (send_msg : MethodEnvelope → Result B (Unit {0})) (prompt : Prompt) (s : S) (h : H)
      → Carries W prompt_codec prompt
      → encode_args W (prompt_args T) (prompt, tt) ≡ ok payload
      → send_msg (request payload) ≡ ok tt
      → EncodesTurn T enc format (real prompt s).0
      → DecodesTurn W T enc on_event (real prompt s).0
      → let served_call = open_on p.cc backend_respond_full_method [] s in
        let turn = (real prompt s).0 in
        (served_call.1 ≡ (real prompt s).1)
        × (Proxy.respond W T
              (some on_event)
              (ok tt)
              send_msg
              (ok tt)
              (record { frames = served_call.0.1; ending = ending })
              prompt
              h
            ≡ (if ltb (length turn.events) capacity
                then (
                  (turn.reply, turn_failure W T enc on_event turn.failure),
                  replay W T enc on_event turn.events h,
                )
                else (
                  ("", some (receive_failure ending)),
                  replay W T enc on_event (take capacity turn.events) h,
                )))
        × IsVetted P D key on_rejected allow ms e
        × IsDialed N ctx_err e creds p.cc
        × (close_backend_proxy N.close_conn p ≡ N.close_conn p.cc)
  unfolding backends
  registered_respond key on_rejected allow ms v e listed ctx_err creds p dialed server runs serves
        send_msg prompt s h c en m encodes decodes =
      let (made, closes) = dial_backend_sound N ctx_err e creds p dialed in
      let reached =
        reaches N W T G open_on real capacity broken payload e p.cc server serves made
          backend_respond_full_method in
      let opened =
        open_stream-register_backend_skeleton (receives payload) W T (send_upto capacity broken) G
          runs server real [] s in
      let (same, replied) =
        respond_end_to_end W T enc real on_event laws capacity broken ending send_msg prompt payload
          s h c en m encodes decodes in
      rw (reached, opened)
        (
          same,
          replied,
          (by_category-IsVetted P D key on_rejected allow ms v D.category_backend e listed).1,
          made,
          closes,
        )
