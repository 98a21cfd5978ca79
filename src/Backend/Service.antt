-- ===== src/Backend/Service.antt =====
-- backend_stream.go: the streaming service that the skeleton is registered as. grpc is a parameter: its
-- server, and the stream's RecvMsg and SendMsg on the state N of the stream.
use herrscher_transport.Prelude.{
  ◌≡◌, ◌∙◌, refl, ◌⧺◌, Bool, true, String, Option, none, some, List, [], ◌∷◌,
}
use herrscher_transport.Errors.{Error, Result, ok, err, external}
use herrscher_transport.Codec.{Wire}
use herrscher_transport.Exec.{Exec}
use herrscher_transport.Plugin.{MethodEnvelope, ResultEnvelope}
use herrscher_transport.Backend
use herrscher_transport.Backend.{BackendTypes, Backend, respond_method}

abbrev pub backend_respond_full_method : String
backend_respond_full_method = "/herrscher.transport.v1.BackendStream/Respond"

abbrev err_backend_stream_not_responder : {B : Type 0} → Error B
err_backend_stream_not_responder = external "backend stream: server does not respond"

-- What a handler does to a stream and to the state of the real backend.
abbrev pub Served : Type 0 → Type 0 → Type 0 → Type 0
Served B N S = N → S → (Result B (Unit {0}) × N) × S

-- A registered implementation: the method of backendStreamSrv, if it has that.
abbrev pub Srv : Type 0 → Type 0 → Type 0 → Type 0
Srv B N S = Option (MethodEnvelope → Served B N S)

-- grpc.StreamDesc and grpc.ServiceDesc; a handler takes the registered implementation.
pub record StreamDesc (B N S : Type 0) : Type 0 where
  pub stream_name : String
  pub handler : Srv B N S → Served B N S
  pub server_streams : Bool

pub record ServiceDesc (B N S : Type 0) : Type 0 where
  pub service_name : String
  pub streams : List (StreamDesc B N S)
  pub metadata : String

-- A grpc.Server: the registration of a service, and what it does on a stream of a full method.
pub record GrpcServer (B N S : Type 0) : Type 1 where
  pub Server : Type 0
  pub register_service : Server → ServiceDesc B N S → Srv B N S → Server
  pub open_stream : Server → String → Served B N S

module _ {B N S : Type 0} (recv_msg : Exec B N MethodEnvelope) where
  abbrev handle : Srv B N S → Result B MethodEnvelope → Served B N S
  handle srv (err e) n s = ((err e, n), s)
  handle none (ok req) n s = ((err err_backend_stream_not_responder, n), s)
  handle (some respond) (ok req) n s = respond req n s

  -- backendRespondHandler
  unfoldable pub backend_respond_handler : Srv B N S → Served B N S
  backend_respond_handler srv n s = handle srv (recv_msg n).0 (recv_msg n).1 s

  -- backendStreamServiceDesc
  unfoldable pub backend_stream_service_desc : ServiceDesc B N S
  unfolding backend_respond_handler
  backend_stream_service_desc = record {
    service_name = "herrscher.transport.v1.BackendStream";
    streams =
        record {
          stream_name = respond_method;
          handler = backend_respond_handler;
          server_streams = true;
        }
        ∷ [];
    metadata = "backend_stream.go";
  }

  module _ (W : Wire B) (T : BackendTypes B) (send_msg : ResultEnvelope → Exec B N (Unit {0}))
      (G : GrpcServer B N S) where
    open G use {Server, register_service, open_stream}

    -- RegisterBackendSkeleton
    unfoldable pub register_backend_skeleton : Server → Backend T S → Server
    unfolding backend_stream_service_desc
    register_backend_skeleton server impl =
        register_service server backend_stream_service_desc
          (some (Backend.respond W T send_msg impl))

    -- A grpc server runs the handler of a stream of a service that was registered last, with its
    -- implementation, on the full method /SERVICE/STREAM.
    abbrev pub RunsStreams : Type 0
    RunsStreams =
        (server : Server) (service : String) (stream : StreamDesc B N S) (metadata : String)
        (srv : Srv B N S) (n : N) (s : S)
        → open_stream
            (register_service server
              (record { service_name = service; streams = stream ∷ []; metadata = metadata }) srv)
            ("/" ⧺ service ⧺ "/" ⧺ stream.stream_name) n s
          ≡ stream.handler srv n s

    -- A request is answered by the respond of the backend, and a failure to receive it ends the stream.
    abbrev pub on_request :
        Backend T S → Result B MethodEnvelope → N → S → (Result B (Unit {0}) × N) × S
    on_request impl (ok req) n s = Backend.respond W T send_msg impl req n s
    on_request impl (err e) n s = ((err e, n), s)

    answers :
        (impl : Backend T S) (received : Result B MethodEnvelope) (n : N) (s : S)
        → handle (some (Backend.respond W T send_msg impl)) received n s
          ≡ on_request impl received n s
    answers impl (ok req) n s = refl
    answers impl (err e) n s = refl

    -- If a grpc server runs the stream of a service that was registered last by its full method, on the
    -- registered implementation: the full method that BackendProxy opens reaches the respond of the
    -- backend that was registered last, with the request that the stream receives, or ends with the
    -- error of receiving it.
    pub open_stream-register_backend_skeleton :
        (runs : RunsStreams) (server : Server) (impl : Backend T S) (n : N) (s : S)
        → open_stream (register_backend_skeleton server impl) backend_respond_full_method n s
          ≡ on_request impl (recv_msg n).0 (recv_msg n).1 s
    unfolding register_backend_skeleton
    open_stream-register_backend_skeleton runs server impl n s =
        runs server "herrscher.transport.v1.BackendStream"
          (record {
            stream_name = respond_method;
            handler = backend_respond_handler;
            server_streams = true;
          })
          "backend_stream.go" (some (Backend.respond W T send_msg impl)) n s
        ∙ answers impl (recv_msg n).0 (recv_msg n).1 s
