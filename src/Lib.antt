-- ===== src/Lib.antt =====
-- herrscher-transport carries the contracts of a host (Memory, Orchestrator, Backend) to plugin
-- processes: unary calls over one generic gRPC service, streamed turns over a second one, and
-- discovery by authenticated announcements over NATS. This library models the Go code at the root of
-- the repository, and its two tools.
--
-- The parts, and the files that model them:
--   * Errors: errors.go, Go's `error` values as one data type. Errors/Format has the texts, and
--     Errors/Notice the operator notices.
--   * Codec: codec.go, encodeArgs and decodeArgs over a codec for each value. Codec/RoundTrip says
--     when arguments survive them.
--   * Exec: a Go function that acts on state and returns a value or an error.
--   * WireError: wire_error.go. WireError/Relay says what a client makes of an error.
--   * Plugin: the envelopes of proto/transport.proto, `fail` of memory_skeleton.go, and PluginRouter
--     of plugin_router.go. Plugin/Claims has pluginClaims and NewPluginRouter. Plugin/Proxy has the
--     `call` of memory_proxy.go and of orchestrator_proxy.go, which differ in the port, and
--     Plugin/Proxy/Loop joins a skeleton and a proxy.
--   * Memory and Memory/Proxy: memory_skeleton.go and memory_proxy.go. Memory/Through and
--     Memory/EndToEnd join them.
--   * Orchestrator and Orchestrator/Proxy: orchestrator_skeleton.go and orchestrator_proxy.go.
--     Orchestrator/Through joins them, and Orchestrator/Proxy/Degraded is about Context over any
--     client.
--   * Session: a host's calls on both proxies of one process; Session/Served compares them with calls
--     on the real objects, and Session/Registered does so for a host that found and dialed the
--     process through its registry. Session/Responded is about a backend that was found so.
--   * Backend and Backend/Proxy: the server and the client of backend_stream.go. Backend/Turns
--     is about what a turn puts on the stream, Backend/Interleaved about calls of onEvent that
--     run beside the end of the turn, Backend/EndToEnd about what the proxy makes of the
--     stream, Backend/Respond about a whole call of Respond. Backend/Service has the grpc
--     service that the server is registered as.
--   * Subjects: subjects.go.
--   * Announce: announce.go. Announce/Time has its clock arithmetic, Announce/Decimal
--     strconv.AppendInt; Opening, Refusals, Replay and Sealing are about openAnnouncement.
--   * Registry: remote_registry.go up to its queries. Entries is about observe, Watching about Watch,
--     Queries about the queries, Discovery about the way from Announce to a query, Latest about the
--     entry of an instance after any messages, Lasting about how long it stays, Vetted about what a
--     query returns.
--   * Dial: dialConn, requireLoopback and the Dial functions of remote_registry.go. The structures of
--     the three proxies and their Close are with the proxies.
--   * Tls: tls.go.
--   * Protogen: descriptorsInDependencyOrder of tools/protogen/main.go, with Protogen/Order
--     about it; Protogen/Generate: the rest of that command, with Safety and Written about its
--     exit codes and the file system, Returned about the plugins' files, Stores about
--     writeFiles, Outputs about checkOutputs and Arguments about parseArgs; Protogen/Flags has
--     its configuration.
--   * Commentcheck: tools/commentcheck. Syntax is the part of go/ast that it reads, Text what
--     it calls of strings; Words, Tools and Directives model directives.go, Docs docs.go,
--     Comments comments.go, Report and Check main.go. Words/Fuel, Words/Bounds and
--     Words/RoundTrip are about directiveWords, Directives/Known about isKnownDirective, with
--     Directives/Pinned and Directives/Flags about the generators, Directives/Named with
--     Directives/Outputs about generatorOutputs, Tools/Root about moduleRoot, Docs/Exported
--     with Docs/Writes about allowedDocs, Docs/Examples with Docs/Adds, Docs/Runnable and
--     Docs/Last about the examples of test files, Comments/Stray about the findings of a file,
--     Report/Order about their order, Check/Clean about the exit code, with Walk and Grouping
--     about the walk and its map, and Check/RangeOrder about the order in which Go ranges over
--     that map.
--   * Tests: runs and concrete instances.
-- How they interact: a proxy encodes its arguments and calls a client; the client reaches a router;
-- the router hands the envelope to the skeleton of its port; the skeleton decodes the arguments, calls
-- the real object and answers with a payload or with `fail`; the proxy decodes the answer. A plugin
-- announces itself, a watching registry opens the message, gates it and files it, and a host dials
-- what the registry lists.
--
-- How the code is translated: an operation on shared state takes the state and returns it beside a
-- `Result`. A structure is a record with the source's fields, a nil pointer, function or error is
-- `none`, a map is an association list. A mutex makes a critical section one step; where the code
-- leaves a lock between two effects (NewPluginRouter's claim and its registration; the events of a
-- backend after its turn has returned) the model has the interleavings. Records name the code that
-- is not in the repository: Wire, Codec and Decoder stand for encoding/json, Packages for the JSON
-- of announcements and for HMAC-SHA256, Format for fmt's %q and %d, Files for crypto/tls,
-- crypto/x509 and os, Network and GrpcServer for net and grpc, Kit for what tools/protogen calls,
-- Packages and World of Commentcheck for the Go parser, the directory walk, filepath, os, unicode
-- and strconv, MemoryTypes, OrchestratorTypes, BackendTypes and Directory for contracts. What is
-- asked of them stands in the theorems' hypotheses: that a value survives its codec (Carries), that
-- an array keeps its elements (KeepsElements), that a frame is read back (EncodesTurn, DecodesTurn),
-- that an announcement is (ReadsBack), that a grpc server runs what is registered (RunsStreams),
-- that filepath.Abs gives absolute paths and that filepath.Dir of one is absolute and the same or
-- shorter (AbsGivesAbsolute, ParentsShrink), that sorting keeps the empty list (SortsFindings) or
-- sorts (IsSortOf), that a file is read back as it was written (Stores), that whoever dials an
-- address reaches the router or the server there (Serves, ServesBackend).
--
-- Bounds: a byte is a number, and no bound on it is used. Times are nanoseconds on an unbounded
-- integer; time.Duration saturates at 2 ^ 63 - 1 as in Go. The decimal digits of a number are computed
-- with as much fuel as the number and one more, and a number has no more digits than that. The loop of
-- directiveWords has the length of its text as fuel, and takes a code point at least on each turn; the
-- one of moduleRoot has the length of the path and one more, since the parent of an absolute path is
-- shorter, but for the root. All other loops recurse on a list or on a syntax tree.
--
-- Not modelled: the `ctx` arguments, which the code only hands on, but for the ctx.Err() of dialConn;
-- deadlines and cancellation of calls; the registration of the Plugin service and of NATS handlers, and
-- the way of a message through NATS; main of the two tools, which exits with what check and run return;
-- the generated code under proto; the module files and the scripts.
pub mod Prelude
pub mod Errors
pub mod Codec
pub mod Exec
pub mod WireError
pub mod Plugin
pub mod Memory
pub mod Orchestrator
pub mod Session
pub mod Tls
pub mod Subjects
pub mod Announce
pub mod Registry
pub mod Dial
pub mod Backend
pub mod Protogen
pub mod Commentcheck
pub mod Tests
