-- ===== src/Protogen/Generate/Returned.antt =====
-- tools/protogen/main.go: the files that generate gets from the plugins.
use herrscher_transport.Prelude.{
  ◌≡◌, refl, sym, ◌∙◌, ap, inl, inr, append-nil, String, List, [], ◌∷◌, ◌++◌, Bool-cases, ◌==◌,
  eq_iff, subst,
}
use herrscher_transport.Codec.{Bytes}
use herrscher_transport.Protogen.{File, descriptors_in_dependency_order}
use herrscher_transport.Protogen.Flags.{Config}
use herrscher_transport.Protogen.Generate.{
  Failure, Outcome, done, failed, unreadable, compile, plugin, Generated, Request, Response, Kit,
  compile_request, run_each, run_plugin, run_plugins, check_outputs, files_of, the_request,
  to_write, ◌>>=◌, under,
}

pub bind-eq-done :
    {E A C : Type 0} (o : Outcome E A) (f : A → Outcome E C) (c : C)
    → (o >>= f) ≡ done c
    → (a : A) × (o ≡ done a) × (f a ≡ done c)
bind-eq-done (done a) f c h = (a, refl, h)
bind-eq-done (failed e) f c h = cc

pub done-injective : {E A : Type 0} {a b : A} → ◌≡◌ {A = Outcome E A} (done a) (done b) → a ≡ b
done-injective h = cc

under-eq-done :
    {A : Type 0} (sentinel : String → Failure) (o : Outcome String A) (a : A)
    → under sentinel o ≡ done a
    → o ≡ done a
under-eq-done sentinel (done b) a h = ap (λ x. done x) (done-injective h)
under-eq-done sentinel (failed e) a h = cc

-- The request to the plugins for one file.
abbrev pub request_for : String → File → Request
request_for name compiled = record {
  file_to_generate = name ∷ [];
  parameter = "paths=source_relative";
  proto_file = descriptors_in_dependency_order compiled;
}

module _ {FS : Type 0} (K : Kit FS) where
  open K use {
    join_path, slash_clean, read_file, compile_proto, marshal_request, run_tool, unmarshal_response,
  }

  -- The plugin ends well on the input, and returns the files without an error.
  abbrev pub IsReturned : String → Bytes → List Generated → Type 0
  IsReturned tool input files =
      (stdout : Bytes) × (response : Response) × (run_tool tool input ≡ done stdout)
      × (unmarshal_response stdout ≡ done response)
      × (response.error ≡ "")
      × (response.file ≡ files)

  -- The .proto file can be read and compiles to one file, and the input is the request for it: with its
  -- name, the parameter, and its descriptors in dependency order.
  abbrev pub IsRequest : Config → FS → Bytes → Type 0
  IsRequest cfg fs input =
      (content : Bytes) × (compiled : File) × (read_file (join_path cfg.root cfg.proto) fs
        ≡ done content)
      × (compile_proto cfg.root (slash_clean cfg.proto) fs ≡ done (compiled ∷ []))
      × (marshal_request (request_for (slash_clean cfg.proto) compiled) ≡ done input)

  run_plugin-IsReturned :
      (tool : String) (input : Bytes) (files : List Generated)
      → run_plugin K input tool ≡ done files
      → IsReturned tool input files
  unfolding run_plugin
  run_plugin-IsReturned tool input files h =
      let (stdout, ran, more) =
        bind-eq-done (under plugin (run_tool tool input))
          (λ stdout. under plugin (unmarshal_response stdout) >>= files_of K) files h in
      let (response, read, taken) =
        bind-eq-done (under plugin (unmarshal_response stdout)) (files_of K) files more in
      let (no_error, same) = taken_of response taken in
      (
        stdout,
        response,
        under-eq-done plugin _ _ ran,
        under-eq-done plugin _ _ read,
        no_error,
        same,
      )
    where
      taken_of :
          (response : Response)
          → files_of K response ≡ done files
          → (response.error ≡ "") × (response.file ≡ files)
      taken_of response h = elim (Bool-cases (response.error == "")) [
        | inl none_told ↦
            ((eq_iff response.error "").0 none_told, done-injective (rw none_told at h))
        | inr told ↦ cc (rw told at h)
      ]

  -- The one compiled file, and the request for it.
  requested :
      (name : String) (compiled : List File) (request : Request)
      → the_request K name compiled ≡ done request
      → (file : File) × (compiled ≡ file ∷ []) × (request ≡ request_for name file)
  requested name [] request h = cc
  requested name (file ∷ []) request h = (file, refl, sym (done-injective h))
  requested name (file ∷ other ∷ files) request h = cc

  compile_request-IsRequest :
      (cfg : Config) (fs : FS) (request : Request) (input : Bytes)
      → compile_request K cfg.root cfg.proto fs ≡ done request
      → marshal_request request ≡ done input
      → IsRequest cfg fs input
  unfolding compile_request
  compile_request-IsRequest cfg fs request input h marshalled =
      let name = slash_clean cfg.proto in
      let (content, read, more) =
        bind-eq-done (under unreadable (read_file (join_path cfg.root cfg.proto) fs))
          (λ content. under compile (compile_proto cfg.root name fs) >>= the_request K name) request
          h in
      let (files, compiled, asked) =
        bind-eq-done (under compile (compile_proto cfg.root name fs)) (the_request K name) request
          more in
      let (file, one, same) = requested name files request asked in
      (
        content,
        file,
        under-eq-done unreadable _ content read,
        under-eq-done compile _ files compiled ∙ ap (λ l. done l) one,
        subst (λ r. marshal_request r ≡ done input) same marshalled,
      )

  each-IsReturned :
      (input : Bytes) (files : List Generated)
      → run_each K input ("protoc-gen-go" ∷ "protoc-gen-go-grpc" ∷ []) ≡ done files
      → (messages services : List Generated) × (files ≡ messages ++ services)
        × IsReturned "protoc-gen-go" input messages
        × IsReturned "protoc-gen-go-grpc" input services
  unfolding run_each
  each-IsReturned input files h =
      let grpc : String = "protoc-gen-go-grpc" in
      let (messages, ran, more) =
        bind-eq-done (run_plugin K input "protoc-gen-go")
          (λ produced. run_each K input (grpc ∷ []) >>= (λ others. done (produced ++ others))) files
          h in
      let (others, rest, whole) =
        bind-eq-done (run_each K input (grpc ∷ [])) (λ others. done (messages ++ others)) files
          more in
      let (services, ran', last) =
        bind-eq-done (run_plugin K input grpc)
          (λ produced. run_each K input [] >>= (λ others. done (produced ++ others))) others rest in
      let services-others = sym (append-nil services) ∙ done-injective last in
      (
        messages,
        services,
        sym (ap (λ l. messages ++ l) services-others ∙ done-injective whole),
        run_plugin-IsReturned "protoc-gen-go" input messages ran,
        run_plugin-IsReturned grpc input services ran',
      )

  -- What is written is what the two plugins returned for the request.
  pub to_write-IsReturned :
      (cfg : Config) (files : List Generated) (fs : FS)
      → to_write K cfg fs ≡ done files
      → (input : Bytes) × (messages services : List Generated) × (files ≡ messages ++ services)
        × IsRequest cfg fs input
        × IsReturned "protoc-gen-go" input messages
        × IsReturned "protoc-gen-go-grpc" input services
  unfolding to_write run_plugins
  to_write-IsReturned cfg files fs h =
      let (request, compiled, ran) =
        bind-eq-done (compile_request K cfg.root cfg.proto fs)
          (λ request.
            run_plugins K request
            >>= (λ found. check_outputs K cfg.outputs found >>= (λ u. done found)))
          files h in
      let (found, produced, checked) =
        bind-eq-done (run_plugins K request)
          (λ found. check_outputs K cfg.outputs found >>= (λ u. done found)) files ran in
      let (u, passed, same) =
        bind-eq-done (check_outputs K cfg.outputs found) (λ u. done found) files checked in
      let (input, marshalled, each) =
        bind-eq-done (under plugin (marshal_request request))
          (λ input. run_each K input ("protoc-gen-go" ∷ "protoc-gen-go-grpc" ∷ [])) found
          produced in
      let (messages, services, parts, first, second) = each-IsReturned input found each in
      (
        input,
        messages,
        services,
        sym (done-injective same) ∙ parts,
        compile_request-IsRequest cfg fs request input compiled
            (under-eq-done plugin _ input marshalled),
        first,
        second,
      )
