-- ===== src/Tests/Generate.antt =====
-- A run of protogen on a file system that is a map from paths to contents.
use herrscher_transport.Prelude.{
  ◌≡◌, refl, sym, ap, subst, ◌↔◌, ◌∙◌, String, Option, none, some, List, [], ◌∷◌, ◌++◌, ◌==◌,
  if◌then◌else◌, All, get, put, get-put_self, get-put_ne,
}
use herrscher_transport.Codec.{Bytes}
use herrscher_transport.Protogen.{descriptor, no_imports}
use herrscher_transport.Protogen.Flags.{Config, defined_flags}
use herrscher_transport.Protogen.Generate.{
  Outcome, Generated, Kit, done, failed, run, exit_code, parse_args,
}
use herrscher_transport.Protogen.Generate.Arguments.{IsAsked, parse_args_iff}
use herrscher_transport.Protogen.Generate.Returned.{IsRequest, IsReturned}
use herrscher_transport.Protogen.Generate.Stores.{Stores, KeepsBase, IsStored}
use herrscher_transport.Protogen.Generate.Written.{run_stored}

abbrev Files : Type 0
Files = List (String × Bytes)

abbrev found_or : Option Bytes → Outcome String Bytes
found_or none = failed "no such file"
found_or (some b) = done b

abbrev bytes : String → Bytes
bytes s = if s == "x" then 120 ∷ [] else []

-- Two roots are given, and the last one counts.
abbrev asked : List (String × String)
asked =
    ("root", "a")
    ∷ ("proto", "t.proto")
    ∷ ("go_out", "out")
    ∷ ("output", "t.pb.go")
    ∷ ("root", "b")
    ∷ ("output", "t_grpc.pb.go")
    ∷ []

abbrev tools_write : Bytes → Outcome String Bytes
tools_write b = done b

abbrev kit : Kit Files
kit = record {
  parse_flags = λ defined args. done (asked, args);
  join_path = λ a b. b;
  slash_clean = λ a. a;
  base = λ a. a;
  dir = λ a. a;
  read_file = λ name fs. found_or (get fs name);
  compile_proto = λ root name fs. done (descriptor "t.proto" no_imports ∷ []);
  marshal_request = λ r. done [];
  run_tool = λ tool input. if tool == "protoc-gen-go" then done (1 ∷ []) else done [];
  unmarshal_response = λ b. elim b [
    | [] ↦ done (record { error = ""; file = record { name = "t_grpc.pb.go"; content = "y" } ∷ [] })
    | c ∷ cs ↦ done (record { error = ""; file = record { name = "t.pb.go"; content = "x" } ∷ [] })
  ];
  mkdir_all = λ d mode fs. (done tt, fs);
  write_file = λ target content mode fs. (done tt, put fs target (bytes content));
}

stores : Stores kit
stores = record {
  bytes_of = bytes;
  write_read = λ target content mode fs fs' wrote.
      subst
        (λ (r : Outcome String (Unit {0}) × Files).
          found_or (get r.1 target) ≡ done (bytes content))
        wrote (ap found_or (get-put_self fs target (bytes content)));
  write_other = λ target content other mode found fs fs' ne wrote same.
      subst (λ (r : Outcome String (Unit {0}) × Files). found_or (get r.1 other) ≡ done found) wrote
        (ap found_or (get-put_ne fs target other (bytes content) (λ e. ne (sym e))) ∙ same);
  mkdir_keeps = λ path other mode found fs fs' made same.
      subst (λ (r : Outcome String (Unit {0}) × Files). found_or (get r.1 other) ≡ done found) made
        same;
}

abbrev start : Files
start = ("t.proto", 1 ∷ []) ∷ []

abbrev wanted : Config
wanted = record {
  root = "b";
  proto = "t.proto";
  go_out = "out";
  outputs = "t.pb.go" ∷ "t_grpc.pb.go" ∷ [];
}

parse_args_iff_example : (parse_args kit [] ≡ done wanted) ↔ (
    (flags : List (String × String)) × (kit.parse_flags defined_flags [] ≡ done (flags, []))
    × IsAsked flags wanted)
parse_args_iff_example = parse_args_iff kit [] wanted

asked_for : parse_args kit [] ≡ done wanted
unfolding parse_args
asked_for = refl

ended : (run kit [] start).0 ≡ 0
unfolding run exit_code get put
ended = refl

keeps : (go_out : String) (files : List Generated) → All (KeepsBase kit stores go_out) files
keeps go_out [] = tt
keeps go_out (f ∷ files) = (refl, keeps go_out files)

-- Both plugins have written.
both_written :
    (kit.read_file "t.pb.go" (run kit [] start).1 ≡ done (bytes "x"))
    × (kit.read_file "t_grpc.pb.go" (run kit [] start).1 ≡ done (bytes "y"))
unfolding run get put
both_written = (refl, refl)

run_stored_example :
    (cfg : Config) × (input : Bytes) × (messages services : List Generated) × (parse_args kit []
      ≡ done cfg)
    × IsRequest kit cfg start input
    × IsReturned kit "protoc-gen-go" input messages
    × IsReturned kit "protoc-gen-go-grpc" input services
    × All (IsStored kit stores cfg.go_out (run kit [] start).1) (messages ++ services)
run_stored_example =
    run_stored kit stores [] start (λ cfg tool input files _ _. keeps cfg.go_out files) ended
