-- ===== src/Protogen/Generate.antt =====
-- tools/protogen/main.go: run, generate and what they call. `Kit` holds flag, filepath, os, protocompile
-- and proto, and the run of a plugin as a function of its input; `FS` is the state of the file system,
-- which only writeFiles changes. An error is the sentinel that errors.Is finds in it, with a text that
-- leaves out the values fmt puts there. Printing to stderr changes no exit code and is left out.
pub mod Safety
pub mod Sets
pub mod Outputs
pub mod Arguments
pub mod Returned
pub mod Stores
pub mod Written
use herrscher_transport.Prelude.{
  ℕ, ◌+◌, ◌*◌, Bool, true, false, not, ◌||◌, ◌&&◌, String, Option, none, some, List, [], ◌∷◌, ◌++◌,
  ◌==◌, length, map, nat_eq, if◌then◌else◌,
}
use herrscher_transport.Codec.{Bytes}
use herrscher_transport.Protogen.Flags.{Config, defined_flags, default_config, set_flags}
use herrscher_transport.Protogen.{File, descriptors_in_dependency_order}

pub data Failure : Type 0 where
  usage unreadable compile plugin output_mismatch write : (message : String) → Failure

pub data Outcome (E A : Type 0) : Type 0 where
  done : A → Outcome E A
  failed : E → Outcome E A

infixl 5 ◌>>=◌
abbrev pub ◌>>=◌ : {E A C : Type 0} → Outcome E A → (A → Outcome E C) → Outcome E C
done a >>= f = f a
failed e >>= f = failed e

-- fmt.Errorf("%w: %w", sentinel, err)
abbrev under : {A : Type 0} → (String → Failure) → Outcome String A → Outcome Failure A
under sentinel (done a) = done a
under sentinel (failed e) = failed (sentinel e)

-- The constant `parameter`
abbrev pub parameter : String
parameter = "paths=source_relative"

abbrev pub exit_usage : ℕ
exit_usage = 2

abbrev pub exit_no_input : ℕ
exit_no_input = 66

abbrev pub exit_io_error : ℕ
exit_io_error = 74

-- 0o750 and 0o600
abbrev pub generated_dir_mode : ℕ
generated_dir_mode = 7 * 64 + 5 * 8

abbrev pub generated_file_mode : ℕ
generated_file_mode = 6 * 64

-- exitCode
unfoldable pub exit_code : Outcome Failure (Unit {0}) → ℕ
exit_code (done u) = 0
exit_code (failed (usage message)) = exit_usage
exit_code (failed (unreadable message)) = exit_no_input
exit_code (failed (write message)) = exit_io_error
exit_code (failed _) = 1

-- CodeGeneratorResponse_File
pub record Generated : Type 0 where
  pub name : String
  pub content : String

pub record Request : Type 0 where
  pub file_to_generate : List String
  pub parameter : String
  pub proto_file : List File

pub record Response : Type 0 where
  pub error : String
  pub file : List Generated

pub record Kit (FS : Type 0) : Type 0 where
  -- flags.Parse, for the flags that are defined: those that the arguments set, in order, each with its
  -- value, and the arguments that are left over
  pub parse_flags :
      (defined arguments : List String) → Outcome String (List (String × String) × List String)
  -- filepath.Join
  pub join_path : String → String → String
  pub slash_clean : String → String
  pub base : String → String
  pub dir : String → String
  pub read_file : String → FS → Outcome String Bytes
  -- compiler.Compile of a name, with an import path
  pub compile_proto : (root name : String) → FS → Outcome String (List File)
  pub marshal_request : Request → Outcome String Bytes
  pub run_tool : (tool : String) → Bytes → Outcome String Bytes
  pub unmarshal_response : Bytes → Outcome String Response
  pub mkdir_all : (path : String) → (mode : ℕ) → FS → Outcome String (Unit {0}) × FS
  pub write_file : (target content : String) → (mode : ℕ) → FS → Outcome String (Unit {0}) × FS

-- The keys of a map[string]bool that is set for each name.
abbrev pub has_key : List String → String → Bool
has_key [] k = false
has_key (j ∷ m) k = j == k || has_key m k

abbrev set_of : List String → List String
set_of [] = []
set_of (n ∷ names) = if has_key (set_of names) n then set_of names else n ∷ set_of names

abbrev all_keys_in : List String → List String → Bool
all_keys_in m [] = true
all_keys_in m (k ∷ keys) = has_key m k && all_keys_in m keys

-- maps.Equal
abbrev same_keys : List String → List String → Bool
same_keys m n = nat_eq (length m) (length n) && all_keys_in n m

module _ {FS : Type 0} (K : Kit FS) where
  open K use {
    parse_flags, join_path, slash_clean, base, dir, read_file, compile_proto, marshal_request,
    run_tool, unmarshal_response, mkdir_all, write_file,
  }

  abbrev check_config : Config → Outcome Failure Config
  check_config cfg =
      if cfg.proto == "" || cfg.go_out == "" || nat_eq (length cfg.outputs) 0
      then failed (usage "-proto, -go_out and at least one -output are required")
      else done cfg

  abbrev pub checked_flags : List (String × String) × List String → Outcome Failure Config
  checked_flags (flags, extra ∷ more) = failed (usage "unexpected argument")
  checked_flags (flags, []) = check_config (set_flags default_config flags)

  -- parseArgs
  unfoldable pub parse_args : List String → Outcome Failure Config
  parse_args args = under usage (parse_flags defined_flags args) >>= checked_flags

  abbrev the_request : String → List File → Outcome Failure Request
  the_request name (f ∷ []) = done (record {
    file_to_generate = name ∷ [];
    parameter = parameter;
    proto_file = descriptors_in_dependency_order f;
  })
  the_request name compiled = failed (compile name)

  -- compileRequest
  unfoldable pub compile_request : String → String → FS → Outcome Failure Request
  compile_request root proto_path fs =
      under unreadable (read_file (join_path root proto_path) fs) >>= (λ content.
        under compile (compile_proto root (slash_clean proto_path) fs)
        >>= the_request (slash_clean proto_path))

  abbrev files_of : Response → Outcome Failure (List Generated)
  files_of response =
      if not (response.error == "") then failed (plugin response.error) else done response.file

  -- runPlugin
  unfoldable pub run_plugin : Bytes → String → Outcome Failure (List Generated)
  run_plugin input tool =
      under plugin (run_tool tool input)
      >>= (λ stdout. under plugin (unmarshal_response stdout) >>= files_of)

  -- The loop over the tools.
  run_each : Bytes → List String → Outcome Failure (List Generated)
  unfolding run_plugin
  run_each input [] = done []
  run_each input (tool ∷ tools) =
      run_plugin input tool
      >>= (λ produced. run_each input tools >>= (λ files. done (produced ++ files)))

  -- runPlugins
  unfoldable pub run_plugins : Request → Outcome Failure (List Generated)
  unfolding run_each
  run_plugins request =
      under plugin (marshal_request request)
      >>= (λ input. run_each input ("protoc-gen-go" ∷ "protoc-gen-go-grpc" ∷ []))

  -- checkOutputs
  unfoldable pub check_outputs : List String → List Generated → Outcome Failure (Unit {0})
  check_outputs wanted files =
      let expected = set_of (map base wanted) in
      let produced = set_of (map (λ (f : Generated). base f.name) files) in
      if not (nat_eq (length produced) (length files)) || not (same_keys expected produced)
      then failed (output_mismatch "expected other files")
      else done tt

  -- One step of a loop that stops at the first error.
  abbrev then_on :
      Outcome String (Unit {0}) × FS
      → (FS → Outcome Failure (Unit {0}) × FS)
      → Outcome Failure (Unit {0}) × FS
  then_on (done u, fs) next = next fs
  then_on (failed e, fs) next = (failed (write e), fs)

  -- writeFiles
  unfoldable pub write_files : String → List Generated → FS → Outcome Failure (Unit {0}) × FS
  write_files go_out [] fs = (done tt, fs)
  write_files go_out (f ∷ files) fs =
      then_on (mkdir_all (dir (join_path go_out f.name)) generated_dir_mode fs) (λ fs1.
        then_on (write_file (join_path go_out f.name) f.content generated_file_mode fs1)
          (write_files go_out files))

  written : String → Outcome Failure (List Generated) → FS → Outcome Failure (Unit {0}) × FS
  unfolding write_files
  written go_out (done files) fs = write_files go_out files fs
  written go_out (failed e) fs = (failed e, fs)

  -- What generate writes, if everything before writeFiles succeeds.
  unfoldable pub to_write : Config → FS → Outcome Failure (List Generated)
  unfolding compile_request run_plugins check_outputs
  to_write cfg fs = compile_request cfg.root cfg.proto fs >>= (λ request.
      run_plugins request >>= (λ files. check_outputs cfg.outputs files >>= (λ u. done files)))

  -- generate
  unfoldable pub generate : Config → FS → Outcome Failure (Unit {0}) × FS
  unfolding written to_write
  generate cfg fs = written cfg.go_out (to_write cfg fs) fs

  run_config : Outcome Failure Config → FS → ℕ × FS
  unfolding generate exit_code
  run_config (failed e) fs = (exit_code (failed e), fs)
  run_config (done cfg) fs = (exit_code (generate cfg fs).0, (generate cfg fs).1)

  -- run
  unfoldable pub run : List String → FS → ℕ × FS
  unfolding run_config parse_args
  run args fs = run_config (parse_args args) fs
