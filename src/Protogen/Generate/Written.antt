-- ===== src/Protogen/Generate/Written.antt =====
-- tools/protogen/main.go: what a run that ends well has written.
use herrscher_transport.Prelude.{◌≡◌, refl, sym, String, List, ◌++◌, All, All-append, arith, subst}
use herrscher_transport.Codec.{Bytes}
use herrscher_transport.Protogen.Flags.{Config}
use herrscher_transport.Protogen.Generate.{
  Failure, Outcome, done, failed, usage, unreadable, compile, plugin, output_mismatch, write,
  Generated, Kit, parse_args, to_write, exit_code, run, run_config, written, check_outputs,
  generate, compile_request, run_plugins, ◌>>=◌,
}
use herrscher_transport.Protogen.Generate.Returned.{
  bind-eq-done, done-injective, IsRequest, IsReturned, to_write-IsReturned,
}
use herrscher_transport.Protogen.Generate.Sets.{IsRepeatFree}
use herrscher_transport.Protogen.Generate.Outputs.{bases, check_outputs_iff}
use herrscher_transport.Protogen.Generate.Stores.{
  Stores, KeepsBase, IsStored, write_files-AllStored,
}

-- The files that come out of a chain that ends with a check have passed it.
checked-done :
    (o : Outcome Failure (List Generated)) (check : List Generated → Outcome Failure (Unit {0}))
    (files : List Generated)
    → (o >>= (λ found. check found >>= (λ u. done found))) ≡ done files
    → check files ≡ done tt
checked-done (failed e) check files h = cc
checked-done (done found) check files h =
    let (u, passed, same) = bind-eq-done (check found) (λ u. done found) files h in
    subst (λ l. check l ≡ done tt) (done-injective same) passed

chain-done :
    {A : Type 0} (o : Outcome Failure A) (produce : A → Outcome Failure (List Generated))
    (check : List Generated → Outcome Failure (Unit {0})) (files : List Generated)
    → (o >>= (λ a. produce a >>= (λ found. check found >>= (λ u. done found)))) ≡ done files
    → check files ≡ done tt
chain-done (failed e) produce check files h = cc
chain-done (done a) produce check files h = checked-done (produce a) check files h

module _ {FS : Type 0} (K : Kit FS) where
  -- What is written has passed checkOutputs.
  to_write-IsRepeatFree :
      (cfg : Config) (files : List Generated) (fs : FS)
      → to_write K cfg fs ≡ done files
      → IsRepeatFree (bases K files)
  unfolding to_write
  to_write-IsRepeatFree cfg files fs h =
      let checked =
        chain-done (compile_request K cfg.root cfg.proto fs) (run_plugins K)
          (check_outputs K cfg.outputs) files h in
      ((check_outputs_iff K cfg.outputs files).0 checked).0

  exit_zero : (o : Outcome Failure (Unit {0})) → exit_code o ≡ 0 → o ≡ done tt
  unfolding exit_code
  exit_zero (done u) h = refl
  exit_zero (failed (usage message)) h = absurd (omega (arith, h))
  exit_zero (failed (unreadable message)) h = absurd (omega (arith, h))
  exit_zero (failed (compile message)) h = absurd (omega (arith, h))
  exit_zero (failed (plugin message)) h = absurd (omega (arith, h))
  exit_zero (failed (output_mismatch message)) h = absurd (omega (arith, h))
  exit_zero (failed (write message)) h = absurd (omega (arith, h))

  module _ (stores : Stores K) where
    generated :
        (cfg : Config) (outcome : Outcome Failure (List Generated)) (fs : FS)
        → ((files : List Generated)
            → outcome ≡ done files
            → All (KeepsBase K stores cfg.go_out) files × IsRepeatFree (bases K files))
        → (written K cfg.go_out outcome fs).0 ≡ done tt
        → (files : List Generated) × (outcome ≡ done files)
          × All (IsStored K stores cfg.go_out (written K cfg.go_out outcome fs).1) files
    unfolding written
    generated cfg (failed e) fs h ended = cc
    generated cfg (done files) fs h ended =
        let (keeps, once) = h files refl in
        (files, refl, (write_files-AllStored K stores cfg.go_out files fs keeps once ended).0)

    configured :
        (parsed : Outcome Failure Config) (fs : FS)
        → ((cfg : Config) (files : List Generated)
            → parsed ≡ done cfg
            → to_write K cfg fs ≡ done files
            → All (KeepsBase K stores cfg.go_out) files)
        → (run_config K parsed fs).0 ≡ 0
        → (cfg : Config) × (files : List Generated) × (parsed ≡ done cfg)
          × (to_write K cfg fs ≡ done files)
          × All (IsStored K stores cfg.go_out (run_config K parsed fs).1) files
    unfolding run_config generate
    configured (failed e) fs h ended = let bad = exit_zero (failed e) ended in cc
    configured (done cfg) fs h ended =
        let (files, produced, stored) =
          generated cfg (to_write K cfg fs) fs
            (λ files same. (h cfg files refl same, to_write-IsRepeatFree cfg files fs same))
            (exit_zero (generate K cfg fs).0 ended) in
        (cfg, files, refl, produced, stored)

    to_write-IsStored :
        (cfg : Config) (files : List Generated) (fs fs' : FS)
        → to_write K cfg fs ≡ done files
        → All (IsStored K stores cfg.go_out fs') files
        → (input : Bytes) × (messages services : List Generated) × IsRequest K cfg fs input
          × IsReturned K "protoc-gen-go" input messages
          × IsReturned K "protoc-gen-go-grpc" input services
          × All (IsStored K stores cfg.go_out fs') (messages ++ services)
    to_write-IsStored cfg files fs fs' h stored =
        let (input, messages, services, same, request, first, second) =
          to_write-IsReturned K cfg files fs h in
        (
          input,
          messages,
          services,
          request,
          first,
          second,
          subst (All (IsStored K stores cfg.go_out fs')) same stored,
        )

    -- A run that exits with 0 has compiled the one file that the arguments name, has asked the two plugins
    -- with one request for it, and has stored every file that they returned, under the directory and
    -- with its content; if a write that succeeds can be read back and leaves files of other base names
    -- alone, making a directory leaves all files alone, and the path that a returned file is written to
    -- keeps its base name.
    pub run_stored :
        (args : List String) (fs : FS)
        → ((cfg : Config) (tool : String) (input : Bytes) (files : List Generated)
            → parse_args K args ≡ done cfg
            → IsReturned K tool input files
            → All (KeepsBase K stores cfg.go_out) files)
        → (run K args fs).0 ≡ 0
        → (cfg : Config) × (input : Bytes) × (messages services : List Generated) × (parse_args K
              args
            ≡ done cfg)
          × IsRequest K cfg fs input
          × IsReturned K "protoc-gen-go" input messages
          × IsReturned K "protoc-gen-go-grpc" input services
          × All (IsStored K stores cfg.go_out (run K args fs).1) (messages ++ services)
    unfolding run
    run_stored args fs keeps ended =
        let (cfg, files, parsed, produced, stored) =
          configured (parse_args K args) fs
            (λ cfg files parsed produced.
              let (input, messages, services, same, request, first, second) =
                to_write-IsReturned K cfg files fs produced in
              subst (All (KeepsBase K stores cfg.go_out)) (sym same) (
                All-append _ messages services
                  (keeps cfg "protoc-gen-go" input messages parsed first)
                  (keeps cfg "protoc-gen-go-grpc" input services parsed second)))
            ended in
        let (input, messages, services, request, first, second, all) =
          to_write-IsStored cfg files fs (run K args fs).1 produced stored in
        (cfg, input, messages, services, parsed, request, first, second, all)
