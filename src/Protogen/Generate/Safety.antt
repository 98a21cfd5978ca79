-- ===== src/Protogen/Generate/Safety.antt =====
-- tools/protogen/main.go: what the exit codes say about the file system.
use herrscher_transport.Prelude.{◌≡◌, refl, ◌≢◌, ◌⊎◌, inl, inr, String, List, [], ◌∷◌}
use herrscher_transport.Protogen.Flags.{Config}
use herrscher_transport.Protogen.Generate.{
  Failure, Outcome, done, failed, Generated, Kit, parse_args, write_files, to_write, exit_code, run,
  run_config, written, then_on, generated_dir_mode, generated_file_mode,
}

module _ {FS : Type 0} (K : Kit FS) where
  abbrev Ends : Outcome Failure (Unit {0}) × FS → Type 0
  Ends r = (exit_code r.0 ≡ 0) ⊎ (exit_code r.0 ≡ 74)

  stops_or_goes_on :
      (step : Outcome String (Unit {0}) × FS) (next : FS → Outcome Failure (Unit {0}) × FS)
      → ((fs : FS) → Ends (next fs))
      → Ends (then_on K step next)
  unfolding exit_code
  stops_or_goes_on (done u, fs) next h = h fs
  stops_or_goes_on (failed e, fs) next h = inr refl

  write_files-Ends :
      (go_out : String) (files : List Generated) (fs : FS) → Ends (write_files K go_out files fs)
  unfolding write_files exit_code
  write_files-Ends go_out [] fs = inl refl
  write_files-Ends go_out (f ∷ files) fs =
      let put =
        λ (fs1 : FS). K.write_file (K.join_path go_out f.name) f.content generated_file_mode fs1 in
      stops_or_goes_on (K.mkdir_all (K.dir (K.join_path go_out f.name)) generated_dir_mode fs)
        (λ fs1. then_on K (put fs1) (write_files K go_out files))
        (λ fs1.
          stops_or_goes_on (put fs1) (write_files K go_out files) (write_files-Ends go_out files))

  written_unless :
      (go_out : String) (outcome : Outcome Failure (List Generated)) (fs : FS)
      → exit_code (written K go_out outcome fs).0 ≢ 0
      → exit_code (written K go_out outcome fs).0 ≢ 74
      → (written K go_out outcome fs).1 ≡ fs
  unfolding written
  written_unless go_out (failed e) fs n m = refl
  written_unless go_out (done files) fs n m = elim (write_files-Ends go_out files fs) [
    | inl z ↦ absurd (n z)
    | inr z ↦ absurd (m z)
  ]

  config_unless :
      (parsed : Outcome Failure Config) (fs : FS)
      → (run_config K parsed fs).0 ≢ 0
      → (run_config K parsed fs).0 ≢ 74
      → (run_config K parsed fs).1 ≡ fs
  unfolding run_config
  config_unless (failed e) fs n m = refl
  config_unless (done cfg) fs n m = written_unless cfg.go_out (to_write K cfg fs) fs n m

  -- When run exits with a code that is neither 0 nor 74, the file system is as it was: a bad command
  -- line, a proto file that cannot be read or compiled, a plugin that fails, or plugins that
  -- return other files than were asked for, write nothing.
  pub run_unwritten :
      (args : List String) (fs : FS)
      → (run K args fs).0 ≢ 0
      → (run K args fs).0 ≢ 74
      → (run K args fs).1 ≡ fs
  unfolding run
  run_unwritten args fs ok io = config_unless (parse_args K args) fs ok io
