-- ===== src/Protogen/Generate/Stores.antt =====
-- tools/protogen/main.go, writeFiles: a loop that ends well has stored every file.
use herrscher_transport.Prelude.{
  neither, ℕ, ◌≡◌, refl, sym, ◌∙◌, ◌≢◌, String, List, [], ◌∷◌, All, false, ◌==◌, eq_iff, arith,
  subst,
}
use herrscher_transport.Codec.{Bytes}
use herrscher_transport.Protogen.Generate.{
  Failure, Outcome, done, failed, Generated, Kit, has_key, write_files, then_on, generated_dir_mode,
  generated_file_mode,
}
use herrscher_transport.Protogen.Generate.Sets.{IsRepeatFree}
use herrscher_transport.Protogen.Generate.Outputs.{bases}

-- What os.WriteFile and os.MkdirAll do to what os.ReadFile finds, when they succeed: the file that was
-- written has the content, and no file of another name changes.
pub record Stores {FS : Type 0} (K : Kit FS) : Type 0 where
  -- []byte(content)
  pub bytes_of : String → Bytes
  pub write_read :
      (target content : String) (mode : ℕ) (fs fs' : FS)
      → K.write_file target content mode fs ≡ (done tt, fs')
      → K.read_file target fs' ≡ done (bytes_of content)
  pub write_other :
      (target content other : String) (mode : ℕ) (found : Bytes) (fs fs' : FS)
      → K.base other ≢ K.base target
      → K.write_file target content mode fs ≡ (done tt, fs')
      → K.read_file other fs ≡ done found
      → K.read_file other fs' ≡ done found
  pub mkdir_keeps :
      (path other : String) (mode : ℕ) (found : Bytes) (fs fs' : FS)
      → K.mkdir_all path mode fs ≡ (done tt, fs')
      → K.read_file other fs ≡ done found
      → K.read_file other fs' ≡ done found

apart : (a b : String) → (a == b) ≡ false → a ≢ b
apart a b h same = ground (arith, eq_iff a b)

module _ {FS : Type 0} (K : Kit FS) (stores : Stores K) (go_out : String) where
  open stores use {bytes_of, write_read, write_other, mkdir_keeps}

  -- The path that a generated file is written to has the base name of the file.
  abbrev pub KeepsBase : Generated → Type 0
  KeepsBase f = K.base (K.join_path go_out f.name) ≡ K.base f.name

  abbrev pub IsStored : FS → Generated → Type 0
  IsStored fs f = K.read_file (K.join_path go_out f.name) fs ≡ done (bytes_of f.content)

  -- One step of the loop went well.
  then_on-done :
      (step : Outcome String (Unit {0}) × FS) (next : FS → Outcome Failure (Unit {0}) × FS)
      → (then_on K step next).0 ≡ done tt
      → (fs' : FS) × (step ≡ (done tt, fs'))
        × ((next fs').0 ≡ done tt)
        × ((then_on K step next).1 ≡ (next fs').1)
  then_on-done (done u, fs') next h = (fs', refl, h, refl)
  then_on-done (failed e, fs') next h = cc

  -- The writes went well: each file is stored, and what could be read under other names still can.
  abbrev pub AllStored : List Generated → FS → FS → Type 0
  AllStored files fs fs' =
      All (IsStored fs') files
      × ((other : String) (found : Bytes)
          → has_key (bases K files) (K.base other) ≡ false
          → K.read_file other fs ≡ done found
          → K.read_file other fs' ≡ done found)

  pub write_files-AllStored :
      (files : List Generated) (fs : FS)
      → All KeepsBase files
      → IsRepeatFree (bases K files)
      → (write_files K go_out files fs).0 ≡ done tt
      → AllStored files fs (write_files K go_out files fs).1
  unfolding write_files
  write_files-AllStored [] fs keeps once h = (tt, λ other found out same. same)
  write_files-AllStored (f ∷ files) fs (keep, keeps) (new, once) h =
      let target = K.join_path go_out f.name in
      let put = λ (s : FS). K.write_file target f.content generated_file_mode s in
      let (fs1, made, h1, end1) =
        then_on-done (K.mkdir_all (K.dir target) generated_dir_mode fs)
          (λ s. then_on K (put s) (write_files K go_out files)) h in
      let (fs2, wrote, h2, end2) = then_on-done (put fs1) (write_files K go_out files) h1 in
      let (stored, kept) = write_files-AllStored files fs2 keeps once h2 in
      let end = end1 ∙ end2 in
      subst (AllStored (f ∷ files) fs) (sym end) (
        (
          kept target (bytes_of f.content)
              (subst (λ b. has_key (bases K files) b ≡ false) (sym keep) new)
              (write_read target f.content generated_file_mode fs1 fs2 wrote),
          stored,
        ),
        λ other found out same. kept other found (neither _ _ out).1 (
            write_other target f.content other generated_file_mode found fs1 fs2
              (λ e. apart _ _ (neither _ _ out).0 (sym (e ∙ keep))) wrote
              (mkdir_keeps (K.dir target) other generated_dir_mode found fs fs1 made same)),
      )
