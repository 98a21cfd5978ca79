-- ===== src/Commentcheck/Directives/Named.antt =====
-- directives.go, generatorOutputs: the files that the generators of a package name as their outputs.
use herrscher_transport.Prelude.{
  ◌≡◌, refl, sym, ◌∙◌, ◌↔◌, inl, inr, Bool, true, false, ◌&&◌, List, [], ◌∷◌, Any, Bool-cases,
  if◌then◌else◌,
}
use herrscher_transport.Commentcheck.Text.{Text, codes, same, same_iff, contains_text}
use herrscher_transport.Commentcheck.Syntax.{Comment, Group, ParsedFile}
use herrscher_transport.Commentcheck.Packages.{Packages}
use herrscher_transport.Commentcheck.Directives.{
  split_directive, is_known_directive, output_flag_values, line_outputs, group_outputs,
  file_outputs, generator_outputs,
}
use herrscher_transport.Commentcheck.Directives.Flags.{false-ne-true}
use herrscher_transport.Commentcheck.Directives.Outputs.{IsOutput, either_iff, values_of, values_in}

under_tests :
    (a b : Bool) (xs : List Text) (t : Text)
    → (contains_text (if a && b then xs else []) t ≡ true)
      ↔ ((a ≡ true) × (b ≡ true) × (contains_text xs t ≡ true))
under_tests true true xs t = ((λ h. (refl, refl, h)), (λ (p, q, h). h))
under_tests true false xs t =
    ((λ h. absurd (false-ne-true h)), (λ (p, q, h). absurd (false-ne-true q)))
under_tests false b xs t =
    ((λ h. absurd (false-ne-true h)), (λ (p, q, h). absurd (false-ne-true p)))

module _ (P : Packages) where
  open P use {dir}

  -- The name is an output of the generator that the line of a comment is, in a directory.
  abbrev pub IsNamedOn : Text → Text → Comment → Type 0
  IsNamedOn directory output line =
      ((split_directive P line.text).name ≡ codes "generate")
      × (is_known_directive P directory line.text ≡ true)
      × IsOutput output (split_directive P line.text).arguments

  -- The name is an output of a generator in a comment of a file that is not generated itself.
  abbrev pub IsNamed : Text → ParsedFile → Type 0
  IsNamed output candidate =
      (candidate.file.generated ≡ false)
      × Any (λ group. Any (IsNamedOn (dir candidate.path) output) group.lines)
          candidate.file.comments

  line_iff :
      (directory output : Text) (line : Comment)
      → (contains_text (line_outputs P directory line.text) output ≡ true)
        ↔ IsNamedOn directory output line
  unfolding line_outputs
  line_iff directory output line =
      let (to, from) =
        under_tests (same (split_directive P line.text).name (codes "generate"))
          (is_known_directive P directory line.text)
          (output_flag_values (split_directive P line.text).arguments) output in
      (
        (λ h.
            let (named, is_known, among) = to h in
            ((same_iff _ _).0 named, is_known, values_of output _ among)),
        (λ (named, is_known, is_output).
            from ((same_iff _ _).1 named, is_known, values_in is_output)),
      )

  group_iff :
      (directory output : Text) (lines : List Comment)
      → (contains_text (group_outputs P directory lines) output ≡ true)
        ↔ Any (IsNamedOn directory output) lines
  group_iff directory output [] = (false-ne-true, λ h. absurd h)
  group_iff directory output (line ∷ lines) =
      either_iff (line_outputs P directory line.text) _ output (line_iff directory output line)
        (group_iff directory output lines)

  file_iff :
      (directory output : Text) (groups : List Group)
      → (contains_text (file_outputs P directory groups) output ≡ true)
        ↔ Any (λ group. Any (IsNamedOn directory output) group.lines) groups
  file_iff directory output [] = (false-ne-true, λ h. absurd h)
  file_iff directory output (group ∷ groups) =
      either_iff (group_outputs P directory group.lines) _ output
        (group_iff directory output group.lines) (file_iff directory output groups)

  candidate_iff :
      (output : Text) (candidate : ParsedFile)
      → (contains_text
            (if candidate.file.generated
              then []
              else file_outputs P (dir candidate.path) candidate.file.comments)
            output
          ≡ true)
        ↔ IsNamed output candidate
  candidate_iff output candidate = elim (Bool-cases candidate.file.generated) [
    | inl is ↦ (
      (λ h. let bad : false ≡ true = rw is at h in absurd (false-ne-true bad)),
      (λ (not_so, h). absurd (false-ne-true (sym not_so ∙ is))),
    )
    | inr own ↦
        let (to, from) = file_iff (dir candidate.path) output candidate.file.comments in
        ((λ h. (own, to (rw own at h))), (λ (also, h). rw own (from h)))
  ]

  -- A name is among the outputs of the generators of a package exactly when, in a file that is not
  -- generated itself, a line of a comment is a known //go:generate directive with the name behind the
  -- "=" of a flag -output or -o, or as the argument after one.
  pub generator_outputs_iff :
      (files : List ParsedFile) (output : Text)
      → (contains_text (generator_outputs P files) output ≡ true) ↔ Any (IsNamed output) files
  unfolding generator_outputs
  generator_outputs_iff [] output = (false-ne-true, λ h. absurd h)
  generator_outputs_iff (candidate ∷ files) output =
      either_iff _ _ output (candidate_iff output candidate) (generator_outputs_iff files output)
