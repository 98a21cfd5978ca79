-- ===== src/Commentcheck/Check/Clean.antt =====
-- main.go: when the command exits with exitClean.
use herrscher_transport.Prelude.{
  ℕ, ◌≡◌, refl, sym, ◌∙◌, ap, ◌↔◌, inl, inr, List, [], ◌∷◌, ◌++◌, All, Bool-cases, not, ℤ, ◌<◌,
  arith,
}
use herrscher_transport.Commentcheck.Empty.{append-eq-nil, map-eq-nil, nonzero, if_positive}
use herrscher_transport.Commentcheck.Text.{Text, codes, contains_text}
use herrscher_transport.Commentcheck.Syntax.{ParsedFile}
use herrscher_transport.Commentcheck.Packages.{Packages}
use herrscher_transport.Commentcheck.Directives.{generator_outputs}
use herrscher_transport.Commentcheck.Comments.{Finding}
use herrscher_transport.Commentcheck.Comments.Stray.{IsClean, stray_comments-IsClean}
use herrscher_transport.Commentcheck.Report.{
  Failure, special, Visit, World, Outcome, done, failed, line_of, report, join_lines, failure_text,
}
use herrscher_transport.Commentcheck.Check.{
  Walked, directory_findings, map_findings, all_findings, report_lines, strays_under, strays_of,
  end_check, check,
}
use herrscher_transport.Commentcheck.Check.Walk.{
  IsReadable, go_files, add_files, gather_all, visit_all_cases, found-gather_all,
  by_directory-gather_all,
}
use herrscher_transport.Commentcheck.Check.Grouping.{files_in, add_files_iff}

failed-done : {A : Type 0} (e : Failure) (a : A) → ¬ (failed e ≡ done a)
failed-done e a h = cc

done-injective : {A : Type 0} {a b : A} → done a ≡ done b → a ≡ b
done-injective h = cc

-- Two outcomes as check's loop puts them together.
join-done :
    (first rest : Outcome (List Text))
    → ((elim first as (λ _. Outcome (List Text)) [
      | failed e ↦ failed e
      | done found ↦ elim rest as (λ _. Outcome (List Text)) [
        | failed e ↦ failed e
        | done others ↦ done (found ++ others)
      ]
    ])
        ≡ done [])
      ↔ ((first ≡ done []) × (rest ≡ done []))
join-done (failed e) rest = ((λ h. cc), (λ (p, q). cc))
join-done (done found) (failed e) = ((λ h. cc), (λ (p, q). cc))
join-done (done found) (done others) = (
  (λ h. let (p, q) = (append-eq-nil found others).0 (done-injective h) in (ap done p, ap done q)),
  (λ (p, q). ap done ((append-eq-nil found others).1 (done-injective p, done-injective q))),
)

abbrev nothing : Walked
nothing = record { by_directory = []; found = [] }

module _ (P : Packages) (W : World) where
  open P use {base}
  open W use {walk, position_of, sort_func}

  -- The Go files of one directory have no stray comment; their //go:generate lines count for each other.
  abbrev pub AreClean : List ParsedFile → Type 0
  AreClean files =
      All
        (λ c.
          IsClean P position_of c.path c.file
            (contains_text (generator_outputs P files) (base c.path)))
        files

  -- Every path under the root can be read, its Go files parse, it has no link or special file, and the
  -- Go files of every directory under it have no stray comment.
  abbrev pub IsCleanTree : Text → Type 0
  IsCleanTree root =
      All (IsReadable P W) (walk root)
      × All (λ v. ¬ (v.kind ≡ special)) (walk root)
      × ((d : Text) → AreClean (files_in P W d (go_files P W (walk root))))

  directory_findings_none :
      (outputs : List Text) (files : List ParsedFile)
      → (directory_findings P W outputs files ≡ [])
        ↔ All (λ c. IsClean P position_of c.path c.file (contains_text outputs (base c.path))) files
  directory_findings_none outputs [] = ((λ h. tt), (λ h. refl))
  directory_findings_none outputs (c ∷ files) =
      let (to, from) =
        stray_comments-IsClean P position_of c.path c.file (contains_text outputs (base c.path)) in
      (
        (λ h.
            let (p, q) = (append-eq-nil _ _).0 h in
            (to p, (directory_findings_none outputs files).0 q)),
        (λ (p, q). (append-eq-nil _ _).1 (from p, (directory_findings_none outputs files).1 q)),
      )

  map_findings_none :
      (m : List (Text × List ParsedFile))
      → (map_findings P W m ≡ []) ↔ All (λ entry. AreClean entry.1) m
  map_findings_none [] = ((λ h. tt), (λ h. refl))
  map_findings_none ((d, files) ∷ m) =
      let (to, from) = directory_findings_none (generator_outputs P files) files in
      (
        (λ h. let (p, q) = (append-eq-nil _ _).0 h in (to p, (map_findings_none m).0 q)),
        (λ (p, q). (append-eq-nil _ _).1 (from p, (map_findings_none m).1 q)),
      )

  all_findings_none :
      (visits : List Visit)
      → (all_findings P W (gather_all P W visits nothing) ≡ []) ↔ (
          All (λ v. ¬ (v.kind ≡ special)) visits
          × ((d : Text) → AreClean (files_in P W d (go_files P W visits))))
  all_findings_none visits =
      let (special_to, special_from) = found-gather_all P W visits nothing in
      let (dirs_to, dirs_from) = add_files_iff P W AreClean tt (go_files P W visits) in
      let by_dirs = by_directory-gather_all P W visits nothing in
      let (maps_to, maps_from) = map_findings_none (add_files P W (go_files P W visits) []) in
      (
        (λ h.
            let (p, q) = (append-eq-nil _ _).0 h in
            ((special_to p).1, dirs_to (maps_to (ap (λ m. map_findings P W m) (sym by_dirs) ∙ q)))),
        (λ (n, f). (append-eq-nil _ _).1 (
          special_from (refl, n),
          ap (λ m. map_findings P W m) by_dirs ∙ maps_from (dirs_from f),
        )),
      )

  -- slices.SortFunc neither adds nor drops an element.
  abbrev SortsFindings : Type 0
  SortsFindings =
      (order : Finding → Finding → ℤ) (found : List Finding)
      → (sort_func order found ≡ []) ↔ (found ≡ [])

  report_lines_none :
      (sorts : SortsFindings) (w : Walked)
      → (report_lines P W (done w) ≡ done []) ↔ (all_findings P W w ≡ [])
  report_lines_none sorts w = (
    (λ h. (sorts _ _).0 ((map-eq-nil (line_of W) _).0 (done-injective h))),
    (λ h. ap done ((map-eq-nil (line_of W) _).1 ((sorts _ _).1 h))),
  )

  strays_under-IsCleanTree :
      (sorts : SortsFindings) (root : Text) → (strays_under P W root ≡ done []) ↔ IsCleanTree root
  unfolding strays_under
  strays_under-IsCleanTree sorts root = elim (visit_all_cases P W (walk root) nothing) [
    | inr (h, e, eq) ↦ (
      (λ out. absurd (failed-done e [] (rw (strays_under, eq) at out))),
      (λ (hs, rest, clean). absurd (h hs)),
    )
    | inl (hs, eq) ↦ (
      (λ out.
          let (no_special, clean) = (all_findings_none (walk root)).0 (
            (report_lines_none sorts (gather_all P W (walk root) nothing)).0
              (rw (strays_under, eq) at out)) in
          (hs, no_special, clean)),
      (λ (hs', no_special, clean).
          rw (strays_under, eq)
            ((report_lines_none sorts (gather_all P W (walk root) nothing)).1
              ((all_findings_none (walk root)).1 (no_special, clean)))),
    )
  ]

  strays_of-IsCleanTree :
      (sorts : SortsFindings) (dirs : List Text)
      → (strays_of P W dirs ≡ done []) ↔ All IsCleanTree dirs
  unfolding strays_of
  strays_of-IsCleanTree sorts [] = ((λ h. tt), (λ h. refl))
  strays_of-IsCleanTree sorts (d ∷ dirs) =
      let (first, first') = strays_under-IsCleanTree sorts d in
      let (rest, rest') = strays_of-IsCleanTree sorts dirs in
      let (join, join') = join-done (strays_under P W d) (strays_of P W dirs) in
      ((λ h. let (p, q) = join h in (first p, rest q)), (λ (p, q). join' (first' p, rest' q)))

  report_nonzero : (message : Text) (code : ℕ) → 0 < code → 0 < report W message code
  report_nonzero message code h =
      elim (Bool-cases (W.stderr_takes (codes "commentcheck: " ++ (message ++ codes "\n")))) [
        | inl takes ↦ ground arith
        | inr fails ↦ ground arith
      ]

  end_check_clean : (out : Outcome (List Text)) → (end_check P W out ≡ 0) ↔ (out ≡ done [])
  unfolding end_check
  end_check_clean (failed e) = (
    (λ h. let code = report_nonzero (failure_text W e) 66 (omega arith) in absurd (nonzero code h)),
    (λ h. cc),
  )
  end_check_clean (done []) = ((λ h. refl), (λ h. refl))
  end_check_clean (done (line ∷ lines)) = (
    (λ h.
        let code =
          if_positive (not (W.stdout_takes (join_lines W (line ∷ lines) ++ codes "\n"))) 0
            (report_nonzero W.stdout_error 74 (omega arith)) in
        absurd (nonzero code h)),
    (λ h. cc),
  )

  -- Where slices.SortFunc keeps the empty list, and only it, empty: the command exits with 0 exactly
  -- when it is given a directory and every tree it is given is clean.
  pub check-IsCleanTree :
      (sorts : SortsFindings) (dirs : List Text)
      → (check P W dirs ≡ 0) ↔ (¬ (dirs ≡ []) × All IsCleanTree dirs)
  unfolding check
  check-IsCleanTree sorts [] = (
    (λ h.
        let code = report_nonzero (codes "give at least one directory to check") 2 (omega arith) in
        absurd (nonzero code h)),
    (λ (p, q). absurd (p refl)),
  )
  check-IsCleanTree sorts (d ∷ dirs) =
      let (out, out') = end_check_clean (strays_of P W (d ∷ dirs)) in
      let (clean, clean') = strays_of-IsCleanTree sorts (d ∷ dirs) in
      ((λ h. ((λ p. cc), clean (out h))), (λ (p, q). out' (clean' q)))
