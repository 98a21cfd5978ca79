-- ===== src/Commentcheck/Check/Walk.antt =====
-- main.go, straysUnder: what a walk that fails on nothing has gathered.
use herrscher_transport.Prelude.{
  ◌≡◌, refl, sym, ◌↔◌, ◌⊎◌, inl, inr, Bool, true, false, Option, none, some, List, [], ◌∷◌, ◌++◌,
  All, not, if◌then◌else◌,
}
use herrscher_transport.Commentcheck.Text.{Text, codes, same}
use herrscher_transport.Commentcheck.Syntax.{ParsedFile}
use herrscher_transport.Commentcheck.Packages.{Packages}
use herrscher_transport.Commentcheck.Comments.{unreadable, Finding}
use herrscher_transport.Commentcheck.Report.{
  Failure, OsError, Parse, parsed, syntax_error, read_error, Kind, directory, regular, special,
  Visit, World, done, failed,
}
use herrscher_transport.Commentcheck.Check.{
  Walked, file_under, visit_kind, visit_path, visit_all, parse_go_file, add_file,
}

-- A Go file among the visited paths must parse; `true` is for the extension.
abbrev IsParsed : Kind → Bool → Parse → Type 0
IsParsed regular true (syntax_error p) = ⊥
IsParsed regular true (read_error e) = ⊥
IsParsed _ _ _ = Unit

abbrev file_of : Text → Kind → Bool → Parse → List ParsedFile
file_of path regular true (parsed file) = record { path = path; file = file } ∷ []
file_of path _ _ _ = []

abbrev with_special : Text → Kind → List Finding → List Finding
with_special path special found =
    found
    ++ record { position = record { filename = path; line = 0; column = 0 }; reason = unreadable }
      ∷ []
with_special path _ found = found

module _ (P : Packages) (W : World) where
  open P use {dir}
  open W use {parse_file, ext}

  abbrev is_go : Text → Bool
  is_go path = same (ext path) (codes ".go")

  -- The walk met no error at the path, and its Go file parses.
  abbrev pub IsReadable : Visit → Type 0
  IsReadable v = (v.error ≡ none) × IsParsed v.kind (is_go v.path) (parse_file v.path)

  -- The Go files of a walk.
  abbrev pub go_files : List Visit → List ParsedFile
  go_files [] = []
  go_files (v ∷ visits) =
      file_of v.path v.kind (is_go v.path) (parse_file v.path) ++ go_files visits

  abbrev pub add_files :
      List ParsedFile → List (Text × List ParsedFile) → List (Text × List ParsedFile)
  add_files [] m = m
  add_files (file ∷ files) m = add_files files (file_under (dir file.path) file m)

  abbrev gather : Text → Kind → Bool → Parse → Walked → Walked
  gather path kind go parse w = record {
    by_directory = add_files (file_of path kind go parse) w.by_directory;
    found = with_special path kind w.found;
  }

  abbrev pub gather_all : List Visit → Walked → Walked
  gather_all [] w = w
  gather_all (v ∷ visits) w =
      gather_all visits (gather v.path v.kind (is_go v.path) (parse_file v.path) w)

  visit_regular_cases :
      (path : Text) (go : Bool) (parse : Parse) (w : Walked)
      → (IsParsed regular go parse
          × ((if not go then done w else add_file P W path w (parse_go_file P W path parse))
              ≡ done (gather path regular go parse w)))
        ⊎ (¬ IsParsed regular go parse
            × (e : Failure) × ((if not go
                  then done w
                  else add_file P W path w (parse_go_file P W path parse))
                ≡ failed e))
  visit_regular_cases path false parse w = inl (tt, refl)
  visit_regular_cases path true (parsed file) w = inl (tt, refl)
  visit_regular_cases path true (syntax_error p) w = inr ((λ h. h), _, refl)
  visit_regular_cases path true (read_error e) w = inr ((λ h. h), _, refl)

  visit_kind_cases :
      (path : Text) (kind : Kind) (w : Walked)
      → (IsParsed kind (is_go path) (parse_file path)
          × (visit_kind P W path w kind ≡ done (gather path kind (is_go path) (parse_file path) w)))
        ⊎ (¬ IsParsed kind (is_go path) (parse_file path)
            × (e : Failure) × (visit_kind P W path w kind ≡ failed e))
  visit_kind_cases path directory w = inl (tt, refl)
  visit_kind_cases path special w = inl (tt, refl)
  visit_kind_cases path regular w = visit_regular_cases path (is_go path) (parse_file path) w

  visit_path_cases :
      (path : Text) (kind : Kind) (error : Option OsError) (w : Walked)
      → (((error ≡ none) × IsParsed kind (is_go path) (parse_file path))
          × (visit_path P W path kind error w
              ≡ done (gather path kind (is_go path) (parse_file path) w)))
        ⊎ (¬ ((error ≡ none) × IsParsed kind (is_go path) (parse_file path))
            × (e : Failure) × (visit_path P W path kind error w ≡ failed e))
  visit_path_cases path kind (some e) w = inr ((λ (h, t). cc), _, refl)
  visit_path_cases path kind none w = elim (visit_kind_cases path kind w) [
    | inl (h, eq) ↦ inl ((refl, h), eq)
    | inr (h, e, eq) ↦ inr ((λ (p, q). h q), e, eq)
  ]

  pub visit_all_cases :
      (visits : List Visit) (w : Walked)
      → (All IsReadable visits × (visit_all P W visits w ≡ done (gather_all visits w)))
        ⊎ (¬ All IsReadable visits × (e : Failure) × (visit_all P W visits w ≡ failed e))
  unfolding visit_all
  visit_all_cases [] w = inl (tt, refl)
  visit_all_cases (v ∷ visits) w = elim (visit_path_cases v.path v.kind v.error w) [
    | inr (h, e, eq) ↦ inr ((λ (p, q). h p), e, rw (visit_all, eq) refl)
    | inl (h, eq) ↦
        elim (visit_all_cases visits (gather v.path v.kind (is_go v.path) (parse_file v.path) w)) [
          | inl (hs, eqs) ↦ inl ((h, hs), rw (visit_all, eq) eqs)
          | inr (hs, e, eqs) ↦ inr ((λ (p, q). hs q), e, rw (visit_all, eq) eqs)
        ]
  ]

  with_special-eq-nil :
      (path : Text) (kind : Kind) (found : List Finding)
      → (with_special path kind found ≡ []) ↔ ((found ≡ []) × ¬ (kind ≡ special))
  with_special-eq-nil path directory found = ((λ h. (h, (λ eq. cc))), (λ (h, n). h))
  with_special-eq-nil path regular found = ((λ h. (h, (λ eq. cc))), (λ (h, n). h))
  with_special-eq-nil path special [] = ((λ h. cc), (λ (h, n). absurd (n refl)))
  with_special-eq-nil path special (x ∷ found) = ((λ h. cc), (λ (h, n). absurd (n refl)))

  pub found-gather_all :
      (visits : List Visit) (w : Walked)
      → ((gather_all visits w).found ≡ [])
        ↔ ((w.found ≡ []) × All (λ v. ¬ (v.kind ≡ special)) visits)
  found-gather_all [] w = ((λ h. (h, tt)), (λ (h, t). h))
  found-gather_all (v ∷ visits) w = (
    (λ h.
        let (p, q) = (found-gather_all visits _).0 h in
        let (r, n) = (with_special-eq-nil v.path v.kind w.found).0 p in (r, (n, q))),
    (λ (r, (n, q)).
        (found-gather_all visits _).1 ((with_special-eq-nil v.path v.kind w.found).1 (r, n), q)),
  )

  add_files-append :
      (xs ys : List ParsedFile) (m : List (Text × List ParsedFile))
      → add_files (xs ++ ys) m ≡ add_files ys (add_files xs m)
  add_files-append [] ys m = refl
  add_files-append (x ∷ xs) ys m = add_files-append xs ys _

  pub by_directory-gather_all :
      (visits : List Visit) (w : Walked)
      → (gather_all visits w).by_directory ≡ add_files (go_files visits) w.by_directory
  by_directory-gather_all [] w = refl
  by_directory-gather_all (v ∷ visits) w = rw (by_directory-gather_all visits) (
      sym (
        add_files-append (file_of v.path v.kind (is_go v.path) (parse_file v.path))
          (go_files visits) w.by_directory))
