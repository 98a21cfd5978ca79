-- ===== src/Commentcheck/Check.antt =====
-- tools/commentcheck/main.go: the walk over the directories, the report and the exit codes. A walk is the
-- calls that filepath.WalkDir makes of its function, which it stops at the first error.
mod Walk
mod Grouping
pub mod RangeOrder
pub mod Clean
use herrscher_transport.Prelude.{
  ℕ, zero, ◌-◌, Bool, true, false, not, ◌||◌, ◌&&◌, ℤ, pos, negsuc, Option, none, some, List, [],
  ◌∷◌, ◌++◌, String, nat_eq, ltb, map, if◌then◌else◌,
}
use herrscher_transport.Commentcheck.Text.{Text, codes, same, contains_text, has_suffix}
use herrscher_transport.Commentcheck.Syntax.{File, ParsedFile}
use herrscher_transport.Commentcheck.Packages.{Packages}
use herrscher_transport.Commentcheck.Report.{
  OsError, Failure, Parse, Kind, Visit, World, exit_clean, exit_stray, exit_usage, exit_no_input,
  exit_io_error, Outcome, compare_findings, cannot_read, location, reason_text, failure_text,
  line_of, report, err_no_directory, join_lines, done, failed, cannot_parse, unreadable_path,
  parsed, syntax_error, read_error, directory, regular, special,
}
use herrscher_transport.Commentcheck.Directives.{generator_outputs}
use herrscher_transport.Commentcheck.Comments.{
  Reason, refused, nolint_refused, unreadable, Position, Finding, stray_comments,
}

-- byDirectory[directory] = append(byDirectory[directory], file)
abbrev pub file_under :
    Text → ParsedFile → List (Text × List ParsedFile) → List (Text × List ParsedFile)
file_under at_dir file [] = (at_dir, file ∷ []) ∷ []
file_under at_dir file ((d, files) ∷ m) =
    if same d at_dir then (d, files ++ file ∷ []) ∷ m else (d, files) ∷ file_under at_dir file m

-- The variables of straysUnder.
pub record Walked : Type 0 where
  pub by_directory : List (Text × List ParsedFile)
  pub found : List Finding

module _ (P : Packages) (W : World) where
  open P use {dir, base}
  open W use {
    walk, parse_file, position_of, ext, sort_func, quote, decimal, stdout_takes, stdout_error,
    stderr_takes,
  }

  -- parseGoFile, of what the parser returns
  abbrev pub parse_go_file : Text → Parse → Outcome File
  parse_go_file path (parsed file) = done file
  parse_go_file path (syntax_error position) = failed (cannot_parse position)
  parse_go_file path (read_error e) = failed (cannot_read path e)

  abbrev pub add_file : Text → Walked → Outcome File → Outcome Walked
  add_file path w (failed e) = failed e
  add_file path w (done file) = done (record w {
    by_directory = file_under (dir path) (record { path = path; file = file }) w.by_directory;
  })

  abbrev pub visit_kind : Text → Walked → Kind → Outcome Walked
  visit_kind path w directory = done w
  visit_kind path w special = done (record w {
    found =
        w.found
        ++ record {
          position = record { filename = path; line = 0; column = 0 };
          reason = unreadable;
        }
          ∷ [];
  })
  visit_kind path w regular =
      if not (same (ext path) (codes ".go"))
      then done w
      else add_file path w (parse_go_file path (parse_file path))

  abbrev pub visit_path : Text → Kind → Option OsError → Walked → Outcome Walked
  visit_path path kind (some e) w = failed (cannot_read path e)
  visit_path path kind none w = visit_kind path w kind

  -- filepath.WalkDir with the function of straysUnder
  unfoldable pub visit_all : List Visit → Walked → Outcome Walked
  visit_all [] w = done w
  visit_all (v ∷ visits) w = elim (visit_path v.path v.kind v.error w) [
    | failed e ↦ failed e
    | done w' ↦ visit_all visits w'
  ]

  -- The findings in the files of a directory, whose generators write `outputs`.
  abbrev pub directory_findings : List Text → List ParsedFile → List Finding
  directory_findings outputs [] = []
  directory_findings outputs (candidate ∷ files) =
      stray_comments P position_of candidate.path candidate.file
        (contains_text outputs (base candidate.path))
      ++ directory_findings outputs files

  -- The loop over the map, in the order of its first keys; Go's order is any.
  abbrev pub map_findings : List (Text × List ParsedFile) → List Finding
  map_findings [] = []
  map_findings ((d, files) ∷ m) =
      directory_findings (generator_outputs P files) files ++ map_findings m

  abbrev pub all_findings : Walked → List Finding
  all_findings w = w.found ++ map_findings w.by_directory

  abbrev pub report_lines : Outcome Walked → Outcome (List Text)
  report_lines (failed e) = failed e
  report_lines (done w) = done (map (line_of W) (sort_func compare_findings (all_findings w)))

  -- straysUnder
  unfoldable pub strays_under : Text → Outcome (List Text)
  unfolding visit_all compare_findings
  strays_under root =
      report_lines (visit_all (walk root) (record { by_directory = []; found = [] }))

  -- The loop of check over the directories.
  unfoldable pub strays_of : List Text → Outcome (List Text)
  unfolding strays_under
  strays_of [] = done []
  strays_of (d ∷ dirs) = elim (strays_under d) [
    | failed e ↦ failed e
    | done found ↦ elim (strays_of dirs) [
      | failed e ↦ failed e
      | done others ↦ done (found ++ others)
    ]
  ]

  unfoldable pub end_check : Outcome (List Text) → ℕ
  end_check (failed e) = report W (failure_text W e) exit_no_input
  end_check (done []) = exit_clean
  end_check (done (line ∷ lines)) =
      if not (stdout_takes (join_lines W (line ∷ lines) ++ codes "\n"))
      then report W stdout_error exit_io_error
      else exit_stray

  -- check
  unfoldable pub check : List Text → ℕ
  unfolding end_check strays_of
  check [] = report W err_no_directory exit_usage
  check (d ∷ dirs) = end_check (strays_of (d ∷ dirs))
