-- ===== src/Commentcheck/Report.antt =====
-- tools/commentcheck/main.go: what the command meets, and what it reports. The trees, the files, its two
-- outputs, and what fmt and slices supply are a parameter.
pub mod Order
use herrscher_transport.Prelude.{
  ℕ, zero, ◌-◌, Bool, not, ℤ, pos, negsuc, Option, none, some, List, [], ◌∷◌, ◌++◌, nat_eq, ltb,
  if◌then◌else◌,
}
use herrscher_transport.Commentcheck.Text.{Text, codes}
use herrscher_transport.Commentcheck.Syntax.{File}
use herrscher_transport.Commentcheck.Comments.{
  Reason, refused, nolint_refused, unreadable, Position, Finding,
}

-- An error of os or of io/fs: its text, and the error in it, if it is an fs.PathError.
pub record OsError : Type 0 where
  pub text : Text
  pub inner : Option Text

pub data Failure : Type 0 where
  cannot_parse : Position → Failure
  unreadable_path : (path reason : Text) → Failure

-- What parser.ParseFile returns: a file, a list of syntax errors by the position of the first, or
-- another error.
pub data Parse : Type 0 where
  parsed : File → Parse
  syntax_error : Position → Parse
  read_error : OsError → Parse

pub data Kind : Type 0 where
  directory regular special : Kind

-- A call of the function that WalkDir is given.
pub record Visit : Type 0 where
  pub path : Text
  pub kind : Kind
  pub error : Option OsError

-- What the command meets: the trees, the files, its two outputs, and what fmt and slices supply.
pub record World : Type 0 where
  pub walk : Text → List Visit
  pub parse_file : Text → Parse
  -- FileSet.Position. straysUnder has a file set for each root; they differ in a base that they add to
  -- the positions of a file and take off again, so one function, with one parse, answers for all.
  pub position_of : ℕ → Position
  pub ext : Text → Text
  pub sort_func : (Finding → Finding → ℤ) → List Finding → List Finding
  pub quote : Text → Text
  pub decimal : ℕ → Text
  -- fmt.Fprintln on stdout and fmt.Fprintf on stderr have no error
  pub stdout_takes : Text → Bool
  pub stdout_error : Text
  pub stderr_takes : Text → Bool

abbrev pub exit_clean : ℕ
exit_clean = 0

abbrev pub exit_stray : ℕ
exit_stray = 1

abbrev pub exit_usage : ℕ
exit_usage = 2

abbrev pub exit_no_input : ℕ
exit_no_input = 66

abbrev pub exit_io_error : ℕ
exit_io_error = 74

pub data Outcome (A : Type 0) : Type 0 where
  done : A → Outcome A
  failed : Failure → Outcome A

-- strings.Compare; UTF-8 sorts as its code points do.
abbrev compare_texts : Text → Text → ℤ
compare_texts [] [] = pos 0
compare_texts [] (b ∷ t) = negsuc 0
compare_texts (a ∷ s) [] = pos 1
compare_texts (a ∷ s) (b ∷ t) =
    if ltb a b then negsuc 0 else if ltb b a then pos 1 else compare_texts s t

-- a - b on int
abbrev difference : ℕ → ℕ → ℤ
difference a b = if ltb a b then negsuc (b - a - 1) else pos (a - b)

abbrev unless_equal : ℤ → ℤ → ℤ
unless_equal (pos zero) other = other
unless_equal order other = order

-- compareFindings
unfoldable pub compare_findings : Finding → Finding → ℤ
compare_findings first second =
    unless_equal (compare_texts first.position.filename second.position.filename) (
      unless_equal (difference first.position.line second.position.line)
        (difference first.position.column second.position.column))

abbrev inner_or_text : OsError → Option Text → Text
inner_or_text e none = e.text
inner_or_text e (some inner) = inner

-- cannotRead
abbrev pub cannot_read : Text → OsError → Failure
cannot_read path e = unreadable_path path (inner_or_text e e.inner)

-- errNoDirectory and errNotGoSource
abbrev pub err_no_directory : Text
err_no_directory = codes "give at least one directory to check"

abbrev pub err_not_go_source : Text
err_not_go_source = codes "not valid Go source"

module _ (W : World) where
  open W use {quote, decimal, stderr_takes}

  -- location
  abbrev pub location : Position → Text
  location p =
      if nat_eq p.line 0
      then quote p.filename
      else quote p.filename ++ (b':' ∷ (decimal p.line ++ (b':' ∷ decimal p.column)))

  -- refusedReason, nolintReason, unreadableReason
  abbrev pub reason_text : Reason → Text
  reason_text refused =
      codes
        "comment refused (decision 1): only the docs of exported identifiers, the known //go: directives and example outputs are allowed"
  reason_text nolint_refused =
      codes
        "//nolint is refused (decision 4): fix the code, or exclude the lint by path and text in .golangci.yml"
  reason_text unreadable =
      codes
        "not checked (decision 1): only regular files and directories are read, so a symbolic link or special file is refused"

  -- The text of the errors of parseGoFile and cannotRead.
  abbrev pub failure_text : Failure → Text
  failure_text (cannot_parse position) =
      codes "cannot parse " ++ (location position ++ (codes ": " ++ err_not_go_source))
  failure_text (unreadable_path path reason) =
      codes "cannot read " ++ (quote path ++ (codes ": " ++ reason))

  abbrev pub line_of : Finding → Text
  line_of item = location item.position ++ (b':' ∷ b' ' ∷ reason_text item.reason)

  -- report
  abbrev pub report : Text → ℕ → ℕ
  report message code =
      if not (stderr_takes (codes "commentcheck: " ++ (message ++ codes "\n")))
      then exit_io_error
      else code

  -- strings.Join(strays, "\n")
  abbrev pub join_lines : List Text → Text
  join_lines [] = []
  join_lines (line ∷ []) = line
  join_lines (line ∷ next ∷ lines) = line ++ (b'\n' ∷ join_lines (next ∷ lines))
