-- ===== src/Commentcheck/Tools.antt =====
-- tools/commentcheck/directives.go: the tools that the go.mod above a directory declares.
pub mod Root
use herrscher_transport.Prelude.{
  ℕ, zero, suc, Bool, true, false, Option, none, some, List, [], ◌∷◌, length, nat_eq, if◌then◌else◌,
  map,
}
use herrscher_transport.Commentcheck.Text.{Text, codes, same}
use herrscher_transport.Commentcheck.Packages.{Packages}

abbrev pub tool_directive : Text
tool_directive = codes "tool"

-- A line of go.mod outside a tool block: "tool (", "tool NAME", or any other.
pub data Line : Type 0 where
  opens_block : Line
  names_tool : Text → Line
  says_nothing : Line

module _ (P : Packages) where
  open P use {is_space, join, base, dir, abs, exists, read_file}

  -- The loop of moduleRoot. The directories above a path are as many as its length at most.
  unfoldable pub module_root_from : ℕ → Text → Option Text
  module_root_from zero current = none
  module_root_from (suc fuel) current =
      let above = module_root_from fuel (dir current) in
      if exists (join current (codes "go.mod"))
      then some current
      else if same (dir current) current
      then none
      else above

  abbrev root_above : Option Text → Option Text
  root_above none = none
  root_above (some absolute) = module_root_from (suc (length absolute)) absolute

  -- moduleRoot
  unfoldable pub module_root : Text → Option Text
  unfolding module_root_from
  module_root directory = root_above (abs directory)

  abbrev end_word : Text × List Text → List Text
  end_word ([], words) = words
  end_word (c ∷ word, words) = (c ∷ word) ∷ words

  abbrev put_char : ℕ → Text × List Text → Text × List Text
  put_char c (word, words) = (c ∷ word, words)

  -- The word at the start of a text, and the words behind it.
  abbrev split_words : Text → Text × List Text
  split_words [] = ([], [])
  split_words (c ∷ s) =
      if is_space c then ([], end_word (split_words s)) else put_char c (split_words s)

  -- strings.Fields
  abbrev fields : Text → List Text
  fields s = end_word (split_words s)

  abbrev end_line : Text × List Text → Text × List Text
  end_line (line, lines) = ([], line ∷ lines)

  abbrev split_lines : Text → Text × List Text
  split_lines [] = ([], [])
  split_lines (c ∷ s) =
      if nat_eq c b'\n' then end_line (split_lines s) else put_char c (split_lines s)

  -- strings.Lines, without the line feeds, and with an empty last line, which has no words.
  abbrev lines_of : Text → List Text
  lines_of s = (split_lines s).0 ∷ (split_lines s).1

  -- What a line outside a tool block does.
  abbrev line_kind : Text → List Text → Line
  line_kind first (second ∷ []) =
      if same first tool_directive
      then if same second (codes "(") then opens_block else names_tool second
      else says_nothing
  line_kind first others = says_nothing

  -- The loop of declaredTools; the flag is inToolBlock.
  unfoldable pub tools_from : Bool → List (List Text) → List Text
  tools_from inside [] = []
  tools_from inside ([] ∷ lines) = tools_from inside lines
  tools_from true ((word ∷ words) ∷ lines) =
      let outside = tools_from false lines in
      let others = tools_from true lines in
      if same word (codes ")") then outside else word ∷ base word ∷ others
  tools_from false ((word ∷ words) ∷ lines) = elim (line_kind word words) [
    | opens_block ↦ tools_from true lines
    | names_tool tool ↦ tool ∷ base tool ∷ tools_from false lines
    | says_nothing ↦ tools_from false lines
  ]

  tools_in : Option Text → List Text
  unfolding tools_from
  tools_in none = []
  tools_in (some manifest) = tools_from false (map fields (lines_of manifest))

  tools_at : Option Text → List Text
  unfolding tools_in
  tools_at none = []
  tools_at (some root) = tools_in (read_file (join root (codes "go.mod")))

  -- declaredTools
  unfoldable pub declared_tools : Text → List Text
  unfolding tools_at module_root
  declared_tools directory = tools_at (module_root directory)
