-- ===== src/Commentcheck/Directives.antt =====
-- tools/commentcheck/directives.go: which //go: directives are known, and what the generators among
-- them write.
pub mod Flags
pub mod Pinned
pub mod Known
mod Outputs
pub mod Named
use herrscher_transport.Prelude.{
  ℕ, Bool, true, false, not, ◌||◌, ◌&&◌, Option, none, some, List, [], ◌∷◌, ◌++◌, length, take,
  if◌then◌else◌, contains_func,
}
use herrscher_transport.Commentcheck.Text.{
  Text, codes, same, cut_prefix, has_prefix, trim_prefix, contains, cut, index_func, contains_text,
}
use herrscher_transport.Commentcheck.Words.{Words, found, drop, directive_words}
use herrscher_transport.Commentcheck.Syntax.{Comment, Group, ParsedFile}
use herrscher_transport.Commentcheck.Packages.{Packages}
use herrscher_transport.Commentcheck.Tools.{tool_directive, declared_tools}

-- An empty name is the zero directive.
pub record Directive : Type 0 where
  pub name : Text
  pub arguments : List Text

abbrev no_directive : Directive
no_directive = record { name = []; arguments = [] }

abbrev next_argument : List Text → List Text
next_argument [] = []
next_argument (argument ∷ arguments) = argument ∷ []

abbrev is_output_flag : Text → Bool
is_output_flag name = same name (codes "-output") || same name (codes "-o")

-- What an argument contributes: the value behind its "=", or the argument that follows it.
abbrev flag_value : Text → List Text → Option (Text × Text) → List Text
flag_value argument others none = if is_output_flag argument then next_argument others else []
flag_value argument others (some (name, value)) = if is_output_flag name then value ∷ [] else []

-- outputFlagValues
unfoldable pub output_flag_values : List Text → List Text
output_flag_values [] = []
output_flag_values (argument ∷ arguments) =
    flag_value argument arguments (cut b'=' argument) ++ output_flag_values arguments

-- The loop of isFlagList: a flag without "=" takes the next argument, unless that is a flag.
unfoldable pub is_flag_list : List Text → Bool
is_flag_list [] = true
is_flag_list (argument ∷ []) = has_prefix argument (codes "-")
is_flag_list (argument ∷ next ∷ arguments) =
    let skipped = is_flag_list arguments in
    let others = is_flag_list (next ∷ arguments) in
    if not (has_prefix argument (codes "-"))
    then false
    else if not (contains b'=' argument) && not (has_prefix next (codes "-"))
    then skipped
    else others

abbrev versioned_parts : Option (Text × Text) → Bool
versioned_parts none = false
versioned_parts (some (module_path, version)) =
    contains b'.' module_path
    && not (has_prefix module_path (codes "."))
    && has_prefix version (codes "v")

-- isVersionedModule
unfoldable pub is_versioned_module : Text → Bool
is_versioned_module command = versioned_parts (cut b'@' command)

module _ (P : Packages) where
  open P use {is_space, is_lower, is_digit, unquote, build_parses, join, dir, is_dir, glob}

  -- What splitDirective returns, once the words are known.
  abbrev directive_of : Option Text → Text → Words → Directive
  directive_of (some line) (c ∷ name) (found arguments) = record {
    name = c ∷ name;
    arguments = arguments;
  }
  directive_of go_line name words = no_directive

  abbrev line_of : Text → Option Text → Text
  line_of text none = text
  line_of text (some line) = line

  abbrev name_end : Text → Option ℕ → ℕ
  name_end line none = length line
  name_end line (some n) = n

  split_line : Option Text → Text → Directive
  split_line go_line line =
      let end = name_end line (index_func is_space line) in
      directive_of go_line (take end line) (directive_words is_space unquote (drop end line))

  -- splitDirective
  unfoldable pub split_directive : Text → Directive
  unfolding split_line
  split_directive text =
      let go_line = cut_prefix (codes "//go:") text in split_line go_line (line_of text go_line)

  abbrev is_local_path : Text → Bool
  is_local_path command =
      same command (codes ".")
      || has_prefix command (codes "./")
      || has_prefix command (codes "../")

  -- isLocalPackage
  unfoldable pub is_local_package : Text → Text → Bool
  is_local_package directory command =
      if not (is_local_path command) then false else is_dir (join directory command)

  -- isPinnedGenerator
  unfoldable pub is_pinned_generator : Text → List Text → Bool
  unfolding is_flag_list is_versioned_module is_local_package declared_tools
  is_pinned_generator directory (program ∷ verb ∷ command ∷ flags) =
      if not (same program (codes "go")) || not (is_flag_list flags)
      then false
      else if same verb (codes "run")
      then is_versioned_module command || is_local_package directory command
      else if same verb tool_directive
      then contains_text (declared_tools P directory) command
      else false
  is_pinned_generator directory arguments = false

  abbrev is_some_match : Option (List Text) → Bool
  is_some_match none = false
  is_some_match (some []) = false
  is_some_match (some (m ∷ matches)) = true

  -- matchesAFile
  unfoldable pub matches_a_file : Text → Text → Bool
  matches_a_file directory pattern_text =
      is_some_match (glob (join directory (trim_prefix pattern_text (codes "all:"))))

  abbrev is_pair : Option (Text × Text) → Bool
  is_pair none = false
  is_pair (some ([], value)) = false
  is_pair (some (c ∷ key, [])) = false
  is_pair (some (c ∷ key, d ∷ value)) =
      not (contains_func (c ∷ key) (λ letter. not (is_lower letter) && not (is_digit letter)))

  -- isSetting
  unfoldable pub is_setting : Text → Bool
  is_setting argument = is_pair (cut b'=' argument)

  abbrev is_nil : List Text → Bool
  is_nil [] = true
  is_nil (argument ∷ arguments) = false

  abbrev is_one_setting : List Text → Bool
  is_one_setting (argument ∷ []) = is_setting argument
  is_one_setting arguments = false

  abbrev is_inline : List Text → Bool
  is_inline (argument ∷ []) = same argument (codes "inline")
  is_inline arguments = false

  -- The switch of isKnownDirective.
  known : Text → Text → Directive → Bool
  unfolding is_pinned_generator matches_a_file is_setting
  known directory text d =
      if contains_text
        (codes "noinline"
          ∷ codes "nosplit"
          ∷ codes "noescape"
          ∷ codes "norace"
          ∷ codes "uintptrescapes"
          ∷ [])
        d.name
      then is_nil d.arguments
      else if same d.name (codes "build")
      then build_parses text
      else if same d.name (codes "generate")
      then is_pinned_generator directory d.arguments
      else if same d.name (codes "embed")
      then not (is_nil d.arguments)
        && not (contains_func d.arguments (λ p. not (matches_a_file directory p)))
      else if same d.name (codes "fix")
      then is_inline d.arguments
      else if same d.name (codes "debug")
      then is_one_setting d.arguments
      else false

  -- isKnownDirective
  unfoldable pub is_known_directive : Text → Text → Bool
  unfolding known split_directive
  is_known_directive directory text = known directory text (split_directive text)

  -- What a line of a comment contributes to the outputs.
  line_outputs : Text → Text → List Text
  unfolding is_known_directive output_flag_values
  line_outputs directory text =
      if same (split_directive text).name (codes "generate") && is_known_directive directory text
      then output_flag_values (split_directive text).arguments
      else []

  abbrev group_outputs : Text → List Comment → List Text
  group_outputs directory [] = []
  group_outputs directory (line ∷ lines) =
      line_outputs directory line.text ++ group_outputs directory lines

  abbrev file_outputs : Text → List Group → List Text
  file_outputs directory [] = []
  file_outputs directory (group ∷ groups) =
      group_outputs directory group.lines ++ file_outputs directory groups

  -- generatorOutputs
  unfoldable pub generator_outputs : List ParsedFile → List Text
  unfolding line_outputs
  generator_outputs [] = []
  generator_outputs (candidate ∷ parsed) =
      (if candidate.file.generated
        then []
        else file_outputs (dir candidate.path) candidate.file.comments)
      ++ generator_outputs parsed
