-- ===== src/Commentcheck/Comments.antt =====
-- tools/commentcheck/comments.go: the findings in one file.
pub mod Stray
use herrscher_transport.Prelude.{
  ℕ, Bool, true, false, not, ◌||◌, ◌&&◌, Option, none, some, List, [], ◌∷◌, ◌++◌, String,
  if◌then◌else◌, contains_func,
}
use herrscher_transport.Commentcheck.Text.{
  Text, codes, cut_prefix, has_prefix, has_suffix, trim_left,
}
use herrscher_transport.Commentcheck.Syntax.{
  Comment, Group, Block, Node, decl_node, lit_node, other_node, File, ParsedFile,
}
use herrscher_transport.Commentcheck.Packages.{Packages}
use herrscher_transport.Commentcheck.Directives.{is_known_directive}
use herrscher_transport.Commentcheck.Docs.{
  Allowed, allowed_docs, example_docs, allow_example_outputs, inside_block,
}

-- refusedReason, nolintReason and unreadableReason
pub data Reason : Type 0 where
  refused nolint_refused unreadable : Reason

-- token.Position
pub record Position : Type 0 where
  pub filename : Text
  pub line : ℕ
  pub column : ℕ

-- finding
pub record Finding : Type 0 where
  pub position : Position
  pub reason : Reason

-- functionBodies
unfoldable pub function_bodies : List Node → List Block
function_bodies [] = []
function_bodies (decl_node (some body) ∷ nodes) = body ∷ function_bodies nodes
function_bodies (lit_node body ∷ nodes) = body ∷ function_bodies nodes
function_bodies (_ ∷ nodes) = function_bodies nodes

-- files.Position, for the file set of a run
module _ (P : Packages) (position_of : ℕ → Position) where
  open P use {is_space, dir}

  -- at
  abbrev pub at : ℕ → Reason → Finding
  at pos reason = record { position = position_of pos; reason = reason }

  abbrev nolint_body : Option Text → Bool
  nolint_body none = false
  nolint_body (some body) = has_prefix (trim_left is_space body) (codes "nolint")

  -- isNolintDirective
  unfoldable pub is_nolint_directive : Text → Bool
  is_nolint_directive text = nolint_body (cut_prefix (codes "//") text)

  -- nolintDirectives
  unfoldable pub nolint_directives : List Comment → List Finding
  unfolding is_nolint_directive
  nolint_directives [] = []
  nolint_directives (line ∷ lines) =
      if is_nolint_directive line.text
      then at line.slash nolint_refused ∷ nolint_directives lines
      else nolint_directives lines

  -- strayDirectiveLines
  unfoldable pub stray_directive_lines : Text → List Comment → List Finding
  stray_directive_lines directory [] = []
  stray_directive_lines directory (line ∷ lines) =
      if has_prefix line.text (codes "//go:") && not (is_known_directive P directory line.text)
      then at line.slash refused ∷ stray_directive_lines directory lines
      else stray_directive_lines directory lines

  -- isInside
  unfoldable pub is_inside : Group → List Block → Bool
  is_inside group bodies = contains_func bodies (λ body. inside_block P group body)

  -- isDirective
  unfoldable pub is_directive : Text → List Comment → Bool
  is_directive directory lines =
      not (contains_func lines (λ line. not (is_known_directive P directory line.text)))

  -- The switch on a group without a nolint line.
  sorted_out : Allowed → List Block → Text → Group → List Finding
  unfolding is_inside stray_directive_lines is_directive
  sorted_out allowed bodies directory group =
      if is_inside group bodies
      then if not (allowed (some group.id)) then at group.start refused ∷ [] else []
      else if allowed (some group.id)
      then stray_directive_lines directory group.lines
      else if not (is_directive directory group.lines)
      then at group.start refused ∷ []
      else []

  abbrev pub or_switch : List Finding → List Finding → List Finding
  or_switch [] others = others
  or_switch (nolint ∷ nolints) others = nolint ∷ nolints

  unfoldable pub group_findings : Allowed → List Block → Text → Group → List Finding
  unfolding nolint_directives sorted_out
  group_findings allowed bodies directory group =
      or_switch (nolint_directives group.lines) (sorted_out allowed bodies directory group)

  abbrev pub each_group : Allowed → List Block → Text → List Group → List Finding
  each_group allowed bodies directory [] = []
  each_group allowed bodies directory (group ∷ groups) =
      group_findings allowed bodies directory group ++ each_group allowed bodies directory groups

  -- The comment groups that a file may have for what they stand at.
  unfoldable pub allowed_in : Text → File → Allowed
  allowed_in path file =
      if has_suffix path (codes "_test.go")
      then allow_example_outputs P file.comments file.decls (example_docs P file.decls (λ g. false))
      else allowed_docs P file

  -- strayComments
  unfoldable pub stray_comments : Text → File → Bool → List Finding
  unfolding group_findings allowed_in function_bodies
  stray_comments path file named_by_a_generator =
      if named_by_a_generator && file.generated
      then []
      else each_group (allowed_in path file) (function_bodies file.nodes) (dir path) file.comments
