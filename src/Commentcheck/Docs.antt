-- ===== src/Commentcheck/Docs.antt =====
-- tools/commentcheck/docs.go: the comment groups that are docs of exported identifiers. The map from
-- groups to flags is a function, of which nil is an argument too.
mod Writes
pub mod Exported
mod Adds
mod Runnable
mod Last
pub mod Examples
use herrscher_transport.Prelude.{
  ℕ, Bool, true, false, not, ◌||◌, ◌&&◌, Option, none, some, List, [], ◌∷◌, nat_eq, ltb,
  if◌then◌else◌, contains_func,
}
use herrscher_transport.Commentcheck.Text.{Text, codes, cut_prefix, has_prefix, trim_prefix}
use herrscher_transport.Commentcheck.Words.{trim_space}
use herrscher_transport.Commentcheck.Syntax.{
  Comment, Group, Expr, ident, selector, star, index, index_list, struct_type, interface_type,
  array_type, map_type, chan_type, Fields, no_fields, field, Spec, type_spec, value_spec,
  other_spec, Block, FuncDecl, Decl, func_decl, gen_decl, bad_decl, File,
}
use herrscher_transport.Commentcheck.Packages.{Packages}

abbrev pub Allowed : Type 0
Allowed = Option ℕ → Bool

abbrev same_group : Option ℕ → Option ℕ → Bool
same_group none none = true
same_group (some g) (some h) = nat_eq g h
same_group _ _ = false

-- allowed[group] = flag
abbrev pub allow : Option ℕ → Bool → Allowed → Allowed
allow group flag allowed g = if same_group group g then flag else allowed g

module _ (P : Packages) where
  open P use {is_space, is_upper, is_exported}

  -- isExportedTypeName
  unfoldable pub is_exported_type_name : Expr → Bool
  is_exported_type_name (star x) = is_exported_type_name x
  is_exported_type_name (index x) = is_exported_type_name x
  is_exported_type_name (index_list x) = is_exported_type_name x
  is_exported_type_name (selector sel) = is_exported sel
  is_exported_type_name (ident name) = is_exported name
  is_exported_type_name _ = false

  -- isAccessibleField
  unfoldable pub is_accessible_field : List Text → Expr → Bool
  unfolding is_exported_type_name
  is_accessible_field [] type = is_exported_type_name type
  is_accessible_field (name ∷ names) type = contains_func (name ∷ names) is_exported

  unfoldable mutual
    unfolding is_accessible_field

    -- allowFieldDocs
    pub allow_field_docs : Expr → Allowed → Allowed
    allow_field_docs (struct_type fields) allowed = allow_accessible_field_docs fields allowed
    allow_field_docs (interface_type methods) allowed = allow_accessible_field_docs methods allowed
    allow_field_docs (star x) allowed = allow_field_docs x allowed
    allow_field_docs (array_type elt) allowed = allow_field_docs elt allowed
    allow_field_docs (map_type key value) allowed =
        allow_field_docs value (allow_field_docs key allowed)
    allow_field_docs (chan_type value) allowed = allow_field_docs value allowed
    allow_field_docs _ allowed = allowed

    -- allowAccessibleFieldDocs
    pub allow_accessible_field_docs : Fields → Allowed → Allowed
    allow_accessible_field_docs no_fields allowed = allowed
    allow_accessible_field_docs (field doc names type fields) allowed =
        let accessible = is_accessible_field names type in
        let marked = allow doc accessible allowed in
        let inner = allow_field_docs type marked in
        allow_accessible_field_docs fields (if accessible then inner else marked)

  -- isExportedSpec
  unfoldable pub is_exported_spec : Spec → Bool
  is_exported_spec (type_spec doc name type) = is_exported name
  is_exported_spec (value_spec doc names type) = contains_func names is_exported
  is_exported_spec other_spec = false

  abbrev allow_type_docs : Option Expr → Allowed → Allowed
  allow_type_docs none allowed = allowed
  allow_type_docs (some type) allowed = allow_field_docs type allowed

  -- allowSpecDocs
  unfoldable pub allow_spec_docs : Spec → Allowed → Allowed
  unfolding allow_field_docs
  allow_spec_docs (type_spec doc name type) allowed =
      let marked = allow doc (is_exported name) allowed in
      if is_exported name then allow_field_docs type marked else marked
  allow_spec_docs (value_spec doc names type) allowed =
      let exported = contains_func names is_exported in
      let marked = allow doc exported allowed in
      if exported then allow_type_docs type marked else marked
  allow_spec_docs other_spec allowed = allowed

  abbrev pub allow_each_spec : List Spec → Allowed → Allowed
  allow_each_spec [] allowed = allowed
  allow_each_spec (spec ∷ specs) allowed = allow_each_spec specs (allow_spec_docs spec allowed)

  -- hasAnExportedReceiver, of the receivers
  unfoldable pub has_an_exported_receiver : Option (List Expr) → Bool
  unfolding is_exported_type_name
  has_an_exported_receiver none = true
  has_an_exported_receiver (some []) = true
  has_an_exported_receiver (some (type ∷ types)) = is_exported_type_name type

  unfoldable pub allow_decl_docs : Decl → Allowed → Allowed
  unfolding has_an_exported_receiver is_exported_spec allow_spec_docs
  allow_decl_docs (func_decl f) allowed =
      allow f.doc (is_exported f.name && has_an_exported_receiver f.recv) allowed
  allow_decl_docs (gen_decl doc specs) allowed =
      allow_each_spec specs (allow doc (contains_func specs is_exported_spec) allowed)
  allow_decl_docs bad_decl allowed = allowed

  abbrev pub allow_each_decl : List Decl → Allowed → Allowed
  allow_each_decl [] allowed = allowed
  allow_each_decl (decl ∷ decls) allowed = allow_each_decl decls (allow_decl_docs decl allowed)

  -- allowedDocs
  unfoldable pub allowed_docs : File → Allowed
  unfolding allow_decl_docs
  allowed_docs file =
      allow none false (allow_each_decl file.decls (allow file.doc true (λ g. false)))

  abbrev upper_or_underscore : Text → Bool
  upper_or_underscore [] = true
  upper_or_underscore (c ∷ suffix) = nat_eq c b'_' || is_upper c

  abbrev is_example_name : Option Text → Bool
  is_example_name none = false
  is_example_name (some suffix) = upper_or_underscore suffix

  abbrev is_some_block : Option Block → Bool
  is_some_block none = false
  is_some_block (some block) = true

  abbrev is_some_recv : Option (List Expr) → Bool
  is_some_recv none = false
  is_some_recv (some types) = true

  -- isRunnableExample
  unfoldable pub is_runnable_example : FuncDecl → Bool
  is_runnable_example f =
      if is_some_recv f.recv || not (is_some_block f.body)
      then false
      else if not (nat_eq f.params 0) || not (nat_eq f.results 0)
      then false
      else is_example_name (cut_prefix (codes "Example") f.name)

  abbrev allow_some : Option ℕ → Allowed → Allowed
  allow_some none allowed = allowed
  allow_some (some g) allowed = allow (some g) true allowed

  -- exampleDocs
  unfoldable pub example_docs : List Decl → Allowed → Allowed
  unfolding is_runnable_example
  example_docs [] allowed = allowed
  example_docs (func_decl f ∷ decls) allowed =
      example_docs decls (if is_runnable_example f then allow_some f.doc allowed else allowed)
  example_docs (_ ∷ decls) allowed = example_docs decls allowed

  abbrev pub inside_block : Group → Block → Bool
  inside_block group body = ltb body.lbrace group.start && ltb group.stop body.rbrace

  -- lastCommentIn
  unfoldable pub last_comment_in : List Group → Block → Option Group → Option Group
  last_comment_in [] body last = last
  last_comment_in (group ∷ groups) body last =
      last_comment_in groups body (if inside_block group body then some group else last)

  abbrev is_output_text : Text → Bool
  is_output_text first =
      has_prefix first (codes "Output:") || has_prefix first (codes "Unordered output:")

  -- isExampleOutput, of the group's lines
  unfoldable pub is_example_output : List Comment → Bool
  is_example_output [] = false
  is_example_output (line ∷ lines) =
      is_output_text (trim_space is_space (trim_prefix line.text (codes "//")))

  allow_output : Option Group → Allowed → Allowed
  unfolding is_example_output
  allow_output none allowed = allowed
  allow_output (some last) allowed =
      if is_example_output last.lines then allow (some last.id) true allowed else allowed

  allow_body_output : List Group → Option Block → Allowed → Allowed
  unfolding allow_output last_comment_in
  allow_body_output groups none allowed = allowed
  allow_body_output groups (some body) allowed =
      allow_output (last_comment_in groups body none) allowed

  -- allowExampleOutputs
  unfoldable pub allow_example_outputs : List Group → List Decl → Allowed → Allowed
  unfolding allow_body_output is_runnable_example
  allow_example_outputs groups [] allowed = allowed
  allow_example_outputs groups (func_decl f ∷ decls) allowed =
      allow_example_outputs groups decls
        (if is_runnable_example f then allow_body_output groups f.body allowed else allowed)
  allow_example_outputs groups (_ ∷ decls) allowed = allow_example_outputs groups decls allowed
