-- ===== src/Commentcheck/Docs/Exported.antt =====
-- docs.go: allowedDocs allows the docs of what a package exports.
use herrscher_transport.Prelude.{
  ℕ, ◌≡◌, ◌↔◌, ◌⊎◌, inl, inr, Bool, true, false, ◌&&◌, Option, none, some, List, [], ◌∷◌, Any,
  contains_func, if◌then◌else◌,
}
use herrscher_transport.Commentcheck.Syntax.{
  Expr, ident, selector, star, index, index_list, struct_type, interface_type, array_type, map_type,
  chan_type, other_expr, Fields, no_fields, field, Spec, type_spec, value_spec, other_spec, Decl,
  func_decl, gen_decl, bad_decl, File,
}
use herrscher_transport.Commentcheck.Packages.{Packages}
use herrscher_transport.Commentcheck.Docs.{
  allow, is_accessible_field, allow_field_docs, allow_accessible_field_docs, is_exported_spec,
  allow_spec_docs, allow_type_docs, allow_each_spec, has_an_exported_receiver, allow_decl_docs,
  allow_each_decl, allowed_docs,
}
use herrscher_transport.Commentcheck.Docs.Writes.{
  Writes, writes_nothing, writes_both, writes_if, allow-Writes,
}

module _ (P : Packages) where
  open P use {is_exported}

  -- The group is the doc of a field in the type that is exported, or, for `false`, that is not.
  abbrev mutual
    pub IsTypeDoc : Bool → ℕ → Expr → Type 0
    IsTypeDoc v g (struct_type fields) = IsFieldsDoc v g fields
    IsTypeDoc v g (interface_type methods) = IsFieldsDoc v g methods
    IsTypeDoc v g (star x) = IsTypeDoc v g x
    IsTypeDoc v g (array_type elt) = IsTypeDoc v g elt
    IsTypeDoc v g (map_type key value) = IsTypeDoc v g key ⊎ IsTypeDoc v g value
    IsTypeDoc v g (chan_type value) = IsTypeDoc v g value
    IsTypeDoc v g _ = ⊥

    pub IsFieldsDoc : Bool → ℕ → Fields → Type 0
    IsFieldsDoc v g no_fields = ⊥
    IsFieldsDoc v g (field doc names type fields) =
        (((doc ≡ some g) × (is_accessible_field P names type ≡ v))
          ⊎ ((is_accessible_field P names type ≡ true) × IsTypeDoc v g type))
        ⊎ IsFieldsDoc v g fields

  -- The same for the parts of a declaration, for a declaration, and for a file.
  abbrev IsOptionDoc : Bool → ℕ → Option Expr → Type 0
  IsOptionDoc v g none = ⊥
  IsOptionDoc v g (some type) = IsTypeDoc v g type

  abbrev pub IsSpecDoc : Bool → ℕ → Spec → Type 0
  IsSpecDoc v g (type_spec doc name type) =
      ((doc ≡ some g) × (is_exported name ≡ v)) ⊎ ((is_exported name ≡ true) × IsTypeDoc v g type)
  IsSpecDoc v g (value_spec doc names type) =
      ((doc ≡ some g) × (contains_func names is_exported ≡ v))
      ⊎ ((contains_func names is_exported ≡ true) × IsOptionDoc v g type)
  IsSpecDoc v g other_spec = ⊥

  abbrev pub IsDeclDoc : Bool → ℕ → Decl → Type 0
  IsDeclDoc v g (func_decl f) =
      (f.doc ≡ some g) × ((is_exported f.name && has_an_exported_receiver P f.recv) ≡ v)
  IsDeclDoc v g (gen_decl doc specs) =
      ((doc ≡ some g) × (contains_func specs (is_exported_spec P) ≡ v)) ⊎ Any (IsSpecDoc v g) specs
  IsDeclDoc v g bad_decl = ⊥

  abbrev pub IsDoc : Bool → ℕ → File → Type 0
  IsDoc v g file = ((file.doc ≡ some g) × (true ≡ v)) ⊎ Any (IsDeclDoc v g) file.decls

  mutual
    unfolding allow_field_docs

    type-Writes :
        (g : ℕ) (type : Expr)
        → Writes g (allow_field_docs P type) (IsTypeDoc true g type) (IsTypeDoc false g type)
    type-Writes g (struct_type fields) = fields-Writes g fields
    type-Writes g (interface_type methods) = fields-Writes g methods
    type-Writes g (star x) = type-Writes g x
    type-Writes g (array_type elt) = type-Writes g elt
    type-Writes g (map_type key value) =
        writes_both (allow_field_docs P key) (allow_field_docs P value) (type-Writes g key)
          (type-Writes g value)
    type-Writes g (chan_type value) = type-Writes g value
    type-Writes g (ident name) = writes_nothing g
    type-Writes g (selector sel) = writes_nothing g
    type-Writes g (index x) = writes_nothing g
    type-Writes g (index_list x) = writes_nothing g
    type-Writes g other_expr = writes_nothing g

    fields-Writes :
        (g : ℕ) (fields : Fields)
        → Writes g
            (allow_accessible_field_docs P fields)
            (IsFieldsDoc true g fields)
            (IsFieldsDoc false g fields)
    fields-Writes g no_fields = writes_nothing g
    fields-Writes g (field doc names type fields) =
        let accessible = is_accessible_field P names type in
        writes_both
          (λ allowed.
            if accessible
            then allow_field_docs P type (allow doc accessible allowed)
            else allow doc accessible allowed)
          (allow_accessible_field_docs P fields)
          (writes_both (allow doc accessible)
            (λ allowed. if accessible then allow_field_docs P type allowed else allowed)
            (allow-Writes g doc accessible)
            (writes_if (allow_field_docs P type) accessible (type-Writes g type)))
          (fields-Writes g fields)

  option-Writes :
      (g : ℕ) (type : Option Expr)
      → Writes g (allow_type_docs P type) (IsOptionDoc true g type) (IsOptionDoc false g type)
  option-Writes g none = writes_nothing g
  option-Writes g (some type) = type-Writes g type

  spec-Writes :
      (g : ℕ) (spec : Spec)
      → Writes g (allow_spec_docs P spec) (IsSpecDoc true g spec) (IsSpecDoc false g spec)
  unfolding allow_spec_docs
  spec-Writes g (type_spec doc name type) =
      writes_both (allow doc (is_exported name))
        (λ allowed. if is_exported name then allow_field_docs P type allowed else allowed)
        (allow-Writes g doc (is_exported name))
        (writes_if (allow_field_docs P type) (is_exported name) (type-Writes g type))
  spec-Writes g (value_spec doc names type) =
      let exported = contains_func names is_exported in
      writes_both (allow doc exported)
        (λ allowed. if exported then allow_type_docs P type allowed else allowed)
        (allow-Writes g doc exported)
        (writes_if (allow_type_docs P type) exported (option-Writes g type))
  spec-Writes g other_spec = writes_nothing g

  specs-Writes :
      (g : ℕ) (specs : List Spec)
      → Writes g
          (allow_each_spec P specs)
          (Any (IsSpecDoc true g) specs)
          (Any (IsSpecDoc false g) specs)
  specs-Writes g [] = writes_nothing g
  specs-Writes g (spec ∷ specs) =
      writes_both (allow_spec_docs P spec) (allow_each_spec P specs) (spec-Writes g spec)
        (specs-Writes g specs)

  decl-Writes :
      (g : ℕ) (decl : Decl)
      → Writes g (allow_decl_docs P decl) (IsDeclDoc true g decl) (IsDeclDoc false g decl)
  unfolding allow_decl_docs
  decl-Writes g (func_decl f) =
      allow-Writes g f.doc (is_exported f.name && has_an_exported_receiver P f.recv)
  decl-Writes g (gen_decl doc specs) =
      writes_both (allow doc (contains_func specs (is_exported_spec P))) (allow_each_spec P specs)
        (allow-Writes g doc (contains_func specs (is_exported_spec P))) (specs-Writes g specs)
  decl-Writes g bad_decl = writes_nothing g

  decls-Writes :
      (g : ℕ) (decls : List Decl)
      → Writes g
          (allow_each_decl P decls)
          (Any (IsDeclDoc true g) decls)
          (Any (IsDeclDoc false g) decls)
  decls-Writes g [] = writes_nothing g
  decls-Writes g (decl ∷ decls) =
      writes_both (allow_decl_docs P decl) (allow_each_decl P decls) (decl-Writes g decl)
        (decls-Writes g decls)

  -- If a comment group is not both the doc of something exported and of something unexported: it is
  -- allowed exactly when it is the package doc, the doc of an exported function whose receiver, if it
  -- has one, is exported, of a declaration with an exported name, of an exported name in one, or of a
  -- field or method that is accessible in the type of an exported one. So the doc of what is not
  -- exported is refused.
  pub allowed_docs-IsDoc :
      (file : File) (g : ℕ)
      → ¬ (IsDoc true g file × IsDoc false g file)
      → (allowed_docs P file (some g) ≡ true) ↔ IsDoc true g file
  unfolding allowed_docs
  allowed_docs-IsDoc file g one_doc =
      let (to, from) =
        writes_both (allow file.doc true) (allow_each_decl P file.decls)
          (allow-Writes g file.doc true) (decls-Writes g file.decls) (λ group. false) in
      (
        (λ h. elim (to h) [ inl p ↦ cc | inr e ↦ e ]),
        (λ h. from (inr h) (λ hidden. one_doc (h, hidden))),
      )
