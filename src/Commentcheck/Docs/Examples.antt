-- ===== src/Commentcheck/Docs/Examples.antt =====
-- docs.go, exampleDocs and allowExampleOutputs: what a test file may have comments on.
use herrscher_transport.Prelude.{
  ℕ, ◌≡◌, refl, sym, ◌∙◌, ap, ◌↔◌, ◌⊎◌, inl, inr, true, false, Option, none, some, List, [], ◌∷◌,
  Any, some_injective, subst,
}
use herrscher_transport.Commentcheck.Syntax.{Block, Group, Decl, func_decl, gen_decl, bad_decl}
use herrscher_transport.Commentcheck.Packages.{Packages}
use herrscher_transport.Commentcheck.Docs.{
  allow, allow_some, is_runnable_example, example_docs, last_comment_in, is_example_output,
  allow_output, allow_body_output, allow_example_outputs,
}
use herrscher_transport.Commentcheck.Directives.Flags.{false-ne-true}
use herrscher_transport.Commentcheck.Docs.Adds.{Adds, adds_nothing, adds_both, adds_if, allow-Adds}
use herrscher_transport.Commentcheck.Docs.Runnable.{IsRunnable, is_runnable_example_iff}
use herrscher_transport.Commentcheck.Docs.Last.{IsLastIn, last_comment_in-IsLastIn}

module _ (P : Packages) where
  -- The group is the doc of an example.
  abbrev pub IsExampleDoc : ℕ → Decl → Type 0
  IsExampleDoc g (func_decl f) = IsRunnable P f × (f.doc ≡ some g)
  IsExampleDoc g (gen_decl doc specs) = ⊥
  IsExampleDoc g bad_decl = ⊥

  abbrev IsOutputIn : ℕ → List Group → Option Block → Type 0
  IsOutputIn g groups none = ⊥
  IsOutputIn g groups (some body) =
      (group : Group) × (group.id ≡ g)
      × IsLastIn P body group groups
      × (is_example_output P group.lines ≡ true)

  -- The group is the last one in the body of an example, and gives its output.
  abbrev pub IsExampleOutput : ℕ → List Group → Decl → Type 0
  IsExampleOutput g groups (func_decl f) = IsRunnable P f × IsOutputIn g groups f.body
  IsExampleOutput g groups (gen_decl doc specs) = ⊥
  IsExampleOutput g groups bad_decl = ⊥

  some-Adds : (g : ℕ) (doc : Option ℕ) → Adds g (allow_some P doc) (doc ≡ some g)
  some-Adds g none = adds_nothing g (λ h. cc)
  some-Adds g (some d) = allow-Adds g d

  docs-Adds :
      (g : ℕ) (decls : List Decl) → Adds g (example_docs P decls) (Any (IsExampleDoc g) decls)
  unfolding example_docs
  docs-Adds g [] = adds_nothing g (λ h. h)
  docs-Adds g (func_decl f ∷ decls) =
      adds_both _ (example_docs P decls)
        (adds_if (allow_some P f.doc) (is_runnable_example P f) (is_runnable_example_iff P f)
          (some-Adds g f.doc))
        (docs-Adds g decls)
  docs-Adds g (gen_decl doc specs ∷ decls) =
      adds_both (λ a. a) (example_docs P decls) (adds_nothing g (λ h. h)) (docs-Adds g decls)
  docs-Adds g (bad_decl ∷ decls) =
      adds_both (λ a. a) (example_docs P decls) (adds_nothing g (λ h. h)) (docs-Adds g decls)

  found-Adds :
      (g : ℕ) (group : Group)
      → Adds g
          (allow_output P (some group))
          ((is_example_output P group.lines ≡ true) × (some group.id ≡ some g))
  unfolding allow_output
  found-Adds g group =
      adds_if (allow (some group.id) true) (is_example_output P group.lines) ((λ h. h), (λ h. h))
        (allow-Adds g group.id)

  last-Adds :
      (g : ℕ) (groups : List Group) (body : Block) (last : Option Group)
      → last_comment_in P groups body none ≡ last
      → Adds g (allow_output P last) (IsOutputIn g groups (some body))
  unfolding allow_output
  last-Adds g groups body none no_last allowed =
      adds_nothing g
        (λ (group, is, last, output).
          let bad : none ≡ some group =
            sym no_last ∙ (last_comment_in-IsLastIn P body group groups).1 last in
          cc)
        allowed
  last-Adds g groups body (some found) is_last allowed =
      let (to, from) = found-Adds g found allowed in
      (
        (λ h. elim (to h) [
          | inl p ↦ inl p
          | inr (output, same) ↦ inr (
            found,
            some_injective same,
            (last_comment_in-IsLastIn P body found groups).0 is_last,
            output,
          )
        ]),
        (λ h. from (elim h [
          | inl p ↦ inl p
          | inr (group, is, last, output) ↦
              let equal =
                some_injective
                  (sym ((last_comment_in-IsLastIn P body group groups).1 last) ∙ is_last) in
              inr (
                subst (λ l. (is_example_output P l.lines ≡ true) × (some l.id ≡ some g)) equal
                  (output, ap some is))
        ])),
      )

  output-Adds :
      (g : ℕ) (groups : List Group) (body : Option Block)
      → Adds g (allow_body_output P groups body) (IsOutputIn g groups body)
  unfolding allow_body_output
  output-Adds g groups none = adds_nothing g (λ h. h)
  output-Adds g groups (some body) =
      last-Adds g groups body (last_comment_in P groups body none) refl

  outputs-Adds :
      (g : ℕ) (groups : List Group) (decls : List Decl)
      → Adds g (allow_example_outputs P groups decls) (Any (IsExampleOutput g groups) decls)
  unfolding allow_example_outputs
  outputs-Adds g groups [] = adds_nothing g (λ h. h)
  outputs-Adds g groups (func_decl f ∷ decls) =
      adds_both _ (allow_example_outputs P groups decls)
        (adds_if (allow_body_output P groups f.body) (is_runnable_example P f)
          (is_runnable_example_iff P f) (output-Adds g groups f.body))
        (outputs-Adds g groups decls)
  outputs-Adds g groups (gen_decl doc specs ∷ decls) =
      adds_both (λ a. a) (allow_example_outputs P groups decls) (adds_nothing g (λ h. h))
        (outputs-Adds g groups decls)
  outputs-Adds g groups (bad_decl ∷ decls) =
      adds_both (λ a. a) (allow_example_outputs P groups decls) (adds_nothing g (λ h. h))
        (outputs-Adds g groups decls)

  -- In a test file a comment group is allowed exactly when it is the doc of an example that go test
  -- runs, or the last group in the body of one and begins with "Output:" or "Unordered output:".
  pub example_groups_iff :
      (groups : List Group) (decls : List Decl) (g : ℕ)
      → (allow_example_outputs P groups decls (example_docs P decls (λ group. false)) (some g)
          ≡ true)
        ↔ (Any (IsExampleDoc g) decls ⊎ Any (IsExampleOutput g groups) decls)
  example_groups_iff groups decls g =
      let (to, from) =
        adds_both (example_docs P decls) (allow_example_outputs P groups decls) (docs-Adds g decls)
          (outputs-Adds g groups decls) (λ group. false) in
      (
        (λ h. elim (to h) [ inl never ↦ absurd (false-ne-true never) | inr e ↦ e ]),
        (λ e. from (inr e)),
      )
