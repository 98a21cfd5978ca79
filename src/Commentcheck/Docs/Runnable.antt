-- ===== src/Commentcheck/Docs/Runnable.antt =====
-- docs.go, isRunnableExample: which functions are examples.
use herrscher_transport.Prelude.{
  ◌≡◌, ◌≢◌, refl, sym, ◌∙◌, ap, ◌↔◌, ◌⊎◌, inl, inr, Bool, true, false, not, ◌||◌, Option, none,
  some, List, [], ◌∷◌, ◌++◌, Bool-cases, Option-cases, if◌then◌else◌, nat_eq, nat_eq_iff, arith,
  some_injective, either_true, subst,
}
use herrscher_transport.Commentcheck.Text.{Text, codes, cut_prefix}
use herrscher_transport.Commentcheck.Syntax.{Block, FuncDecl, Expr}
use herrscher_transport.Commentcheck.Packages.{Packages}
use herrscher_transport.Commentcheck.Docs.{
  is_runnable_example, is_example_name, is_some_recv, is_some_block, upper_or_underscore,
}
use herrscher_transport.Commentcheck.Directives.Flags.{false-ne-true}

cut_prefix-append : (prefix suffix : Text) → cut_prefix prefix (prefix ++ suffix) ≡ some suffix
cut_prefix-append [] suffix = refl
cut_prefix-append (c ∷ prefix) suffix =
    rw ((nat_eq_iff c c).1 refl) (cut_prefix-append prefix suffix)

cut_prefix_parts :
    (prefix s suffix : Text) → cut_prefix prefix s ≡ some suffix → s ≡ prefix ++ suffix
cut_prefix_parts [] s suffix h = some_injective h
cut_prefix_parts (c ∷ prefix) [] suffix h = cc
cut_prefix_parts (c ∷ prefix) (d ∷ s) suffix h = elim (Bool-cases (nat_eq c d)) [
  | inr other ↦ let bad : none ≡ some suffix = rw other at h in cc
  | inl equal ↦
      let rest = cut_prefix_parts prefix s suffix (rw equal at h) in
      rw (rest, (nat_eq_iff c d).0 equal) refl
]

module _ (P : Packages) where
  open P use {is_upper}

  -- An upper case letter or an underscore begins the text, or it is empty.
  abbrev IsSuffix : Text → Type 0
  IsSuffix [] = Unit
  IsSuffix (c ∷ suffix) = (c ≡ b'_') ⊎ (is_upper c ≡ true)

  abbrev IsExampleName : Text → Type 0
  IsExampleName name = (suffix : Text) × (name ≡ codes "Example" ++ suffix) × IsSuffix suffix

  -- An example that go test runs: a function with a body, without receiver, parameters or results,
  -- named Example or Example and a suffix.
  abbrev pub IsRunnable : FuncDecl → Type 0
  IsRunnable f =
      (f.recv ≡ none) × (f.body ≢ none) × (f.params ≡ 0) × (f.results ≡ 0) × IsExampleName f.name

  suffix_iff : (suffix : Text) → (upper_or_underscore P suffix ≡ true) ↔ IsSuffix suffix
  suffix_iff [] = ((λ h. tt), (λ h. refl))
  suffix_iff (c ∷ suffix) = (
    (λ h. elim (either_true _ _ h) [
      | inl low ↦ inl ((nat_eq_iff c b'_').0 low)
      | inr upper ↦ inr upper
    ]),
    from,
  )
    where
      from : (c ≡ b'_') ⊎ (is_upper c ≡ true) → (nat_eq c b'_' || is_upper c) ≡ true
      from (inl low) = rw ((nat_eq_iff c b'_').1 low) refl
      from (inr upper) = ground (arith, upper)

  name_iff :
      (name : Text)
      → (is_example_name P (cut_prefix (codes "Example") name) ≡ true) ↔ IsExampleName name
  name_iff name = (
    (λ h. elim (Option-cases (cut_prefix (codes "Example") name)) [
      | inl no_prefix ↦ let bad : false ≡ true = rw no_prefix at h in absurd (false-ne-true bad)
      | inr (suffix, found) ↦ (
        suffix,
        cut_prefix_parts (codes "Example") name suffix found,
        (suffix_iff suffix).0 (rw found at h),
      )
    ]),
    (λ (suffix, parts, is).
        subst (λ o. is_example_name P o ≡ true)
          (sym (
            ap (λ t. cut_prefix (codes "Example") t) parts
            ∙ cut_prefix-append (codes "Example") suffix))
          ((suffix_iff suffix).1 is)),
  )

  runs_iff :
      (recv body params results name : Bool)
      → ((if recv || not body then false else if not params || not results then false else name)
          ≡ true)
        ↔ ((recv ≡ false) × (body ≡ true) × (params ≡ true) × (results ≡ true) × (name ≡ true))
  runs_iff true body params results name = ((λ h. cc), (λ (r, b, p, q, n). cc))
  runs_iff false false params results name = ((λ h. cc), (λ (r, b, p, q, n). cc))
  runs_iff false true false results name = ((λ h. cc), (λ (r, b, p, q, n). cc))
  runs_iff false true true false name = ((λ h. cc), (λ (r, b, p, q, n). cc))
  runs_iff false true true true name = ((λ h. (refl, refl, refl, refl, h)), (λ (r, b, p, q, n). n))

  recv_iff : (recv : Option (List Expr)) → (is_some_recv P recv ≡ false) ↔ (recv ≡ none)
  recv_iff none = ((λ h. refl), (λ h. refl))
  recv_iff (some types) = ((λ h. cc), (λ h. cc))

  body_iff : (body : Option Block) → (is_some_block P body ≡ true) ↔ (body ≢ none)
  body_iff none = ((λ h. cc), (λ h. absurd (h refl)))
  body_iff (some block) = ((λ h e. cc), (λ h. refl))

  pub is_runnable_example_iff : (f : FuncDecl) → (is_runnable_example P f ≡ true) ↔ IsRunnable f
  unfolding is_runnable_example
  is_runnable_example_iff f =
      let (to, from) =
        runs_iff (is_some_recv P f.recv) (is_some_block P f.body) (nat_eq f.params 0)
          (nat_eq f.results 0) (is_example_name P (cut_prefix (codes "Example") f.name)) in
      (
        (λ h.
            let (r, b, p, q, n) = to h in
            (
              (recv_iff f.recv).0 r,
              (body_iff f.body).0 b,
              (nat_eq_iff f.params 0).0 p,
              (nat_eq_iff f.results 0).0 q,
              (name_iff f.name).0 n,
            )),
        (λ (r, b, p, q, n). from (
          (recv_iff f.recv).1 r,
          (body_iff f.body).1 b,
          (nat_eq_iff f.params 0).1 p,
          (nat_eq_iff f.results 0).1 q,
          (name_iff f.name).1 n,
        )),
      )
