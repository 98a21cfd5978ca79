-- ===== src/Commentcheck/Comments/Stray.antt =====
-- comments.go: which files have no finding.
use herrscher_transport.Prelude.{
  ℕ, ◌<◌, ◌≡◌, refl, ◌↔◌, ◌⊎◌, inl, inr, Bool, true, false, some, List, [], ◌∷◌, arith, All, Any,
  Bool-cases,
}
use herrscher_transport.Commentcheck.Empty.{
  append-eq-nil, if-eq-nil, switch-eq-nil, unless-eq-nil, quiet, All-map,
}
use herrscher_transport.Commentcheck.Text.{Text, codes, has_prefix}
use herrscher_transport.Commentcheck.Syntax.{Comment, Group, Block, File}
use herrscher_transport.Commentcheck.Packages.{Packages}
use herrscher_transport.Commentcheck.Directives.{is_known_directive}
use herrscher_transport.Commentcheck.Docs.{Allowed, inside_block}
use herrscher_transport.Commentcheck.Comments.{
  Position, Finding, function_bodies, is_nolint_directive, nolint_directives, stray_directive_lines,
  is_inside, is_directive, sorted_out, or_switch, group_findings, each_group, allowed_in,
  stray_comments,
}

module _ (P : Packages) (position_of : ℕ → Position) where
  abbrev IsKnown : Text → Comment → Type 0
  IsKnown directory line = is_known_directive P directory line.text ≡ true

  -- The group stands between the braces of a function body.
  abbrev pub IsInside : Group → List Block → Type 0
  IsInside group bodies = Any (λ b. (b.lbrace < group.start) × (group.stop < b.rbrace)) bodies

  -- The group is allowed and inside a function, or allowed and outside, with known //go: lines only, or a
  -- group of known directives outside.
  abbrev pub IsPlaced : Allowed → List Block → Text → Group → Type 0
  IsPlaced allowed bodies directory group =
      (IsInside group bodies × (allowed (some group.id) ≡ true))
      ⊎ (¬ IsInside group bodies
          × (allowed (some group.id) ≡ true)
          × All (λ line. has_prefix line.text (codes "//go:") ≡ true → IsKnown directory line)
              group.lines)
      ⊎ (¬ IsInside group bodies × All (IsKnown directory) group.lines)

  -- None of the lines is a nolint directive, and the group is placed.
  abbrev pub IsFine : Allowed → List Block → Text → Group → Type 0
  IsFine allowed bodies directory group =
      All (λ line. is_nolint_directive P position_of line.text ≡ false) group.lines
      × IsPlaced allowed bodies directory group

  nolint_none :
      (lines : List Comment)
      → (nolint_directives P position_of lines ≡ [])
        ↔ All (λ line. is_nolint_directive P position_of line.text ≡ false) lines
  unfolding nolint_directives
  nolint_none [] = ((λ h. tt), (λ h. refl))
  nolint_none (line ∷ lines) = (
    (λ h. let (good, rest) = (if-eq-nil _ _ _).0 h in (good, (nolint_none lines).0 rest)),
    (λ (h, hs). (if-eq-nil _ _ _).1 (h, (nolint_none lines).1 hs)),
  )

  stray_directive_lines_none :
      (directory : Text) (lines : List Comment)
      → (stray_directive_lines P position_of directory lines ≡ [])
        ↔ All (λ line. has_prefix line.text (codes "//go:") ≡ true → IsKnown directory line) lines
  unfolding stray_directive_lines
  stray_directive_lines_none directory [] = ((λ h. tt), (λ h. refl))
  stray_directive_lines_none directory (line ∷ lines) = (
    (λ h.
        let (good, rest) = (if-eq-nil _ _ _).0 h in
        (quiet good, (stray_directive_lines_none directory lines).0 rest)),
    (λ (h, hs). (if-eq-nil _ _ _).1 (
      elim (Bool-cases (has_prefix line.text (codes "//go:"))) [
        | inl go ↦ ground (arith, h go)
        | inr other ↦ ground arith
      ],
      (stray_directive_lines_none directory lines).1 hs,
    )),
  )

  is_directive_iff :
      (directory : Text) (lines : List Comment)
      → (is_directive P position_of directory lines ≡ true) ↔ All (IsKnown directory) lines
  unfolding is_directive
  is_directive_iff directory [] = ((λ h. tt), (λ h. refl))
  is_directive_iff directory (line ∷ lines) = (
    (λ h. ((ground arith), (is_directive_iff directory lines).0 (ground arith))),
    (λ (h, hs). ground (arith, (is_directive_iff directory lines).1 hs)),
  )

  is_inside_iff :
      (group : Group) (bodies : List Block)
      → (is_inside P position_of group bodies ≡ true) ↔ IsInside group bodies
  unfolding is_inside
  is_inside_iff group [] = ((λ h. cc), (λ h. elim h [ ]))
  is_inside_iff group (b ∷ bs) = (
    (λ h. elim (Bool-cases (inside_block P group b)) [
      | inl t ↦ inl (ground arith)
      | inr f ↦ inr ((is_inside_iff group bs).0 (ground arith))
    ]),
    (λ h. elim h [ inl t ↦ ground arith | inr t ↦ ground (arith, (is_inside_iff group bs).1 t) ]),
  )

  sorted_out_none :
      (allowed : Allowed) (bodies : List Block) (directory : Text) (group : Group)
      → (sorted_out P position_of allowed bodies directory group ≡ [])
        ↔ IsPlaced allowed bodies directory group
  unfolding sorted_out
  sorted_out_none allowed bodies directory group =
      switch-eq-nil (is_inside P position_of group bodies) (allowed (some group.id))
        (is_directive P position_of directory group.lines) _ _ (is_inside_iff group bodies)
        (stray_directive_lines_none directory group.lines) (is_directive_iff directory group.lines)
        (All-map group.lines (λ line known go. known))

  or_switch-eq-nil :
      (first others : List Finding)
      → (or_switch P position_of first others ≡ []) ↔ ((first ≡ []) × (others ≡ []))
  or_switch-eq-nil [] others = ((λ h. (refl, h)), (λ (p, q). q))
  or_switch-eq-nil (nolint ∷ first) others = ((λ h. cc), (λ (p, q). cc))

  group_findings_none :
      (allowed : Allowed) (bodies : List Block) (directory : Text) (group : Group)
      → (group_findings P position_of allowed bodies directory group ≡ [])
        ↔ IsFine allowed bodies directory group
  unfolding group_findings
  group_findings_none allowed bodies directory group = (
    (λ h.
        let (none_nolint, placed) = (or_switch-eq-nil _ _).0 h in
        (
          (nolint_none group.lines).0 none_nolint,
          (sorted_out_none allowed bodies directory group).0 placed,
        )),
    (λ (h, placed).
        (or_switch-eq-nil _ _).1 (
          (nolint_none group.lines).1 h,
          (sorted_out_none allowed bodies directory group).1 placed,
        )),
  )

  each_group_none :
      (allowed : Allowed) (bodies : List Block) (directory : Text) (groups : List Group)
      → (each_group P position_of allowed bodies directory groups ≡ [])
        ↔ All (IsFine allowed bodies directory) groups
  each_group_none allowed bodies directory [] = ((λ h. tt), (λ h. refl))
  each_group_none allowed bodies directory (group ∷ groups) = (
    (λ h.
        let (p, q) = (append-eq-nil _ _).0 h in
        (
          (group_findings_none allowed bodies directory group).0 p,
          (each_group_none allowed bodies directory groups).0 q,
        )),
    (λ (p, q). (append-eq-nil _ _).1 (
      (group_findings_none allowed bodies directory group).1 p,
      (each_group_none allowed bodies directory groups).1 q,
    )),
  )

  -- A file is clean when a generator names it and its header says it is generated, or all groups are fine.
  abbrev pub IsClean : Text → File → Bool → Type 0
  IsClean path file named =
      ((named ≡ true) × (file.generated ≡ true))
      ⊎ All (IsFine (allowed_in P position_of path file) (function_bodies file.nodes) (P.dir path))
          file.comments

  -- The check finds nothing in a file exactly when the file is a generated one that a generator of its
  -- directory names, or each of its comment groups has no nolint line and is an allowed doc or example
  -- output inside a function, or an allowed one outside whose //go: lines are all known directives, or
  -- outside with known directives only.
  pub stray_comments-IsClean :
      (path : Text) (file : File) (named : Bool)
      → (stray_comments P position_of path file named ≡ []) ↔ IsClean path file named
  unfolding stray_comments
  stray_comments-IsClean path file named =
      unless-eq-nil named file.generated _
        (each_group_none (allowed_in P position_of path file) _ (P.dir path) file.comments)
