-- ===== src/Commentcheck/Docs/Last.antt =====
-- docs.go, lastCommentIn: the last comment group in a block.
use herrscher_transport.Prelude.{
  ◌≡◌, refl, sym, ◌∙◌, ap, ◌↔◌, ◌⊎◌, inl, inr, true, false, Option, none, some, List, [], ◌∷◌, ◌++◌,
  All, Bool-cases, some_injective, subst,
}
use herrscher_transport.Commentcheck.Syntax.{Block, Group}
use herrscher_transport.Commentcheck.Packages.{Packages}
use herrscher_transport.Commentcheck.Docs.{inside_block, last_comment_in}

module _ (P : Packages) where
  -- The last of the groups that lie in a block.
  abbrev pub IsLastIn : Block → Group → List Group → Type 0
  IsLastIn body group groups =
      (before : List Group) × (after : List Group) × (groups ≡ before ++ group ∷ after)
      × (inside_block P group body ≡ true)
      × All (λ later. inside_block P later body ≡ false) after

  last_or :
      (body : Block) (groups : List Group) (last : Option Group)
      → ((last_comment_in P groups body last ≡ last)
          × All (λ g. inside_block P g body ≡ false) groups)
        ⊎ ((group : Group) × (last_comment_in P groups body last ≡ some group)
            × IsLastIn body group groups)
  unfolding last_comment_in
  last_or body [] last = inl (refl, tt)
  last_or body (g ∷ groups) last = elim (Bool-cases (inside_block P g body)) [
    | inr outside ↦ elim (last_or body groups last) [
      | inl (same, others) ↦ inl (rw outside same, (outside, others))
      | inr (group, found, (before, after, parts, inside, others)) ↦
          inr (group, rw outside found, (g ∷ before, after, ap (λ t. g ∷ t) parts, inside, others))
    ]
    | inl inside_this ↦ elim (last_or body groups (some g)) [
      | inl (same, others) ↦ inr (g, rw inside_this same, ([], groups, refl, inside_this, others))
      | inr (group, found, (before, after, parts, inside, others)) ↦
          inr (
            group,
            rw inside_this found,
            (g ∷ before, after, ap (λ t. g ∷ t) parts, inside, others),
          )
    ]
  ]

  last_skips :
      (body : Block) (groups : List Group) (last : Option Group)
      → All (λ g. inside_block P g body ≡ false) groups
      → last_comment_in P groups body last ≡ last
  unfolding last_comment_in
  last_skips body [] last none_inside = refl
  last_skips body (g ∷ groups) last (outside, others) =
      rw outside (last_skips body groups last others)

  last_found :
      (body : Block) (group : Group) (before after : List Group) (last : Option Group)
      → inside_block P group body ≡ true
      → All (λ later. inside_block P later body ≡ false) after
      → last_comment_in P (before ++ group ∷ after) body last ≡ some group
  unfolding last_comment_in
  last_found body group [] after last inside others =
      rw (last_comment_in, inside) (last_skips body after (some group) others)
  last_found body group (g ∷ before) after last inside others =
      last_found body group before after _ inside others

  -- lastCommentIn finds the last comment group in a block.
  pub last_comment_in-IsLastIn :
      (body : Block) (group : Group) (groups : List Group)
      → (last_comment_in P groups body none ≡ some group) ↔ IsLastIn body group groups
  last_comment_in-IsLastIn body group groups = (
    (λ h. elim (last_or body groups none) [
      | inl (same, others) ↦ let bad : none ≡ some group = sym same ∙ h in cc
      | inr (other, found, last) ↦
          subst (λ g. IsLastIn body g groups) (some_injective (sym found ∙ h)) last
    ]),
    (λ (before, after, parts, inside, others).
        rw parts (last_found body group before after none inside others)),
  )
