-- ===== src/Commentcheck/Tools/Root.antt =====
-- directives.go: moduleRoot ends, and finds the nearest directory with a go.mod.
use herrscher_transport.Prelude.{
  ℕ, zero, suc, ◌<◌, ◌≡◌, refl, ◌≢◌, ◌↔◌, ◌⊎◌, inl, inr, Bool, true, false, none, some, length,
  arith, Bool-cases, Option-cases, subst, sym, ◌∙◌, some_injective,
}
use herrscher_transport.Commentcheck.Text.{Text, codes, same, same_iff}
use herrscher_transport.Commentcheck.Packages.{Packages}
use herrscher_transport.Commentcheck.Tools.{module_root_from, module_root}

none-ne-some : (a : Text) → none ≢ some a
none-ne-some a h = cc

same-false : (s t : Text) → s ≢ t → same s t ≡ false
same-false s t ne = elim (Bool-cases (same s t)) [
  | inl eq ↦ absurd (ne ((same_iff s t).0 eq))
  | inr other ↦ other
]

module _ (P : Packages) where
  open P use {join, dir, abs, exists}

  -- The root is the path, or its nearest parent, that has a go.mod; a path that is its own parent has none
  -- above it.
  pub data IsNearest : Text → Text → Type 0 where
    here : (path : Text) → exists (join path (codes "go.mod")) ≡ true → IsNearest path path
    above :
        (path root : Text)
        → exists (join path (codes "go.mod")) ≡ false
        → dir path ≢ path
        → IsNearest (dir path) root
        → IsNearest path root

  -- filepath.Abs gives absolute paths, as `is_abs` tells them, and filepath.Dir of an absolute path is
  -- an absolute path, the same or a shorter one.
  abbrev pub AbsGivesAbsolute : (Text → Bool) → Type 0
  AbsGivesAbsolute is_abs =
      (directory absolute : Text) → abs directory ≡ some absolute → is_abs absolute ≡ true

  abbrev pub ParentsShrink : (Text → Bool) → Type 0
  ParentsShrink is_abs =
      (path : Text)
      → is_abs path ≡ true
      → (is_abs (dir path) ≡ true) × ((dir path ≡ path) ⊎ (length (dir path) < length path))

  root_found :
      (is_abs : Text → Bool) (shrink : ParentsShrink is_abs) (fuel : ℕ) (path root : Text)
      → is_abs path ≡ true
      → length path < fuel
      → IsNearest path root
      → module_root_from P fuel path ≡ some root
  unfolding module_root_from
  root_found is_abs shrink zero path root whole enough n = absurd (omega arith)
  root_found is_abs shrink (suc fuel) path root whole enough (here path' h) = rw h refl
  root_found is_abs shrink (suc fuel) path root whole enough (above path' root' h ne n) =
      let (whole_too, shorter_or) = shrink path whole in
      rw (h, same-false (dir path) path ne)
        (root_found is_abs shrink fuel (dir path) root whole_too
          (elim shorter_or [ inl top ↦ absurd (ne top) | inr shorter ↦ omega arith ]) n)

  root-IsNearest :
      (fuel : ℕ) (path root : Text) → module_root_from P fuel path ≡ some root → IsNearest path root
  unfolding module_root_from
  root-IsNearest zero path root h = absurd (cc)
  root-IsNearest (suc fuel) path root h = elim (Bool-cases (exists (join path (codes "go.mod")))) [
    | inl found ↦
        subst (IsNearest path) (some_injective (rw (module_root_from, found) at h))
          (here path found)
    | inr missing ↦ elim (Bool-cases (same (dir path) path)) [
      | inl top ↦ absurd (none-ne-some root (rw (module_root_from, missing, top) at h))
      | inr more ↦
          above path root missing (λ e. cc ((same_iff (dir path) path).1 e))
            (root-IsNearest fuel (dir path) root (rw (module_root_from, missing, more) at h))
    ]
  ]

  -- If filepath.Abs gives absolute paths, and filepath.Dir of an absolute path is absolute and the same
  -- or shorter: moduleRoot finds a root exactly when the directory has an absolute path, and the root
  -- is the nearest of that path and its parents with a go.mod. So the loop finds it in as many turns as
  -- the model allows.
  pub module_root-IsNearest :
      (is_abs : Text → Bool) (gives : AbsGivesAbsolute is_abs) (shrink : ParentsShrink is_abs)
      (directory root : Text)
      → (module_root P directory ≡ some root)
        ↔ ((absolute : Text) × (abs directory ≡ some absolute) × IsNearest absolute root)
  unfolding module_root
  module_root-IsNearest is_abs gives shrink directory root = elim (Option-cases (abs directory)) [
    | inl fails ↦ (
      (λ h. absurd (none-ne-some root (rw (module_root, fails) at h))),
      (λ (absolute, is, n). absurd (cc)),
    )
    | inr (absolute, is) ↦ (
      (λ h. (
        absolute,
        is,
        root-IsNearest (suc (length absolute)) absolute root (rw (module_root, is) at h),
      )),
      (λ (absolute', is', n).
          rw (module_root, is)
            (root_found is_abs shrink (suc (length absolute)) absolute root
              (gives directory absolute is) (omega arith)
              (subst (λ a. IsNearest a root) (some_injective (sym is' ∙ is)) n))),
    )
  ]
