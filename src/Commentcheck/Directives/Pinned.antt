-- ===== src/Commentcheck/Directives/Pinned.antt =====
-- directives.go, isPinnedGenerator: which commands of //go:generate are pinned.
use herrscher_transport.Prelude.{
  either_true, ◌≡◌, refl, ◌↔◌, ◌⊎◌, inl, inr, true, false, ◌||◌, List, [], ◌∷◌, Bool-cases,
  if◌then◌else◌, arith,
}
use herrscher_transport.Commentcheck.Text.{Text, codes, same, same_iff, has_prefix, contains_text}
use herrscher_transport.Commentcheck.Packages.{Packages}
use herrscher_transport.Commentcheck.Tools.{tool_directive, declared_tools}
use herrscher_transport.Commentcheck.Directives.{
  is_flag_list, is_versioned_module, is_local_package, is_pinned_generator, is_local_path,
}
use herrscher_transport.Commentcheck.Directives.Flags.{
  IsFlags, IsFlags-read, IsFlags-listed, false-ne-true, IsVersioned, IsVersioned-of, IsVersioned-is,
}

module _ (P : Packages) (directory : Text) where
  open P use {join, is_dir}

  -- A path that begins here, to a directory.
  abbrev pub IsLocal : Text → Type 0
  IsLocal command =
      ((command ≡ codes ".")
        ⊎ (has_prefix command (codes "./") ≡ true)
        ⊎ (has_prefix command (codes "../") ≡ true))
      × (is_dir (join directory command) ≡ true)

  -- The three ways to pin a generator: a module at a version, a local package, or a tool that the
  -- go.mod declares, each with flags behind it.
  pub data IsPinned : List Text → Type 0 where
    run_versioned :
        {command : Text} {flags : List Text}
        → IsVersioned command
        → IsFlags flags
        → IsPinned (codes "go" ∷ codes "run" ∷ command ∷ flags)
    run_local :
        {command : Text} {flags : List Text}
        → IsLocal command
        → IsFlags flags
        → IsPinned (codes "go" ∷ codes "run" ∷ command ∷ flags)
    declared_tool :
        {command : Text} {flags : List Text}
        → contains_text (declared_tools P directory) command ≡ true
        → IsFlags flags
        → IsPinned (codes "go" ∷ tool_directive ∷ command ∷ flags)

  place_of :
      (command : Text)
      → is_local_path P command ≡ true
      → (command ≡ codes ".")
        ⊎ (has_prefix command (codes "./") ≡ true)
        ⊎ (has_prefix command (codes "../") ≡ true)
  place_of command here = elim (either_true _ _ here) [
    | inr above ↦ inr (inr above)
    | inl others ↦ elim (either_true _ _ others) [
      | inl dot ↦ inl ((same_iff command (codes ".")).0 dot)
      | inr below ↦ inr (inl below)
    ]
  ]

  is_place :
      (command : Text)
      → (command ≡ codes ".")
        ⊎ (has_prefix command (codes "./") ≡ true)
        ⊎ (has_prefix command (codes "../") ≡ true)
      → is_local_path P command ≡ true
  is_place command (inl dot) = rw dot refl
  is_place command (inr (inl below)) = ground (arith, below)
  is_place command (inr (inr above)) = ground (arith, above)

  IsLocal-iff : (command : Text) → (is_local_package P directory command ≡ true) ↔ IsLocal command
  unfolding is_local_package
  IsLocal-iff command = (
    (λ h. elim (Bool-cases (is_local_path P command)) [
      | inr elsewhere ↦ let bad : false ≡ true = rw elsewhere at h in absurd (false-ne-true bad)
      | inl here ↦ (place_of command here, rw here at h)
    ]),
    (λ (place, there). rw (is_place command place) there),
  )

  verb-IsPinned :
      (verb command : Text) (flags : List Text)
      → IsFlags flags
      → (if same verb (codes "run")
          then is_versioned_module command || is_local_package P directory command
          else if same verb tool_directive
          then contains_text (declared_tools P directory) command
          else false)
        ≡ true
      → IsPinned (codes "go" ∷ verb ∷ command ∷ flags)
  verb-IsPinned verb command flags listed h = elim (Bool-cases (same verb (codes "run"))) [
    | inl run ↦ rw ((same_iff verb (codes "run")).0 run) (elim (either_true _ _ (rw run at h)) [
      | inl versioned ↦ run_versioned (IsVersioned-of command versioned) listed
      | inr local ↦ run_local ((IsLocal-iff command).0 local) listed
    ])
    | inr not_run ↦ elim (Bool-cases (same verb tool_directive)) [
      | inl tool ↦
          rw ((same_iff verb tool_directive).0 tool)
            (declared_tool (rw (not_run, tool) at h) listed)
      | inr neither_verb ↦
          let bad : false ≡ true = rw (not_run, neither_verb) at h in absurd (false-ne-true bad)
    ]
  ]

  IsPinned-of :
      (arguments : List Text)
      → is_pinned_generator P directory arguments ≡ true
      → IsPinned arguments
  unfolding is_pinned_generator
  IsPinned-of [] h = cc
  IsPinned-of (program ∷ []) h = cc
  IsPinned-of (program ∷ verb ∷ []) h = cc
  IsPinned-of (program ∷ verb ∷ command ∷ flags) h = elim (Bool-cases (same program (codes "go"))) [
    | inr other ↦ let bad : false ≡ true = rw other at h in absurd (false-ne-true bad)
    | inl go ↦ elim (Bool-cases (is_flag_list flags)) [
      | inr plain ↦ let bad : false ≡ true = rw (go, plain) at h in absurd (false-ne-true bad)
      | inl listed ↦
          rw ((same_iff program (codes "go")).0 go)
            (verb-IsPinned verb command flags (IsFlags-read flags listed) (rw (go, listed) at h))
    ]
  ]

  IsPinned-is :
      {arguments : List Text}
      → IsPinned arguments
      → is_pinned_generator P directory arguments ≡ true
  unfolding is_pinned_generator
  IsPinned-is (run_versioned {command} {flags} versioned listed) =
      rw (IsFlags-listed flags listed, IsVersioned-is command versioned) refl
  IsPinned-is (run_local {command} {flags} local listed) =
      rw (IsFlags-listed flags listed, (IsLocal-iff command).1 local) (ground arith)
  IsPinned-is (declared_tool {command} {flags} declared listed) =
      rw (IsFlags-listed flags listed, declared) refl

  -- A generator is pinned exactly when its command line is `go run` with a module at a version or with
  -- a local package, or `go tool` with a tool that the go.mod declares, and nothing but flags with
  -- their values behind it.
  pub is_pinned_generator_iff :
      (arguments : List Text)
      → (is_pinned_generator P directory arguments ≡ true) ↔ IsPinned arguments
  is_pinned_generator_iff arguments = (IsPinned-of arguments, IsPinned-is)
