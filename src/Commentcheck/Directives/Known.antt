-- ===== src/Commentcheck/Directives/Known.antt =====
-- directives.go, isKnownDirective: which //go: directives are known.
use herrscher_transport.Prelude.{
  ◌≡◌, ◌≢◌, refl, ap, ◌↔◌, ◌⊎◌, inl, inr, Bool, true, false, not, ◌&&◌, some, List, [], ◌∷◌, ◌++◌,
  Bool-cases, arith, neither, All, contains_func, Option-cases,
}
use herrscher_transport.Commentcheck.Text.{
  Text, codes, same, same_iff, contains, cut, contains_text,
}
use herrscher_transport.Commentcheck.Packages.{Packages}
use herrscher_transport.Commentcheck.Directives.{
  split_directive, known, is_known_directive, matches_a_file, is_setting, is_pair, is_one_setting,
  is_inline, is_nil,
}
use herrscher_transport.Commentcheck.Directives.Flags.{
  false-ne-true, not-true, cut_parts, cut_whole,
}
use herrscher_transport.Commentcheck.Directives.Pinned.{IsPinned, is_pinned_generator_iff}

-- The directives to the compiler that take no argument.
abbrev pub compiler_directives : List Text
compiler_directives =
    codes "noinline"
    ∷ codes "nosplit"
    ∷ codes "noescape"
    ∷ codes "norace"
    ∷ codes "uintptrescapes"
    ∷ []

module _ (P : Packages) (directory text : Text) where
  open P use {is_lower, is_digit, build_parses}

  -- key=value, with a key of lower case letters and digits.
  abbrev pub IsSetting : Text → Type 0
  IsSetting argument =
      (key : Text) × (value : Text) × (argument ≡ key ++ b'=' ∷ value)
      × (contains b'=' key ≡ false)
      × (key ≢ [])
      × (value ≢ [])
      × All (λ letter. (is_lower letter ≡ true) ⊎ (is_digit letter ≡ true)) key

  -- The directives that are known, by name and arguments.
  pub data IsKnown : Text → List Text → Type 0 where
    compiler : {name : Text} → contains_text compiler_directives name ≡ true → IsKnown name []
    build : {arguments : List Text} → build_parses text ≡ true → IsKnown (codes "build") arguments
    generator :
        {arguments : List Text}
        → IsPinned P directory arguments
        → IsKnown (codes "generate") arguments
    embed :
        {pattern_text : Text} {others : List Text}
        → All (λ p. matches_a_file P directory p ≡ true) (pattern_text ∷ others)
        → IsKnown (codes "embed") (pattern_text ∷ others)
    fix : IsKnown (codes "fix") (codes "inline" ∷ [])
    debug : {argument : Text} → IsSetting argument → IsKnown (codes "debug") (argument ∷ [])

  letters_of :
      (key : Text)
      → contains_func key (λ letter. not (is_lower letter) && not (is_digit letter)) ≡ false
      → All (λ letter. (is_lower letter ≡ true) ⊎ (is_digit letter ≡ true)) key
  letters_of [] h = tt
  letters_of (letter ∷ key) h =
      let (this, others) = neither _ _ h in
      (one (is_lower letter) (is_digit letter) this, letters_of key others)
    where
      one : (a b : Bool) → (not a && not b) ≡ false → (a ≡ true) ⊎ (b ≡ true)
      one true b h = inl refl
      one false true h = inr refl
      one false false h = cc

  all_letters :
      (key : Text)
      → All (λ letter. (is_lower letter ≡ true) ⊎ (is_digit letter ≡ true)) key
      → contains_func key (λ letter. not (is_lower letter) && not (is_digit letter)) ≡ false
  all_letters [] h = refl
  all_letters (letter ∷ key) (inl lower, h) = rw (lower, all_letters key h) refl
  all_letters (letter ∷ key) (inr digit, h) = rw (digit, all_letters key h) (ground arith)

  IsSetting-of : (argument : Text) → is_setting P argument ≡ true → IsSetting argument
  unfolding is_setting
  IsSetting-of argument h = elim (Option-cases (cut b'=' argument)) [
    | inl none_found ↦ let bad : false ≡ true = rw none_found at h in absurd (false-ne-true bad)
    | inr ((key, value), found) ↦
        let (whole, first) = cut_parts b'=' argument key value found in
        let (k, v, letters) = pair_of key value (rw found at h) in
        (key, value, whole, first, k, v, letters)
  ]
    where
      pair_of :
          (key value : Text)
          → is_pair P (some (key, value)) ≡ true
          → (key ≢ [])
            × (value ≢ [])
            × All (λ letter. (is_lower letter ≡ true) ⊎ (is_digit letter ≡ true)) key
      pair_of [] value h = cc
      pair_of (c ∷ key) [] h = cc
      pair_of (c ∷ key) (d ∷ value) h = ((λ e. cc), (λ e. cc), letters_of (c ∷ key) (not-true _ h))

  IsSetting-is : (argument : Text) → IsSetting argument → is_setting P argument ≡ true
  unfolding is_setting
  IsSetting-is argument ([], value, whole, first, k, v, letters) = absurd (k refl)
  IsSetting-is argument (c ∷ key, [], whole, first, k, v, letters) = absurd (v refl)
  IsSetting-is argument (c ∷ key, d ∷ value, whole, first, k, v, letters) =
      rw (whole, cut_whole b'=' (c ∷ key) (d ∷ value) first)
        (ap not (all_letters (c ∷ key) letters))

  all_match :
      (patterns : List Text)
      → contains_func patterns (λ p. not (matches_a_file P directory p)) ≡ false
      → All (λ p. matches_a_file P directory p ≡ true) patterns
  all_match [] h = tt
  all_match (p ∷ patterns) h =
      let (this, others) = neither _ _ h in
      (negated (matches_a_file P directory p) this, all_match patterns others)
    where
      negated : (b : Bool) → not b ≡ false → b ≡ true
      negated true h = refl
      negated false h = cc

  none_fails :
      (patterns : List Text)
      → All (λ p. matches_a_file P directory p ≡ true) patterns
      → contains_func patterns (λ p. not (matches_a_file P directory p)) ≡ false
  none_fails [] h = refl
  none_fails (p ∷ patterns) (this, others) = rw (this, none_fails patterns others) refl

  no_arguments :
      (name : Text) (arguments : List Text)
      → contains_text compiler_directives name ≡ true
      → is_nil P arguments ≡ true
      → IsKnown name arguments
  no_arguments name [] is h = compiler is
  no_arguments name (argument ∷ arguments) is h = cc

  embedded :
      (arguments : List Text)
      → (not (is_nil P arguments)
          && not (contains_func arguments (λ p. not (matches_a_file P directory p))))
        ≡ true
      → IsKnown (codes "embed") arguments
  embedded [] h = cc
  embedded (p ∷ patterns) h = embed (all_match (p ∷ patterns) (not-true _ h))

  fixed : (arguments : List Text) → is_inline P arguments ≡ true → IsKnown (codes "fix") arguments
  fixed [] h = cc
  fixed (argument ∷ []) h = rw ((same_iff argument (codes "inline")).0 h) fix
  fixed (argument ∷ next ∷ arguments) h = cc

  debugged :
      (arguments : List Text)
      → is_one_setting P arguments ≡ true
      → IsKnown (codes "debug") arguments
  debugged [] h = cc
  debugged (argument ∷ []) h = debug (IsSetting-of argument h)
  debugged (argument ∷ next ∷ arguments) h = cc

  known_of :
      (name : Text) (arguments : List Text)
      → known P directory text (record { name = name; arguments = arguments }) ≡ true
      → IsKnown name arguments
  unfolding known
  known_of name arguments h = elim (Bool-cases (contains_text compiler_directives name)) [
    | inl is ↦ no_arguments name arguments is (rw is at h)
    | inr a ↦ elim (Bool-cases (same name (codes "build"))) [
      | inl is ↦ rw ((same_iff name _).0 is) (build (rw (a, is) at h))
      | inr b ↦ elim (Bool-cases (same name (codes "generate"))) [
        | inl is ↦
            rw ((same_iff name _).0 is)
              (generator ((is_pinned_generator_iff P directory arguments).0 (rw (a, b, is) at h)))
        | inr c ↦ elim (Bool-cases (same name (codes "embed"))) [
          | inl is ↦ rw ((same_iff name _).0 is) (embedded arguments (rw (a, b, c, is) at h))
          | inr d ↦ elim (Bool-cases (same name (codes "fix"))) [
            | inl is ↦ rw ((same_iff name _).0 is) (fixed arguments (rw (a, b, c, d, is) at h))
            | inr e ↦ elim (Bool-cases (same name (codes "debug"))) [
              | inl is ↦
                  rw ((same_iff name _).0 is) (debugged arguments (rw (a, b, c, d, e, is) at h))
              | inr f ↦
                  let bad : false ≡ true = rw (a, b, c, d, e, f) at h in absurd (false-ne-true bad)
            ]
          ]
        ]
      ]
    ]
  ]

  known_is :
      {name : Text} {arguments : List Text}
      → IsKnown name arguments
      → known P directory text (record { name = name; arguments = arguments }) ≡ true
  unfolding known
  known_is (compiler is) = rw is refl
  known_is (build parses) = parses
  known_is (generator {arguments} pinned) = (is_pinned_generator_iff P directory arguments).1 pinned
  known_is (embed {pattern_text} {others} matching) =
      ap not (none_fails (pattern_text ∷ others) matching)
  known_is fix = refl
  known_is (debug {argument} setting) = IsSetting-is argument setting

  -- A //go: directive is known exactly when it is a compiler directive without arguments, a build
  -- constraint that parses, a pinned generator, an embed of patterns that match a file each, the fix
  -- of inlining, or one setting for debugging.
  pub is_known_directive_iff :
      (is_known_directive P directory text ≡ true)
      ↔ IsKnown (split_directive P text).name (split_directive P text).arguments
  unfolding is_known_directive
  is_known_directive_iff =
      (known_of (split_directive P text).name (split_directive P text).arguments, known_is)
