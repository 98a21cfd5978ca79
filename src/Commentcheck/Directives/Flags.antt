-- ===== src/Commentcheck/Directives/Flags.antt =====
-- directives.go, isFlagList and isVersionedModule: lists of flags, and modules at a version.
use herrscher_transport.Prelude.{
  neither, both_true, ℕ, ◌≡◌, ◌≢◌, refl, sym, ◌∙◌, ap, inl, inr, Bool, true, false, not, ◌&&◌,
  Option, none, some, List, [], ◌∷◌, ◌++◌, nat_eq, nat_eq_iff, Bool-cases, if◌then◌else◌,
  some_injective, Option-cases,
}
use herrscher_transport.Commentcheck.Text.{Text, codes, has_prefix, contains, cut, push_before}
use herrscher_transport.Commentcheck.Directives.{is_flag_list, is_versioned_module, versioned_parts}

abbrev IsFlag : Text → Type 0
IsFlag word = has_prefix word (codes "-") ≡ true

-- Flags, each followed by a value or not; a flag with "=" has its value in it, and a value does not
-- look like a flag.
pub data IsFlags : List Text → Type 0 where
  no_flags : IsFlags []
  flag : {word : Text} {words : List Text} → IsFlag word → IsFlags words → IsFlags (word ∷ words)
  valued :
      {word value : Text} {words : List Text}
      → IsFlag word
      → contains b'=' word ≡ false
      → has_prefix value (codes "-") ≡ false
      → IsFlags words
      → IsFlags (word ∷ value ∷ words)

pub IsFlags-read : (words : List Text) → is_flag_list words ≡ true → IsFlags words
unfolding is_flag_list
IsFlags-read [] h = no_flags
IsFlags-read (word ∷ []) h = flag h no_flags
IsFlags-read (word ∷ next ∷ words) h = elim (Bool-cases (has_prefix word (codes "-"))) [
  | inr plain ↦ let bad : false ≡ true = rw plain at h in cc
  | inl is_flag ↦ elim (Bool-cases (contains b'=' word)) [
    | inl has ↦ flag is_flag (IsFlags-read (next ∷ words) (rw (is_flag, has) at h))
    | inr lacks ↦ elim (Bool-cases (has_prefix next (codes "-"))) [
      | inl again ↦ flag is_flag (IsFlags-read (next ∷ words) (rw (is_flag, lacks, again) at h))
      | inr value ↦
          valued is_flag lacks value (IsFlags-read words (rw (is_flag, lacks, value) at h))
    ]
  ]
]

first-IsFlag : {word : Text} {words : List Text} → IsFlags (word ∷ words) → IsFlag word
first-IsFlag (flag is_flag rest) = is_flag
first-IsFlag (valued is_flag lacks value rest) = is_flag

pub false-ne-true : false ≢ true
false-ne-true h = cc

either_way :
    (has skipped others : Bool)
    → others ≡ true
    → (if not has && not true then skipped else others) ≡ true
either_way true skipped others h = h
either_way false skipped others h = h

pub IsFlags-listed : (words : List Text) → IsFlags words → is_flag_list words ≡ true
unfolding is_flag_list
IsFlags-listed [] h = refl
IsFlags-listed (word ∷ []) (flag is_flag rest) = is_flag
IsFlags-listed (word ∷ next ∷ words) (flag is_flag rest) =
    elim (Bool-cases (has_prefix next (codes "-"))) [
      | inl again ↦
          rw (is_flag, again)
            (either_way (contains b'=' word) _ _ (IsFlags-listed (next ∷ words) rest))
      | inr value ↦ absurd (false-ne-true (sym value ∙ first-IsFlag rest))
    ]
IsFlags-listed (word ∷ next ∷ words) (valued is_flag lacks value rest) =
    rw (is_flag, lacks, value) (IsFlags-listed words rest)

push_parts :
    (d : ℕ) (o : Option (Text × Text)) (before after : Text)
    → push_before d o ≡ some (before, after)
    → (rest : Text) × (o ≡ some (rest, after)) × (d ∷ rest ≡ before)
push_parts d none before after h = cc
push_parts d (some (rest, behind)) before after h =
    let same = some_injective h in
    (rest, ap (λ t. some (rest, t)) (ap (λ p. p.1) same), ap (λ p. p.0) same)

-- A cut is at the first separator.
pub cut_parts :
    (c : ℕ) (s before after : Text)
    → cut c s ≡ some (before, after)
    → (s ≡ before ++ c ∷ after) × (contains c before ≡ false)
cut_parts c [] before after h = cc
cut_parts c (d ∷ s) before after h = elim (Bool-cases (nat_eq d c)) [
  | inl this ↦
      let parts = some_injective (rw this at h) in
      let d-c = (nat_eq_iff d c).0 this in
      rw (← ap (λ p. p.0) parts, ← ap (λ p. p.1) parts, d-c) (refl, refl)
  | inr other ↦
      let (rest, found, same_before) = push_parts d (cut c s) before after (rw other at h) in
      let (whole, lacks) = cut_parts c s rest after found in
      rw (← same_before) (ap (λ t. d ∷ t) whole, rw (other, lacks) refl)
]

pub cut_whole :
    (c : ℕ) (before after : Text)
    → contains c before ≡ false
    → cut c (before ++ c ∷ after) ≡ some (before, after)
cut_whole c [] after h = rw ((nat_eq_iff c c).1 refl) refl
cut_whole c (d ∷ before) after h =
    let (other, lacks) = neither (nat_eq d c) (contains c before) h in
    rw (other, cut_whole c before after lacks) refl

-- module@version, with a dot in the module, which does not begin with it, and a v at the beginning of
-- the version.
abbrev pub IsVersioned : Text → Type 0
IsVersioned command =
    (path : Text) × (version : Text) × (command ≡ path ++ b'@' ∷ version)
    × (contains b'@' path ≡ false)
    × (contains b'.' path ≡ true)
    × (has_prefix path (codes ".") ≡ false)
    × (has_prefix version (codes "v") ≡ true)

pub not-true : (b : Bool) → not b ≡ true → b ≡ false
not-true true h = cc
not-true false h = refl

pub IsVersioned-of : (command : Text) → is_versioned_module command ≡ true → IsVersioned command
unfolding is_versioned_module
IsVersioned-of command h = elim (Option-cases (cut b'@' command)) [
  | inl none_found ↦ let bad : false ≡ true = rw none_found at h in absurd (false-ne-true bad)
  | inr ((path, version), found) ↦
      let tests : versioned_parts (some (path, version)) ≡ true = rw found at h in
      let (front, marked) = both_true _ _ tests in
      let (dotted, inside) = both_true _ _ front in
      let (whole, first) = cut_parts b'@' command path version found in
      (path, version, whole, first, dotted, not-true _ inside, marked)
]

pub IsVersioned-is : (command : Text) → IsVersioned command → is_versioned_module command ≡ true
unfolding is_versioned_module
IsVersioned-is command (path, version, whole, first, dotted, inside, marked) =
    rw (whole, cut_whole b'@' path version first, dotted, inside, marked) refl
