-- ===== src/Tests/Directives.antt =====
-- Words of directives, and the root of a module.
use herrscher_transport.Prelude.{
  ℕ, ◌≡◌, refl, ◌≢◌, ◌↔◌, ◌⊎◌, inl, inr, ◌<◌, length, true, false, some, List, [], ◌∷◌, ◌++◌, arith,
  Any, Bool, Bool-cases, subst, some_injective, nat_eq, if◌then◌else◌, nat_eq_iff,
}
use herrscher_transport.Commentcheck.Text.{Text, codes, same, contains, has_prefix, contains_text}
use herrscher_transport.Commentcheck.Packages.{Packages}
use herrscher_transport.Commentcheck.Directives.{
  is_known_directive, split_directive, generator_outputs, output_flag_values,
}
use herrscher_transport.Commentcheck.Directives.Named.{IsNamed, generator_outputs_iff}
use herrscher_transport.Commentcheck.Syntax.{Group, ParsedFile}
use herrscher_transport.Commentcheck.Directives.Known.{IsKnown, is_known_directive_iff}
use herrscher_transport.Commentcheck.Words.{
  found, malformed, out_of_fuel, directive_words, is_quote,
}
use herrscher_transport.Commentcheck.Words.Fuel.{directive_words_total}
use herrscher_transport.Commentcheck.Tools.{module_root}
use herrscher_transport.Commentcheck.Tools.Root.{IsNearest, module_root-IsNearest}
use herrscher_transport.Commentcheck.Words.Ends.{close, plain, escaped}
use herrscher_transport.Commentcheck.Words.RoundTrip.{
  bare, quoted, spelled, words_of, directive_words-spelled,
}
use herrscher_transport.Tests.Commentcheck.{blank, quoted_text, unquoted, packages, file_with}

abbrev literals : List (Text × Text)
literals = (codes "go", codes "go") ∷ (quoted_text, 97 ∷ 34 ∷ []) ∷ (codes "run", codes "run") ∷ []

-- go "a\"" run
words_read : directive_words blank unquoted (spelled literals) ≡ found (words_of literals)
unfolding directive_words
words_read = refl

words_bad : directive_words blank unquoted (codes "go `x") ≡ malformed
unfolding directive_words
words_bad = refl

directive_words_total_example : directive_words blank unquoted (codes "a b") ≢ out_of_fuel
directive_words_total_example = directive_words_total blank unquoted (codes "a b")

quote_visible : (c : ℕ) → is_quote c ≡ true → blank c ≡ false
quote_visible c h = ground arith

directive_words-spelled_example :
    directive_words blank unquoted (spelled literals) ≡ found (words_of literals)
directive_words-spelled_example =
    directive_words-spelled blank unquoted refl quote_visible literals (
      bare b'g' (codes "o") refl refl (refl, tt),
      (
        quoted 34 (97 ∷ 92 ∷ 34 ∷ 34 ∷ []) (97 ∷ 34 ∷ []) refl
            (plain 97 _ (ground arith) refl (escaped 92 34 _ refl (close 34 refl))) refl,
        (bare b'r' (codes "un") refl refl (refl, (refl, tt)), tt),
      ),
    )

-- filepath on Unix, for clean paths: a path that begins with "/" is absolute, and its
-- parent is what stands in front of the last "/".
abbrev is_rooted : Text → Bool
is_rooted path = has_prefix path (codes "/")

abbrev up : Text → Text
up [] = []
up (c ∷ s) = if contains b'/' s then c ∷ up s else []

abbrev parent : Text → Text
parent [] = codes "."
parent (c ∷ s) = if nat_eq c b'/' then c ∷ up s else if contains b'/' s then c ∷ up s else codes "."

abbrev rooted : Text → Text
rooted path = if is_rooted path then path else b'/' ∷ path

abbrev tree : Packages
tree = record packages {
  dir = parent;
  abs = λ path. some (rooted path);
  join = λ path name. path ++ b'/' ∷ name;
  exists = λ path. same path (codes "/b/go.mod");
}

parents :
    (parent (codes "/b/c/d") ≡ codes "/b/c")
    × (parent (codes "/b") ≡ codes "/")
    × (parent (codes "/") ≡ codes "/")
    × (parent (codes "a") ≡ codes ".")
parents = (refl, refl, refl, refl)

rooted-is_rooted :
    (path absolute : Text) → some (rooted path) ≡ some absolute → is_rooted absolute ≡ true
rooted-is_rooted path absolute h = subst (λ p. is_rooted p ≡ true) (some_injective h) (this path)
  where
    this : (path : Text) → is_rooted (rooted path) ≡ true
    this path = elim (Bool-cases (is_rooted path)) [ inl is ↦ rw is is | inr is ↦ rw is refl ]

up_shorter : (c : ℕ) (s : Text) → length (up (c ∷ s)) < length (c ∷ s)
up_shorter c [] = ground arith
up_shorter c (d ∷ s) = elim (Bool-cases (contains b'/' (d ∷ s))) [
  | inl has ↦ rw has (omega (arith, up_shorter d s))
  | inr lacks ↦ rw lacks (ground arith)
]

abbrev ParentShrinks : Text → Type 0
ParentShrinks path =
    (is_rooted (parent path) ≡ true) × ((parent path ≡ path) ⊎ (length (parent path) < length path))

below_root : (s : Text) → ParentShrinks (b'/' ∷ s)
below_root [] = (refl, inl refl)
below_root (d ∷ s) = (refl, inr (omega (arith, up_shorter d s)))

parents_shrink : (path : Text) → is_rooted path ≡ true → ParentShrinks path
parents_shrink [] h = cc
parents_shrink (c ∷ s) h = elim (Bool-cases (nat_eq b'/' c)) [
  | inl slash ↦ subst (λ c. ParentShrinks (c ∷ s)) ((nat_eq_iff b'/' c).0 slash) (below_root s)
  | inr other ↦ let bad : false ≡ true = rw other at h in cc
]

root_found : module_root tree (codes "b/c") ≡ some (codes "/b")
unfolding module_root
root_found = refl

module_root-IsNearest_example : (module_root tree (codes "b/c") ≡ some (codes "/b")) ↔ (
    (absolute : Text) × (tree.abs (codes "b/c") ≡ some absolute)
    × IsNearest tree absolute (codes "/b"))
module_root-IsNearest_example =
    module_root-IsNearest tree is_rooted rooted-is_rooted parents_shrink (codes "b/c") (codes "/b")

abbrev pinned_run : Text
pinned_run = codes "//go:generate go run x.y/z@v1 -o out"

run_is_known : is_known_directive packages (codes "d") pinned_run ≡ true
unfolding is_known_directive directive_words
run_is_known = refl

latest_is_not :
    is_known_directive packages (codes "d") (codes "//go:generate go run x.y/z@latest") ≡ false
unfolding is_known_directive directive_words
latest_is_not = refl

is_known_directive_iff_example :
    (is_known_directive packages (codes "d") pinned_run ≡ true)
    ↔ IsKnown packages
        (codes "d")
        pinned_run
        (split_directive packages pinned_run).name
        (split_directive packages pinned_run).arguments
is_known_directive_iff_example = is_known_directive_iff packages (codes "d") pinned_run

abbrev generating : Group
generating = record {
  id = 5;
  lines = record { slash = 90; text = pinned_run } ∷ [];
  start = 90;
  stop = 130;
}

abbrev sources : List ParsedFile
sources = record { path = codes "d/a.go"; file = file_with (generating ∷ []) } ∷ []

out_is_named : generator_outputs packages sources ≡ codes "out" ∷ []
unfolding generator_outputs is_known_directive directive_words output_flag_values
out_is_named = refl

generator_outputs_iff_example :
    (contains_text (generator_outputs packages sources) (codes "out") ≡ true)
    ↔ Any (IsNamed packages (codes "out")) sources
generator_outputs_iff_example = generator_outputs_iff packages sources (codes "out")
