-- ===== src/Commentcheck/Text.antt =====
-- What tools/commentcheck calls of strings, on texts as lists of code points; the Go parser hands over
-- valid UTF-8 only, in which its cuts fall between code points.
use Prim.Native.Char.{code}
use mathlib.Core.Option
use herrscher_transport.Prelude.{
  ℕ, suc, ◌≡◌, refl, ◌↔◌, Bool, true, false, ◌||◌, ◌&&◌, String, Option, none, some, List, [], ◌∷◌,
  nat_eq, if◌then◌else◌, arith,
}

abbrev pub Text : Type 0
Text = List ℕ

-- The code points of a literal.
abbrev pub codes : String → Text
codes String.[] = []
codes (String.◌∷◌ c s) = code c ∷ codes s

abbrev pub same : Text → Text → Bool
same [] [] = true
same (a ∷ s) (b ∷ t) = nat_eq a b && same s t
same _ _ = false

-- strings.CutPrefix; `none` where the prefix is not there
abbrev pub cut_prefix : Text → Text → Option Text
cut_prefix [] s = some s
cut_prefix (p ∷ ps) [] = none
cut_prefix (p ∷ ps) (c ∷ s) = if nat_eq p c then cut_prefix ps s else none

abbrev is_found : {A : Type 0} → Option A → Bool
is_found none = false
is_found (some a) = true

abbrev or_all : Text → Option Text → Text
or_all s none = s
or_all s (some rest) = rest

-- strings.HasPrefix(s, prefix)
abbrev pub has_prefix : Text → Text → Bool
has_prefix s prefix = is_found (cut_prefix prefix s)

-- strings.TrimPrefix(s, prefix)
abbrev pub trim_prefix : Text → Text → Text
trim_prefix s prefix = or_all s (cut_prefix prefix s)

-- strings.Contains(s, "c")
abbrev pub contains : ℕ → Text → Bool
contains c [] = false
contains c (d ∷ s) = nat_eq d c || contains c s

abbrev pub push_before : ℕ → Option (Text × Text) → Option (Text × Text)
push_before c none = none
push_before c (some (before, after)) = some (c ∷ before, after)

-- strings.Cut(s, "c"); `none` where the separator is not there
abbrev pub cut : ℕ → Text → Option (Text × Text)
cut c [] = none
cut c (d ∷ s) = if nat_eq d c then some ([], s) else push_before d (cut c s)

-- strings.IndexFunc, counted in code points; `none` is -1
abbrev pub index_func : (ℕ → Bool) → Text → Option ℕ
index_func test [] = none
index_func test (c ∷ s) = if test c then some 0 else Option.map suc (index_func test s)

-- strings.TrimLeftFunc
abbrev pub trim_left : (ℕ → Bool) → Text → Text
trim_left test [] = []
trim_left test (c ∷ s) = if test c then trim_left test s else c ∷ s

abbrev pub drop_if : Bool → ℕ → Text → Text
drop_if last c [] = if last then [] else c ∷ []
drop_if last c (d ∷ s) = c ∷ d ∷ s

-- strings.TrimRightFunc
abbrev pub trim_right : (ℕ → Bool) → Text → Text
trim_right test [] = []
trim_right test (c ∷ s) = drop_if (test c) c (trim_right test s)

-- strings.HasSuffix(s, suffix)
abbrev pub has_suffix : Text → Text → Bool
has_suffix [] suffix = same [] suffix
has_suffix (c ∷ s) suffix = same (c ∷ s) suffix || has_suffix s suffix

-- slices.Contains of texts
abbrev pub contains_text : List Text → Text → Bool
contains_text [] t = false
contains_text (s ∷ ss) t = same s t || contains_text ss t

pub same_iff : (s t : Text) → (same s t ≡ true) ↔ (s ≡ t)
same_iff [] [] = ((λ h. refl), (λ h. refl))
same_iff [] (b ∷ t) = ((λ h. cc), (λ h. cc))
same_iff (a ∷ s) [] = ((λ h. cc), (λ h. cc))
same_iff (a ∷ s) (b ∷ t) =
    ((λ h. ground (arith, same_iff s t)), (λ h. ground (arith, same_iff s t)))
