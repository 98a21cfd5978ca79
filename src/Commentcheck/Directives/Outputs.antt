-- ===== src/Commentcheck/Directives/Outputs.antt =====
-- directives.go, outputFlagValues: the values of the output flags among arguments.
use herrscher_transport.Prelude.{
  ◌≡◌, refl, sym, ◌∙◌, ◌↔◌, ◌⊎◌, inl, inr, true, false, ◌||◌, none, some, List, [], ◌∷◌, ◌++◌,
  Bool-cases, arith, either_true, Option-cases,
}
use herrscher_transport.Commentcheck.Text.{Text, codes, same_iff, contains, cut, contains_text}
use herrscher_transport.Commentcheck.Directives.{
  output_flag_values, is_output_flag, next_argument, flag_value,
}
use herrscher_transport.Commentcheck.Directives.Flags.{cut_parts, cut_whole, false-ne-true}

abbrev IsOutputFlag : Text → Type 0
IsOutputFlag name = (name ≡ codes "-output") ⊎ (name ≡ codes "-o")

-- The value of an output flag among arguments: behind the "=" of the flag, or the argument after a flag
-- without "=".
pub data IsOutput : Text → List Text → Type 0 where
  written :
      {flag output : Text} {arguments : List Text}
      → IsOutputFlag flag
      → IsOutput output ((flag ++ b'=' ∷ output) ∷ arguments)
  following :
      {flag output : Text} {arguments : List Text}
      → IsOutputFlag flag
      → IsOutput output (flag ∷ output ∷ arguments)
  later :
      {output argument : Text} {arguments : List Text}
      → IsOutput output arguments
      → IsOutput output (argument ∷ arguments)

is_output_flag_iff : (name : Text) → (is_output_flag name ≡ true) ↔ IsOutputFlag name
is_output_flag_iff name = (
  (λ h. elim (either_true _ _ h) [
    | inl long ↦ inl ((same_iff name (codes "-output")).0 long)
    | inr short ↦ inr ((same_iff name (codes "-o")).0 short)
  ]),
  of_name,
)
  where
    of_name : IsOutputFlag name → is_output_flag name ≡ true
    of_name (inl long) = rw long refl
    of_name (inr short) = rw short refl

contains_text-append :
    (xs ys : List Text) (t : Text)
    → contains_text (xs ++ ys) t ≡ (contains_text xs t || contains_text ys t)
contains_text-append [] ys t = refl
contains_text-append (x ∷ xs) ys t = rw (contains_text-append xs ys t) (ground arith)

-- Membership in a list of two parts.
contains_text_either :
    (xs ys : List Text) (t : Text)
    → (contains_text (xs ++ ys) t ≡ true)
      ↔ ((contains_text xs t ≡ true) ⊎ (contains_text ys t ≡ true))
contains_text_either xs ys t =
    ((λ h. either_true _ _ (sym (contains_text-append xs ys t) ∙ h)), joined)
  where
    joined :
        (contains_text xs t ≡ true) ⊎ (contains_text ys t ≡ true)
        → contains_text (xs ++ ys) t ≡ true
    joined (inl h) = rw (contains_text-append xs ys t, h) refl
    joined (inr h) = rw (contains_text-append xs ys t, h) (ground arith)

-- What membership in either part means, membership in both together means.
pub either_iff :
    {X Y : Type 0} (xs ys : List Text) (t : Text)
    → (contains_text xs t ≡ true) ↔ X
    → (contains_text ys t ≡ true) ↔ Y
    → (contains_text (xs ++ ys) t ≡ true) ↔ (X ⊎ Y)
either_iff {X} {Y} xs ys t x y = (
  (λ h. to ((contains_text_either xs ys t).0 h)),
  (λ h. (contains_text_either xs ys t).1 (from h)),
)
  where
    to : (contains_text xs t ≡ true) ⊎ (contains_text ys t ≡ true) → X ⊎ Y
    to (inl h) = inl (x.0 h)
    to (inr h) = inr (y.0 h)

    from : X ⊎ Y → (contains_text xs t ≡ true) ⊎ (contains_text ys t ≡ true)
    from (inl h) = inl (x.1 h)
    from (inr h) = inr (y.1 h)

contains_text_one : (x t : Text) → (contains_text (x ∷ []) t ≡ true) ↔ (x ≡ t)
contains_text_one x t =
    ((λ h. (same_iff x t).0 (ground arith)), (λ eq. rw ((same_iff x t).1 eq) refl))

contains-IsOutputFlag : {flag : Text} → IsOutputFlag flag → contains b'=' flag ≡ false
contains-IsOutputFlag (inl long) = rw long refl
contains-IsOutputFlag (inr short) = rw short refl

cut-IsOutputFlag : {flag : Text} → IsOutputFlag flag → cut b'=' flag ≡ none
cut-IsOutputFlag (inl long) = rw long refl
cut-IsOutputFlag (inr short) = rw short refl

bare_of :
    (argument output : Text) (others : List Text)
    → is_output_flag argument ≡ true
    → contains_text (next_argument others) output ≡ true
    → IsOutput output (argument ∷ others)
bare_of argument output [] is h = absurd (false-ne-true h)
bare_of argument output (next ∷ others) is h =
    rw (← (contains_text_one next output).0 h) (following ((is_output_flag_iff argument).0 is))

valued_of :
    (argument flag value output : Text) (others : List Text)
    → cut b'=' argument ≡ some (flag, value)
    → contains_text (flag_value argument others (some (flag, value))) output ≡ true
    → IsOutput output (argument ∷ others)
valued_of argument flag value output others found h = elim (Bool-cases (is_output_flag flag)) [
  | inr other ↦ let bad : false ≡ true = rw other at h in absurd (false-ne-true bad)
  | inl is ↦
      let this = (contains_text_one value output).0 (rw is at h) in
      rw ((cut_parts b'=' argument flag value found).0, this)
        (written ((is_output_flag_iff flag).0 is))
]

argument_of :
    (argument output : Text) (others : List Text)
    → contains_text (flag_value argument others (cut b'=' argument)) output ≡ true
    → IsOutput output (argument ∷ others)
argument_of argument output others h = elim (Option-cases (cut b'=' argument)) [
  | inr ((flag, value), found) ↦ valued_of argument flag value output others found (rw found at h)
  | inl bare ↦ elim (Bool-cases (is_output_flag argument)) [
    | inl is ↦ bare_of argument output others is (rw (bare, is) at h)
    | inr other ↦ let bad : false ≡ true = rw (bare, other) at h in absurd (false-ne-true bad)
  ]
]

pub values_of :
    (output : Text) (arguments : List Text)
    → contains_text (output_flag_values arguments) output ≡ true
    → IsOutput output arguments
unfolding output_flag_values
values_of output [] h = absurd (false-ne-true h)
values_of output (argument ∷ arguments) h = elim ((contains_text_either _ _ output).0 h) [
  | inl here ↦ argument_of argument output arguments here
  | inr there ↦ later (values_of output arguments there)
]

pub values_in :
    {output : Text} {arguments : List Text}
    → IsOutput output arguments
    → contains_text (output_flag_values arguments) output ≡ true
unfolding output_flag_values
values_in (written {flag} {output} {arguments} is) =
    (contains_text_either
        (flag_value (flag ++ b'=' ∷ output) arguments (cut b'=' (flag ++ b'=' ∷ output)))
        (output_flag_values arguments) output).1
      (inl (
        rw (cut_whole b'=' flag output (contains-IsOutputFlag is), (is_output_flag_iff flag).1 is)
          ((contains_text_one output output).1 refl)))
values_in (following {flag} {output} {arguments} is) =
    (contains_text_either (flag_value flag (output ∷ arguments) (cut b'=' flag))
        (output_flag_values (output ∷ arguments)) output).1
      (inl (
        rw (cut-IsOutputFlag is, (is_output_flag_iff flag).1 is)
          ((contains_text_one output output).1 refl)))
values_in (later {output} {argument} {arguments} there) =
    (contains_text_either (flag_value argument arguments (cut b'=' argument)) _ output).1
      (inr (values_in there))
