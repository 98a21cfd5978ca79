-- ===== src/Commentcheck/Words.antt =====
-- tools/commentcheck/directives.go: the words of a //go: directive. unicode.IsSpace and
-- strconv.Unquote are parameters.
pub mod Fuel
pub mod Bounds
pub mod Ends
pub mod RoundTrip
use mathlib.Core.Option
use herrscher_transport.Prelude.{
  ℕ, zero, suc, ◌≡◌, Bool, true, false, not, ◌||◌, ◌&&◌, Option, none, some, List, [], ◌∷◌, length,
  take, nat_eq, if◌then◌else◌,
}
use herrscher_transport.Commentcheck.Text.{Text, index_func, trim_left, trim_right}

-- patterns, true; nil, false; or the fuel of the model ran out
pub data Words : Type 0 where
  found : List Text → Words
  malformed : Words
  out_of_fuel : Words

abbrev pub word_and : Text → Words → Words
word_and word (found words) = found (word ∷ words)
word_and word malformed = malformed
word_and word out_of_fuel = out_of_fuel

abbrev pub drop : ℕ → Text → Text
drop zero s = s
drop (suc n) [] = []
drop (suc n) (c ∷ s) = drop n s

-- b'"' and the backquote
abbrev pub is_quote : ℕ → Bool
is_quote c = nat_eq c 34 || nat_eq c 96

-- The loop of closingQuote from `index` on, over what stands there.
close_from : ℕ → ℕ → Text → Option ℕ
close_from quote index [] = none
close_from quote index (c ∷ []) =
    if nat_eq c 92 && nat_eq quote 34 then none else if nat_eq c quote then some index else none
close_from quote index (c ∷ d ∷ s) =
    let skipped = close_from quote (suc (suc index)) s in
    let after = close_from quote (suc index) (d ∷ s) in
    if nat_eq c 92 && nat_eq quote 34 then skipped else if nat_eq c quote then some index else after

-- closingQuote of a text that starts with `quote`; `none` is -1
unfoldable pub closing_quote : ℕ → Text → Option ℕ
unfolding close_from
closing_quote quote s = close_from quote 1 s

-- `if end <= 0 { end = len(rest) }`
abbrev pub end_or : ℕ → Option ℕ → ℕ
end_or n none = n
end_or n (some zero) = n
end_or n (some (suc e)) = suc e

-- unquotePattern
unfoldable pub unquote_pattern : (Text → Option Text) → Text → Option Text
unquote_pattern unquote [] = some []
unquote_pattern unquote (c ∷ s) = if is_quote c then unquote (c ∷ s) else some (c ∷ s)

abbrev next_word : Option Text → Words → Words
next_word none others = malformed
next_word (some word) others = word_and word others

module _ (is_space : ℕ → Bool) where
  -- strings.TrimSpace
  abbrev pub trim_space : Text → Text
  trim_space s = trim_right is_space (trim_left is_space s)

  -- Where the first word of a text that is not empty ends.
  unfoldable pub word_end : ℕ → Text → ℕ
  unfolding closing_quote
  word_end c s =
      if is_quote c
      then end_or (length (c ∷ s)) (Option.map suc (closing_quote c s))
      else end_or (length (c ∷ s)) (index_func is_space (c ∷ s))

  module _ (unquote : Text → Option Text) where
    -- The loop of directiveWords, on a trimmed rest.
    unfoldable pub words_from : ℕ → Text → Words
    unfolding word_end unquote_pattern
    words_from fuel [] = found []
    words_from zero (c ∷ s) = out_of_fuel
    words_from (suc fuel) (c ∷ s) =
        let end = word_end c s in
        next_word (unquote_pattern unquote (take end (c ∷ s)))
          (words_from fuel (trim_space (drop end (c ∷ s))))

    -- directiveWords
    unfoldable pub directive_words : Text → Words
    unfolding words_from
    directive_words arguments = words_from (length arguments) (trim_space arguments)
