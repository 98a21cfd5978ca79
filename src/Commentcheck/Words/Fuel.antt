-- ===== src/Commentcheck/Words/Fuel.antt =====
-- directives.go: the loop of directiveWords ends.
use mathlib.Core.Option
use herrscher_transport.Prelude.{
  ℕ, zero, suc, ◌≤◌, ◌<◌, refl, ◌≢◌, Bool, true, false, Option, none, some, [], ◌∷◌, length, arith,
  take, Bool-cases, inl, inr,
}
use herrscher_transport.Commentcheck.Text.{Text, index_func, trim_left, trim_right, drop_if}
use herrscher_transport.Commentcheck.Words.{
  Words, found, malformed, out_of_fuel, drop, end_or, word_end, unquote_pattern, words_from,
  directive_words, trim_space, next_word, closing_quote, is_quote,
}

length-trim_left : (test : ℕ → Bool) (s : Text) → length (trim_left test s) ≤ length s
length-trim_left test [] = omega arith
length-trim_left test (c ∷ s) = ground (arith, length-trim_left test s)

length-drop_if : (last : Bool) (c : ℕ) (s : Text) → length (drop_if last c s) ≤ suc (length s)
length-drop_if true c [] = omega arith
length-drop_if false c [] = omega arith
length-drop_if last c (d ∷ s) = omega arith

length-trim_right : (test : ℕ → Bool) (s : Text) → length (trim_right test s) ≤ length s
length-trim_right test [] = omega arith
length-trim_right test (c ∷ s) =
    omega (arith, length-drop_if (test c) c (trim_right test s), length-trim_right test s)

length-drop : (n : ℕ) (s : Text) → length (drop n s) ≤ length s
length-drop zero s = omega arith
length-drop (suc n) [] = omega arith
length-drop (suc n) (c ∷ s) = omega (arith, length-drop n s)

end_or_pos : (n : ℕ) (o : Option ℕ) → 0 < n → 0 < end_or n o
end_or_pos n none h = h
end_or_pos n (some zero) h = h
end_or_pos n (some (suc e)) h = omega arith

module _ (is_space : ℕ → Bool) where
  pub word_end_pos : (c : ℕ) (s : Text) → 0 < word_end is_space c s
  unfolding word_end
  word_end_pos c s = elim (Bool-cases (is_quote c)) [
    | inl quoted ↦
        rw quoted (end_or_pos (length (c ∷ s)) (Option.map suc (closing_quote c s)) (omega arith))
    | inr bare ↦ rw bare (end_or_pos (length (c ∷ s)) (index_func is_space (c ∷ s)) (omega arith))
  ]

  -- A word taken away makes the rest shorter.
  length-drop_pos : (n c : ℕ) (s : Text) → 0 < n → length (drop n (c ∷ s)) ≤ length s
  length-drop_pos zero c s h = absurd (omega arith)
  length-drop_pos (suc n) c s h = length-drop n s

  pub length-rest :
      (n c : ℕ) (s : Text) → 0 < n → length (trim_space is_space (drop n (c ∷ s))) ≤ length s
  length-rest n c s h = omega (
    arith,
    length-trim_right is_space (trim_left is_space (drop n (c ∷ s))),
    length-trim_left is_space (drop n (c ∷ s)),
    length-drop_pos n c s h,
  )

module _ (is_space : ℕ → Bool) (unquote : Text → Option Text) where
  next_word_total :
      (word : Option Text) (others : Words)
      → others ≢ out_of_fuel
      → next_word word others ≢ out_of_fuel
  next_word_total none others h = λ e. cc
  next_word_total (some w) (found ws) h = λ e. cc
  next_word_total (some w) malformed h = λ e. cc
  next_word_total (some w) out_of_fuel h = λ e. h refl

  words_from_total :
      (fuel : ℕ) (rest : Text)
      → length rest ≤ fuel
      → words_from is_space unquote fuel rest ≢ out_of_fuel
  unfolding words_from
  words_from_total fuel [] h = λ e. cc
  words_from_total zero (c ∷ s) h = absurd (omega arith)
  words_from_total (suc fuel) (c ∷ s) h =
      let end = word_end is_space c s in
      next_word_total (unquote_pattern unquote (take end (c ∷ s)))
        (words_from is_space unquote fuel (trim_space is_space (drop end (c ∷ s))))
        (words_from_total fuel (trim_space is_space (drop end (c ∷ s)))
          (omega (arith, length-rest is_space end c s (word_end_pos is_space c s))))

  -- directiveWords ends on every text: the model's fuel, the text's length, is never used up, so that
  -- the text is either split into words or found malformed.
  pub directive_words_total :
      (arguments : Text) → directive_words is_space unquote arguments ≢ out_of_fuel
  unfolding directive_words
  directive_words_total arguments =
      words_from_total (length arguments) (trim_space is_space arguments) (
        omega (
          arith,
          length-trim_right is_space (trim_left is_space arguments),
          length-trim_left is_space arguments,
        ))
