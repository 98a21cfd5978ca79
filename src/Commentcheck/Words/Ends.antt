-- ===== src/Commentcheck/Words/Ends.antt =====
-- directives.go: where a word of a directive ends, with a quote or without.
use mathlib.Core.List.{append-nil}
use herrscher_transport.Prelude.{
  ℕ, suc, ◌+◌, ◌≡◌, refl, ◌≢◌, Bool, true, false, ◌&&◌, none, some, [], ◌∷◌, ◌++◌, length, arith,
  All, nat_eq, ◌∙◌, ap,
}
use herrscher_transport.Commentcheck.Text.{Text, index_func, trim_right}
use herrscher_transport.Commentcheck.Words.{
  is_quote, close_from, closing_quote, word_end, trim_space,
}

-- What stands behind an opening quote, up to the closing one; a backslash in double quotes takes the next
-- code point with it.
pub data IsQuoted (quote : ℕ) : Text → Type 0 where
  close : (c : ℕ) → c ≡ quote → IsQuoted quote (c ∷ [])
  plain :
      (c : ℕ) (s : Text)
      → c ≢ quote
      → nat_eq c 92 && nat_eq quote 34 ≡ false
      → IsQuoted quote s
      → IsQuoted quote (c ∷ s)
  escaped :
      (c d : ℕ) (s : Text)
      → nat_eq c 92 && nat_eq quote 34 ≡ true
      → IsQuoted quote s
      → IsQuoted quote (c ∷ d ∷ s)

close_from_plain :
    (quote i c : ℕ) (s : Text)
    → nat_eq c 92 && nat_eq quote 34 ≡ false
    → c ≢ quote
    → close_from quote i (c ∷ s) ≡ close_from quote (suc i) s
unfolding close_from
close_from_plain quote i c [] e n = ground arith
close_from_plain quote i c (d ∷ s) e n = rw e (ground arith)

close_from_close :
    (quote i c : ℕ) (s : Text)
    → c ≡ quote
    → nat_eq c 92 && nat_eq quote 34 ≡ false
    → close_from quote i (c ∷ s) ≡ some i
unfolding close_from
close_from_close quote i c [] e n = ground arith
close_from_close quote i c (d ∷ s) e n = rw n (ground arith)

close_from_escaped :
    (quote i c d : ℕ) (s : Text)
    → nat_eq c 92 && nat_eq quote 34 ≡ true
    → close_from quote i (c ∷ d ∷ s) ≡ close_from quote (suc (suc i)) s
unfolding close_from
close_from_escaped quote i c d s e = rw e refl

-- The closing quote is found at the end, whatever follows it.
closes :
    {quote : ℕ} {s : Text} (i : ℕ) (rest : Text)
    → IsQuoted quote s
    → (e : ℕ) × (close_from quote i (s ++ rest) ≡ some e) × (suc e ≡ i + length s)
closes {quote} i rest (close c same) =
    (i, close_from_close quote i c rest same (ground arith), omega arith)
closes {quote} i rest (plain c s other bare q) =
    let (e, found_at, there) = closes (suc i) rest q in
    (e, close_from_plain quote i c (s ++ rest) bare other ∙ found_at, omega (arith, there))
closes {quote} i rest (escaped c d s esc q) =
    let (e, found_at, there) = closes (suc (suc i)) rest q in
    (e, close_from_escaped quote i c d (s ++ rest) esc ∙ found_at, omega (arith, there))

module _ (is_space : ℕ → Bool) where
  -- The last code point is not a space.
  abbrev pub EndsInk : Text → Type 0
  EndsInk [] = ⊥
  EndsInk (c ∷ []) = is_space c ≡ false
  EndsInk (c ∷ d ∷ s) = EndsInk (d ∷ s)

  pub EndsInk-cons : (c : ℕ) (s : Text) → EndsInk s → EndsInk (c ∷ s)
  EndsInk-cons c [] h = elim h [ ]
  EndsInk-cons c (d ∷ s) h = h

  pub EndsInk-append : (s t : Text) → EndsInk t → EndsInk (s ++ t)
  EndsInk-append [] t h = h
  EndsInk-append (c ∷ s) t h = EndsInk-cons c (s ++ t) (EndsInk-append s t h)

  trim_right_ink : (s : Text) → EndsInk s → trim_right is_space s ≡ s
  trim_right_ink [] h = refl
  trim_right_ink (c ∷ []) h = rw h refl
  trim_right_ink (c ∷ d ∷ s) h = rw (trim_right_ink (d ∷ s) h) refl

  abbrev IsInk : ℕ → Type 0
  IsInk c = is_space c ≡ false

  pub EndsInk-All : (c : ℕ) (s : Text) → IsInk c → All IsInk s → EndsInk (c ∷ s)
  EndsInk-All c [] h hs = h
  EndsInk-All c (d ∷ s) h (k, ks) = EndsInk-All d s k ks

  -- What follows a word: nothing, or a space.
  abbrev pub Parted : Text → Type 0
  Parted [] = Unit
  Parted (c ∷ s) = is_space c ≡ true

  index_none : (s : Text) → All IsInk s → index_func is_space (s ++ []) ≡ none
  index_none [] h = refl
  index_none (c ∷ s) (h, hs) = rw (h, index_none s hs) refl

  index_some :
      (s : Text) (b : ℕ) (rest : Text)
      → All IsInk s
      → is_space b ≡ true
      → index_func is_space (s ++ b ∷ rest) ≡ some (length s)
  index_some [] b rest h sp = rw sp refl
  index_some (c ∷ s) b rest (h, hs) sp = rw (h, index_some s b rest hs sp) refl

  pub word_end_bare :
      (c : ℕ) (s rest : Text)
      → is_quote c ≡ false
      → All IsInk (c ∷ s)
      → Parted rest
      → word_end is_space c (s ++ rest) ≡ length (c ∷ s)
  unfolding word_end
  word_end_bare c s [] b h p =
      rw b (rw (index_none (c ∷ s) h) (ap (λ t. length (c ∷ t)) (append-nil s)))
  word_end_bare c s (d ∷ rest) b h p = rw b (rw (index_some (c ∷ s) d rest h p) refl)

  pub word_end_quoted :
      (c : ℕ) (s rest : Text)
      → is_quote c ≡ true
      → IsQuoted c s
      → word_end is_space c (s ++ rest) ≡ length (c ∷ s)
  unfolding word_end closing_quote
  word_end_quoted c s rest b q =
      let (e, found_at, there) = closes 1 rest q in rw (b, found_at) (omega (arith, there))

  pub trim_space_word :
      (c : ℕ) (s : Text)
      → is_space c ≡ false
      → EndsInk (c ∷ s)
      → trim_space is_space (c ∷ s) ≡ c ∷ s
  trim_space_word c s h k = rw h (trim_right_ink (c ∷ s) k)
