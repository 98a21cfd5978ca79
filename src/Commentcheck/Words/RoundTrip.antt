-- ===== src/Commentcheck/Words/RoundTrip.antt =====
-- directives.go: the words that are written into a directive are read out of it.
use mathlib.Core.List.{append-nil}
use herrscher_transport.Prelude.{
  ℕ, zero, suc, ◌≤◌, ◌≡◌, refl, Bool, true, false, Option, some, List, [], ◌∷◌, ◌++◌, length, arith,
  take, All, sym, ◌∙◌, ap, subst, length-append, take-append_le, take_all,
}
use herrscher_transport.Commentcheck.Text.{Text}
use herrscher_transport.Commentcheck.Words.{
  found, word_and, drop, is_quote, word_end, unquote_pattern, words_from, directive_words,
  trim_space,
}
use herrscher_transport.Commentcheck.Words.Ends.{
  IsQuoted, close, plain, escaped, EndsInk, EndsInk-cons, EndsInk-append, EndsInk-All, Parted,
  word_end_bare, word_end_quoted, trim_space_word,
}

drop-append : (s t : Text) → drop (length s) (s ++ t) ≡ t
drop-append [] t = refl
drop-append (c ∷ s) t = drop-append s t

take-append : (s t : Text) → take (length s) (s ++ t) ≡ s
take-append s t = take-append_le (length s) s t (omega arith) ∙ take_all (length s) s (omega arith)

-- The literals with one space between each two.
abbrev after : List (Text × Text) → Text
after [] = []
after (w ∷ ws) = 32 ∷ (w.0 ++ after ws)

abbrev pub spelled : List (Text × Text) → Text
spelled [] = []
spelled (w ∷ ws) = w.0 ++ after ws

abbrev pub words_of : List (Text × Text) → List Text
words_of [] = []
words_of (w ∷ ws) = w.1 ∷ words_of ws

module _ (is_space : ℕ → Bool) (unquote : Text → Option Text) where
  -- A literal, and the word that it spells: itself, if it has no space and does not start with a quote;
  -- or what strconv.Unquote makes of a quoted text.
  pub data Spells : Text → Text → Type 0 where
    bare :
        (c : ℕ) (s : Text)
        → is_quote c ≡ false
        → is_space c ≡ false
        → All (λ d. is_space d ≡ false) s
        → Spells (c ∷ s) (c ∷ s)
    quoted :
        (c : ℕ) (s word : Text)
        → is_quote c ≡ true
        → IsQuoted c s
        → unquote (c ∷ s) ≡ some word
        → Spells (c ∷ s) word

module _ (is_space : ℕ → Bool) (unquote : Text → Option Text) (blank : is_space 32 ≡ true)
    (visible : (c : ℕ) → is_quote c ≡ true → is_space c ≡ false) where
  abbrev AllSpell : List (Text × Text) → Type 0
  AllSpell ws = All (λ w. Spells is_space unquote w.0 w.1) ws

  -- What a literal does to the loop.
  record Reads (literal word : Text) : Type 0 where
    head : ℕ
    tail : Text
    shown : literal ≡ head ∷ tail
    ink : is_space head ≡ false
    last : EndsInk is_space literal
    unquoted : unquote_pattern unquote literal ≡ some word
    measured :
        (rest : Text)
        → Parted is_space rest
        → word_end is_space head (tail ++ rest) ≡ length literal

  trim_shown :
      (c : ℕ) (s t : Text)
      → t ≡ c ∷ s
      → is_space c ≡ false
      → EndsInk is_space t
      → trim_space is_space t ≡ t
  trim_shown c s t e h k =
      subst (λ u. trim_space is_space u ≡ u) (sym e)
        (trim_space_word is_space c s h (subst (EndsInk is_space) e k))

  IsQuoted-ink : {c : ℕ} {s : Text} → is_quote c ≡ true → IsQuoted c s → EndsInk is_space s
  IsQuoted-ink b (close c same) = visible c (subst (λ d. is_quote d ≡ true) (sym same) b)
  IsQuoted-ink b (plain c s other e q) = EndsInk-cons is_space c s (IsQuoted-ink b q)
  IsQuoted-ink b (escaped c d s e q) =
      EndsInk-cons is_space c (d ∷ s) (EndsInk-cons is_space d s (IsQuoted-ink b q))

  Spells-Reads : {literal word : Text} → Spells is_space unquote literal word → Reads literal word
  unfolding unquote_pattern
  Spells-Reads (bare c s b h hs) = record {
    head = c;
    tail = s;
    shown = refl;
    ink = h;
    last = EndsInk-All is_space c s h hs;
    unquoted = rw b refl;
    measured = λ rest p. word_end_bare is_space c s rest b (h, hs) p;
  }
  Spells-Reads (quoted c s word b q u) = record {
    head = c;
    tail = s;
    shown = refl;
    ink = visible c b;
    last = EndsInk-cons is_space c s (IsQuoted-ink b q);
    unquoted = rw b u;
    measured = λ rest p. word_end_quoted is_space c s rest b q;
  }

  one_word :
      (fuel c : ℕ) (s word rest : Text)
      → unquote_pattern unquote (c ∷ s) ≡ some word
      → word_end is_space c (s ++ rest) ≡ length (c ∷ s)
      → words_from is_space unquote (suc fuel) (c ∷ (s ++ rest))
        ≡ word_and word (words_from is_space unquote fuel (trim_space is_space rest))
  unfolding words_from
  one_word fuel c s word rest u m =
      rw m (rw (take-append s rest) (rw u (rw (drop-append s rest) refl)))

  after-Parted : (ws : List (Text × Text)) → Parted is_space (after ws)
  after-Parted [] = tt
  after-Parted (w ∷ ws) = blank

  spelled_ink :
      (literal word : Text) (ws : List (Text × Text))
      → AllSpell ((literal, word) ∷ ws)
      → EndsInk is_space (spelled ((literal, word) ∷ ws))
  spelled_ink literal word [] (h, hs) =
      subst (EndsInk is_space) (sym (append-nil literal)) (Spells-Reads h).last
  spelled_ink literal word ((l, v) ∷ ws) (h, hs) =
      EndsInk-append is_space literal (32 ∷ spelled ((l, v) ∷ ws))
        (EndsInk-cons is_space 32 (spelled ((l, v) ∷ ws)) (spelled_ink l v ws hs))

  trim_after : (ws : List (Text × Text)) → AllSpell ws → trim_space is_space (after ws) ≡ spelled ws
  trim_after [] h = refl
  trim_after ((literal, word) ∷ ws) (h, hs) =
      let r = Spells-Reads h in
      rw blank (
        trim_shown r.head (r.tail ++ after ws) (literal ++ after ws)
          (ap (λ l. l ++ after ws) r.shown) r.ink (spelled_ink literal word ws (h, hs)))

  trim_spelled :
      (ws : List (Text × Text)) → AllSpell ws → trim_space is_space (spelled ws) ≡ spelled ws
  trim_spelled [] h = refl
  trim_spelled ((literal, word) ∷ ws) (h, hs) =
      let r = Spells-Reads h in
      trim_shown r.head (r.tail ++ after ws) (literal ++ after ws) (ap (λ l. l ++ after ws) r.shown)
        r.ink (spelled_ink literal word ws (h, hs))

  length-spelled : (ws : List (Text × Text)) → length (spelled ws) ≤ length (after ws)
  length-spelled [] = omega arith
  length-spelled (w ∷ ws) = omega arith

  words_spelled :
      (fuel : ℕ) (ws : List (Text × Text))
      → AllSpell ws
      → length (spelled ws) ≤ fuel
      → words_from is_space unquote fuel (spelled ws) ≡ found (words_of ws)
  unfolding words_from
  words_spelled fuel [] h enough = refl
  words_spelled zero ((literal, word) ∷ ws) (h, hs) enough =
      let r = Spells-Reads h in
      absurd (omega (arith, enough, ap length r.shown, length-append {0} literal (after ws)))
  words_spelled (suc fuel) ((literal, word) ∷ ws) (h, hs) enough =
      let r = Spells-Reads h in
      let rest = after ws in
      let others = words_spelled fuel ws hs (
        omega
          (arith, enough, ap length r.shown, length-append {0} literal rest, length-spelled ws)) in
      subst (λ l. words_from is_space unquote (suc fuel) (l ++ rest) ≡ found (word ∷ words_of ws))
        (sym r.shown)
        (one_word fuel r.head r.tail word rest
            (subst (λ l. unquote_pattern unquote l ≡ some word) r.shown r.unquoted)
            (r.measured rest (after-Parted ws) ∙ ap length r.shown)
          ∙ rw (trim_after ws hs) (rw others refl))

  -- A directive's arguments, written with one space between each two, are read back by directiveWords: the
  -- words without spaces as they stand, the quoted ones as strconv.Unquote has them. The hypotheses are that
  -- a space is a space to unicode.IsSpace, and the two quotes are not.
  pub directive_words-spelled :
      (ws : List (Text × Text))
      → AllSpell ws
      → directive_words is_space unquote (spelled ws) ≡ found (words_of ws)
  unfolding directive_words
  directive_words-spelled ws h =
      rw (trim_spelled ws h) (words_spelled (length (spelled ws)) ws h (omega arith))
