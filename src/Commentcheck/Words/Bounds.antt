-- ===== src/Commentcheck/Words/Bounds.antt =====
-- directives.go: the slices that directiveWords takes are within its text.
use mathlib.Core.Option
use herrscher_transport.Prelude.{
  ℕ, zero, suc, ◌+◌, ◌≤◌, ◌<◌, Bool, true, false, ◌&&◌, Option, none, some, [], ◌∷◌, length, arith,
  Bool-cases, inl, inr, nat_eq, if◌then◌else◌,
}
use herrscher_transport.Commentcheck.Text.{Text, index_func}
use herrscher_transport.Commentcheck.Words.{end_or, word_end, closing_quote, close_from, is_quote}
use herrscher_transport.Commentcheck.Words.Fuel.{word_end_pos}

-- A position, if there is one, is below a bound.
abbrev IsBelow : ℕ → Option ℕ → Type 0
IsBelow n none = Unit
IsBelow n (some i) = i < n

if_IsBelow :
    (n : ℕ) (b : Bool) (o p : Option ℕ) → IsBelow n o → IsBelow n p → IsBelow n (if b then o else p)
if_IsBelow n true o p h k = h
if_IsBelow n false o p h k = k

IsBelow-more : {n : ℕ} (m : ℕ) (o : Option ℕ) → n ≤ m → IsBelow n o → IsBelow m o
IsBelow-more m none h k = tt
IsBelow-more m (some i) h k = omega arith

close_from-IsBelow : (quote i : ℕ) (s : Text) → IsBelow (i + length s) (close_from quote i s)
unfolding close_from
close_from-IsBelow quote i [] = tt
close_from-IsBelow quote i (c ∷ []) =
    if_IsBelow _ (nat_eq c 92 && nat_eq quote 34) none (if nat_eq c quote then some i else none) tt
      (if_IsBelow _ (nat_eq c quote) (some i) none (omega arith) tt)
close_from-IsBelow quote i (c ∷ d ∷ s) =
    if_IsBelow _ (nat_eq c 92 && nat_eq quote 34) (close_from quote (suc (suc i)) s)
      (if nat_eq c quote then some i else close_from quote (suc i) (d ∷ s))
      (IsBelow-more _ (close_from quote (suc (suc i)) s) (omega arith)
        (close_from-IsBelow quote (suc (suc i)) s))
      (if_IsBelow _ (nat_eq c quote) (some i) (close_from quote (suc i) (d ∷ s)) (omega arith) (
        IsBelow-more _ (close_from quote (suc i) (d ∷ s)) (omega arith)
          (close_from-IsBelow quote (suc i) (d ∷ s))))

suc-IsBelow : (n : ℕ) (o : Option ℕ) → IsBelow n o → IsBelow (suc n) (Option.map suc o)
suc-IsBelow n none h = tt
suc-IsBelow n (some i) h = omega arith

index_func-IsBelow : (test : ℕ → Bool) (s : Text) → IsBelow (length s) (index_func test s)
index_func-IsBelow test [] = tt
index_func-IsBelow test (c ∷ s) =
    if_IsBelow _ (test c) (some 0) (Option.map suc (index_func test s)) (omega arith)
      (suc-IsBelow _ (index_func test s) (index_func-IsBelow test s))

end_or_le : (n : ℕ) (o : Option ℕ) → IsBelow (suc n) o → end_or n o ≤ n
end_or_le n none h = omega arith
end_or_le n (some zero) h = omega arith
end_or_le n (some (suc e)) h = omega arith

-- A word that directiveWords cuts off a rest that is not empty has a code point at least, and ends
-- within the rest, so that neither slice is out of range.
pub word_end_bounds :
    (is_space : ℕ → Bool) (c : ℕ) (s : Text)
    → (0 < word_end is_space c s) × (word_end is_space c s ≤ length (c ∷ s))
unfolding word_end closing_quote
word_end_bounds is_space c s = (
  word_end_pos is_space c s,
  elim (Bool-cases (is_quote c)) [
    | inl quoted ↦ rw quoted (
        end_or_le (length (c ∷ s)) (Option.map suc (close_from c 1 s)) (
          suc-IsBelow (length (c ∷ s)) (close_from c 1 s) (
            IsBelow-more (length (c ∷ s)) (close_from c 1 s) (omega arith)
              (close_from-IsBelow c 1 s))))
    | inr bare ↦ rw bare (
        end_or_le (length (c ∷ s)) (index_func is_space (c ∷ s)) (
          IsBelow-more _ (index_func is_space (c ∷ s)) (omega arith)
            (index_func-IsBelow is_space (c ∷ s))))
  ],
)
