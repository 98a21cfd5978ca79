-- ===== src/Commentcheck/Report/Order.antt =====
-- main.go: the order in which the findings are reported.
use herrscher_transport.Prelude.{
  ℕ, suc, ◌<◌, ◌-◌, ◌≡◌, refl, sym, ap, ◌∙◌, ◌⊎◌, ◌↔◌, inl, inr, true, false, ℤ, pos, negsuc, [],
  ◌∷◌, ltb, arith, Bool-cases,
}
use herrscher_transport.Commentcheck.Text.{Text}
use herrscher_transport.Commentcheck.Comments.{Position, Finding}
use herrscher_transport.Commentcheck.Report.{
  compare_texts, difference, unless_equal, compare_findings,
}

-- The lexicographic order of texts by code points.
abbrev pub IsTextBefore : Text → Text → Type 0
IsTextBefore [] [] = ⊥
IsTextBefore [] (b ∷ t) = Unit
IsTextBefore (a ∷ s) [] = ⊥
IsTextBefore (a ∷ s) (b ∷ t) = (a < b) ⊎ ((a ≡ b) × IsTextBefore s t)

-- By file, then by line, then by column.
abbrev pub IsBefore : Position → Position → Type 0
IsBefore p q =
    IsTextBefore p.filename q.filename
    ⊎ ((p.filename ≡ q.filename)
        × ((p.line < q.line) ⊎ ((p.line ≡ q.line) × (p.column < q.column))))

-- The result of a three-way comparison: negative, zero or positive.
abbrev pub Compares : Type 0 → Type 0 → Type 0 → ℤ → Type 0
Compares Before Same After z =
    (Before × (n : ℕ) × (z ≡ negsuc n))
    ⊎ (Same × (z ≡ pos 0))
    ⊎ (After × (n : ℕ) × (z ≡ pos (suc n)))

ltb_iff : (a b : ℕ) → (ltb a b ≡ true) ↔ (a < b)
ltb_iff a b = ground arith

ltb_same : (a b : ℕ) → ltb a b ≡ false → ltb b a ≡ false → a ≡ b
ltb_same a b h k = ground arith

compare_texts-Compares :
    (s t : Text) → Compares (IsTextBefore s t) (s ≡ t) (IsTextBefore t s) (compare_texts s t)
compare_texts-Compares [] [] = inr (inl (refl, refl))
compare_texts-Compares [] (b ∷ t) = inl (tt, 0, refl)
compare_texts-Compares (a ∷ s) [] = inr (inr (tt, 0, refl))
compare_texts-Compares (a ∷ s) (b ∷ t) = elim (Bool-cases (ltb a b)) [
  | inl less ↦ inl (inl ((ltb_iff a b).0 less), 0, rw less refl)
  | inr not_less ↦ elim (Bool-cases (ltb b a)) [
    | inl more ↦ inr (inr (inl ((ltb_iff b a).0 more), 0, rw (not_less, more) refl))
    | inr not_more ↦
        let same = ltb_same a b not_less not_more in
        elim (compare_texts-Compares s t) [
          | inl (before, n, eq) ↦ inl (inr (same, before), n, rw (not_less, not_more) eq)
          | inr (inl (equal, eq)) ↦
              inr (inl (ap (λ c. c ∷ s) same ∙ ap (λ r. b ∷ r) equal, rw (not_less, not_more) eq))
          | inr (inr (after, n, eq)) ↦
              inr (inr (inr (sym same, after), n, rw (not_less, not_more) eq))
        ]
  ]
]

difference-Compares : (a b : ℕ) → Compares (a < b) (a ≡ b) (b < a) (difference a b)
difference-Compares a b = elim (Bool-cases (ltb a b)) [
  | inl less ↦ inl ((ltb_iff a b).0 less, b - a - 1, rw less refl)
  | inr not_less ↦ elim (Bool-cases (ltb b a)) [
    | inl more ↦
        let greater = (ltb_iff b a).0 more in
        let size : a - b ≡ suc (a - b - 1) = omega arith in
        inr (inr (greater, a - b - 1, rw not_less (ap pos size)))
    | inr not_more ↦
        let same = ltb_same a b not_less not_more in
        let size : a - b ≡ 0 = omega arith in inr (inl (same, rw not_less (ap pos size)))
  ]
]

unless_equal-Compares :
    {B S R A C E D : Type 0} (z w : ℤ)
    → (S → R)
    → Compares B S A z
    → Compares C E D w
    → Compares (B ⊎ (S × C)) (S × E) (A ⊎ (R × D)) (unless_equal z w)
unless_equal-Compares z w turn (inl (b, n, eq)) h = inl (inl b, n, rw eq refl)
unless_equal-Compares z w turn (inr (inr (a, n, eq))) h = inr (inr (inl a, n, rw eq refl))
unless_equal-Compares z w turn (inr (inl (s, eq))) (inl (c, n, eq')) =
    inl (inr (s, c), n, rw eq eq')
unless_equal-Compares z w turn (inr (inl (s, eq))) (inr (inl (e, eq'))) =
    inr (inl ((s, e), rw eq eq'))
unless_equal-Compares z w turn (inr (inl (s, eq))) (inr (inr (d, n, eq'))) =
    inr (inr (inr (turn s, d), n, rw eq eq'))

-- compareFindings is negative, zero or positive as the first finding stands before the second, at the same
-- place, or behind it, by file, line and column; texts compare by code points.
pub compare_findings-Compares :
    (first second : Finding)
    → Compares
        (IsBefore first.position second.position)
        ((first.position.filename ≡ second.position.filename)
          × ((first.position.line ≡ second.position.line)
              × (first.position.column ≡ second.position.column)))
        (IsBefore second.position first.position)
        (compare_findings first second)
unfolding compare_findings
compare_findings-Compares first second =
    unless_equal-Compares (compare_texts first.position.filename second.position.filename) _ sym
      (compare_texts-Compares first.position.filename second.position.filename)
      (unless_equal-Compares (difference first.position.line second.position.line)
        (difference first.position.column second.position.column) sym
        (difference-Compares first.position.line second.position.line)
        (difference-Compares first.position.column second.position.column))
