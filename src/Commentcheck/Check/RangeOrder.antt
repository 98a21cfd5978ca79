-- ===== src/Commentcheck/Check/RangeOrder.antt =====
-- main.go, straysUnder: Go ranges over the map of directories in any order, and the report does not
-- depend on it.
use mathlib.Core.Logic.{∥∥₁_elim}
use mathlib.Core.List.{
  Mem, Perm, Pairwise, mem-cons_self, mem-cons_of_mem, forall_mem-cons, append_assoc,
  perm_append_comm,
}
use mathlib.Core.List.Pairwise
use mathlib.Core.List.Perm
use mathlib.Core.List.{Permᴰ, Perm-prop}
use herrscher_transport.Prelude.{
  ℕ, ◌≡◌, refl, sym, ap, ◌∙◌, subst, inl, inr, Bool, true, false, ℤ, pos, negsuc, zero, suc, List,
  [], ◌∷◌, ◌++◌, map, arith,
}
use herrscher_transport.Commentcheck.Text.{Text}
use herrscher_transport.Commentcheck.Syntax.{ParsedFile}
use herrscher_transport.Commentcheck.Packages.{Packages}
use herrscher_transport.Commentcheck.Directives.{generator_outputs}
use herrscher_transport.Commentcheck.Comments.{Position, Finding}
use herrscher_transport.Commentcheck.Report.{World, done, compare_findings, line_of}
use herrscher_transport.Commentcheck.Report.Order.{
  IsTextBefore, IsBefore, compare_findings-Compares,
}
use herrscher_transport.Commentcheck.Check.{
  Walked, visit_all, map_findings, directory_findings, all_findings, strays_under,
}

-- What the walk left, with the map in the order in which it is visited.
abbrev pub ranged : Walked → List (Text × List ParsedFile) → Walked
ranged w m = record w { by_directory = m }

abbrev at_most_zero : ℤ → Bool
at_most_zero (pos zero) = true
at_most_zero (pos (suc n)) = false
at_most_zero (negsuc n) = true

-- compareFindings does not put the second finding in front of the first.
abbrev pub InOrder : Finding → Finding → Type 0
InOrder first second = at_most_zero (compare_findings first second) ≡ true

-- The second list has the findings of the first, in order.
abbrev pub IsSortOf : List Finding → List Finding → Type 0
IsSortOf found sorted = Perm sorted found × Pairwise InOrder sorted

-- Findings at one position are one finding.
abbrev pub IsSettled : List Finding → Type 0
IsSettled found = (a b : Finding) → Mem a found → Mem b found → a.position ≡ b.position → a ≡ b

IsTextBefore-asymmetric : (s t : Text) → IsTextBefore s t → ¬ IsTextBefore t s
IsTextBefore-asymmetric [] [] h k = h
IsTextBefore-asymmetric [] (b ∷ t) h k = k
IsTextBefore-asymmetric (a ∷ s) [] h k = h
IsTextBefore-asymmetric (a ∷ s) (b ∷ t) (inl h) (inl k) = omega arith
IsTextBefore-asymmetric (a ∷ s) (b ∷ t) (inl h) (inr (same, k)) = omega arith
IsTextBefore-asymmetric (a ∷ s) (b ∷ t) (inr (same, h)) (inl k) = omega arith
IsTextBefore-asymmetric (a ∷ s) (b ∷ t) (inr (same, h)) (inr (same', k)) =
    IsTextBefore-asymmetric s t h k

IsTextBefore-irreflexive : (s t : Text) → s ≡ t → ¬ IsTextBefore s t
IsTextBefore-irreflexive s t same h =
    IsTextBefore-asymmetric s t h
      (subst (λ u. IsTextBefore t u) (sym same) (subst (λ u. IsTextBefore u t) same h))

IsBefore-asymmetric : (p q : Position) → IsBefore p q → ¬ IsBefore q p
IsBefore-asymmetric p q (inl h) (inl k) = IsTextBefore-asymmetric p.filename q.filename h k
IsBefore-asymmetric p q (inl h) (inr (same, k)) =
    IsTextBefore-irreflexive p.filename q.filename (sym same) h
IsBefore-asymmetric p q (inr (same, h)) (inl k) =
    IsTextBefore-irreflexive q.filename p.filename (sym same) k
IsBefore-asymmetric p q (inr (same, inl h)) (inr (same', inl k)) = omega arith
IsBefore-asymmetric p q (inr (same, inl h)) (inr (same', inr (eq, k))) = omega arith
IsBefore-asymmetric p q (inr (same, inr (eq, h))) (inr (same', inl k)) = omega arith
IsBefore-asymmetric p q (inr (same, inr (eq, h))) (inr (same', inr (eq', k))) = omega arith

Position-ext :
    (p q : Position) → p.filename ≡ q.filename → p.line ≡ q.line → p.column ≡ q.column → p ≡ q
Position-ext p q file line column =
    λ i. record { filename = file i; line = line i; column = column i }

positive_not-InOrder : (a b : Finding) (n : ℕ) → compare_findings a b ≡ pos (suc n) → ¬ InOrder a b
positive_not-InOrder a b n eq h = let bad : at_most_zero (pos (suc n)) ≡ true = rw eq at h in cc

-- Findings that stand in order both ways are at one position.
InOrder-both : (a b : Finding) → InOrder a b → InOrder b a → a.position ≡ b.position
InOrder-both a b h k = elim (compare_findings-Compares a b) [
  | inr (inl ((file, (line, column)), eq)) ↦ Position-ext a.position b.position file line column
  | inr (inr (after, n, eq)) ↦ absurd (positive_not-InOrder a b n eq h)
  | inl (before, n, eq) ↦ elim (compare_findings-Compares b a) [
    | inl (before', n', eq') ↦ absurd (IsBefore-asymmetric a.position b.position before before')
    | inr (inl ((file, (line, column)), eq')) ↦
        sym (Position-ext b.position a.position file line column)
    | inr (inr (after, n', eq')) ↦ absurd (positive_not-InOrder b a n' eq' k)
  ]
]

-- What stands in order before all of a list.
abbrev IsBelow : Finding → List Finding → Type 0
IsBelow a found = (x : Finding) → Mem x found → InOrder a x

InOrder-self : (a : Finding) → InOrder a a
InOrder-self a = elim (compare_findings-Compares a a) [
  | inl (before, n, eq) ↦ absurd (IsBefore-asymmetric a.position a.position before before)
  | inr (inl (same, eq)) ↦ rw eq refl
  | inr (inr (after, n, eq)) ↦ absurd (IsBefore-asymmetric a.position a.position after after)
]

IsBelow-head : (a : Finding) (found : List Finding) → IsBelow a found → IsBelow a (a ∷ found)
IsBelow-head a found h = (forall_mem-cons (λ x. hlevel)).1 (InOrder-self a, h)

heads-InOrder :
    (a b : Finding) (l r : List Finding)
    → Pairwise InOrder (a ∷ l)
    → Perm (b ∷ r) (a ∷ l)
    → InOrder a b
heads-InOrder a b l r (Pairwise.cons h s) p =
    IsBelow-head a l h b ((Perm.mem_iff p).0 mem-cons_self)

-- Findings have one sorted order, if those at one position are one finding.
sorted_unique :
    (l r : List Finding)
    → ((a b : Finding) → Mem a l → Mem b r → a.position ≡ b.position → a ≡ b)
    → Pairwise InOrder l
    → Pairwise InOrder r
    → Perm l r
    → l ≡ r
sorted_unique [] r settled sl sr p = Perm.nil-eq p
sorted_unique (a ∷ l) [] settled sl sr p = Perm.eq-nil p
sorted_unique (a ∷ l) (b ∷ r) settled sl sr p =
    let both =
      InOrder-both a b (heads-InOrder a b l r sl (Perm.symm p)) (heads-InOrder b a r l sr p) in
    let heads = settled a b mem-cons_self mem-cons_self both in
    let tails = Perm.cons_inv (Perm.trans p (Perm.symm (Perm.cons' heads Perm.rfl))) in
    ap (λ c. c ∷ l) heads
    ∙ ap (λ t. b ∷ t)
        (sorted_unique l r (λ x y m n. settled x y (mem-cons_of_mem a m) (mem-cons_of_mem b n))
          (Pairwise.of_cons sl) (Pairwise.of_cons sr) tails)

perm_of_eq : {l r : List Finding} → l ≡ r → Perm l r
perm_of_eq {l} same = subst (λ x. Perm l x) same Perm.rfl

perm_blocks : (l r t : List Finding) → Perm (l ++ (r ++ t)) (r ++ (l ++ t))
perm_blocks l r t =
    Perm.trans (perm_of_eq (sym (append_assoc l r t)))
      (Perm.trans (Perm.append_right t (perm_append_comm l r)) (perm_of_eq (append_assoc r l t)))

module _ (P : Packages) (W : World) where
  open W use {walk, sort_func}

  entry_findings : Text × List ParsedFile → List Finding
  entry_findings entry = directory_findings P W (generator_outputs P entry.1) entry.1

  map_findings_permᴰ :
      {m m' : List (Text × List ParsedFile)}
      → Permᴰ m m'
      → Perm (map_findings P W m) (map_findings P W m')
  unfolding entry_findings
  map_findings_permᴰ Permᴰ.nil = Perm.nil
  map_findings_permᴰ (Permᴰ.cons same rest) =
      Perm.append (perm_of_eq (ap entry_findings same)) (map_findings_permᴰ rest)
  map_findings_permᴰ (Permᴰ.swap {a} {b} {a'} {b'} {l} s t) =
      Perm.trans (perm_blocks (entry_findings a) (entry_findings b) (map_findings P W l)) (
        Perm.append (perm_of_eq (ap entry_findings t))
          (Perm.append (perm_of_eq (ap entry_findings s)) Perm.rfl))
  map_findings_permᴰ (Permᴰ.trans p q) = Perm.trans (map_findings_permᴰ p) (map_findings_permᴰ q)

  -- The findings are the same ones in whatever order the directories are visited.
  all_findings_perm :
      (w : Walked) (m : List (Text × List ParsedFile))
      → Perm m w.by_directory
      → Perm (all_findings P W (ranged w m)) (all_findings P W w)
  all_findings_perm w m p = Perm.append_left w.found (∥∥₁_elim p Perm-prop map_findings_permᴰ)

  -- The report of a tree does not depend on the order in which Go ranges over the map of directories:
  -- in any order of the map's entries it is the one of the order of the walk, if slices.SortFunc
  -- returns the findings in order, and the findings at one position are one finding.
  pub strays_under-any_order :
      (root : Text) (w : Walked) (m : List (Text × List ParsedFile))
      → visit_all P W (walk root) (record { by_directory = []; found = [] }) ≡ done w
      → Perm m w.by_directory
      → IsSettled (all_findings P W w)
      → IsSortOf (all_findings P W w) (sort_func compare_findings (all_findings P W w))
      → IsSortOf
          (all_findings P W (ranged w m))
          (sort_func compare_findings (all_findings P W (ranged w m)))
      → strays_under P W root
        ≡ done (map (line_of W) (sort_func compare_findings (all_findings P W (ranged w m))))
  unfolding strays_under
  strays_under-any_order root w m walked p settled (here, ordered) (there, ordered') =
      let all = all_findings_perm w m p in
      rw walked (
        ap (λ l. done (map (line_of W) l))
          (sorted_unique _ _
            (λ a b at_a at_b.
              settled a b ((Perm.mem_iff here).0 at_a)
                ((Perm.mem_iff (Perm.trans there all)).0 at_b))
            ordered ordered' (Perm.trans here (Perm.symm (Perm.trans there all)))))
