-- ===== src/Commentcheck/Docs/Writes.antt =====
-- docs.go: what the writers of the map of allowed groups do to one group.
use herrscher_transport.Prelude.{
  ℕ, ◌≡◌, refl, ◌⊎◌, inl, inr, Bool, true, false, Option, none, some, Bool-cases, if◌then◌else◌,
  nat_eq, nat_eq_iff, ap, some_injective,
}
use herrscher_transport.Commentcheck.Docs.{Allowed, allow}

-- What a writer of the map makes of a group: it allows the group if E holds, takes it back if H may hold,
-- and leaves it as it was otherwise.
abbrev pub Writes : ℕ → (Allowed → Allowed) → Type 0 → Type 0 → Type 0
Writes g write E H =
    (allowed : Allowed)
    → (write allowed (some g) ≡ true → (allowed (some g) ≡ true) ⊎ E)
      × ((allowed (some g) ≡ true) ⊎ E → ¬ H → write allowed (some g) ≡ true)

pub writes_nothing : (g : ℕ) → Writes g (λ allowed. allowed) ⊥ ⊥
writes_nothing g allowed = ((λ h. inl h), (λ h n. elim h [ inl p ↦ p | inr p ↦ absurd p ]))

pub writes_both :
    {g : ℕ} (first second : Allowed → Allowed) {E F H K : Type 0}
    → Writes g first E H
    → Writes g second F K
    → Writes g (λ allowed. second (first allowed)) (E ⊎ F) (H ⊎ K)
writes_both first second one two allowed =
    let (one_to, one_from) = one allowed in
    let (two_to, two_from) = two (first allowed) in
    (
      (λ h. elim (two_to h) [
        | inr f ↦ inr (inr f)
        | inl p ↦ elim (one_to p) [ inl q ↦ inl q | inr e ↦ inr (inl e) ]
      ]),
      (λ h n. elim h [
        | inl p ↦ two_from (inl (one_from (inl p) (λ x. n (inl x)))) (λ x. n (inr x))
        | inr (inl e) ↦ two_from (inl (one_from (inr e) (λ x. n (inl x)))) (λ x. n (inr x))
        | inr (inr f) ↦ two_from (inr f) (λ x. n (inr x))
      ]),
    )

pub writes_if :
    {g : ℕ} (write : Allowed → Allowed) {E H : Type 0} (b : Bool)
    → Writes g write E H
    → Writes g (λ allowed. if b then write allowed else allowed) ((b ≡ true) × E) ((b ≡ true) × H)
writes_if write true w allowed =
    let (to, from) = w allowed in
    (
      (λ h. elim (to h) [ inl p ↦ inl p | inr e ↦ inr (refl, e) ]),
      (λ h n. from (elim h [ inl p ↦ inl p | inr (p, e) ↦ inr e ]) (λ x. n (refl, x))),
    )
writes_if write false w allowed = ((λ h. inl h), (λ h n. elim h [ inl p ↦ p | inr (p, e) ↦ cc ]))

pub allow-Writes :
    (g : ℕ) (doc : Option ℕ) (flag : Bool)
    → Writes g (allow doc flag) ((doc ≡ some g) × (flag ≡ true)) ((doc ≡ some g) × (flag ≡ false))
allow-Writes g none flag allowed = ((λ h. inl h), (λ h n. elim h [ inl p ↦ p | inr (p, e) ↦ cc ]))
allow-Writes g (some d) flag allowed = elim (Bool-cases (nat_eq d g)) [
  | inr other ↦ rw other (
    (λ h. inl h),
    (λ h n. elim h [
      | inl p ↦ p
      | inr (p, e) ↦ let same = (nat_eq_iff d g).1 (some_injective p) in cc
    ]),
  )
  | inl same ↦
      let is = ap some ((nat_eq_iff d g).0 same) in
      rw same (
        (λ h. inr (is, h)),
        (λ h n. elim (Bool-cases flag) [ inl t ↦ t | inr f ↦ absurd (n (is, f)) ]),
      )
]
