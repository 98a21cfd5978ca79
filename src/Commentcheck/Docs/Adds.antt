-- ===== src/Commentcheck/Docs/Adds.antt =====
-- docs.go: what the writers of the map that only allow groups do to one group.
use herrscher_transport.Prelude.{
  ℕ, ◌≡◌, refl, ◌↔◌, ◌⊎◌, inl, inr, Bool, true, false, some, if◌then◌else◌,
}
use herrscher_transport.Commentcheck.Docs.{Allowed, allow}
use herrscher_transport.Commentcheck.Docs.Writes.{allow-Writes}
use herrscher_transport.Commentcheck.Directives.Flags.{false-ne-true}

-- What a writer of the map adds: it allows the group if E holds, and leaves it as it was otherwise.
abbrev pub Adds : ℕ → (Allowed → Allowed) → Type 0 → Type 0
Adds g write E =
    (allowed : Allowed) → (write allowed (some g) ≡ true) ↔ ((allowed (some g) ≡ true) ⊎ E)

pub adds_nothing : (g : ℕ) {E : Type 0} → ¬ E → Adds g (λ allowed. allowed) E
adds_nothing g never allowed =
    ((λ h. inl h), (λ h. elim h [ inl p ↦ p | inr e ↦ absurd (never e) ]))

pub adds_both :
    {g : ℕ} (first second : Allowed → Allowed) {E F : Type 0}
    → Adds g first E
    → Adds g second F
    → Adds g (λ allowed. second (first allowed)) (E ⊎ F)
adds_both first second one two allowed = (
  (λ h. elim ((two (first allowed)).0 h) [
    | inr f ↦ inr (inr f)
    | inl p ↦ elim ((one allowed).0 p) [ inl q ↦ inl q | inr e ↦ inr (inl e) ]
  ]),
  (λ h. elim h [
    | inl p ↦ (two (first allowed)).1 (inl ((one allowed).1 (inl p)))
    | inr (inl e) ↦ (two (first allowed)).1 (inl ((one allowed).1 (inr e)))
    | inr (inr f) ↦ (two (first allowed)).1 (inr f)
  ]),
)

pub adds_if :
    {g : ℕ} (write : Allowed → Allowed) (b : Bool) {R E : Type 0}
    → (b ≡ true) ↔ R
    → Adds g write E
    → Adds g (λ allowed. if b then write allowed else allowed) (R × E)
adds_if write true r w allowed = (
  (λ h. elim ((w allowed).0 h) [ inl p ↦ inl p | inr e ↦ inr (r.0 refl, e) ]),
  (λ h. (w allowed).1 (elim h [ inl p ↦ inl p | inr (x, e) ↦ inr e ])),
)
adds_if write false r w allowed =
    ((λ h. inl h), (λ h. elim h [ inl p ↦ p | inr (x, e) ↦ absurd (false-ne-true (r.1 x)) ]))

pub allow-Adds : (g d : ℕ) → Adds g (allow (some d) true) (some d ≡ some g)
allow-Adds g d allowed =
    let (to, from) = allow-Writes g (some d) true allowed in
    (
      (λ h. elim (to h) [ inl p ↦ inl p | inr (same, t) ↦ inr same ]),
      (λ h. from (elim h [ inl p ↦ inl p | inr same ↦ inr (same, refl) ]) (λ (same, f). cc)),
    )
