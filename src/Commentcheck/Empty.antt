-- ===== src/Commentcheck/Empty.antt =====
-- Lemmas for comments.go and main.go: when a list that branches on conditions is empty, and when a code is not 0.
use herrscher_transport.Prelude.{
  ℕ, suc, ◌<◌, map, ◌≡◌, refl, ◌↔◌, ◌⊎◌, inl, inr, Bool, true, false, not, ◌&&◌, List, [], ◌∷◌,
  ◌++◌, arith, All, if◌then◌else◌,
}

pub append-eq-nil : {A : Type 0} (xs ys : List A) → (xs ++ ys ≡ []) ↔ ((xs ≡ []) × (ys ≡ []))
append-eq-nil [] ys = ((λ h. (refl, h)), (λ (p, q). q))
append-eq-nil (x ∷ xs) ys = ((λ h. cc), (λ (p, q). cc))

pub if-eq-nil :
    {A : Type 0} (b : Bool) (x : A) (xs : List A)
    → ((if b then x ∷ xs else xs) ≡ []) ↔ ((b ≡ false) × (xs ≡ []))
if-eq-nil true x xs = ((λ h. cc), (λ (p, q). cc))
if-eq-nil false x xs = ((λ h. (refl, h)), (λ (p, q). q))

-- The switch, for what its conditions state.
pub switch-eq-nil :
    {A I K D : Type 0} (inside allowed directive : Bool) (x : A) (lines : List A)
    → ((inside ≡ true) ↔ I)
    → ((lines ≡ []) ↔ K)
    → ((directive ≡ true) ↔ D)
    → (D → K)
    → ((if inside
          then if not allowed then x ∷ [] else []
          else if allowed
          then lines
          else if not directive
          then x ∷ []
          else [])
        ≡ [])
      ↔ ((I × (allowed ≡ true)) ⊎ (¬ I × (allowed ≡ true) × K) ⊎ (¬ I × D))
switch-eq-nil true true directive x lines i k d dk = ((λ h. inl (i.0 refl, refl)), (λ h. refl))
switch-eq-nil true false directive x lines i k d dk = (
  (λ h. cc),
  (λ h. elim h [
    | inl (p, q) ↦ cc
    | inr (inl (p, q, r)) ↦ cc
    | inr (inr (p, q)) ↦ absurd (p (i.0 refl))
  ]),
)
switch-eq-nil false true directive x lines i k d dk = (
  (λ h. inr (inl ((λ p. cc (i.1 p)), refl, k.0 h))),
  (λ h. elim h [
    | inl (p, q) ↦ cc (i.1 p)
    | inr (inl (p, q, r)) ↦ k.1 r
    | inr (inr (p, q)) ↦ k.1 (dk q)
  ]),
)
switch-eq-nil false false true x lines i k d dk =
    ((λ h. inr (inr ((λ p. cc (i.1 p)), d.0 refl))), (λ h. refl))
switch-eq-nil false false false x lines i k d dk = (
  (λ h. cc),
  (λ h. elim h [ inl (p, q) ↦ cc | inr (inl (p, q, r)) ↦ cc | inr (inr (p, q)) ↦ cc (d.1 q) ]),
)

pub unless-eq-nil :
    {A K : Type 0} (a b : Bool) (xs : List A)
    → ((xs ≡ []) ↔ K)
    → ((if a && b then [] else xs) ≡ []) ↔ (((a ≡ true) × (b ≡ true)) ⊎ K)
unless-eq-nil true true xs k = ((λ h. inl (refl, refl)), (λ h. refl))
unless-eq-nil true false xs k =
    ((λ h. inr (k.0 h)), (λ h. elim h [ inl (p, q) ↦ cc | inr p ↦ k.1 p ]))
unless-eq-nil false b xs k = ((λ h. inr (k.0 h)), (λ h. elim h [ inl (p, q) ↦ cc | inr p ↦ k.1 p ]))

pub quiet : {a b : Bool} → (a && not b) ≡ false → a ≡ true → b ≡ true
quiet h go = ground arith

pub All-map :
    {A : Type 0} {P Q : A → Type 0} (xs : List A) → ((x : A) → P x → Q x) → All P xs → All Q xs
All-map [] f h = tt
All-map (x ∷ xs) f (h, hs) = (f x h, All-map xs f hs)

pub map-eq-nil : {A B : Type 0} (f : A → B) (xs : List A) → (map f xs ≡ []) ↔ (xs ≡ [])
map-eq-nil f [] = ((λ h. refl), (λ h. refl))
map-eq-nil f (x ∷ xs) = ((λ h. cc), (λ h. cc))

pub nonzero : {n : ℕ} → 0 < n → ¬ (n ≡ 0)
nonzero h eq = ground arith

pub if_positive : (b : Bool) {m : ℕ} (n : ℕ) → 0 < m → 0 < (if b then m else suc n)
if_positive true n h = h
if_positive false n h = omega arith
