-- ===== src/Protogen/Generate/Sets.antt =====
-- tools/protogen/main.go: sets of names, as maps to bool, and maps.Equal.
use herrscher_transport.Prelude.{
  suc, ◌≤◌, ◌≡◌, refl, sym, ◌∙◌, subst, ap, ◌↔◌, Bool, true, false, ◌||◌, ◌&&◌, String, List, [],
  ◌∷◌, ◌==◌, length, arith, Bool-cases, inl, inr, eq_iff, eq_refl, if◌then◌else◌, nat_eq,
  nat_eq_iff,
}
use herrscher_transport.Protogen.Generate.{has_key, set_of, all_keys_in, same_keys}

-- No name stands twice in the list.
abbrev pub IsRepeatFree : List String → Type 0
IsRepeatFree [] = Unit
IsRepeatFree (n ∷ names) = (has_key names n ≡ false) × IsRepeatFree names

pub has_key-set_of : (names : List String) (k : String) → has_key (set_of names) k ≡ has_key names k
has_key-set_of [] k = refl
has_key-set_of (n ∷ names) k = elim (Bool-cases (has_key (set_of names) n)) [
  | inl old ↦
      rw (old, has_key-set_of names k)
        (elim (Bool-cases (n == k)) [
          | inl same ↦ rw same (
              subst (λ t. has_key names t ≡ true) ((eq_iff n k).0 same)
                (sym (has_key-set_of names n) ∙ old))
          | inr other ↦ rw other refl
        ])
  | inr new ↦ rw (new, has_key-set_of names k) refl
]

pub set_of-IsRepeatFree : (names : List String) → IsRepeatFree (set_of names)
set_of-IsRepeatFree [] = tt
set_of-IsRepeatFree (n ∷ names) = elim (Bool-cases (has_key (set_of names) n)) [
  | inl old ↦ rw old (set_of-IsRepeatFree names)
  | inr new ↦ rw new (new, set_of-IsRepeatFree names)
]

length-set_of : (names : List String) → length (set_of names) ≤ length names
length-set_of [] = omega arith
length-set_of (n ∷ names) = elim (Bool-cases (has_key (set_of names) n)) [
  | inl old ↦ rw old (omega (arith, length-set_of names))
  | inr new ↦ rw new (omega (arith, length-set_of names))
]

pub length-set_of_iff :
    (names : List String) → (length (set_of names) ≡ length names) ↔ IsRepeatFree names
length-set_of_iff [] = ((λ h. tt), (λ h. refl))
length-set_of_iff (n ∷ names) = elim (Bool-cases (has_key (set_of names) n)) [
  | inl old ↦ rw old (
    (λ h. absurd (omega (arith, length-set_of names))),
    (λ (h, hs). let same = has_key-set_of names n in cc),
  )
  | inr new ↦ rw new (
    (λ h. (sym (has_key-set_of names n) ∙ new, (length-set_of_iff names).0 (omega arith))),
    (λ (h, hs). let same = (length-set_of_iff names).1 hs in omega arith),
  )
]

-- The list without the first occurrence of a name.
abbrev without : String → List String → List String
without k [] = []
without k (n ∷ names) = if n == k then names else n ∷ without k names

length-without :
    (k : String) (names : List String)
    → has_key names k ≡ true
    → length names ≡ suc (length (without k names))
length-without k [] h = absurd (cc)
length-without k (n ∷ names) h = elim (Bool-cases (n == k)) [
  | inl same ↦ rw same (omega arith)
  | inr other ↦ rw other (let rest = length-without k names (rw other at h) in omega arith)
]

has_key-without :
    (k j : String) (names : List String)
    → has_key names j ≡ true
    → (k == j) ≡ false
    → has_key (without k names) j ≡ true
has_key-without k j [] h other = absurd (cc)
has_key-without k j (n ∷ names) h other = elim (Bool-cases (n == k)) [
  | inl same ↦
      let other_n : (n == j) ≡ false = ap (λ t. t == j) ((eq_iff n k).0 same) ∙ other in
      rw same (rw other_n at h)
  | inr ne ↦ rw ne (elim (Bool-cases (n == j)) [
    | inl here ↦ rw here refl
    | inr there ↦ rw there (has_key-without k j names (rw there at h) other)
  ])
]

and-left : (a b : Bool) → (a && b) ≡ true → a ≡ true
and-left a b h = ground arith

and-right : (a b : Bool) → (a && b) ≡ true → b ≡ true
and-right a b h = ground arith

and-both : {a b : Bool} → a ≡ true → b ≡ true → (a && b) ≡ true
and-both h k = ground arith

or-right : (a : Bool) {b : Bool} → b ≡ true → (a || b) ≡ true
or-right a h = ground arith

all_keys_in_iff :
    (m keys : List String)
    → (all_keys_in m keys ≡ true) ↔ ((k : String) → has_key keys k ≡ true → has_key m k ≡ true)
all_keys_in_iff m [] = ((λ h k p. cc), (λ h. refl))
all_keys_in_iff m (n ∷ keys) = (
  (λ h k p. elim (Bool-cases (n == k)) [
    | inl same ↦ subst (λ t. has_key m t ≡ true) ((eq_iff n k).0 same) (and-left (has_key m n) _ h)
    | inr other ↦ (all_keys_in_iff m keys).0 (and-right (has_key m n) _ h) k (rw other at p)
  ]),
  (λ f.
      and-both (f n (rw (eq_refl n) refl))
        ((all_keys_in_iff m keys).1 (λ k p. f k (or-right (n == k) p)))),
)

differs :
    (k j : String) (m : List String) → has_key m k ≡ false → has_key m j ≡ true → (k == j) ≡ false
differs k j m h p = elim (Bool-cases (k == j)) [
  | inr other ↦ other
  | inl same ↦ let moved = ap (has_key m) ((eq_iff k j).0 same) in cc
]

-- A distinct list that is part of another is not longer.
length-le :
    (m n : List String)
    → IsRepeatFree m
    → ((k : String) → has_key m k ≡ true → has_key n k ≡ true)
    → length m ≤ length n
length-le [] n h part = omega arith
length-le (k ∷ m) n (h, hs) part =
    let here = length-without k n (part k (rw (eq_refl k) refl)) in
    let rest =
      length-le m (without k n) hs
        (λ j p. has_key-without k j n (part j (or-right (k == j) p)) (differs k j m h p)) in
    omega arith

-- Two distinct lists of one length, where the second has all names of the first, have the same names.
pub same_keys_iff :
    (m n : List String)
    → IsRepeatFree m
    → IsRepeatFree n
    → (same_keys m n ≡ true) ↔ ((k : String) → has_key m k ≡ has_key n k)
same_keys_iff m n dm dn = (
  (λ h k.
      let part = (all_keys_in_iff n m).0 (and-right (nat_eq (length m) (length n)) _ h) in
      let size = (nat_eq_iff (length m) (length n)).0 (and-left _ (all_keys_in n m) h) in
      elim (Bool-cases (has_key m k)) [
        | inl here ↦ here ∙ sym (part k here)
        | inr missing ↦ elim (Bool-cases (has_key n k)) [
          | inr missing_too ↦ missing ∙ sym missing_too
          | inl extra ↦ absurd (
              let longer =
                length-le (k ∷ m) n (missing, dm)
                  (λ j p. elim (Bool-cases (k == j)) [
                    | inl same ↦ subst (λ t. has_key n t ≡ true) ((eq_iff k j).0 same) extra
                    | inr other ↦ part j (rw other at p)
                  ]) in
              omega arith)
        ]
      ]),
  (λ f.
      and-both
        ((nat_eq_iff (length m) (length n)).1 (
          omega
            (arith, length-le m n dm (λ k p. sym (f k) ∙ p), length-le n m dn (λ k p. f k ∙ p))))
        ((all_keys_in_iff n m).1 (λ k p. sym (f k) ∙ p))),
)
