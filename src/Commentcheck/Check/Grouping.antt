-- ===== src/Commentcheck/Check/Grouping.antt =====
-- main.go, straysUnder: the map from directories to files has the files of each directory in the order of
-- the walk.
use herrscher_transport.Prelude.{
  append-nil, append-one, ◌≡◌, refl, sym, ◌∙◌, ap, subst, ◌↔◌, inl, inr, Bool, true, false, List,
  [], ◌∷◌, ◌++◌, All, Bool-cases, if◌then◌else◌, ◌||◌, arith,
}
use herrscher_transport.Commentcheck.Text.{Text, same, same_iff}
use herrscher_transport.Commentcheck.Syntax.{ParsedFile}
use herrscher_transport.Commentcheck.Packages.{Packages}
use herrscher_transport.Commentcheck.Report.{World}
use herrscher_transport.Commentcheck.Check.{file_under}
use herrscher_transport.Commentcheck.Check.Walk.{add_files}

abbrev Grouped : Type 0
Grouped = List (Text × List ParsedFile)

abbrev lookup : Text → Grouped → List ParsedFile
lookup d [] = []
lookup d ((k, files) ∷ m) = if same k d then files else lookup d m

abbrev has_key : Text → Grouped → Bool
has_key d [] = false
has_key d ((k, files) ∷ m) = same k d || has_key d m

abbrev IsDistinct : Grouped → Type 0
IsDistinct [] = Unit
IsDistinct ((k, files) ∷ m) = (has_key k m ≡ false) × IsDistinct m

abbrev with_file : Bool → ParsedFile → List ParsedFile → List ParsedFile
with_file true file files = files ++ file ∷ []
with_file false file files = files

same_refl : (s : Text) → same s s ≡ true
same_refl s = (same_iff s s).1 refl

same_sym : (s t : Text) → same s t ≡ same t s
same_sym s t = elim (Bool-cases (same s t)) [
  | inl eq ↦ let p = (same_iff s t).0 eq in rw eq (sym ((same_iff t s).1 (sym p)))
  | inr ne ↦ elim (Bool-cases (same t s)) [
    | inl eq ↦ let p = (same_iff t s).0 eq in let q = (same_iff s t).1 (sym p) in cc
    | inr ne' ↦ cc
  ]
]

-- Equal keys answer alike, and different ones do not both answer.
same-cong : (d k k' : Text) → same k' k ≡ true → same k' d ≡ same k d
same-cong d k k' eq = ap (λ t. same t d) ((same_iff k' k).0 eq)

same_once : (d k k' : Text) → same k' k ≡ false → same k' d ≡ true → same k d ≡ false
same_once d k k' ne eq = elim (Bool-cases (same k d)) [
  | inr other ↦ other
  | inl same_too ↦
      let p = (same_iff k' d).0 eq in
      let q = (same_iff k d).0 same_too in let r = (same_iff k' k).1 (p ∙ sym q) in cc
]

with_file-hit :
    (b : Bool) (file : ParsedFile) (files rest : List ParsedFile)
    → (if b then files ++ file ∷ [] else rest) ≡ with_file b file (if b then files else rest)
with_file-hit true file files rest = refl
with_file-hit false file files rest = refl

with_file-miss :
    (b c : Bool) (file : ParsedFile) (files rest : List ParsedFile)
    → (b ≡ true → c ≡ false)
    → (if b then files else with_file c file rest) ≡ with_file c file (if b then files else rest)
with_file-miss true c file files rest h = rw (h refl) refl
with_file-miss false c file files rest h = refl

lookup-file_under :
    (d k : Text) (file : ParsedFile) (m : Grouped)
    → lookup d (file_under k file m) ≡ with_file (same k d) file (lookup d m)
lookup-file_under d k file [] = elim (Bool-cases (same k d)) [
  | inl eq ↦ rw eq refl
  | inr ne ↦ rw ne refl
]
lookup-file_under d k file ((k', files) ∷ m) = elim (Bool-cases (same k' k)) [
  | inl eq ↦ rw (eq, same-cong d k k' eq) (with_file-hit (same k d) file files (lookup d m))
  | inr ne ↦
      rw (ne, lookup-file_under d k file m)
        (with_file-miss (same k' d) (same k d) file files (lookup d m) (same_once d k k' ne))
]

has_key-file_under :
    (d k : Text) (file : ParsedFile) (m : Grouped)
    → has_key d (file_under k file m) ≡ (same k d || has_key d m)
has_key-file_under d k file [] = refl
has_key-file_under d k file ((k', files) ∷ m) = elim (Bool-cases (same k' k)) [
  | inl eq ↦ rw (eq, same-cong d k k' eq) (ground arith)
  | inr ne ↦ rw (ne, has_key-file_under d k file m) (ground arith)
]

file_under-IsDistinct :
    (k : Text) (file : ParsedFile) (m : Grouped) → IsDistinct m → IsDistinct (file_under k file m)
file_under-IsDistinct k file [] h = (refl, tt)
file_under-IsDistinct k file ((k', files) ∷ m) (h, hs) = elim (Bool-cases (same k' k)) [
  | inl eq ↦ rw eq (h, hs)
  | inr ne ↦
      rw ne (
        rw (has_key-file_under k' k file m, same_sym k k', ne) h,
        file_under-IsDistinct k file m hs,
      )
]

lookup-none : (d : Text) (m : Grouped) → has_key d m ≡ false → lookup d m ≡ []
lookup-none d [] h = refl
lookup-none d ((k, files) ∷ m) h = elim (Bool-cases (same k d)) [
  | inl eq ↦ cc
  | inr ne ↦ rw ne (lookup-none d m (ground arith))
]

-- What holds of every entry's files holds of the files under every key.
entries_iff :
    (Q : List ParsedFile → Type 0)
    → Q []
    → (m : Grouped) → IsDistinct m
    → All (λ entry. Q entry.1) m ↔ ((d : Text) → Q (lookup d m))
entries_iff Q q [] h = ((λ t d. q), (λ f. tt))
entries_iff Q q ((k, files) ∷ m) (h, hs) = (
  (λ (p, ps) d. elim (Bool-cases (same k d)) [
    | inl eq ↦ rw eq p
    | inr ne ↦ rw ne ((entries_iff Q q m hs).0 ps d)
  ]),
  (λ f. (
    rw (same_refl k) at (f k),
    (entries_iff Q q m hs).1 (λ d. elim (Bool-cases (same k d)) [
      | inl eq ↦ subst (λ t. Q (lookup t m)) ((same_iff k d).0 eq) (rw (lookup-none k m h) q)
      | inr ne ↦ rw ne at (f d)
    ]),
  )),
)

module _ (P : Packages) (W : World) where
  open P use {dir}

  -- The files of a directory, in the order of the walk.
  abbrev pub files_in : Text → List ParsedFile → List ParsedFile
  files_in d [] = []
  files_in d (file ∷ files) =
      if same (dir file.path) d then file ∷ files_in d files else files_in d files

  with_file-append :
      (b : Bool) (file : ParsedFile) (files rest : List ParsedFile)
      → with_file b file files ++ rest ≡ files ++ (if b then file ∷ rest else rest)
  with_file-append true file files rest = append-one files file rest
  with_file-append false file files rest = refl

  lookup-add_files :
      (d : Text) (files : List ParsedFile) (m : Grouped)
      → lookup d (add_files P W files m) ≡ lookup d m ++ files_in d files
  lookup-add_files d [] m = sym (append-nil (lookup d m))
  lookup-add_files d (file ∷ files) m =
      rw
        (
          lookup-add_files d files (file_under (dir file.path) file m),
          lookup-file_under d (dir file.path) file m,
        )
        (with_file-append (same (dir file.path) d) file (lookup d m) (files_in d files))

  add_files-IsDistinct :
      (files : List ParsedFile) (m : Grouped) → IsDistinct m → IsDistinct (add_files P W files m)
  add_files-IsDistinct [] m h = h
  add_files-IsDistinct (file ∷ files) m h =
      add_files-IsDistinct files _ (file_under-IsDistinct (dir file.path) file m h)

  -- The directories of a walk's files have, each, what every directory has.
  pub add_files_iff :
      (Q : List ParsedFile → Type 0)
      → Q []
      → (files : List ParsedFile)
      → All (λ entry. Q entry.1) (add_files P W files []) ↔ ((d : Text) → Q (files_in d files))
  add_files_iff Q q files =
      let (to, from) =
        entries_iff Q q (add_files P W files []) (add_files-IsDistinct files [] tt) in
      (
        (λ h d. subst Q (lookup-add_files d files []) (to h d)),
        (λ f. from (λ d. subst Q (sym (lookup-add_files d files [])) (f d))),
      )
