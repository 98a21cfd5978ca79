-- ===== src/Protogen/Order.antt =====
-- tools/protogen/main.go: every descriptor comes once, after those that it imports.
use mathlib.Core.List.{append_assoc, append-nil}
use herrscher_transport.Prelude.{
  ◌≡◌, refl, Bool, true, false, ◌||◌, String, List, [], ◌∷◌, ◌++◌, ◌==◌, arith, eq_iff, eq_refl,
  subst, sym, Bool-cases, inl, inr,
}
use herrscher_transport.Protogen.{
  File, descriptor, Imports, no_imports, import_of, path, imports_of, Visit, mark, visit,
  visit_each, descriptors_in_dependency_order,
}

abbrev pub is_listed : List File → String → Bool
is_listed [] q = false
is_listed (f ∷ fs) q = path f == q || is_listed fs q

-- No two files of the list have one path.
abbrev pub IsDistinct : List File → Type 0
IsDistinct [] = Unit
IsDistinct (f ∷ fs) = (is_listed fs (path f) ≡ false) × IsDistinct fs

abbrev pub AreListed : List File → Imports → Type 0
AreListed before no_imports = Unit
AreListed before (import_of f fs) = (is_listed before (path f) ≡ true) × AreListed before fs

-- The imports of every file are in the list before it.
abbrev pub HasImportsFirst : List File → List File → Type 0
HasImportsFirst before [] = Unit
HasImportsFirst before (f ∷ fs) =
    AreListed before (imports_of f) × HasImportsFirst (before ++ f ∷ []) fs

abbrev mutual
  -- No file imports, through others or itself, a file whose import led to it.
  pub IsAcyclic : (String → Bool) → File → Type 0
  IsAcyclic above (descriptor p deps) = (above p ≡ false) × AreAcyclic (mark p above) deps

  pub AreAcyclic : (String → Bool) → Imports → Type 0
  AreAcyclic above no_imports = Unit
  AreAcyclic above (import_of f fs) = IsAcyclic above f × AreAcyclic above fs

is_listed-snoc :
    (fs : List File) (f : File) (q : String)
    → is_listed (fs ++ f ∷ []) q ≡ (is_listed fs q || path f == q)
is_listed-snoc [] f q = ground arith
is_listed-snoc (g ∷ fs) f q = ground (arith, is_listed-snoc fs f q)

IsDistinct-snoc :
    (fs : List File) (f : File)
    → IsDistinct fs
    → is_listed fs (path f) ≡ false
    → IsDistinct (fs ++ f ∷ [])
IsDistinct-snoc [] f d n = (refl, tt)
IsDistinct-snoc (g ∷ fs) f (m, d) n = (
  ground (arith, is_listed-snoc fs f (path g), eq_iff (path f) (path g), eq_iff (path g) (path f)),
  IsDistinct-snoc fs f d (ground arith),
)

first_snoc :
    (before fs : List File) (f : File)
    → HasImportsFirst before fs
    → AreListed (before ++ fs) (imports_of f)
    → HasImportsFirst before (fs ++ f ∷ [])
first_snoc before [] f h l = (subst (λ fs. AreListed fs (imports_of f)) (append-nil before) l, tt)
first_snoc before (g ∷ fs) f (k, h) l = (
  k,
  first_snoc (before ++ g ∷ []) fs f h
      (subst (λ gs. AreListed gs (imports_of f)) (sym (append_assoc before (g ∷ []) fs)) l),
)

-- What holds while the files of `above` are being visited.
record IsOrderly (above : String → Bool) (st : Visit) : Type 0 where
  distinct : IsDistinct st.ordered
  first : HasImportsFirst [] st.ordered
  listed_visited : (q : String) → is_listed st.ordered q ≡ true → st.visited q ≡ true
  visited_once : (q : String) → st.visited q ≡ true → above q || is_listed st.ordered q ≡ true
  above_visited : (q : String) → above q ≡ true → st.visited q ≡ true
  above_pending : (q : String) → above q ≡ true → is_listed st.ordered q ≡ false

abbrev Grows : Visit → Visit → Type 0
Grows st st' = (q : String) → is_listed st.ordered q ≡ true → is_listed st'.ordered q ≡ true

Grows-listed :
    (st st' : Visit) (fs : Imports)
    → Grows st st'
    → AreListed st.ordered fs
    → AreListed st'.ordered fs
Grows-listed st st' no_imports g l = tt
Grows-listed st st' (import_of f fs) g (l, ls) = (g (path f) l, Grows-listed st st' fs g ls)

start_visit :
    (above : String → Bool) (p : String) (st : Visit)
    → IsOrderly above st
    → st.visited p ≡ false
    → IsOrderly (mark p above) (record st { visited = mark p st.visited })
start_visit above p st o n = record {
  distinct = o.distinct;
  first = o.first;
  listed_visited = λ q l. ground (arith, o.listed_visited q);
  visited_once = λ q v. ground (arith, o.visited_once q);
  above_visited = λ q v. ground (arith, o.above_visited q);
  above_pending = λ q v. ground (arith, o.above_pending q, o.listed_visited q, eq_iff p q);
}

end_visit :
    (above : String → Bool) (f : File) (st : Visit)
    → above (path f) ≡ false
    → IsOrderly (mark (path f) above) st
    → AreListed st.ordered (imports_of f)
    → IsOrderly above (record st { ordered = st.ordered ++ f ∷ [] })
end_visit above f st n o l = record {
  distinct =
      IsDistinct-snoc st.ordered f o.distinct
        (o.above_pending (path f) (ground (arith, eq_refl (path f))));
  first = first_snoc [] st.ordered f o.first l;
  listed_visited =
      λ q v. ground (arith, is_listed-snoc st.ordered f q, o.listed_visited q, o.above_visited q);
  visited_once = λ q v. ground (arith, is_listed-snoc st.ordered f q, o.visited_once q);
  above_visited = λ q v. ground (arith, o.above_visited q);
  above_pending =
      λ q v. ground (arith, is_listed-snoc st.ordered f q, o.above_pending q, eq_iff (path f) q);
}

mutual
  unfolding visit visit_each

  visit_lem :
      (above : String → Bool) (f : File) (st : Visit)
      → IsAcyclic above f
      → IsOrderly above st
      → IsOrderly above (visit f st)
        × (is_listed (visit f st).ordered (path f) ≡ true)
        × Grows st (visit f st)
  visit_lem above (descriptor p deps) st (n, a) o = elim (Bool-cases (st.visited p)) [
    | inl seen ↦ rw seen (o, ground (arith, o.visited_once p), λ q l. l)
    | inr new ↦
        let (o', l, g) =
          visit_each_lem (mark p above) deps (record st { visited = mark p st.visited }) a
            (start_visit above p st o new) in
        rw new (
          end_visit above (descriptor p deps) _ n o' l,
          ground (
            arith,
            is_listed-snoc (visit_each deps (record st { visited = mark p st.visited })).ordered
                (descriptor p deps) p,
            eq_refl p,
          ),
          λ q m. ground (
            arith,
            is_listed-snoc (visit_each deps (record st { visited = mark p st.visited })).ordered
                (descriptor p deps) q,
            g q m,
          ),
        )
  ]

  visit_each_lem :
      (above : String → Bool) (fs : Imports) (st : Visit)
      → AreAcyclic above fs
      → IsOrderly above st
      → IsOrderly above (visit_each fs st)
        × AreListed (visit_each fs st).ordered fs
        × Grows st (visit_each fs st)
  visit_each_lem above no_imports st a o = (o, tt, λ q l. l)
  visit_each_lem above (import_of f fs) st (a, as') o =
      let (o', l, g) = visit_lem above f st a o in
      let (o'', ls, g') = visit_each_lem above fs (visit f st) as' o' in
      (o'', (g' (path f) l, ls), λ q m. g' q (g q m))

-- If no file imports itself, through others or directly, then the root is among the descriptors, no
-- two of them have one path, and each stands after all the files that it imports.
pub dependency_order :
    (root : File)
    → IsAcyclic (λ q. false) root
    → IsDistinct (descriptors_in_dependency_order root)
      × HasImportsFirst [] (descriptors_in_dependency_order root)
      × (is_listed (descriptors_in_dependency_order root) (path root) ≡ true)
unfolding descriptors_in_dependency_order
dependency_order root a =
    let (o, l, g) =
      visit_lem (λ q. false) root (record { visited = λ p. false; ordered = [] }) a
        (record {
          distinct = tt;
          first = tt;
          listed_visited = λ q l. cc;
          visited_once = λ q l. cc;
          above_visited = λ q l. cc;
          above_pending = λ q l. cc;
        }) in
    (o.distinct, o.first, l)
