-- ===== src/Registry/Queries.antt =====
-- remote_registry.go: the queries by category.
use herrscher_transport.Prelude.{
  ◌≡◌, ◌↔◌, inl, inr, String, List, [], ◌∷◌, ◌==◌, eq_iff, Any, Bool-cases,
}
use herrscher_transport.Registry.{RemoteEntry, RemoteRegistry, Directory, select, by_category}

module _ {B Manifest : Type 0} (D : Directory B Manifest) where
  open D use {category}

  abbrev pub Files : String → RemoteEntry Manifest → List (String × RemoteEntry Manifest) → Type 0
  Files c e m = Any (λ p. (p.1 ≡ e) × (category p.1.manifest ≡ c)) m

  selected :
      (c : String) (e : RemoteEntry Manifest) (m : List (String × RemoteEntry Manifest))
      → Any (λ x. x ≡ e) (select D c m)
      → Files c e m
  unfolding select
  selected c e [] h = elim h [ ]
  selected c e ((id, x) ∷ m) h = elim (Bool-cases (category x.manifest == c)) [
    | inl in_it ↦ first (selected c e m) ((eq_iff (category x.manifest) c).0 in_it) (rw in_it at h)
    | inr out ↦ inr (selected c e m (rw out at h))
  ]
    where
      first :
          (Any (λ y. y ≡ e) (select D c m) → Files c e m)
          → category x.manifest ≡ c
          → Any (λ y. y ≡ e) (x ∷ select D c m)
          → Files c e ((id, x) ∷ m)
      first ih at (inl same) = inl (same, at)
      first ih at (inr later) = inr (ih later)

  kept :
      (c : String) (e : RemoteEntry Manifest) (m : List (String × RemoteEntry Manifest))
      → Files c e m
      → Any (λ x. x ≡ e) (select D c m)
  unfolding select
  kept c e [] h = elim h [ ]
  kept c e ((id, x) ∷ m) (inl (same, at)) = rw ((eq_iff (category x.manifest) c).1 at) (inl same)
  kept c e ((id, x) ∷ m) (inr h) = elim (Bool-cases (category x.manifest == c)) [
    | inl in_it ↦ rw in_it (inr (kept c e m h))
    | inr out ↦ rw out (kept c e m h)
  ]

  -- A query returns exactly the entries of its category among those that the registry holds.
  pub by_category_iff :
      (r : RemoteRegistry Manifest) (c : String) (e : RemoteEntry Manifest)
      → Any (λ x. x ≡ e) (by_category D r c) ↔ Files c e r.entries
  unfolding by_category
  by_category_iff r c e = (selected c e r.entries, kept c e r.entries)
