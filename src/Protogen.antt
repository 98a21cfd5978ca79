-- ===== src/Protogen.antt =====
-- tools/protogen/main.go: the order in which the descriptors go to the protoc plugins. A file
-- descriptor is its path and its imports, in order; that descriptors are compiled, and so a tree
-- that is finite, is protocompile's.
pub mod Order
pub mod Flags
pub mod Generate
use herrscher_transport.Prelude.{
  Bool, true, false, ◌||◌, String, List, [], ◌∷◌, ◌++◌, ◌==◌, if◌then◌else◌,
}

mutual
  pub data File : Type 0 where
    descriptor : String → Imports → File

  pub data Imports : Type 0 where
    no_imports : Imports
    import_of : File → Imports → Imports

-- file.Path()
abbrev pub path : File → String
path (descriptor p deps) = p

abbrev pub imports_of : File → Imports
imports_of (descriptor p deps) = deps

-- The variables that `visit` shares: the keys of the map `visited`, and `ordered`.
pub record Visit : Type 0 where
  pub visited : String → Bool
  pub ordered : List File

abbrev pub mark : String → (String → Bool) → String → Bool
mark p visited q = p == q || visited q

unfoldable mutual
  pub visit : File → Visit → Visit
  visit (descriptor p deps) st =
      let done = visit_each deps (record st { visited = mark p st.visited }) in
      if st.visited p then st else record done { ordered = done.ordered ++ descriptor p deps ∷ [] }

  -- The loop over the imports.
  pub visit_each : Imports → Visit → Visit
  visit_each no_imports st = st
  visit_each (import_of f fs) st = visit_each fs (visit f st)

-- descriptorsInDependencyOrder
unfoldable pub descriptors_in_dependency_order : File → List File
unfolding visit
descriptors_in_dependency_order root =
    (visit root (record { visited = λ p. false; ordered = [] })).ordered
