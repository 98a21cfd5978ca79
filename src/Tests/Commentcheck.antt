-- ===== src/Tests/Commentcheck.antt =====
-- The comment checker on a small tree.
use herrscher_transport.Prelude.{
  ℕ, ◌≡◌, refl, ◌↔◌, inl, inr, ◌||◌, Bool, true, false, ◌&&◌, Option, none, some, List, [], ◌∷◌,
  ◌++◌, nat_eq, ltb, All, if◌then◌else◌,
}
use herrscher_transport.Commentcheck.Text.{Text, codes, same}
use herrscher_transport.Commentcheck.Syntax.{
  Group, File, gen_decl, func_decl, type_spec, struct_type, field, no_fields, ident,
}
use herrscher_transport.Commentcheck.Packages.{Packages}
use herrscher_transport.Commentcheck.Docs.Exported.{IsDoc, allowed_docs-IsDoc}
use herrscher_transport.Commentcheck.Directives.{is_known_directive, generator_outputs}
use herrscher_transport.Commentcheck.Docs.{
  allowed_docs, is_accessible_field, allow_example_outputs, example_docs,
}
use herrscher_transport.Commentcheck.Comments.{
  Position, refused, nolint_refused, Finding, stray_comments,
}
use herrscher_transport.Commentcheck.Comments.Stray.{IsClean, stray_comments-IsClean}
use herrscher_transport.Commentcheck.Report.{World, directory, regular, parsed, compare_findings}
use herrscher_transport.Commentcheck.Check.{check}
use herrscher_transport.Commentcheck.Report.Order.{Compares, IsBefore, compare_findings-Compares}
use herrscher_transport.Commentcheck.Check.Clean.{IsCleanTree, check-IsCleanTree}

abbrev pub blank : ℕ → Bool
blank c = nat_eq c 32

-- "a\""
abbrev pub quoted_text : Text
quoted_text = 34 ∷ 97 ∷ 92 ∷ 34 ∷ 34 ∷ []

abbrev pub unquoted : Text → Option Text
unquoted s = if same s quoted_text then some (97 ∷ 34 ∷ []) else none

abbrev pub packages : Packages
packages = record {
  is_space = blank;
  is_lower = λ c. ltb 96 c && ltb c 123;
  is_upper = λ c. ltb 64 c && ltb c 91;
  is_digit = λ c. ltb 47 c && ltb c 58;
  unquote = unquoted;
  build_parses = λ text. true;
  is_exported = λ name. true;
  join = λ a b. a ++ b;
  base = λ path. path;
  dir = λ path. codes "d";
  abs = λ path. some path;
  exists = λ path. true;
  is_dir = λ path. true;
  read_file = λ path. none;
  glob = λ pattern_text. some [];
}

abbrev pub position_at : ℕ → Position
position_at n = record { filename = codes "d/a.go"; line = 1; column = n }

-- The doc of the package, and a comment on its own.
abbrev package_doc : Group
package_doc = record {
  id = 1;
  lines = record { slash = 1; text = codes "// Package a" } ∷ [];
  start = 1;
  stop = 13;
}

abbrev pub loose : Group
loose = record {
  id = 2;
  lines = record { slash = 30; text = codes "// a remark" } ∷ [];
  start = 30;
  stop = 41;
}

abbrev hushed : Group
hushed = record {
  id = 3;
  lines = record { slash = 50; text = codes "// nolint" } ∷ [];
  start = 50;
  stop = 58;
}

abbrev pub file_with : List Group → File
file_with groups = record {
  doc = some 1;
  decls = [];
  comments = groups;
  nodes = [];
  generated = false;
}

stray_found :
    stray_comments packages position_at
      (codes "d/a.go")
      (file_with (package_doc ∷ loose ∷ hushed ∷ []))
      false
    ≡ record { position = position_at 30; reason = refused }
      ∷ record { position = position_at 50; reason = nolint_refused }
      ∷ []
unfolding stray_comments is_known_directive allowed_docs
stray_found = refl

-- In a test file the doc of the package is refused.
test_package_doc :
    stray_comments packages position_at (codes "d/a_test.go") (file_with (package_doc ∷ [])) false
    ≡ record { position = position_at 1; reason = refused } ∷ []
unfolding stray_comments is_known_directive allow_example_outputs example_docs
test_package_doc = refl

stray_comments-IsClean_example :
    (stray_comments packages position_at (codes "d/a.go") (file_with (package_doc ∷ [])) false ≡ [])
    ↔ IsClean packages position_at (codes "d/a.go") (file_with (package_doc ∷ [])) false
stray_comments-IsClean_example =
    stray_comments-IsClean packages position_at (codes "d/a.go") (file_with (package_doc ∷ []))
      false

abbrev pub world : World
world = record {
  walk = λ root.
      record { path = root; kind = directory; error = none }
      ∷ record { path = codes "d/a.go"; kind = regular; error = none }
      ∷ [];
  parse_file = λ path. parsed (file_with (package_doc ∷ []));
  position_of = position_at;
  ext = λ path. codes ".go";
  sort_func = λ order found. found;
  quote = λ s. s;
  decimal = λ n. n ∷ [];
  stdout_takes = λ s. true;
  stdout_error = [];
  stderr_takes = λ s. true;
}

clean_tree : check packages world (codes "d" ∷ []) ≡ 0
unfolding check stray_comments generator_outputs allowed_docs
clean_tree = refl

no_directory : check packages world [] ≡ 2
unfolding check
no_directory = refl

check-IsCleanTree_example :
    (check packages world (codes "d" ∷ []) ≡ 0)
    ↔ (¬ ((codes "d" ∷ []) ≡ []) × All (IsCleanTree packages world) (codes "d" ∷ []))
check-IsCleanTree_example =
    check-IsCleanTree packages world (λ order found. ((λ h. h), (λ h. h))) (codes "d" ∷ [])

-- A struct with an exported and an unexported field, in a package that exports upper case names.
abbrev lettered : Packages
lettered = record packages { is_exported = λ name. same name (codes "T") || same name (codes "F") }

abbrev struct_file : File
struct_file = record {
  doc = some 1;
  decls =
      gen_decl (some 2) (
        type_spec none (codes "T") (
          struct_type (
            field (some 3) (codes "F" ∷ []) (ident (codes "int"))
              (field (some 4) (codes "g" ∷ []) (ident (codes "int")) no_fields)))
        ∷ [])
      ∷ [];
  comments = [];
  nodes = [];
  generated = false;
}

field_docs :
    (allowed_docs lettered struct_file (some 3) ≡ true)
    × (allowed_docs lettered struct_file (some 4) ≡ false)
unfolding allowed_docs
field_docs = (refl, refl)

-- A function that is not exported has a doc.
abbrev helper_file : File
helper_file = record struct_file {
  decls =
      func_decl (record {
        doc = some 5;
        name = codes "help";
        recv = none;
        params = 0;
        results = 0;
        body = none;
      })
      ∷ struct_file.decls;
}

helper_doc_refused : allowed_docs lettered helper_file (some 5) ≡ false
unfolding allowed_docs
helper_doc_refused = refl

hidden_only : ¬ IsDoc lettered true 5 helper_file
unfolding is_accessible_field
hidden_only (inl (p, q)) = cc
hidden_only (inr (inl (p, q))) = cc
hidden_only (inr (inr (inl (inl (p, q))))) = cc
hidden_only (inr (inr (inl (inr (inl (inl (p, q))))))) = cc
hidden_only (inr (inr (inl (inr (inl (inr (p, inl (inl (q, r))))))))) = cc
hidden_only (inr (inr (inl (inr (inl (inr (p, inl (inr (q, r))))))))) = r
hidden_only (inr (inr (inl (inr (inl (inr (p, inr (inl (inl (q, r)))))))))) = cc
hidden_only (inr (inr (inl (inr (inl (inr (p, inr (inl (inr (q, r)))))))))) = r
hidden_only (inr (inr (inl (inr (inl (inr (p, inr (inr q)))))))) = q
hidden_only (inr (inr (inl (inr (inr p))))) = p
hidden_only (inr (inr (inr p))) = p

allowed_docs-IsDoc_example :
    (allowed_docs lettered helper_file (some 5) ≡ true) ↔ IsDoc lettered true 5 helper_file
allowed_docs-IsDoc_example =
    allowed_docs-IsDoc lettered helper_file 5 (λ (shown, hidden). hidden_only shown)

abbrev early : Finding
early = record { position = position_at 30; reason = refused }

abbrev later : Finding
later = record { position = position_at 50; reason = nolint_refused }

compare_findings-Compares_example :
    Compares
      (IsBefore early.position later.position)
      ((early.position.filename ≡ later.position.filename)
        × ((early.position.line ≡ later.position.line)
            × (early.position.column ≡ later.position.column)))
      (IsBefore later.position early.position)
      (compare_findings early later)
compare_findings-Compares_example = compare_findings-Compares early later
