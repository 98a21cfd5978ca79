-- ===== src/Tests/Examples.antt =====
-- An example with a doc and its output.
use herrscher_transport.Prelude.{◌≡◌, refl, ◌↔◌, ◌⊎◌, true, false, none, some, List, [], ◌∷◌, Any}
use herrscher_transport.Commentcheck.Text.{codes}
use herrscher_transport.Commentcheck.Syntax.{Group, Decl, func_decl}
use herrscher_transport.Commentcheck.Docs.{
  Allowed, example_docs, allow_example_outputs, is_runnable_example, is_example_output,
  last_comment_in,
}
use herrscher_transport.Commentcheck.Docs.Examples.{
  IsExampleDoc, IsExampleOutput, example_groups_iff,
}
use herrscher_transport.Tests.Commentcheck.{packages, loose}

abbrev output : Group
output = record {
  id = 6;
  lines = record { slash = 45; text = codes "// Output: 3" } ∷ [];
  start = 45;
  stop = 57;
}

abbrev groups : List Group
groups = loose ∷ output ∷ []

abbrev decls : List Decl
decls =
    func_decl (record {
      doc = some 1;
      name = codes "Example_sum";
      recv = none;
      params = 0;
      results = 0;
      body = some (record { lbrace = 20; rbrace = 60 });
    })
    ∷ []

abbrev example_groups : Allowed
example_groups =
    allow_example_outputs packages groups decls (example_docs packages decls (λ group. false))

-- The doc and the output are allowed, and the remark before the output is not.
allowed_so :
    (example_groups (some 1) ≡ true)
    × (example_groups (some 6) ≡ true)
    × (example_groups (some 2) ≡ false)
unfolding allow_example_outputs example_docs is_runnable_example is_example_output last_comment_in
allowed_so = (refl, refl, refl)

example_groups_iff_example :
    (allow_example_outputs packages groups decls
        (example_docs packages decls (λ group. false))
        (some 6)
      ≡ true)
    ↔ (Any (IsExampleDoc packages 6) decls ⊎ Any (IsExampleOutput packages 6 groups) decls)
example_groups_iff_example = example_groups_iff packages groups decls 6
