-- ===== src/Tests/RangeOrder.antt =====
-- A tree with a stray comment in each of two directories, in either order of the directories.
use mathlib.Core.List.{Mem, Pairwise, forall_mem-cons, not-mem-nil, Pairwise-singleton}
use mathlib.Core.List.Perm
use herrscher_transport.Prelude.{
  ◌≡◌, refl, sym, ◌∙◌, ℤ, pos, negsuc, zero, suc, none, List, [], ◌∷◌, map, if◌then◌else◌,
}
use herrscher_transport.Commentcheck.Text.{Text, codes, same}
use herrscher_transport.Commentcheck.Syntax.{Group, ParsedFile}
use herrscher_transport.Commentcheck.Packages.{Packages}
use herrscher_transport.Commentcheck.Comments.{Finding, Reason, refused, stray_comments}
use herrscher_transport.Commentcheck.Directives.{is_known_directive, generator_outputs}
use herrscher_transport.Commentcheck.Docs.{allowed_docs}
use herrscher_transport.Commentcheck.Report.{
  World, regular, parsed, done, compare_findings, line_of,
}
use herrscher_transport.Commentcheck.Check.{Walked, visit_all, all_findings, strays_under}
use herrscher_transport.Commentcheck.Check.RangeOrder.{
  InOrder, IsSortOf, IsSettled, ranged, strays_under-any_order,
}
use herrscher_transport.Tests.Commentcheck.{packages, world, loose, file_with, position_at}

-- Two directories, by the name of the file.
abbrev apart : Packages
apart = record packages { dir = λ path. if same path (codes "a.go") then codes "d" else codes "e" }

abbrev remark : Group
remark = record {
  id = 4;
  lines = record { slash = 70; text = codes "// b" } ∷ [];
  start = 70;
  stop = 74;
}

abbrev sort_two : (Finding → Finding → ℤ) → List Finding → List Finding
sort_two order (a ∷ b ∷ []) = swap_if (order a b) a b
  where
    swap_if : ℤ → Finding → Finding → List Finding
    swap_if (pos zero) a b = a ∷ b ∷ []
    swap_if (pos (suc n)) a b = b ∷ a ∷ []
    swap_if (negsuc n) a b = a ∷ b ∷ []
sort_two order found = found

abbrev two_directories : World
two_directories = record world {
  walk = λ root.
      record { path = codes "a.go"; kind = regular; error = none }
      ∷ record { path = codes "b.go"; kind = regular; error = none }
      ∷ [];
  parse_file =
      λ path. parsed (file_with (if same path (codes "a.go") then loose ∷ [] else remark ∷ []));
  sort_func = sort_two;
}

abbrev file_a : ParsedFile
file_a = record { path = codes "a.go"; file = file_with (loose ∷ []) }

abbrev file_b : ParsedFile
file_b = record { path = codes "b.go"; file = file_with (remark ∷ []) }

abbrev walked : Walked
walked = record {
  by_directory = (codes "d", file_a ∷ []) ∷ (codes "e", file_b ∷ []) ∷ [];
  found = [];
}

abbrev turned : List (Text × List ParsedFile)
turned = (codes "e", file_b ∷ []) ∷ (codes "d", file_a ∷ []) ∷ []

abbrev first_found : Finding
first_found = record { position = position_at 30; reason = refused }

abbrev second_found : Finding
second_found = record { position = position_at 70; reason = refused }

found_so :
    (all_findings apart two_directories walked ≡ first_found ∷ second_found ∷ [])
    × (all_findings apart two_directories (ranged walked turned) ≡ second_found ∷ first_found ∷ [])
unfolding stray_comments is_known_directive allowed_docs generator_outputs
found_so = (refl, refl)

pair_sorted : (a b : Finding) → InOrder a b → Pairwise InOrder (a ∷ b ∷ [])
pair_sorted a b h =
    Pairwise.cons ((forall_mem-cons (λ x. hlevel)).1 (h, λ x m. absurd (not-mem-nil m)))
      (Pairwise-singleton InOrder b)

sorted_here :
    IsSortOf
      (all_findings apart two_directories walked)
      (sort_two compare_findings (all_findings apart two_directories walked))
unfolding stray_comments is_known_directive allowed_docs generator_outputs compare_findings
sorted_here = (Perm.rfl, pair_sorted first_found second_found refl)

sorted_there :
    IsSortOf
      (all_findings apart two_directories (ranged walked turned))
      (sort_two compare_findings (all_findings apart two_directories (ranged walked turned)))
unfolding stray_comments is_known_directive allowed_docs generator_outputs compare_findings
sorted_there = (Perm.swap second_found first_found [], pair_sorted first_found second_found refl)

Reason-set : IsSet Reason
Reason-set = hlevel

all_refused : (a : Finding) → Mem a (first_found ∷ second_found ∷ []) → a.reason ≡ refused
all_refused = (forall_mem-cons (λ x. Reason-set x.reason refused)).1 (
  refl,
  (forall_mem-cons (λ x. Reason-set x.reason refused)).1 (refl, λ x m. absurd (not-mem-nil m)),
)

settled : IsSettled (first_found ∷ second_found ∷ [])
settled a b at_a at_b at_one =
    λ i. record { position = at_one i; reason = (all_refused a at_a ∙ sym (all_refused b at_b)) i }

strays_under-any_order_example :
    strays_under apart two_directories (codes "r")
    ≡ done (
        map
          (line_of two_directories)
          (sort_two compare_findings (all_findings apart two_directories (ranged walked turned))))
unfolding visit_all
strays_under-any_order_example =
    strays_under-any_order apart two_directories (codes "r") walked turned refl (Perm.swap _ _ [])
      (rw found_so.0 settled) sorted_here sorted_there
