-- ===== src/Tests/Protogen.antt =====
-- A file that imports two others, one of which imports the other.
use herrscher_transport.Prelude.{◌≡◌, ◌↔◌, String, List, refl, true, [], ◌∷◌, ℕ, suc, arith}
use herrscher_transport.Protogen.{
  File, descriptor, no_imports, import_of, descriptors_in_dependency_order, visit,
}
use herrscher_transport.Protogen.Generate.{
  Kit, Generated, done, run, exit_code, check_outputs, has_key,
}
use herrscher_transport.Protogen.Generate.Sets.{IsRepeatFree}
use herrscher_transport.Protogen.Generate.Outputs.{bases, check_outputs_iff}
use herrscher_transport.Protogen.Generate.Safety.{run_unwritten}
use herrscher_transport.Protogen.Order.{is_listed, IsDistinct, HasImportsFirst, dependency_order}

abbrev base : File
base = descriptor "base" no_imports

abbrev middle : File
middle = descriptor "middle" (import_of base no_imports)

abbrev root : File
root = descriptor "root" (import_of middle (import_of base no_imports))

in_order : descriptors_in_dependency_order root ≡ base ∷ middle ∷ root ∷ []
unfolding descriptors_in_dependency_order visit
in_order = refl

dependency_order_example :
    IsDistinct (descriptors_in_dependency_order root)
    × HasImportsFirst [] (descriptors_in_dependency_order root)
    × (is_listed (descriptors_in_dependency_order root) "root" ≡ true)
dependency_order_example =
    dependency_order root (refl, ((refl, ((refl, tt), tt)), ((refl, tt), tt)))

abbrev asked : List (String × String)
asked = ("proto", "t.proto") ∷ ("go_out", "out") ∷ ("output", "t.pb.go") ∷ []

-- A file system that counts its writes, and two plugins that return the same file.
abbrev kit : Kit ℕ
kit = record {
  parse_flags = λ defined args. done (asked, args);
  join_path = λ a b. b;
  slash_clean = λ a. a;
  base = λ a. a;
  dir = λ a. a;
  read_file = λ name fs. done [];
  compile_proto = λ from name fs. done (root ∷ []);
  marshal_request = λ r. done [];
  run_tool = λ tool input. done [];
  unmarshal_response =
      λ b. done (record { error = ""; file = record { name = "t.pb.go"; content = "x" } ∷ [] });
  mkdir_all = λ d mode fs. (done tt, fs);
  write_file = λ target content mode fs. (done tt, suc fs);
}

exits_with_1 : (run kit [] 3).0 ≡ 1
unfolding run exit_code
exits_with_1 = refl

run_unwritten_example : (run kit [] 3).1 ≡ 3
unfolding run exit_code
run_unwritten_example = run_unwritten kit [] 3 (λ e. omega (arith, e)) (λ e. omega (arith, e))

abbrev wanted : List String
wanted = "a.pb.go" ∷ "b.pb.go" ∷ []

abbrev generated : List Generated
generated =
    record { name = "b.pb.go"; content = "package b" }
    ∷ record { name = "a.pb.go"; content = "package a" }
    ∷ []

two_outputs : check_outputs kit wanted generated ≡ done tt
unfolding check_outputs
two_outputs = refl

check_outputs_iff_example : (check_outputs kit wanted generated ≡ done tt) ↔ (
    IsRepeatFree (bases kit generated)
    × ((k : String) → has_key wanted k ≡ has_key (bases kit generated) k))
check_outputs_iff_example = check_outputs_iff kit wanted generated
