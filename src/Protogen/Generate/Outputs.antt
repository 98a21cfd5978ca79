-- ===== src/Protogen/Generate/Outputs.antt =====
-- tools/protogen/main.go: which files checkOutputs lets through.
use herrscher_transport.Prelude.{
  ◌≡◌, refl, sym, ◌∙◌, ◌↔◌, Bool, true, false, not, ◌||◌, String, List, length, length-map, map,
  if◌then◌else◌, nat_eq, nat_eq_iff,
}
use herrscher_transport.Protogen.Generate.{
  output_mismatch, done, failed, Generated, Kit, has_key, set_of, same_keys, check_outputs,
}
use herrscher_transport.Protogen.Generate.Sets.{
  has_key-set_of, set_of-IsRepeatFree, length-set_of_iff, same_keys_iff, IsRepeatFree,
}

outputs_gate :
    (a b : Bool)
    → ((if not a || not b then failed (output_mismatch "expected other files") else done tt)
        ≡ done tt)
      ↔ ((a ≡ true) × (b ≡ true))
outputs_gate true true = ((λ h. (refl, refl)), (λ h. refl))
outputs_gate true false = ((λ h. cc), (λ (p, q). cc))
outputs_gate false b = ((λ h. cc), (λ (p, q). cc))

module _ {FS : Type 0} (K : Kit FS) where
  open K use {base}

  abbrev pub bases : List Generated → List String
  bases files = map (λ (f : Generated). base f.name) files

  -- checkOutputs lets the generated files through exactly when no two of them have the same base name,
  -- and their base names are those of the wanted outputs.
  pub check_outputs_iff :
      (wanted : List String) (files : List Generated)
      → (check_outputs K wanted files ≡ done tt) ↔ (
          IsRepeatFree (bases files)
          × ((k : String) → has_key (map base wanted) k ≡ has_key (bases files) k))
  unfolding check_outputs
  check_outputs_iff wanted files =
      let expected = map base wanted in
      let produced = bases files in
      let (gate_to, gate_from) =
        outputs_gate (nat_eq (length (set_of produced)) (length files))
          (same_keys (set_of expected) (set_of produced)) in
      let (keys_to, keys_from) =
        same_keys_iff (set_of expected) (set_of produced) (set_of-IsRepeatFree expected)
          (set_of-IsRepeatFree produced) in
      let (once_to, once_from) = length-set_of_iff produced in
      let (num_to, num_from) = nat_eq_iff (length (set_of produced)) (length files) in
      let size = length-map files (λ (f : Generated). base f.name) in
      (
        (λ h.
            let (count, keys) = gate_to h in
            (
              once_to (num_to count ∙ sym size),
              λ k. sym (has_key-set_of expected k) ∙ keys_to keys k ∙ has_key-set_of produced k,
            )),
        (λ (once, same). gate_from (
          num_from (once_from once ∙ size),
          keys_from (λ k. has_key-set_of expected k ∙ same k ∙ sym (has_key-set_of produced k)),
        )),
      )
