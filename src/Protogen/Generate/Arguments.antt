-- ===== src/Protogen/Generate/Arguments.antt =====
-- tools/protogen/main.go, parseArgs: which command lines are right, and what they ask for.
use herrscher_transport.Prelude.{
  ◌≡◌, refl, sym, ◌∙◌, ap, ◌≢◌, ◌↔◌, ◌⊎◌, inl, inr, String, List, [], ◌∷◌, ◌++◌, ◌==◌, Bool-cases,
  arith, eq_iff, if◌then◌else◌, length, append-one, append-nil, subst, false, true, Bool,
}
use herrscher_transport.Protogen.Flags.{
  Config, defined_flags, default_config, set_flag, set_flags, set_output,
}
use herrscher_transport.Protogen.Generate.{
  Failure, Outcome, usage, done, failed, Kit, parse_args, check_config, checked_flags,
}

-- The values that a flag was given, in order, and the one that counts if only one does.
abbrev pub values_of : String → List (String × String) → List String
values_of name [] = []
values_of name ((n, value) ∷ flags) =
    if n == name then value ∷ values_of name flags else values_of name flags

abbrev pub last_or : String → List String → String
last_or default [] = default
last_or default (value ∷ values) = last_or value values

last_of_set :
    (name old value n : String) (flags : List (String × String))
    → last_or (if n == name then value else old) (values_of name flags)
      ≡ last_or old (values_of name ((n, value) ∷ flags))
last_of_set name old value n flags = elim (Bool-cases (n == name)) [
  | inl this ↦ rw this refl
  | inr other ↦ rw other refl
]

root-set_flags :
    (cfg : Config) (flags : List (String × String))
    → (set_flags cfg flags).root ≡ last_or cfg.root (values_of "root" flags)
root-set_flags cfg [] = refl
root-set_flags cfg ((n, value) ∷ flags) =
    root-set_flags (set_flag cfg (n, value)) flags ∙ last_of_set "root" cfg.root value n flags

proto-set_flags :
    (cfg : Config) (flags : List (String × String))
    → (set_flags cfg flags).proto ≡ last_or cfg.proto (values_of "proto" flags)
proto-set_flags cfg [] = refl
proto-set_flags cfg ((n, value) ∷ flags) =
    proto-set_flags (set_flag cfg (n, value)) flags ∙ last_of_set "proto" cfg.proto value n flags

go_out-set_flags :
    (cfg : Config) (flags : List (String × String))
    → (set_flags cfg flags).go_out ≡ last_or cfg.go_out (values_of "go_out" flags)
go_out-set_flags cfg [] = refl
go_out-set_flags cfg ((n, value) ∷ flags) =
    go_out-set_flags (set_flag cfg (n, value)) flags ∙ last_of_set "go_out" cfg.go_out value n flags

added :
    (b : Bool) (outputs : List String) (value : String) (rest : List String)
    → (if b then set_output outputs value else outputs) ++ rest
      ≡ outputs ++ (if b then value ∷ rest else rest)
added true outputs value rest = append-one outputs value rest
added false outputs value rest = refl

outputs-set_flags :
    (cfg : Config) (flags : List (String × String))
    → (set_flags cfg flags).outputs ≡ cfg.outputs ++ values_of "output" flags
outputs-set_flags cfg [] = sym (append-nil cfg.outputs)
outputs-set_flags cfg ((n, value) ∷ flags) =
    outputs-set_flags (set_flag cfg (n, value)) flags
    ∙ added (n == "output") cfg.outputs value (values_of "output" flags)

-- The configuration that the flags ask for: of the root, the proto file and the directory the last
-- one given counts, each output does, and all but the root are required.
abbrev pub IsAsked : List (String × String) → Config → Type 0
IsAsked flags cfg =
    (cfg.root ≡ last_or "." (values_of "root" flags))
    × (cfg.proto ≡ last_or "" (values_of "proto" flags))
    × (cfg.go_out ≡ last_or "" (values_of "go_out" flags))
    × (cfg.outputs ≡ values_of "output" flags)
    × (cfg.proto ≢ "")
    × (cfg.go_out ≢ "")
    × (cfg.outputs ≢ [])

Config-ext :
    (c d : Config)
    → c.root ≡ d.root
    → c.proto ≡ d.proto
    → c.go_out ≡ d.go_out
    → c.outputs ≡ d.outputs
    → c ≡ d
Config-ext c d root proto go_out outputs =
    λ i. record { root = root i; proto = proto i; go_out = go_out i; outputs = outputs i }

done-injective : {A : Type 0} {a b : A} → ◌≡◌ {A = Outcome Failure A} (done a) (done b) → a ≡ b
done-injective h = cc

Outcome-cases :
    {E A : Type 0} (o : Outcome E A) → ((a : A) × (o ≡ done a)) ⊎ ((e : E) × (o ≡ failed e))
Outcome-cases (done a) = inl (a, refl)
Outcome-cases (failed e) = inr (e, refl)

nil_of_length : (xs : List String) → length xs ≡ 0 → xs ≡ []
nil_of_length [] h = refl
nil_of_length (x ∷ xs) h = absurd (omega (arith, h))

module _ {FS : Type 0} (K : Kit FS) where
  check_config_of :
      (cfg cfg' : Config)
      → check_config K cfg ≡ done cfg'
      → (cfg ≡ cfg') × (cfg.proto ≢ "") × (cfg.go_out ≢ "") × (cfg.outputs ≢ [])
  check_config_of cfg cfg' h = (
    ground (arith),
    (λ e. ground (arith, eq_iff cfg.proto "")),
    (λ e. ground (arith, eq_iff cfg.go_out "")),
    (λ e. let none : length cfg.outputs ≡ 0 = ap length e in ground arith),
  )

  check_config_done :
      (cfg : Config)
      → cfg.proto ≢ ""
      → cfg.go_out ≢ ""
      → cfg.outputs ≢ []
      → check_config K cfg ≡ done cfg
  check_config_done cfg p g o =
      let some : length cfg.outputs ≢ 0 = λ e. o (nil_of_length cfg.outputs e) in
      ground (arith, eq_iff cfg.proto "", eq_iff cfg.go_out "")

  checked_of :
      (flags : List (String × String)) (rest : List String) (cfg : Config)
      → checked_flags K (flags, rest) ≡ done cfg
      → (rest ≡ []) × IsAsked flags cfg
  checked_of flags (extra ∷ more) cfg h = cc
  checked_of flags [] cfg h =
      let (same, p, g, o) = check_config_of (set_flags default_config flags) cfg h in
      (
        refl,
        subst (IsAsked flags) same (
          root-set_flags default_config flags,
          proto-set_flags default_config flags,
          go_out-set_flags default_config flags,
          outputs-set_flags default_config flags,
          p,
          g,
          o,
        ),
      )

  asked_checked :
      (flags : List (String × String)) (cfg : Config)
      → IsAsked flags cfg
      → checked_flags K (flags, []) ≡ done cfg
  asked_checked flags cfg (root, proto, go_out, outputs, p, g, o) =
      let same =
        Config-ext cfg (set_flags default_config flags)
          (root ∙ sym (root-set_flags default_config flags))
          (proto ∙ sym (proto-set_flags default_config flags))
          (go_out ∙ sym (go_out-set_flags default_config flags))
          (outputs ∙ sym (outputs-set_flags default_config flags)) in
      subst (λ c. check_config K c ≡ done cfg) same (check_config_done cfg p g o)

  -- parseArgs accepts a command line exactly when flags.Parse takes all of it, and a proto file, a
  -- directory and an output are asked for; what it returns is the last root, proto file and directory
  -- that were given, or "." for the root, and all outputs in order.
  pub parse_args_iff :
      (args : List String) (cfg : Config)
      → (parse_args K args ≡ done cfg) ↔ (
          (flags : List (String × String)) × (K.parse_flags defined_flags args ≡ done (flags, []))
          × IsAsked flags cfg)
  unfolding parse_args
  parse_args_iff args cfg = (
    (λ h. elim (Outcome-cases (K.parse_flags defined_flags args)) [
      | inl ((flags, rest), parsed) ↦
          let (all, asked) = checked_of flags rest cfg (rw parsed at h) in
          (flags, parsed ∙ ap (λ r. done (flags, r)) all, asked)
      | inr (e, bad) ↦ let never : failed (usage e) ≡ done cfg = rw bad at h in absurd (cc)
    ]),
    (λ (flags, parsed, asked). rw parsed (asked_checked flags cfg asked)),
  )
