-- ===== src/Protogen/Flags.antt =====
-- tools/protogen/main.go: the configuration that the flags of the command line set.
use herrscher_transport.Prelude.{String, List, [], ◌∷◌, ◌++◌, ◌==◌, join, if◌then◌else◌}

pub record Config : Type 0 where
  pub root : String
  pub proto : String
  pub go_out : String
  pub outputs : List String

-- outputList.Set and outputList.String
abbrev pub set_output : List String → String → List String
set_output outputs value = outputs ++ value ∷ []

abbrev pub outputs_string : List String → String
outputs_string outputs = join "," outputs

-- The flags that parseArgs defines, with their defaults, and what setting one does.
abbrev pub defined_flags : List String
defined_flags = "root" ∷ "proto" ∷ "go_out" ∷ "output" ∷ []

abbrev pub default_config : Config
default_config = record { root = "."; proto = ""; go_out = ""; outputs = [] }

abbrev pub set_flag : Config → String × String → Config
set_flag cfg (name, value) = record {
  root = if name == "root" then value else cfg.root;
  proto = if name == "proto" then value else cfg.proto;
  go_out = if name == "go_out" then value else cfg.go_out;
  outputs = if name == "output" then set_output cfg.outputs value else cfg.outputs;
}

abbrev pub set_flags : Config → List (String × String) → Config
set_flags cfg [] = cfg
set_flags cfg (flag ∷ flags) = set_flags (set_flag cfg flag) flags
