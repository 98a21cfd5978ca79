-- ===== src/Prelude/Text.antt =====
-- Whole texts: joining, and which texts are not empty.
use Prim.Native.String.{String}
use Prim.Native.String
use mathlib.Core.Logic.{◌≢◌}
use mathlib.Core.List.{List, [], ◌∷◌}
use text.Mathlib.TextLemmas.{append-eq-nil_iff}

-- Go's `+` on strings.
infixr 65 ◌⧺◌
abbrev pub ◌⧺◌ : String → String → String
s ⧺ t = String.◌++◌ s t

-- strings.Join(parts, sep)
abbrev pub join : String → List String → String
join sep [] = ""
join sep (x ∷ []) = x
join sep (x ∷ y ∷ ys) = x ⧺ sep ⧺ join sep (y ∷ ys)

pub append-ne-nil_of_left : (s t : String) → s ≢ "" → s ⧺ t ≢ ""
append-ne-nil_of_left s t h e = h (append-eq-nil_iff.0 e).0

pub append-ne-nil_of_right : (s t : String) → t ≢ "" → s ⧺ t ≢ ""
append-ne-nil_of_right s t h e = h (append-eq-nil_iff.0 e).1
