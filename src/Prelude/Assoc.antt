-- ===== src/Prelude/Assoc.antt =====
-- Go's maps with text keys, as association lists. A key is held at most once; a write to a held key
-- replaces its value in place.
use Prim.Native.String.{String}
use mathlib.Core.Path.{◌≡◌, refl}
use mathlib.Core.Logic.{◌≢◌}
use mathlib.Core.Option.{Option, none, some}
use mathlib.Core.List.{List, [], ◌∷◌}
use native.Mathlib.Omega.{arith}
use text.Mathlib.Text.{◌==◌}
use text.Mathlib.TextEquality.{eq_iff}
use text.Mathlib.TextPositions.{eq_refl}
use herrscher_transport.Prelude.Tests.{if◌then◌else◌}

module _ {ℓ} {V : Type ℓ} where
  -- v, ok := m[k]
  unfoldable pub get : List (String × V) → String → Option V
  get [] k = none
  get ((j, v) ∷ m) k = if j == k then some v else get m k

  -- m[k] = v
  unfoldable pub put : List (String × V) → String → V → List (String × V)
  put [] k v = (k, v) ∷ []
  put ((j, w) ∷ m) k v = if j == k then (j, v) ∷ m else (j, w) ∷ put m k v

  pub get-put :
      (m : List (String × V)) (k j : String) (v : V)
      → get (put m k v) j ≡ (if k == j then some v else get m j)
  unfolding get put
  get-put [] k j v = refl
  get-put ((i, w) ∷ m) k j v = ground (arith, eq_iff k j, eq_iff i k, eq_iff i j, get-put m k j v)

  pub get-put_self : (m : List (String × V)) (k : String) (v : V) → get (put m k v) k ≡ some v
  get-put_self m k v = rw (get-put, eq_refl)

  pub get-put_ne :
      (m : List (String × V)) (k j : String) (v : V) → k ≢ j → get (put m k v) j ≡ get m j
  get-put_ne m k j v h = rw get-put (ground (arith, eq_iff k j))
