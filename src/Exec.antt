-- ===== src/Exec.antt =====
-- Calls on an object with state: a value or an error, and the object's next state.
use herrscher_transport.Errors.{Result, ok, err}

abbrev pub Exec : Type 0 → Type 0 → Type 0 → Type 0
Exec B S A = S → Result B A × S

module _ {B S A : Type 0} where
  abbrev pub pure : A → Exec B S A
  pure a s = (ok a, s)

  -- A call that does not touch the state.
  abbrev pub lift : Result B A → Exec B S A
  lift r s = (r, s)

module _ {B S A C : Type 0} where
  -- The rest of a function after a call, from the state that the call left.
  abbrev pub follow : Result B A → (A → Exec B S C) → Exec B S C
  follow (ok a) f s = f a s
  follow (err e) f s = (err e, s)

  -- A failing call ends the function, and its effects stay.
  infixl 5 ◌>>=◌
  abbrev pub ◌>>=◌ : Exec B S A → (A → Exec B S C) → Exec B S C
  ◌>>=◌ m f s = follow (m s).0 f (m s).1
