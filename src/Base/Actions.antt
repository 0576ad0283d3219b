-- ===== src/Base/Actions.antt =====
-- Methods that write as they go: `do` blocks of actions, whose writes before an error stay.
use mathlib.Core.Bool.{Bool, true, false}
use pine_backend.Base.Effects.{ok, err, Action}

module _ {E S : Type 0} where
  infixl 5 ◌>>=◌ ◌>>◌
  abbrev pub ◌>>=◌ : {A B : Type 0} → Action E S A → (A → Action E S B) → Action E S B
  ◌>>=◌ m f s = let (r, t) = m s in elim r [ ok a ↦ f a t | err e ↦ (err e, t) ]

  abbrev pub ◌>>◌ : {A B : Type 0} → Action E S A → Action E S B → Action E S B
  m >> k = m >>= λ _. k

  abbrev pub pure : {A : Type 0} → A → Action E S A
  pure a s = (ok a, s)

  abbrev pub write : (S → S) → Action E S (Unit {0})
  write f s = (ok tt, f s)

  abbrev pub fail_if : Bool → E → Action E S (Unit {0})
  fail_if true e s = (err e, s)
  fail_if false e s = (ok tt, s)
