-- ===== src/Base/Effects.antt =====
-- Exceptions as values, and the two ways in which the services touch the database: a `$transaction`
-- callback, whose error discards its writes, and a plain sequence of awaited calls, whose writes
-- before the error stay.
use mathlib.Core.Bool.{Bool, true, false}
use mathlib.Core.Option.{Option, none, some}

pub data Result (E A : Type 0) : Type 0 where
  ok : A → Result E A
  err : E → Result E A

-- Inside `$transaction`: an error carries no state.
abbrev pub Tx : Type 0 → Type 0 → Type 0 → Type 0
Tx E S A = S → Result E (A × S)

-- A service method: the state comes back after a throw too.
abbrev pub Action : Type 0 → Type 0 → Type 0 → Type 0
Action E S A = S → Result E A × S

module _ {E S : Type 0} where
  infixl 5 ◌>>=◌ ◌>>◌
  abbrev pub ◌>>=◌ : {A B : Type 0} → Tx E S A → (A → Tx E S B) → Tx E S B
  ◌>>=◌ m f s = elim (m s) [ ok (a, t) ↦ f a t | err e ↦ err e ]

  abbrev pub ◌>>◌ : {A B : Type 0} → Tx E S A → Tx E S B → Tx E S B
  m >> k = m >>= λ _. k

  abbrev pub pure : {A : Type 0} → A → Tx E S A
  pure a s = ok (a, s)

  abbrev pub throw : {A : Type 0} → E → Tx E S A
  throw e s = err e

  abbrev pub gets : {A : Type 0} → (S → A) → Tx E S A
  gets f s = ok (f s, s)

  abbrev pub modify : (S → S) → Tx E S (Unit {0})
  modify f s = ok (tt, f s)

  abbrev pub throw_if : Bool → E → Tx E S (Unit {0})
  throw_if true e s = err e
  throw_if false e s = ok (tt, s)

  -- A row that the caller requires.
  abbrev pub or_throw : {A : Type 0} → Option A → E → Tx E S A
  or_throw none e s = err e
  or_throw (some a) e s = ok (a, s)

  -- `prisma.$transaction`: all writes or none.
  abbrev pub transaction : {A : Type 0} → Tx E S A → Action E S A
  transaction m s = elim (m s) [ ok (a, t) ↦ (ok a, t) | err e ↦ (err e, s) ]
