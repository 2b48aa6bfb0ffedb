-- ===== src/Prelude/Effects.antt =====
-- Calls that read and write a state and may fail: the new state comes back beside the outcome,
-- also after an error, since what was written before it stays written. `panic` is a Rust panic
-- (`expect`, an index out of range).
use mathlib.Core.Path.{◌≡◌, refl}
use mathlib.Core.Logic.{◌≢◌, ◌⊎◌, inl, inr}
use mathlib.Core.Bool.{Bool, true, false}
use mathlib.Core.Option.{Option, none, some}

pub data Outcome (E A : Type 0) : Type 0 where
  ok : A → Outcome E A
  err : E → Outcome E A
  panic : Outcome E A

abbrev pub Exec : Type 0 → Type 0 → Type 0 → Type 0
Exec S E A = S → Outcome E A × S

module _ {S E A : Type 0} where
  abbrev pub return : A → Exec S E A
  return a s = (ok a, s)

  abbrev pub throw : E → Exec S E A
  throw e s = (err e, s)

  abbrev pub panicked : Exec S E A
  panicked s = (panic, s)

  abbrev pub gets : (S → A) → Exec S E A
  gets f s = (ok (f s), s)

  -- `e.ok_or(error)?`
  abbrev pub ok_or : Option A → E → Exec S E A
  ok_or none e s = (err e, s)
  ok_or (some a) e s = (ok a, s)

  -- `e.expect(..)`
  abbrev pub expect : Option A → Exec S E A
  expect none s = (panic, s)
  expect (some a) s = (ok a, s)

module _ {S E : Type 0} where
  abbrev pub modify : (S → S) → Exec S E (Unit {0})
  modify f s = (ok tt, f s)

  -- `ensure!(test, error)`
  abbrev pub ensure : Bool → E → Exec S E (Unit {0})
  ensure true e s = (ok tt, s)
  ensure false e s = (err e, s)

module _ {S E A B : Type 0} where
  abbrev pub after : Outcome E A → (A → Exec S E B) → Exec S E B
  after (ok a) f s = f a s
  after (err e) f s = (err e, s)
  after panic f s = (panic, s)

  infixl 5 ◌>>=◌
  abbrev pub ◌>>=◌ : Exec S E A → (A → Exec S E B) → Exec S E B
  ◌>>=◌ m f s = let (r, s') = m s in after r f s'

infixl 5 ◌>>◌
abbrev pub ◌>>◌ : {S E B : Type 0} → Exec S E (Unit {0}) → Exec S E B → Exec S E B
m >> k = m >>= λ _. k

pub ok-cases : {E : Type 0} (r : Outcome E (Unit {0})) → (r ≡ ok tt) ⊎ (r ≢ ok tt)
ok-cases (ok tt) = inl refl
ok-cases (err e) = inr (λ h. cc)
ok-cases panic = inr (λ h. cc)
