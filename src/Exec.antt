-- ===== src/Exec.antt =====
-- A service call over a database session: the committed state comes back beside the result, also
-- where the call raises. What is not committed when a call raises is lost with the session.
pub mod Leaves
use mathlib.Core.Bool.{Bool, true, false}
use mathlib.Core.Option.{Option, none, some}
use tenant_intelligence_plat.Errors.{Error}

pub data Result {ℓ} (A : Type ℓ) : Type ℓ where
  ok : A → Result A
  err : Error → Result A

abbrev pub Exec {ℓ} : Type ℓ → Type ℓ → Type ℓ
Exec S A = S → Result A × S

module _ {ℓ} {S A : Type ℓ} where
  abbrev pub pure : A → Exec S A
  pure a s = (ok a, s)

  abbrev pub raise : Error → Exec S A
  raise e s = (err e, s)

  abbrev pub gets : (S → A) → Exec S A
  gets f s = (ok (f s), s)

  abbrev pub or_raise : Option A → Error → Exec S A
  or_raise none e s = (err e, s)
  or_raise (some a) e s = (ok a, s)

  abbrev pub settle : Bool → Error → S → A → Exec S A
  settle true e changed a s = (ok a, changed)
  settle false e changed a s = (err e, s)

  -- `session.commit()` of pending changes: a state that a constraint refuses is rolled back.
  abbrev pub commit : (S → Bool) → Error → (S → S) → A → Exec S A
  commit accepts e change a s = settle (accepts (change s)) e (change s) a s

abbrev pub continue {ℓ} : {S A B : Type ℓ} → Result A → (A → Exec S B) → Exec S B
continue (ok a) f s = f a s
continue (err e) f s = (err e, s)

infixl 5 ◌>>=◌ ◌>>◌
abbrev pub ◌>>=◌ {ℓ} : {S A B : Type ℓ} → Exec S A → (A → Exec S B) → Exec S B
◌>>=◌ m f s = continue (m s).0 f (m s).1

abbrev pub ◌>>◌ {ℓ} : {S A B : Type ℓ} → Exec S A → Exec S B → Exec S B
m >> k = m >>= λ _. k

-- `if test: raise error`
abbrev pub raise_if : {S : Type 0} → Bool → Error → Exec S (Unit {0})
raise_if true e s = (err e, s)
raise_if false e s = (ok tt, s)
