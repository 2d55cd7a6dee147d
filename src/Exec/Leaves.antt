-- ===== src/Exec/Leaves.antt =====
-- The state that a call leaves, one rule for each way to build a call.
use mathlib.Core.Path.{◌≡◌, refl}
use mathlib.Core.Bool.{Bool, true, false}
use mathlib.Core.Option.{Option, none, some}
use tenant_intelligence_plat.Errors.{Error}
use tenant_intelligence_plat.Exec.{Exec, or_raise, raise_if, settle, commit, ◌>>=◌, ◌>>◌}

module _ {S B : Type 0} (P : S → Type 0) (s : S) (here : P s) where
  pub leaves-raise_if :
      (b : Bool) (e : Error) (k : Exec S B) → (b ≡ false → P (k s).1) → P ((raise_if b e >> k) s).1
  leaves-raise_if true e k h = here
  leaves-raise_if false e k h = h refl

  pub leaves-or_raise :
      {A : Type 0} (o : Option A) (e : Error) (k : A → Exec S B)
      → ((a : A) → o ≡ some a → P (k a s).1)
      → P ((or_raise o e >>= k) s).1
  leaves-or_raise none e k h = here
  leaves-or_raise (some a) e k h = h a refl

  pub leaves-commit :
      (accepts : S → Bool) (e : Error) (change : S → S) (a : B)
      → (accepts (change s) ≡ true → P (change s))
      → P (commit accepts e change a s).1
  leaves-commit accepts e change a h = go (accepts (change s)) h
    where
      go : (t : Bool) → (t ≡ true → P (change s)) → P (settle t e (change s) a s).1
      go true k = k refl
      go false k = here
