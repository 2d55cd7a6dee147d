-- ===== src/Base/Sql.antt =====
-- A table as a list of its rows, and the statements that the repositories issue on it.
use mathlib.Core.Path.{◌≡◌, refl}
use mathlib.Core.Bool.{Bool, true}
use mathlib.Core.Option.{Option, none, some}
use mathlib.Core.List.{List, [], ◌∷◌, ◌++◌}
use native.Mathlib.Omega.{arith}
use tenant_intelligence_plat.Base.Tests.{if◌then◌else◌}
use tenant_intelligence_plat.Base.Lists.{length}

module _ {ℓ} {A : Type ℓ} where
  -- `select(...).where(...)`
  abbrev pub select : (A → Bool) → List A → List A
  select p [] = []
  select p (x ∷ xs) = if p x then x ∷ select p xs else select p xs

  -- `session.scalar(select(...).where(...))`: the first row, if there is one
  abbrev pub scalar : (A → Bool) → List A → Option A
  scalar p [] = none
  scalar p (x ∷ xs) = if p x then some x else scalar p xs

  -- `update(...).where(...).values(...)`, and the flush of a changed row
  abbrev pub update_where : (A → Bool) → (A → A) → List A → List A
  update_where p f [] = []
  update_where p f (x ∷ xs) = (if p x then f x else x) ∷ update_where p f xs

  -- `delete(...).where(...)`
  abbrev pub delete_where : (A → Bool) → List A → List A
  delete_where p [] = []
  delete_where p (x ∷ xs) = if p x then delete_where p xs else x ∷ delete_where p xs

-- The rows of a join: the second table's rows for each row of the first.
abbrev pub join {ℓ κ} : {A : Type ℓ} {B : Type κ} → List A → (A → List B) → List B
join [] f = []
join (x ∷ xs) f = f x ++ join xs f

module _ {ℓ} {A : Type ℓ} where
  pub length-update_where :
      (p : A → Bool) (f : A → A) (xs : List A) → length (update_where p f xs) ≡ length xs
  length-update_where p f [] = refl
  length-update_where p f (x ∷ xs) = omega (arith, length-update_where p f xs)

  pub scalar-holds : (p : A → Bool) (xs : List A) (x : A) → scalar p xs ≡ some x → p x ≡ true
  scalar-holds p [] x h = ground arith
  scalar-holds p (y ∷ xs) x h = ground (arith, scalar-holds p xs x)
