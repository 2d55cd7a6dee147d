-- ===== src/Base/Sorting.antt =====
-- Python's `sorted` and SQL's ORDER BY: a stable insertion sort by a Boolean order.
use Prim.Native.Nat.{suc}
use Prim.Native.Char.{code}
use Prim.Native.String.{String}
use mathlib.Core.Path.{◌≡◌, refl}
use mathlib.Core.Logic.{◌⊎◌, inl, inr}
use mathlib.Core.Bool.{Bool, true, false}
use mathlib.Core.List.{List, [], ◌∷◌}
use native.Mathlib.Omega.{arith}
use tenant_intelligence_plat.Base.Tests.{ltb, ◌==◌, if◌then◌else◌}
use tenant_intelligence_plat.Base.Lists.{length}
use tenant_intelligence_plat.Base.Membership.{Has}

-- Texts are ordered by their code points.
unfoldable pub str_leb : String → String → Bool
str_leb String.[] t = true
str_leb (String.◌∷◌ c s) String.[] = false
str_leb (String.◌∷◌ c s) (String.◌∷◌ d t) =
    if ltb (code c) (code d) then true else if code c == code d then str_leb s t else false

module _ {ℓ} {A : Type ℓ} where
  insert_by : (A → A → Bool) → A → List A → List A
  insert_by leq x [] = x ∷ []
  insert_by leq x (y ∷ ys) = if leq x y then x ∷ y ∷ ys else y ∷ insert_by leq x ys

  unfoldable pub sort_by : (A → A → Bool) → List A → List A
  unfolding insert_by
  sort_by leq [] = []
  sort_by leq (x ∷ xs) = insert_by leq x (sort_by leq xs)

  length-insert_by :
      (leq : A → A → Bool) (x : A) (xs : List A) → length (insert_by leq x xs) ≡ suc (length xs)
  unfolding insert_by
  length-insert_by leq x [] = refl
  length-insert_by leq x (y ∷ ys) = ground (arith, length-insert_by leq x ys)

  pub length-sort_by : (leq : A → A → Bool) (xs : List A) → length (sort_by leq xs) ≡ length xs
  unfolding sort_by
  length-sort_by leq [] = refl
  length-sort_by leq (x ∷ xs) =
      omega (arith, length-insert_by leq x (sort_by leq xs), length-sort_by leq xs)

  Has-insert_by :
      (leq : A → A → Bool) (a x : A) (xs : List A) → Has a (insert_by leq x xs) → (a ≡ x) ⊎ Has a xs
  unfolding insert_by
  Has-insert_by leq a x [] h = h
  Has-insert_by leq a x (y ∷ ys) h = ground (arith, Has-insert_by leq a x ys)

  insert_by-Has :
      (leq : A → A → Bool) (a x : A) (xs : List A) → (a ≡ x) ⊎ Has a xs → Has a (insert_by leq x xs)
  unfolding insert_by
  insert_by-Has leq a x [] h = h
  insert_by-Has leq a x (y ∷ ys) h = ground (arith, insert_by-Has leq a x ys)

  -- Sorting keeps the members.
  pub Has-sort_by : (leq : A → A → Bool) (a : A) (xs : List A) → Has a (sort_by leq xs) → Has a xs
  unfolding sort_by
  Has-sort_by leq a [] h = h
  Has-sort_by leq a (x ∷ xs) h = elim (Has-insert_by leq a x (sort_by leq xs) h) [
    | inl e ↦ inl e
    | inr m ↦ inr (Has-sort_by leq a xs m)
  ]

  pub sort_by-Has : (leq : A → A → Bool) (a : A) (xs : List A) → Has a xs → Has a (sort_by leq xs)
  unfolding sort_by
  sort_by-Has leq a [] h = h
  sort_by-Has leq a (x ∷ xs) (inl e) = insert_by-Has leq a x (sort_by leq xs) (inl e)
  sort_by-Has leq a (x ∷ xs) (inr h) =
      insert_by-Has leq a x (sort_by leq xs) (inr (sort_by-Has leq a xs h))
