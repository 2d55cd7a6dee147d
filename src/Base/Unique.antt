-- ===== src/Base/Unique.antt =====
-- Unique constraints of a table, and what a query by a unique key returns.
use Prim.Native.Nat.{◌≤◌}
use mathlib.Core.Path.{◌≡◌, refl, sym, ◌∙◌}
use mathlib.Core.Logic.{◌⊎◌, inl, inr}
use mathlib.Core.Bool.{Bool, true, false, not, ◌&&◌}
use mathlib.Core.List.{List, [], ◌∷◌, append-nil, ◌++◌}
use native.Mathlib.Omega.{arith}
use tenant_intelligence_plat.Base.Tests.{Bool-cases}
use tenant_intelligence_plat.Base.Lists.{length, any, any-append}
use tenant_intelligence_plat.Base.Sql.{select, join}
use tenant_intelligence_plat.Base.Membership.{Has, any-Has}

module _ {ℓ} {A : Type ℓ} where
  -- No two rows agree on the key that `same` compares.
  abbrev pub unique_by : (A → A → Bool) → List A → Bool
  unique_by same [] = true
  unique_by same (x ∷ xs) = not (any (same x) xs) && unique_by same xs

  -- Two rows that agree on a unique key are one.
  pub unique_by-eq :
      (same : A → A → Bool) (sym_same : (a b : A) → same a b ≡ true → same b a ≡ true) (a b : A)
      (xs : List A)
      → unique_by same xs ≡ true
      → Has a xs
      → Has b xs
      → same a b ≡ true
      → a ≡ b
  unique_by-eq same s a b [] u ha hb e = elim ha [ ]
  unique_by-eq same s a b (x ∷ xs) u (inl p) (inl q) e = p ∙ sym q
  unique_by-eq same s a b (x ∷ xs) u (inl p) (inr hb) e =
      absurd (ground (arith, any-Has (same x) b xs hb (rw p at e)))
  unique_by-eq same s a b (x ∷ xs) u (inr ha) (inl q) e =
      absurd (ground (arith, any-Has (same x) a xs ha (rw q at (s a b e))))
  unique_by-eq same s a b (x ∷ xs) u (inr ha) (inr hb) e =
      unique_by-eq same s a b xs (ground arith) ha hb e

  select-none :
      (same : A → A → Bool) (p : A → Bool) (x : A) (xs : List A)
      → ((b : A) → p b ≡ true → same x b ≡ true)
      → any (same x) xs ≡ false
      → select p xs ≡ []
  select-none same p x [] agree h = refl
  select-none same p x (y ∷ xs) agree h = ground (arith, agree y, select-none same p x xs agree)

  -- A query that fixes a unique key returns one row at most.
  pub length-select_unique :
      (same : A → A → Bool) (p : A → Bool)
      → ((a b : A) → p a ≡ true → p b ≡ true → same a b ≡ true)
      → (xs : List A) → unique_by same xs ≡ true
      → length (select p xs) ≤ 1
  length-select_unique same p agree [] u = omega arith
  length-select_unique same p agree (x ∷ xs) u = elim (Bool-cases (p x)) [
    | inl e ↦ rw (e, select-none same p x xs (λ b q. agree x b e q) (ground arith)) (omega arith)
    | inr e ↦ rw e (length-select_unique same p agree xs (ground arith))
  ]

  unique_by-select-any :
      (same : A → A → Bool) (p : A → Bool) (x : A) (xs : List A)
      → any (same x) xs ≡ false
      → any (same x) (select p xs) ≡ false
  unique_by-select-any same p x [] h = refl
  unique_by-select-any same p x (y ∷ xs) h = ground (arith, unique_by-select-any same p x xs)

  pub unique_by-select :
      (same : A → A → Bool) (p : A → Bool) (xs : List A)
      → unique_by same xs ≡ true
      → unique_by same (select p xs) ≡ true
  unique_by-select same p [] u = refl
  unique_by-select same p (x ∷ xs) u =
      ground (arith, unique_by-select same p xs, unique_by-select-any same p x xs)

-- A new row shares the key of no row before it.
pub unique_by-append {ℓ} :
    {A : Type ℓ} (same : A → A → Bool) (a b : A) (xs : List A)
    → unique_by same (xs ++ b ∷ []) ≡ true
    → Has a xs
    → same a b ≡ false
unique_by-append same a b [] u h = elim h [ ]
unique_by-append same a b (x ∷ xs) u (inl e) =
    rw e (ground (arith, any-append (same x) xs (b ∷ [])))
unique_by-append same a b (x ∷ xs) u (inr h) = unique_by-append same a b xs (ground arith) h

pub empty_of_no_member {ℓ} : {A : Type ℓ} (xs : List A) → ((a : A) → Has a xs → ⊥) → xs ≡ []
empty_of_no_member [] h = refl
empty_of_no_member (x ∷ xs) h = absurd (h x (inl refl))

pub member-cases {ℓ} : {A : Type ℓ} (xs : List A) → (xs ≡ []) ⊎ ((a : A) × Has a xs)
member-cases [] = inl refl
member-cases (x ∷ xs) = inr (x, inl refl)

module _ {ℓ κ} {A : Type ℓ} {B : Type κ} (same : A → A → Bool) (f : A → List B) where
  join-none :
      (x : A) (b : B) (xs : List A)
      → any (same x) xs ≡ false
      → ((y : A) (c : B) → Has y xs → Has c (f y) → same x y ≡ true)
      → join xs f ≡ []
  join-none x b [] h agree = refl
  join-none x b (y ∷ ys) h agree =
      rw (empty_of_no_member (f y) (λ c m. absurd (ground (arith, agree y c (inl refl) m))))
        (join-none x b ys (ground arith) (λ z c m n. agree z c (inr m) n))

  -- A join has one row at most, if each row joins to one at most and all that join share a key.
  pub length-join_unique :
      (xs : List A)
      → unique_by same xs ≡ true
      → ((x : A) → Has x xs → length (f x) ≤ 1)
      → ((x y : A) (b c : B) → Has x xs → Has y xs → Has b (f x) → Has c (f y) → same x y ≡ true)
      → length (join xs f) ≤ 1
  length-join_unique [] u one agree = omega arith
  length-join_unique (x ∷ xs) u one agree = elim (member-cases (f x)) [
    | inl e ↦ rw e (
        length-join_unique xs (ground arith) (λ y m. one y (inr m))
          (λ y z b c m n p q. agree y z b c (inr m) (inr n) p q))
    | inr (b, m) ↦
        rw (join-none x b xs (ground arith) (λ y c n q. agree x y b c (inl refl) (inr n) m q))
          (rw append-nil (one x (inl refl)))
  ]
