-- ===== src/Base/Membership.antt =====
-- Membership in a list as a recursive predicate, which the tactics read as a sum.
use Prim.Native.Nat.{ℕ, zero, suc}
use mathlib.Core.Path.{◌≡◌, refl, ap}
use mathlib.Core.Logic.{◌⊎◌, inl, inr}
use mathlib.Core.Bool.{Bool, true, false}
use mathlib.Core.Option.{none, some}
use mathlib.Core.List.{List, [], ◌∷◌, ◌++◌, map}
use native.Mathlib.Omega.{arith}
use tenant_intelligence_plat.Base.Tests.{if◌then◌else◌, Bool-cases}
use tenant_intelligence_plat.Base.Lists.{any, all, get_elem?, take}
use tenant_intelligence_plat.Base.Sql.{select, scalar, update_where, delete_where, join}

pub data Never {ℓ} : Type ℓ where

abbrev pub Has {ℓ} : {A : Type ℓ} → A → List A → Type ℓ
Has a [] = Never
Has a (x ∷ xs) = (a ≡ x) ⊎ Has a xs

module _ {ℓ} {A : Type ℓ} where
  pub Has-append_left : (a : A) (xs ys : List A) → Has a xs → Has a (xs ++ ys)
  Has-append_left a [] ys h = elim h [ ]
  Has-append_left a (x ∷ xs) ys (inl e) = inl e
  Has-append_left a (x ∷ xs) ys (inr h) = inr (Has-append_left a xs ys h)

  pub Has-append_right : (a : A) (xs ys : List A) → Has a ys → Has a (xs ++ ys)
  Has-append_right a [] ys h = h
  Has-append_right a (x ∷ xs) ys h = inr (Has-append_right a xs ys h)

  pub Has-append : (a : A) (xs ys : List A) → Has a (xs ++ ys) → Has a xs ⊎ Has a ys
  Has-append a [] ys h = inr h
  Has-append a (x ∷ xs) ys (inl e) = inl (inl e)
  Has-append a (x ∷ xs) ys (inr h) = elim (Has-append a xs ys h) [
    | inl l ↦ inl (inr l)
    | inr r ↦ inr r
  ]

  -- A selected row is a row of the table at which the test holds.
  pub Has-select :
      (p : A → Bool) (a : A) (xs : List A) → Has a (select p xs) → Has a xs × (p a ≡ true)
  Has-select p a [] h = elim h [ ]
  Has-select p a (x ∷ xs) h = ground (arith, Has-select p a xs)

  pub select-Has :
      (p : A → Bool) (a : A) (xs : List A) → Has a xs → p a ≡ true → Has a (select p xs)
  select-Has p a [] h e = elim h [ ]
  select-Has p a (x ∷ xs) h e = ground (arith, select-Has p a xs)

  pub scalar-Has : (p : A → Bool) (a : A) (xs : List A) → scalar p xs ≡ some a → Has a xs
  scalar-Has p a [] h = ground arith
  scalar-Has p a (x ∷ xs) h = ground (arith, scalar-Has p a xs)

  pub scalar-none :
      (p : A → Bool) (a : A) (xs : List A) → scalar p xs ≡ none → Has a xs → p a ≡ false
  scalar-none p a [] e h = elim h [ ]
  scalar-none p a (x ∷ xs) e h = ground (arith, scalar-none p a xs)

  pub any-Has : (p : A → Bool) (a : A) (xs : List A) → Has a xs → p a ≡ true → any p xs ≡ true
  any-Has p a [] h e = elim h [ ]
  any-Has p a (x ∷ xs) h e = ground (arith, any-Has p a xs)

  pub any-witness :
      (p : A → Bool) (xs : List A) → any p xs ≡ true → (a : A) × Has a xs × (p a ≡ true)
  any-witness p [] h = absurd (ground arith)
  any-witness p (x ∷ xs) h = elim (Bool-cases (p x)) [
    | inl e ↦ (x, inl refl, e)
    | inr e ↦ let (a, m, q) = any-witness p xs (rw e at h) in (a, inr m, q)
  ]

  pub all-Has : (p : A → Bool) (a : A) (xs : List A) → all p xs ≡ true → Has a xs → p a ≡ true
  all-Has p a [] e h = elim h [ ]
  all-Has p a (x ∷ xs) e h = ground (arith, all-Has p a xs)

  pub get_elem?-Has : (n : ℕ) (a : A) (xs : List A) → get_elem? xs n ≡ some a → Has a xs
  get_elem?-Has n a [] h = absurd (cc)
  get_elem?-Has zero a (x ∷ xs) h = inl (cc)
  get_elem?-Has (suc n) a (x ∷ xs) h = inr (get_elem?-Has n a xs h)

  pub Has-take : (n : ℕ) (a : A) (xs : List A) → Has a (take n xs) → Has a xs
  Has-take zero a xs h = elim h [ ]
  Has-take (suc n) a [] h = elim h [ ]
  Has-take (suc n) a (x ∷ xs) (inl e) = inl e
  Has-take (suc n) a (x ∷ xs) (inr h) = inr (Has-take n a xs h)

  -- A row of an updated table is an old row that the test passed over, or the new form of one.
  pub Has-update_where :
      (p : A → Bool) (f : A → A) (a : A) (xs : List A)
      → Has a (update_where p f xs)
      → (b : A) × Has b xs × (a ≡ (if p b then f b else b))
  Has-update_where p f a [] h = elim h [ ]
  Has-update_where p f a (x ∷ xs) (inl e) = (x, inl refl, e)
  Has-update_where p f a (x ∷ xs) (inr h) =
      let (b, m, q) = Has-update_where p f a xs h in (b, inr m, q)

  pub update_where-Has :
      (p : A → Bool) (f : A → A) (a : A) (xs : List A)
      → Has a xs
      → Has (if p a then f a else a) (update_where p f xs)
  update_where-Has p f a [] h = elim h [ ]
  update_where-Has p f a (x ∷ xs) (inl e) = inl (ap (λ b. if p b then f b else b) e)
  update_where-Has p f a (x ∷ xs) (inr h) = inr (update_where-Has p f a xs h)

  pub delete_where-Has :
      (p : A → Bool) (a : A) (xs : List A) → Has a xs → p a ≡ false → Has a (delete_where p xs)
  delete_where-Has p a [] h e = elim h [ ]
  delete_where-Has p a (x ∷ xs) h e = ground (arith, delete_where-Has p a xs)

  pub Has-delete_where :
      (p : A → Bool) (a : A) (xs : List A) → Has a (delete_where p xs) → Has a xs × (p a ≡ false)
  Has-delete_where p a [] h = elim h [ ]
  Has-delete_where p a (x ∷ xs) h = ground (arith, Has-delete_where p a xs)

module _ {ℓ κ} {A : Type ℓ} {B : Type κ} where
  pub Has-join :
      (f : A → List B) (b : B) (xs : List A) → Has b (join xs f) → (a : A) × Has a xs × Has b (f a)
  Has-join f b [] h = elim h [ ]
  Has-join f b (x ∷ xs) h = elim (Has-append b (f x) (join xs f) h) [
    | inl l ↦ (x, inl refl, l)
    | inr r ↦ let (a, m, q) = Has-join f b xs r in (a, inr m, q)
  ]

  pub join-Has :
      (f : A → List B) (a : A) (b : B) (xs : List A) → Has a xs → Has b (f a) → Has b (join xs f)
  join-Has f a b [] h m = elim h [ ]
  join-Has f a b (x ∷ xs) (inl e) m = Has-append_left b (f x) (join xs f) (rw e at m)
  join-Has f a b (x ∷ xs) (inr h) m = Has-append_right b (f x) (join xs f) (join-Has f a b xs h m)

  pub Has-map :
      (f : A → B) (b : B) (xs : List A) → Has b (map f xs) → (a : A) × Has a xs × (b ≡ f a)
  Has-map f b [] h = elim h [ ]
  Has-map f b (x ∷ xs) (inl e) = (x, inl refl, e)
  Has-map f b (x ∷ xs) (inr h) = let (a, m, q) = Has-map f b xs h in (a, inr m, q)

  pub map-Has : (f : A → B) (a : A) (xs : List A) → Has a xs → Has (f a) (map f xs)
  map-Has f a [] h = elim h [ ]
  map-Has f a (x ∷ xs) (inl e) = inl (ap f e)
  map-Has f a (x ∷ xs) (inr h) = inr (map-Has f a xs h)
