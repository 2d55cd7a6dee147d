-- ===== src/Base/Dicts.antt =====
-- Python's dictionaries by their values: a new value of a key takes the old one's place.
use mathlib.Core.Path.{◌≡◌, refl}
use mathlib.Core.Logic.{◌⊎◌, inl, inr}
use mathlib.Core.Bool.{Bool, true}
use mathlib.Core.List.{List, [], ◌∷◌}
use native.Mathlib.Omega.{arith}
use tenant_intelligence_plat.Base.Tests.{if◌then◌else◌, Bool-cases}
use tenant_intelligence_plat.Base.Membership.{Has}

module _ {ℓ} {A : Type ℓ} (same : A → A → Bool) where
  unfoldable pub put : A → List A → List A
  put x [] = x ∷ []
  put x (y ∷ ys) = let rest = put x ys in if same x y then x ∷ ys else y ∷ rest

  -- the values of `{key(x): x for x in xs}`, written into those before
  unfoldable pub put_all : List A → List A → List A
  unfolding put
  put_all done [] = done
  put_all done (x ∷ xs) = put_all (put x done) xs

  abbrev pub dict_values : List A → List A
  dict_values xs = put_all [] xs

  Has-put : (a x : A) (ys : List A) → Has a (put x ys) → (a ≡ x) ⊎ Has a ys
  unfolding put
  Has-put a x [] h = h
  Has-put a x (y ∷ ys) h = ground (arith, Has-put a x ys)

  Has-put_all : (a : A) (done xs : List A) → Has a (put_all done xs) → Has a done ⊎ Has a xs
  unfolding put_all
  Has-put_all a done [] h = inl h
  Has-put_all a done (x ∷ xs) h = elim (Has-put_all a (put x done) xs h) [
    | inr later ↦ inr (inr later)
    | inl m ↦ elim (Has-put a x done m) [ inl e ↦ inr (inl e) | inr old ↦ inl old ]
  ]

  -- A value of a dictionary was written.
  pub Has-dict_values : (a : A) (xs : List A) → Has a (dict_values xs) → Has a xs
  Has-dict_values a xs h = elim (Has-put_all a [] xs h) [ inl m ↦ elim m [ ] | inr m ↦ m ]

  module _ (same_refl : (a : A) → same a a ≡ true)
      (same_trans : (a b c : A) → same a b ≡ true → same b c ≡ true → same a c ≡ true) where
    put-covers :
        (a x : A) (ys : List A)
        → (a ≡ x) ⊎ ((b : A) × Has b ys × (same b a ≡ true))
        → (b : A) × Has b (put x ys) × (same b a ≡ true)
    unfolding put
    put-covers a x [] (inl e) = (x, inl refl, rw e (same_refl x))
    put-covers a x [] (inr (b, m, q)) = elim m [ ]
    put-covers a x (y ∷ ys) (inl e) = elim (Bool-cases (same x y)) [
      | inl s ↦ rw s (x, inl refl, rw e (same_refl x))
      | inr s ↦ let (b, m, q) = put-covers a x ys (inl e) in rw s (b, inr m, q)
    ]
    put-covers a x (y ∷ ys) (inr (b, inl p, q)) = elim (Bool-cases (same x y)) [
      | inl s ↦ rw s (x, inl refl, same_trans x y a s (rw p at q))
      | inr s ↦ rw s (y, inl refl, rw p at q)
    ]
    put-covers a x (y ∷ ys) (inr (b, inr m, q)) = elim (Bool-cases (same x y)) [
      | inl s ↦ rw s (b, inr m, q)
      | inr s ↦ let (c, n, r) = put-covers a x ys (inr (b, m, q)) in rw s (c, inr n, r)
    ]

    put_all-covers :
        (a : A) (done xs : List A)
        → ((b : A) × Has b done × (same b a ≡ true)) ⊎ Has a xs
        → (b : A) × Has b (put_all done xs) × (same b a ≡ true)
    unfolding put_all
    put_all-covers a done [] (inl h) = h
    put_all-covers a done [] (inr h) = elim h [ ]
    put_all-covers a done (x ∷ xs) (inl h) =
        put_all-covers a (put x done) xs (inl (put-covers a x done (inr h)))
    put_all-covers a done (x ∷ xs) (inr (inl e)) =
        put_all-covers a (put x done) xs (inl (put-covers a x done (inl e)))
    put_all-covers a done (x ∷ xs) (inr (inr m)) = put_all-covers a (put x done) xs (inr m)

    -- Each value that was written, or one that took its place, is in the dictionary.
    pub dict_values-covers :
        (a : A) (xs : List A) → Has a xs → (b : A) × Has b (dict_values xs) × (same b a ≡ true)
    dict_values-covers a xs h = put_all-covers a [] xs (inr h)
