-- ===== src/Permissions/Compiler/Names.antt =====
-- services/database/row_filter.py: the names of the parameters, which no two clauses share.
use Prim.Native.Nat.{◌<◌, ◌≤◌}
use tenant_intelligence_plat.Base.{
  ℕ, suc, ◌≡◌, ◌≢◌, refl, sym, ◌∙◌, String, true, false, none, some, ◌⊎◌, inl, inr, [], ◌∷◌, ◌++◌,
  str_eq, eq_iff, arith, Bool-cases,
}
use tenant_intelligence_plat.Permissions.Dsl.{Json, Items, nil, cons}
use tenant_intelligence_plat.Permissions.Compiler.{Parameters, item_parameters}
use tenant_intelligence_plat.Permissions.Compiler.Conditions.{dict_get}

-- f"{p}_{i}" is longer than p, and its last underscore tells p from the digits of i.
pub record IsNumbering (numbered : String → ℕ → String) : Type 0 where
  pub same_prefix : (p q : String) (i j : ℕ) → numbered p i ≡ numbered q j → p ≡ q
  pub same_index : (p q : String) (i j : ℕ) → numbered p i ≡ numbered q j → i ≡ j
  pub grows : (p : String) (i : ℕ) → numbered p i ≢ p

pub str_eq-false : (a b : String) → a ≢ b → str_eq a b ≡ false
str_eq-false a b h = elim (Bool-cases (str_eq a b)) [
  | inl e ↦ absurd (h ((eq_iff a b).0 e))
  | inr e ↦ e
]

pub str_eq_refl : (a : String) → str_eq a a ≡ true
str_eq_refl a = (eq_iff a a).1 refl

-- No entry of a dictionary has the key.
abbrev pub Lacks : String → Parameters → Type 0
Lacks k [] = Unit
Lacks k ((j, v) ∷ ps) = (j ≢ k) × Lacks k ps

pub dict_get-Lacks : (k : String) (ps : Parameters) → Lacks k ps → dict_get k ps ≡ none
unfolding dict_get
dict_get-Lacks k [] h = refl
dict_get-Lacks k ((j, v) ∷ ps) (e, h) = rw (dict_get-Lacks k ps h, str_eq-false j k e) refl

-- Entries before and after that lack a key, or come before, do not matter.
pub dict_get-before :
    (k : String) (v : Json) (ps qs : Parameters)
    → dict_get k qs ≡ some v
    → dict_get k (ps ++ qs) ≡ some v
unfolding dict_get
dict_get-before k v [] qs h = h
dict_get-before k v ((j, w) ∷ ps) qs h = rw (dict_get-before k v ps qs h) refl

pub dict_get-after :
    (k : String) (ps qs : Parameters) → Lacks k qs → dict_get k (ps ++ qs) ≡ dict_get k ps
unfolding dict_get
dict_get-after k [] qs h = dict_get-Lacks k qs h
dict_get-after k ((j, w) ∷ ps) qs h = rw (dict_get-after k ps qs h) refl

pub dict_get-here :
    (k : String) (v : Json) (ps qs : Parameters)
    → Lacks k qs
    → dict_get k (ps ++ (k, v) ∷ qs) ≡ some v
unfolding dict_get
dict_get-here k v ps qs h =
    dict_get-before k v ps ((k, v) ∷ qs) (rw (dict_get-Lacks k qs h, str_eq_refl k) refl)

pub Lacks-append : (k : String) (ps qs : Parameters) → Lacks k ps → Lacks k qs → Lacks k (ps ++ qs)
Lacks-append k [] qs h g = g
Lacks-append k ((j, w) ∷ ps) qs (e, h) g = (e, Lacks-append k ps qs h g)

module _ (numbered : String → ℕ → String) (naming : IsNumbering numbered) where
  -- the names of the clause of an index: its own, and those of its items
  abbrev pub IsNameOf : String → ℕ → String → Type 0
  IsNameOf p i name = (name ≡ numbered p i) ⊎ ((j : ℕ) × (name ≡ numbered (numbered p i) j))

  pub names_apart : (p a b : String) (i k : ℕ) → i < k → IsNameOf p i a → IsNameOf p k b → b ≢ a
  names_apart p a b i k lt (inl e) (inl f) h =
      omega (arith, naming.same_index p p k i (sym f ∙ h ∙ e), lt)
  names_apart p a b i k lt (inl e) (inr (j, f)) h =
      naming.grows p k (naming.same_prefix (numbered p k) p j i (sym f ∙ h ∙ e))
  names_apart p a b i k lt (inr (j, e)) (inl f) h =
      naming.grows p i (sym (naming.same_prefix p (numbered p i) k j (sym f ∙ h ∙ e)))
  names_apart p a b i k lt (inr (j, e)) (inr (m, f)) h = omega (
    arith,
    naming.same_index p p k i
        (naming.same_prefix (numbered p k) (numbered p i) m j (sym f ∙ h ∙ e)),
    lt,
  )

  -- All keys are names of clauses from an index on.
  abbrev pub From : String → ℕ → Parameters → Type 0
  From p i [] = Unit
  From p i ((j, v) ∷ ps) = ((k : ℕ) × (i ≤ k) × IsNameOf p k j) × From p i ps

  pub From-append :
      (p : String) (i : ℕ) (ps qs : Parameters) → From p i ps → From p i qs → From p i (ps ++ qs)
  From-append p i [] qs h g = g
  From-append p i ((j, v) ∷ ps) qs (n, h) g = (n, From-append p i ps qs h g)

  pub From-weaken : (p : String) (i : ℕ) (ps : Parameters) → From p (suc i) ps → From p i ps
  From-weaken p i [] h = h
  From-weaken p i ((j, v) ∷ ps) ((k, le, n), h) = ((k, omega (arith, le), n), From-weaken p i ps h)

  -- What later clauses write has none of the names of a clause.
  pub From-Lacks :
      (p a : String) (i : ℕ) (ps : Parameters) → IsNameOf p i a → From p (suc i) ps → Lacks a ps
  From-Lacks p a i [] n h = h
  From-Lacks p a i ((j, v) ∷ ps) n ((k, le, m), h) =
      (names_apart p a j i k (omega (arith, le)) n m, From-Lacks p a i ps n h)

  pub item_parameters-From :
      (p : String) (i j : ℕ) (vs : Items) → From p i (item_parameters numbered (numbered p i) j vs)
  unfolding item_parameters
  item_parameters-From p i j nil = tt
  item_parameters-From p i j (cons v vs) =
      ((i, omega arith, inr (j, refl)), item_parameters-From p i (suc j) vs)

  pub item_parameters-Lacks :
      (name : String) (i j : ℕ) (vs : Items)
      → i < j
      → Lacks (numbered name i) (item_parameters numbered name j vs)
  unfolding item_parameters
  item_parameters-Lacks name i j nil lt = tt
  item_parameters-Lacks name i j (cons v vs) lt = (
    λ e. omega (arith, naming.same_index name name j i e, lt),
    item_parameters-Lacks name i (suc j) vs (omega (arith, lt)),
  )
