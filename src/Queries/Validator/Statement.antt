-- ===== src/Queries/Validator/Statement.antt =====
-- services/database/query_validator.py: what an accepted statement is, apart from its columns.
use Prim.Native.Nat.{◌≤◌}
use tenant_intelligence_plat.Base.{
  ℕ, ◌+◌, ◌≡◌, refl, String, Bool, true, false, Option, none, some, inl, inr, List, [], ◌∷◌, ◌++◌,
  is_empty, length, select, Has, join, if◌then◌else◌,
}
use tenant_intelligence_plat.Permissions.Resolver.{EffectiveSchema}
use tenant_intelligence_plat.Queries.SqlGlot.{NodeClass, SqlGlot}
use tenant_intelligence_plat.Queries.Lineage.{found, OutputColumnLineage, analyze}
use tenant_intelligence_plat.Queries.Validator.{
  QuerySettings, ValidationError, ValidationResult, error_if, is_any, find_all, statement_errors,
  validated, validate,
}

pub append-empty : {A : Type 0} (xs ys : List A) → xs ++ ys ≡ [] → (xs ≡ []) × (ys ≡ [])
append-empty [] ys h = (refl, h)
append-empty (x ∷ xs) ys h = absurd (cc)

pub join-empty :
    {A B : Type 0} (f : A → List B) (a : A) (xs : List A) → join xs f ≡ [] → Has a xs → f a ≡ []
join-empty f a [] h m = elim m [ ]
join-empty f a (x ∷ xs) h (inl e) = rw e (append-empty (f x) (join xs f) h).0
join-empty f a (x ∷ xs) h (inr m) = join-empty f a xs (append-empty (f x) (join xs f) h).1 m

abbrev pub AllEmpty : {A : Type 0} → List (List A) → Type 0
AllEmpty [] = Unit
AllEmpty (xs ∷ xss) = (xs ≡ []) × AllEmpty xss

pub parts-empty : {A : Type 0} (xss : List (List A)) → join xss (λ xs. xs) ≡ [] → AllEmpty xss
parts-empty [] h = tt
parts-empty (xs ∷ xss) h =
    let (k, l) = append-empty xs (join xss (λ xs. xs)) h in (k, parts-empty xss l)

pub error_if-empty : (b : Bool) (e : ValidationError) → error_if b e ≡ [] → b ≡ false
error_if-empty true e h = absurd (cc)
error_if-empty false e h = refl

pub is_empty-eq : {A : Type 0} (xs : List A) → is_empty xs ≡ true → xs ≡ []
is_empty-eq [] h = refl
is_empty-eq (x ∷ xs) h = absurd (cc)

module _ {E : Type 0} (G : SqlGlot E) (casefold upper : String → String)
    (starts_with : String → String → Bool) (numbered : String → ℕ → String)
    (settings : QuerySettings) (allowed : EffectiveSchema) where
  abbrev pub accepts : String → ValidationResult E
  accepts = validate G casefold upper starts_with numbered settings allowed

  abbrev pub errors_of : E → List ValidationError
  errors_of = statement_errors G casefold upper starts_with numbered settings allowed

  abbrev kinds : List NodeClass → E → Bool
  kinds = is_any G casefold upper starts_with numbered settings allowed

  abbrev all_of : NodeClass → E → List E
  all_of = find_all G casefold upper starts_with numbered settings allowed

  -- An accepted text is one statement without errors.
  pub accepted-errors :
      (sql : String)
      → (accepts sql).accepted ≡ true
      → (e : E) × (G.parse sql ≡ some (some e ∷ []))
        × ((accepts sql).expression ≡ some e)
        × (errors_of e ≡ [])
  unfolding validate
  accepted-errors sql h = go (G.parse sql) refl h
    where
      result : Option (List (Option E)) → ValidationResult E
      result o = validated G casefold upper starts_with numbered settings allowed o

      go :
          (o : Option (List (Option E)))
          → G.parse sql ≡ o
          → (result o).accepted ≡ true
          → (e : E) × (G.parse sql ≡ some (some e ∷ []))
            × ((result o).expression ≡ some e)
            × (errors_of e ≡ [])
      go none p k = absurd (cc)
      go (some []) p k = absurd (cc)
      go (some (none ∷ rest)) p k = absurd (cc)
      go (some (some e ∷ f ∷ rest)) p k = absurd (cc)
      go (some (some e ∷ [])) p k =
          let empty = is_empty-eq (errors_of e) k in (e, p, rw empty refl, empty)

  -- the nodes of a class in a statement
  abbrev pub nodes_of : NodeClass → E → List E
  nodes_of kind e = select (λ n. G.isinstance n kind) (G.walk e)

  -- A node that reads only: none of those that write, define, run, copy, grant, lock or select into.
  pub record OnlyReads (n : E) : Type 0 where
    pub no_insert : G.isinstance n NodeClass.insert ≡ false
    pub no_update : G.isinstance n NodeClass.update ≡ false
    pub no_delete : G.isinstance n NodeClass.delete ≡ false
    pub no_merge : G.isinstance n NodeClass.merge ≡ false
    pub no_create : G.isinstance n NodeClass.create ≡ false
    pub no_drop : G.isinstance n NodeClass.drop ≡ false
    pub no_alter : G.isinstance n NodeClass.alter ≡ false
    pub no_command : G.isinstance n NodeClass.command ≡ false
    pub no_copy : G.isinstance n NodeClass.copy ≡ false
    pub no_grant : G.isinstance n NodeClass.grant ≡ false
    pub no_revoke : G.isinstance n NodeClass.revoke ≡ false
    pub no_lock : G.isinstance n NodeClass.lock ≡ false
    pub no_into : G.isinstance n NodeClass.into ≡ false

  -- the operators of SQLGlot's class of functions, or a call of one of seventeen functions
  pub data Calls (f : E) : Type 0 where
    binary_operator : G.isinstance f NodeClass.binary ≡ true → Calls f
    case_expression : G.isinstance f NodeClass.case_of ≡ true → Calls f
    if_expression : G.isinstance f NodeClass.if_of ≡ true → Calls f
    named_function :
        Has (upper (if G.isinstance f NodeClass.anonymous then G.name f else G.sql_name f)) (
          "ABS" ∷ "AVG" ∷ "CAST" ∷ "COALESCE" ∷ "COUNT" ∷ "DATE_TRUNC" ∷ "EXTRACT" ∷ "GREATEST"
          ∷ "LEAST" ∷ "LENGTH" ∷ "LOWER" ∷ "MAX" ∷ "MIN" ∷ "NULLIF" ∷ "ROUND" ∷ "SUM" ∷ "UPPER"
          ∷ [])
        → Calls f

  -- a SELECT or a set operation
  pub data Queries (e : E) : Type 0 where
    is_select : G.isinstance e NodeClass.select ≡ true → Queries e
    is_union : G.isinstance e NodeClass.union ≡ true → Queries e
    is_intersect : G.isinstance e NodeClass.intersect ≡ true → Queries e
    is_except : G.isinstance e NodeClass.except ≡ true → Queries e

  -- What a statement without errors is.
  pub record SafeStatement (e : E) : Type 0 where
    pub no_comment : (n : E) → Has n (G.walk e) → G.has_comments n ≡ false
    pub read_only : Queries e
    pub not_blocked : (n : E) → Has n (G.walk e) → OnlyReads n
    pub not_star : (n : E) → Has n (G.walk e) → G.isinstance n NodeClass.star ≡ false
    pub few_joins : length (nodes_of NodeClass.join e) ≤ settings.max_joins
    pub few_ctes : length (nodes_of NodeClass.cte e) ≤ settings.max_ctes
    pub few_columns :
        (s : E)
        → Has s (nodes_of NodeClass.select e)
        → length (G.expressions s) ≤ settings.max_selected_columns
    pub shallow :
        (s : E)
        → Has s (nodes_of NodeClass.subquery e)
        → length (select (λ a. G.isinstance a NodeClass.subquery) (G.ancestors s)) + 1
          ≤ settings.max_subquery_depth
    pub safe_function : (f : E) → Has f (nodes_of NodeClass.func e) → Calls f
    pub outputs : List OutputColumnLineage
    pub lineage_found : analyze G casefold numbered allowed e ≡ found outputs
