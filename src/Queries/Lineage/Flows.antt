-- ===== src/Queries/Lineage/Flows.antt =====
-- services/database/column_lineage.py: what it means that a base column flows into an output, and
-- what the steps of the analysis keep of it.
use mathlib.Core.Path.{subst}
use tenant_intelligence_plat.Base.{
  ℕ, zero, suc, ◌+◌, ◌≡◌, refl, sym, ap, ◌∙◌, String, Bool, true, false, not, ◌&&◌, ◌||◌, some, ◌⊎◌,
  inl, inr, List, [], ◌∷◌, str_eq, ◌==◌, any, length, get_elem?, sort_by-Has, Has-sort_by,
  dict_values, dict_values-covers, Has-dict_values, Has, Never, any-Has, Has-append_left,
  Has-append_right, Bool-cases, arith, some_injective,
}
use tenant_intelligence_plat.Permissions.Resolver.{EffectiveSchema, EffectiveTable, EffectiveColumn}
use tenant_intelligence_plat.Queries.SqlGlot.{
  SqlGlot, Scope, Sources, Scopes, scope, no_sources, table_source, scope_source, no_scopes,
  and_scope, NodeClass,
}
use tenant_intelligence_plat.Queries.Lineage.{
  Analysis, found, failed, ◌>>=◌, gather, BaseColumnProvenance, OutputColumnLineage, same_column,
  by_qualified_name, merge_sources, sources_at, branch_sources, merged_outputs,
  set_operation_outputs, one_table, table_matches, provenance,
}

pub found_injective {ℓ} : {A : Type ℓ} {a b : A} → found a ≡ found b → a ≡ b
found_injective {a} {b} h = cc

pub bind-found {ℓ κ} :
    {A : Type ℓ} {B : Type κ} (m : Analysis A) (f : A → Analysis B) (b : B)
    → (m >>= f) ≡ found b
    → (a : A) × (m ≡ found a) × (f a ≡ found b)
bind-found (found a) f b h = (a, refl, h)
bind-found (failed e) f b h = absurd (cc)

-- What succeeds on a list succeeds on each member, and keeps its results.
pub gather-Has :
    {A B : Type 0} (f : A → Analysis (List B)) (a : A) (xs : List A) (ys : List B)
    → gather f xs ≡ found ys
    → Has a xs
    → (zs : List B) × (f a ≡ found zs) × ((b : B) → Has b zs → Has b ys)
gather-Has f a [] ys h m = elim m [ ]
gather-Has f a (x ∷ xs) ys h (inl e) =
    let (zs, p, k) = bind-found (f x) _ ys h in
    let (ws, q, r) = bind-found (gather f xs) _ ys k in
    (zs, rw e p, λ b m. rw (sym (found_injective r)) (Has-append_left b zs ws m))
gather-Has f a (x ∷ xs) ys h (inr m) =
    let (zs, p, k) = bind-found (f x) _ ys h in
    let (ws, q, r) = bind-found (gather f xs) _ ys k in
    let (vs, s, t) = gather-Has f a xs ws q m in
    (vs, s, λ b n. rw (sym (found_injective r)) (Has-append_right b zs ws (t b n)))

-- The same base column, as an entry of a list of sources.
abbrev pub Covers : BaseColumnProvenance → List BaseColumnProvenance → Type 0
Covers b bs = (c : BaseColumnProvenance) × Has c bs × (same_column c b ≡ true)

pub Covers-subset :
    (b : BaseColumnProvenance) (bs cs : List BaseColumnProvenance)
    → Covers b bs
    → ((c : BaseColumnProvenance) → Has c bs → Has c cs)
    → Covers b cs
Covers-subset b bs cs (c, m, e) within = (c, within c m, e)

-- Merging keeps an entry for each base column.
pub merge_sources-Covers :
    (b : BaseColumnProvenance) (bs : List BaseColumnProvenance)
    → Covers b bs
    → Covers b (merge_sources bs)
unfolding merge_sources
merge_sources-Covers b bs (c, m, e) =
    let (d, n, q) =
      dict_values-covers same_column (λ a. ground arith) (λ a b c p q. ground (arith, p, q)) c bs
        m in
    (d, sort_by-Has by_qualified_name d (dict_values same_column bs) n, ground (arith, q, e))

-- Merging adds none.
pub Has-merge_sources :
    (b : BaseColumnProvenance) (bs : List BaseColumnProvenance)
    → Has b (merge_sources bs)
    → Has b bs
unfolding merge_sources
Has-merge_sources b bs h =
    Has-dict_values same_column b bs
      (Has-sort_by by_qualified_name b (dict_values same_column bs) h)

-- An output at a position has the base column among its sources.
abbrev pub CoversAt : ℕ → BaseColumnProvenance → List OutputColumnLineage → Type 0
CoversAt n b outputs =
    (o : OutputColumnLineage) × (get_elem? outputs n ≡ some o) × Covers b o.sources

get_elem?-length :
    {A B : Type 0} (n : ℕ) (a : A) (xs : List A) (ys : List B)
    → get_elem? xs n ≡ some a
    → length xs ≡ length ys
    → (b : B) × (get_elem? ys n ≡ some b)
get_elem?-length n a [] ys h e = absurd (cc)
get_elem?-length n a (x ∷ xs) [] h e = absurd (omega (arith, e))
get_elem?-length zero a (x ∷ xs) (y ∷ ys) h e = (y, refl)
get_elem?-length (suc n) a (x ∷ xs) (y ∷ ys) h e = get_elem?-length n a xs ys h (omega (arith, e))

branch_sources-Has :
    (n : ℕ) (b : BaseColumnProvenance) (o : OutputColumnLineage) (branch : List OutputColumnLineage)
    (branches : List (List OutputColumnLineage))
    → Has branch branches
    → get_elem? branch n ≡ some o
    → Has b o.sources
    → Has b (branch_sources branches n)
branch_sources-Has n b o branch [] m e h = elim m [ ]
branch_sources-Has n b o branch (x ∷ xs) (inl p) e h =
    Has-append_left b (sources_at n x) (branch_sources xs n) (rw (sym p, e) h)
branch_sources-Has n b o branch (x ∷ xs) (inr m) e h =
    Has-append_right b (sources_at n x) (branch_sources xs n)
      (branch_sources-Has n b o branch xs m e h)

merged_outputs-at :
    (branches : List (List OutputColumnLineage)) (position n : ℕ) (first : List OutputColumnLineage)
    (o : OutputColumnLineage)
    → get_elem? first n ≡ some o
    → (p : OutputColumnLineage) × (get_elem? (merged_outputs branches position first) n ≡ some p)
      × (p.sources ≡ merge_sources (branch_sources branches (position + n)))
      × (p.output_name ≡ o.output_name)
unfolding merged_outputs
merged_outputs-at branches position n [] o h = absurd (cc)
merged_outputs-at branches position zero (x ∷ first) o h = (
  _,
  refl,
  ap (λ k. merge_sources (branch_sources branches k)) (omega arith),
  ap (λ (x : OutputColumnLineage). x.output_name) (some_injective h),
)
merged_outputs-at branches position (suc n) (x ∷ first) o h =
    let (p, e, q, named) = merged_outputs-at branches (suc position) n first o h in
    (p, e, q ∙ ap (λ k. merge_sources (branch_sources branches k)) (omega arith), named)

at_zero : (n : ℕ) → n ≡ 0 + n
at_zero n = omega arith

-- What an output of a branch reads, the output of the set operation at its position reads.
pub set_operation-CoversAt :
    (n : ℕ) (b : BaseColumnProvenance) (branch : List OutputColumnLineage)
    (branches : List (List OutputColumnLineage)) (outputs : List OutputColumnLineage)
    → set_operation_outputs branches ≡ found outputs
    → Has branch branches
    → CoversAt n b branch
    → CoversAt n b outputs
unfolding set_operation_outputs
set_operation-CoversAt n b branch [] outputs h m c = absurd (cc)
set_operation-CoversAt n b branch (first ∷ rest) outputs h m (o, at, (d, hd, e)) =
    elim (Bool-cases (any (λ branch. not (length branch == length first)) (first ∷ rest))) [
      | inl uneven ↦ absurd (cc (rw uneven at h))
      | inr even ↦
          let same : length branch ≡ length first =
            elim (Bool-cases (length branch == length first)) [
              | inl s ↦ ground (arith, s)
              | inr s ↦ absurd (
                  ground (
                    arith,
                    even,
                    any-Has (λ branch. not (length branch == length first)) branch (first ∷ rest) m
                        (ap not s),
                  ))
            ] in
          let (x, ex) = get_elem?-length n o branch first at same in
          let (p, ep, q, named) = merged_outputs-at (first ∷ rest) 0 n first x ex in
          let (c, hc, ec) =
            merge_sources-Covers b (branch_sources (first ∷ rest) n)
              (d, branch_sources-Has n d o branch (first ∷ rest) m at hd, e) in
          (
            p,
            rw (sym (found_injective (rw even at h))) ep,
            (
              c,
              rw q (
                  subst (λ k. Has c (merge_sources (branch_sources (first ∷ rest) k))) (at_zero n)
                    hc),
              ec,
            ),
          )
    ]

-- The output of a set operation has the name of the first branch's output.
pub set_operation_name :
    (n : ℕ) (first : List OutputColumnLineage) (rest : List (List OutputColumnLineage))
    (outputs : List OutputColumnLineage) (o : OutputColumnLineage)
    → set_operation_outputs (first ∷ rest) ≡ found outputs
    → get_elem? first n ≡ some o
    → (p : OutputColumnLineage) × (get_elem? outputs n ≡ some p) × (p.output_name ≡ o.output_name)
unfolding set_operation_outputs
set_operation_name n first rest outputs o h at =
    elim (Bool-cases (any (λ branch. not (length branch == length first)) (first ∷ rest))) [
      | inl uneven ↦ absurd (cc (rw uneven at h))
      | inr even ↦
          let (p, e, q, named) = merged_outputs-at (first ∷ rest) 0 n first o at in
          (p, rw (sym (found_injective (rw even at h))) e, named)
    ]

module _ {E : Type 0} (G : SqlGlot E) (casefold : String → String) (numbered : String → ℕ → String)
    (allowed : EffectiveSchema) where
  -- A column of an expression can mean a source of an alias.
  abbrev pub refers : E → String → Bool
  refers k alias = str_eq (G.table_of k) "" || str_eq alias (G.table_of k)

  abbrev pub is_named : E → String → Bool
  is_named k alias = not (str_eq (G.table_of k) "") && str_eq alias (G.table_of k)

  abbrev pub combines : E → Bool
  combines e =
      G.isinstance e NodeClass.union
      || (G.isinstance e NodeClass.intersect || G.isinstance e NodeClass.except)

  -- The output at a position of a scope has a name: that of the projection, or of the first branch.
  unfoldable mutual
    pub Named : Scope E → ℕ → String → Type 0
    Named (scope e given columns branches) m name =
        ((combines e ≡ true) × NamedFirst branches m name)
        ⊎ ((combines e ≡ false)
            × ((p : E) × (get_elem? (G.expressions e) m ≡ some p)
                × (G.alias_or_name p ≡ name)
                × (str_eq name "" ≡ false)))

    pub NamedFirst : Scopes E → ℕ → String → Type 0
    NamedFirst no_scopes m name = Never
    NamedFirst (and_scope s rest) m name = Named s m name

  -- A table node of an allowed table reads a base column by a name: the column has the name, and no
  -- other column of the table has it in another case.
  pub record ReadsColumn (t : E) (name : String) (b : BaseColumnProvenance) : Type 0 where
    pub table : EffectiveTable
    pub column : EffectiveColumn
    pub is_table : one_table (table_matches G casefold numbered allowed t) ≡ some table
    pub in_table : Has column table.columns
    pub is_readable : column.readable ≡ true
    pub named : column.metadata.column_name ≡ name
    pub only_one :
        (d : EffectiveColumn)
        → Has d table.columns
        → str_eq (casefold d.metadata.column_name) (casefold name) ≡ true
        → d ≡ column
    pub is_provenance : b ≡ provenance table column

  -- the node in whose alias a scope's columns may be renamed
  abbrev pub expression_of : Scope E → E
  expression_of (scope e given columns branches) = e

  -- A base column flows into the output at a position of a scope: through a branch of a set
  -- operation, or through a column of the scope, in the projection at that position, which means a
  -- table that has the base column, or a scope with an output of the column's name into which the
  -- base column flows. The alias of that table or scope renames no columns. A column of a subquery
  -- inside the projection is not one of the scope, so that what flows through it is left out.
  unfoldable mutual
    unfolding Named

    pub Flows : Scope E → ℕ → BaseColumnProvenance → Type 0
    Flows (scope e sources columns branches) n b =
        ((combines e ≡ true) × FlowsBranches branches n b)
        ⊎ ((combines e ≡ false)
            × ((p : E) × (get_elem? (G.expressions e) n ≡ some p)
                × (k : E) × Has k columns
                × Has k (G.walk (G.unalias p))
                × (G.isinstance k NodeClass.column ≡ true)
                × FlowsSources k sources b))

    pub FlowsSources : E → Sources E → BaseColumnProvenance → Type 0
    FlowsSources k no_sources b = Never
    FlowsSources k (table_source alias t rest) b =
        ((refers k alias ≡ true) × (G.column_aliases t ≡ []) × ReadsColumn t (G.name k) b)
        ⊎ ((is_named k alias ≡ false) × FlowsSources k rest b)
    FlowsSources k (scope_source alias s rest) b =
        ((refers k alias ≡ true)
          × (G.column_aliases (expression_of s) ≡ [])
          × ((m : ℕ) × Named s m (G.name k) × Flows s m b))
        ⊎ ((is_named k alias ≡ false) × FlowsSources k rest b)

    pub FlowsBranches : Scopes E → ℕ → BaseColumnProvenance → Type 0
    FlowsBranches no_scopes n b = Never
    FlowsBranches (and_scope s rest) n b = Flows s n b ⊎ FlowsBranches rest n b
