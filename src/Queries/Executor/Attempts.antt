-- ===== src/Queries/Executor/Attempts.antt =====
-- services/database/query_executor.py: the cases of a call, and how the row of an attempt is settled.
use mathlib.Core.Path.{subst}
use tenant_intelligence_plat.Base.{
  ℕ, ◌≡◌, refl, sym, ap, ◌∙◌, String, Bool, true, false, not, Option, none, some, inl, inr, List,
  [], ◌∷◌, ◌++◌, str_eq, ◌==◌, Bool-cases, Option-cases, Has, Has-append, Has-update_where, ==_refl,
  update_where,
}
use tenant_intelligence_plat.Errors.{Error, resource_not_found, query_rejected, integrity}
use tenant_intelligence_plat.Exec.{Result, err, raise_if, ◌>>◌, ok}
use tenant_intelligence_plat.Identity.Models.{Uuid}
use tenant_intelligence_plat.Permissions.Dsl.{Json}
use tenant_intelligence_plat.Permissions.Models.{DatabaseConnection}
use tenant_intelligence_plat.Permissions.Resolver.{resolve, EffectiveSchema}
use tenant_intelligence_plat.Queries.SqlGlot.{SqlGlot}
use tenant_intelligence_plat.Permissions.Compiler.{RuntimeFilterContext}
use tenant_intelligence_plat.Queries.Lineage.{
  Analysis, found, OutputColumnLineage, masking_plan, analyze,
}
use tenant_intelligence_plat.Queries.Validator.{QuerySettings, validate}
use tenant_intelligence_plat.Queries.Validator.Statement.{accepted-errors}
use tenant_intelligence_plat.Queries.Rewriter.{LimitClause, RewrittenQuery, rewrite}
use tenant_intelligence_plat.Results.{
  MaskOps, ResultMasker, MaskResult, unsafe_metadata, columns_mismatch, masked, mask_rows, Row,
}
use tenant_intelligence_plat.Queries.Executor.{
  ExecutionStatus, pending, succeeded, failed, timeout, rejected, QueryExecution, QueryStore,
  SafeQueryResult, AdapterAnswer, Outcome, finished, timeout_error, other_error, settled_as,
  finished_as, get_connection, logged, conclude, attempt, new_execution, add_execution, proceed,
  execute, Sent, cancelled_error, cancelled, returned, timed_out, raised, run, sent_query, answered,
  with_plan, masked_outcome,
}

abbrev pub is_pending : ExecutionStatus → Bool
is_pending pending = true
is_pending succeeded = false
is_pending failed = false
is_pending timeout = false
is_pending rejected = false

abbrev pub is_cancelled : Outcome → Bool
is_cancelled cancelled_error = true
is_cancelled _ = false

abbrev pub is_cancellation : AdapterAnswer → Bool
is_cancellation cancelled = true
is_cancellation _ = false

-- No row of the table is pending.
abbrev pub NonePending : List QueryExecution → Type 0
NonePending rows = (x : QueryExecution) → Has x rows → is_pending x.execution_status ≡ false

module _ {E : Type 0} (G : SqlGlot E) (casefold upper : String → String)
    (starts_with : String → String → Bool) (numbered marked : String → ℕ → String)
    (python_str : Json → String) (show_uuid : Uuid → String) (parse_uuid : String → Option Uuid)
    (redacted : E → String) (tables_of : E → List E) (limit_of : E → LimitClause) (ops : MaskOps)
    (masker : ResultMasker) (settings : QuerySettings) (can_connect : DatabaseConnection → Bool)
    (adapter : DatabaseConnection → RewrittenQuery → AdapterAnswer)
    (accepts : QueryStore → Bool) where
  -- What a call has tested when it comes to the body of its `try`.
  pub record Reached (tenant_id user_id : Uuid) (role_ids : List Uuid) (connection_id : Uuid)
      (sql : String) (connection : DatabaseConnection) (e : E) (db : QueryStore) : Type 0 where
    pub connection_found : get_connection tenant_id connection_id db.catalog ≡ some connection
    pub connected : str_eq (db.status_of connection.id) "connected" ≡ true
    pub accepted :
        (validate G casefold upper starts_with numbered settings
          (resolve tenant_id user_id role_ids connection.id db.catalog)
          sql).accepted
        ≡ true
    pub carried :
        (validate G casefold upper starts_with numbered settings
          (resolve tenant_id user_id role_ids connection.id db.catalog)
          sql).expression
        ≡ some e

  abbrev pub row_of :
      Uuid → Uuid → Uuid → List Uuid → String → DatabaseConnection → QueryStore → QueryExecution
  row_of id tenant_id user_id role_ids sql connection db =
      new_execution G casefold upper starts_with numbered marked python_str show_uuid parse_uuid
        redacted tables_of limit_of ops masker settings can_connect adapter accepts id tenant_id
        connection.id sql
        (validate G casefold upper starts_with numbered settings
          (resolve tenant_id user_id role_ids connection.id db.catalog) sql)

  abbrev pub with_row :
      Uuid → Uuid → Uuid → List Uuid → String → DatabaseConnection → QueryStore → QueryStore
  with_row id tenant_id user_id role_ids sql connection db =
      add_execution G casefold upper starts_with numbered marked python_str show_uuid parse_uuid
        redacted tables_of limit_of ops masker settings can_connect adapter accepts
        (row_of id tenant_id user_id role_ids sql connection db) db

  abbrev pub attempted :
      Uuid
      → Uuid
      → Uuid
      → List Uuid
      → String
      → DatabaseConnection
      → E
      → QueryStore
      → Result SafeQueryResult × QueryStore
  attempted id tenant_id user_id role_ids sql connection e db =
      attempt G casefold upper starts_with numbered marked python_str show_uuid parse_uuid redacted
        tables_of limit_of ops masker settings can_connect adapter accepts id
        (resolve tenant_id user_id role_ids connection.id db.catalog)
        (record { user_id = user_id; tenant_id = tenant_id }) connection e
        (with_row id tenant_id user_id role_ids sql connection db)

  -- A call fails on the store as it was, or it adds the row of a rejected statement, or it has
  -- passed all tests and tries.
  pub execute-cases :
      (P : Result SafeQueryResult × QueryStore → Type 0) (id tenant_id user_id : Uuid)
      (role_ids : List Uuid) (connection_id : Uuid) (sql : String) (db : QueryStore)
      → ((x : Error) → P (err x, db))
      → ((connection : DatabaseConnection)
          → (row_of id tenant_id user_id role_ids sql connection db).execution_status ≡ rejected
          → P (err query_rejected, with_row id tenant_id user_id role_ids sql connection db))
      → ((connection : DatabaseConnection) (e : E)
          → Reached tenant_id user_id role_ids connection_id sql connection e db
          → P (attempted id tenant_id user_id role_ids sql connection e db))
      → P (
          execute G casefold upper starts_with numbered marked python_str show_uuid parse_uuid
            redacted tables_of limit_of ops masker settings can_connect adapter accepts id tenant_id
            user_id role_ids connection_id sql db)
  unfolding execute
  execute-cases P id tenant_id user_id role_ids connection_id sql db failed_early refused reached =
      elim (Option-cases (get_connection tenant_id connection_id db.catalog)) [
        | inl missing ↦ rw missing (failed_early resource_not_found)
        | inr (connection, there) ↦
            rw there (elim (Bool-cases (str_eq (db.status_of connection.id) "connected")) [
              | inr off ↦ rw off (failed_early resource_not_found)
              | inl on ↦
                  rw on
                    (elim (Bool-cases
                      (accepts (with_row id tenant_id user_id role_ids sql connection db))) [
                        | inr dropped ↦ rw dropped (failed_early integrity)
                        | inl stored ↦ rw stored (
                            after connection there on
                              (validate G casefold upper starts_with numbered settings
                                (resolve tenant_id user_id role_ids connection.id db.catalog)
                                sql).accepted
                              refl)
                      ])
            ])
      ]
    where
      after :
          (connection : DatabaseConnection)
          → get_connection tenant_id connection_id db.catalog ≡ some connection
          → str_eq (db.status_of connection.id) "connected" ≡ true
          → (b : Bool)
          → (validate G casefold upper starts_with numbered settings
              (resolve tenant_id user_id role_ids connection.id db.catalog)
              sql).accepted
            ≡ b
          → P (
              (raise_if (not b) query_rejected
                  >> proceed G casefold upper starts_with numbered marked python_str show_uuid
                      parse_uuid redacted tables_of limit_of ops masker settings can_connect adapter
                      accepts id
                      (resolve tenant_id user_id role_ids connection.id db.catalog)
                      (record { user_id = user_id; tenant_id = tenant_id })
                      connection
                      (validate G casefold upper starts_with numbered settings
                        (resolve tenant_id user_id role_ids connection.id db.catalog)
                        sql).expression)
                (with_row id tenant_id user_id role_ids sql connection db))
      after connection there on false e = refused connection (rw e refl)
      after connection there on true e =
          let (statement, parsed, carried, clean) =
            accepted-errors G casefold upper starts_with numbered settings
              (resolve tenant_id user_id role_ids connection.id db.catalog) sql e in
          subst
            (λ o. P (
              proceed G casefold upper starts_with numbered marked python_str show_uuid parse_uuid
                redacted tables_of limit_of ops masker settings can_connect adapter accepts id
                (resolve tenant_id user_id role_ids connection.id db.catalog)
                (record { user_id = user_id; tenant_id = tenant_id }) connection o
                (with_row id tenant_id user_id role_ids sql connection db)))
            (sym carried)
            (reached connection statement (record {
              connection_found = there;
              connected = on;
              accepted = e;
              carried = carried;
            }))

  added-NonePending :
      (row : QueryExecution) (rows : List QueryExecution)
      → row.execution_status ≡ rejected
      → NonePending rows
      → NonePending (rows ++ (row ∷ []))
  added-NonePending row rows e h x m = elim (Has-append x rows (row ∷ []) m) [
    | inl old ↦ h x old
    | inr (inl same) ↦ rw (same, e) refl
    | inr (inr never) ↦ elim never [ ]
  ]

  -- The row of an attempt is the only one that its end has to settle.
  settled-NonePending :
      (row : QueryExecution) (rows : List QueryExecution) (change : QueryExecution → QueryExecution)
      → ((x : QueryExecution) → is_pending (change x).execution_status ≡ false)
      → NonePending rows
      → NonePending
          (update_where (λ (x : QueryExecution). x.id == row.id) change (rows ++ (row ∷ [])))
  settled-NonePending row rows change settles h x m =
      let (b, hb, e) =
        Has-update_where (λ (x : QueryExecution). x.id == row.id) change x (rows ++ (row ∷ [])) m in
      elim (Bool-cases (b.id == row.id)) [
        | inl own ↦ rw (e, own) (settles b)
        | inr other ↦ elim (Has-append b rows (row ∷ []) hb) [
          | inl old ↦ rw (e, other) (h b old)
          | inr (inl same) ↦ absurd (
              cc (
                sym other
                ∙ ap (λ i. i == row.id) (ap (λ (y : QueryExecution). y.id) same)
                ∙ ==_refl row.id))
          | inr (inr never) ↦ elim never [ ]
        ]
      ]

  logged_executions :
      (q : Option Sent) (db : QueryStore)
      → (logged G casefold upper starts_with numbered marked python_str show_uuid parse_uuid
          redacted tables_of limit_of ops masker settings can_connect adapter accepts q
          db).executions
        ≡ db.executions
  logged_executions none db = refl
  logged_executions (some query) db = refl

  conclude-NonePending :
      (row : QueryExecution) (o : Outcome) (q : Option Sent) (db : QueryStore)
      → ((s : QueryStore) → accepts s ≡ true)
      → is_cancelled o ≡ false
      → NonePending db.executions
      → NonePending
          (conclude G casefold upper starts_with numbered marked python_str show_uuid parse_uuid
            redacted tables_of limit_of ops masker settings can_connect adapter accepts row.id o
            (logged G casefold upper starts_with numbered marked python_str show_uuid parse_uuid
              redacted tables_of limit_of ops masker settings can_connect adapter accepts q
              (add_execution G casefold upper starts_with numbered marked python_str show_uuid
                parse_uuid redacted tables_of limit_of ops masker settings can_connect adapter
                accepts row db))).1.executions
  conclude-NonePending row (finished query columns rows truncated) q db stores goes_on h =
      rw
        (
          stores _,
          logged_executions q (
              add_execution G casefold upper starts_with numbered marked python_str show_uuid
                parse_uuid redacted tables_of limit_of ops masker settings can_connect adapter
                accepts row db),
        )
        (settled-NonePending row db.executions (finished_as query rows truncated) (λ x. refl) h)
  conclude-NonePending row timeout_error q db stores goes_on h =
      rw
        (
          stores _,
          logged_executions q (
              add_execution G casefold upper starts_with numbered marked python_str show_uuid
                parse_uuid redacted tables_of limit_of ops masker settings can_connect adapter
                accepts row db),
        )
        (settled-NonePending row db.executions (settled_as true) (λ x. refl) h)
  conclude-NonePending row other_error q db stores goes_on h =
      rw
        (
          stores _,
          logged_executions q (
              add_execution G casefold upper starts_with numbered marked python_str show_uuid
                parse_uuid redacted tables_of limit_of ops masker settings can_connect adapter
                accepts row db),
        )
        (settled-NonePending row db.executions (settled_as false) (λ x. refl) h)
  conclude-NonePending row cancelled_error q db stores goes_on h = absurd (cc)

  run-goes_on :
      (allowed : EffectiveSchema) (ctx : RuntimeFilterContext) (connection : DatabaseConnection)
      (e : E)
      → ((query : RewrittenQuery) → is_cancellation (adapter connection query) ≡ false)
      → is_cancelled
          (run G casefold upper starts_with numbered marked python_str show_uuid parse_uuid redacted
            tables_of limit_of ops masker settings can_connect adapter accepts allowed ctx
            connection e).1
        ≡ false
  unfolding run
  run-goes_on allowed ctx connection e stays = elim (Bool-cases (can_connect connection)) [
    | inr off ↦ rw off refl
    | inl on ↦ rw on (
        go (
          rewrite G casefold numbered marked python_str show_uuid parse_uuid allowed ctx
            settings.max_rows (tables_of e) (limit_of e)))
  ]
    where
      by_mask :
          (query : RewrittenQuery) (columns : List String) (truncated : Bool) (m : MaskResult)
          → is_cancelled (
              masked_outcome G casefold upper starts_with numbered marked python_str show_uuid
                parse_uuid redacted tables_of limit_of ops masker settings can_connect adapter
                accepts query columns truncated m)
            ≡ false
      by_mask query columns truncated unsafe_metadata = refl
      by_mask query columns truncated columns_mismatch = refl
      by_mask query columns truncated (masked rows cut) = refl

      by_lineage :
          (query : RewrittenQuery) (columns : List String) (rows : List Row) (truncated : Bool)
          (l : Analysis (List OutputColumnLineage))
          → is_cancelled (
              with_plan G casefold upper starts_with numbered marked python_str show_uuid parse_uuid
                redacted tables_of limit_of ops masker settings can_connect adapter accepts query
                columns rows truncated l)
            ≡ false
      by_lineage query columns rows truncated (found outputs) =
          by_mask query columns truncated (mask_rows ops masker columns rows (masking_plan outputs))
      by_lineage query columns rows truncated (Analysis.failed x) = refl

      by_answer :
          (query : RewrittenQuery) (a : AdapterAnswer)
          → is_cancellation a ≡ false
          → is_cancelled (
              answered G casefold upper starts_with numbered marked python_str show_uuid parse_uuid
                redacted tables_of limit_of ops masker settings can_connect adapter accepts allowed
                e query a)
            ≡ false
      by_answer query (returned columns rows truncated) k =
          by_lineage query columns rows truncated (analyze G casefold numbered allowed e)
      by_answer query timed_out k = refl
      by_answer query raised k = refl
      by_answer query cancelled k = absurd (cc)

      go :
          (r : Result RewrittenQuery)
          → is_cancelled
              (sent_query G casefold upper starts_with numbered marked python_str show_uuid
                parse_uuid redacted tables_of limit_of ops masker settings can_connect adapter
                accepts allowed connection e r).1
            ≡ false
      go (err x) = refl
      go (ok query) = by_answer query (adapter connection query) (stays query)

  -- Where the database takes each commit and the call is not cancelled while the adapter works, no
  -- call leaves a row of an execution pending, whatever the statement is and whatever the rewriter,
  -- the cipher, the adapter and the masker return or raise.
  pub execute-NonePending :
      (id tenant_id user_id : Uuid) (role_ids : List Uuid) (connection_id : Uuid) (sql : String)
      (db : QueryStore)
      → ((s : QueryStore) → accepts s ≡ true)
      → ((c : DatabaseConnection) (query : RewrittenQuery)
          → is_cancellation (adapter c query) ≡ false)
      → NonePending db.executions
      → NonePending
          (execute G casefold upper starts_with numbered marked python_str show_uuid parse_uuid
            redacted tables_of limit_of ops masker settings can_connect adapter accepts id tenant_id
            user_id role_ids connection_id sql db).1.executions
  execute-NonePending id tenant_id user_id role_ids connection_id sql db stores stays h =
      execute-cases (λ r. NonePending r.1.executions) id tenant_id user_id role_ids connection_id
        sql db (λ x. h)
        (λ connection e.
          added-NonePending (row_of id tenant_id user_id role_ids sql connection db) db.executions e
            h)
        (λ connection e reached.
          conclude-NonePending (row_of id tenant_id user_id role_ids sql connection db) _ _ db
            stores (run-goes_on _ _ connection e (stays connection)) h)
