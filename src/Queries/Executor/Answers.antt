-- ===== src/Queries/Executor/Answers.antt =====
-- services/database/query_executor.py: what is sent to a customer's database, and what a call returns.
use mathlib.Core.Path.{subst}
use tenant_intelligence_plat.Base.{
  ℕ, ◌≡◌, ◌⊎◌, refl, sym, ap, ◌∙◌, String, Bool, true, false, Option, some, inl, inr, List, [], ◌∷◌,
  ◌++◌, Bool-cases, Option-cases, some_injective, Has, scalar-Has, scalar-holds, arith, eq_iff, map,
  ◌&&◌, ◌==◌,
}
use tenant_intelligence_plat.Exec.{Result, ok, err}
use tenant_intelligence_plat.Identity.Models.{Uuid}
use tenant_intelligence_plat.Permissions.Dsl.{Json}
use tenant_intelligence_plat.Permissions.Models.{DatabaseConnection}
use tenant_intelligence_plat.Permissions.Resolver.{EffectiveSchema, resolve}
use tenant_intelligence_plat.Queries.SqlGlot.{SqlGlot}
use tenant_intelligence_plat.Queries.Lineage.{
  Analysis, found, OutputColumnLineage, masking_plan, analyze,
}
use tenant_intelligence_plat.Queries.Validator.{QuerySettings}
use tenant_intelligence_plat.Queries.Rewriter.{LimitClause, RewrittenQuery, rewrite}
use tenant_intelligence_plat.Results.{
  MaskOps, ResultMasker, Row, MaskResult, unsafe_metadata, columns_mismatch, masked, mask_rows,
}
use tenant_intelligence_plat.Queries.Executor.{
  QueryStore, SafeQueryResult, AdapterAnswer, returned, timed_out, raised, Outcome, finished,
  timeout_error, other_error, set_execution, settled_as, finished_as, run, logged, conclude,
  execute, answered, sent_query, with_plan, masked_outcome, fail_safely, Sent, cancelled,
  cancelled_error, get_connection,
}
use tenant_intelligence_plat.Results.Secrecy.{AgreeRows, mask_rows-agree}
use tenant_intelligence_plat.Queries.Executor.Attempts.{Reached, attempted, with_row, execute-cases}

finished_injective :
    {q p : RewrittenQuery} {cs ds : List String} {rs ss : List Row} {b c : Bool}
    → finished q cs rs b ≡ finished p ds ss c
    → (cs ≡ ds) × (rs ≡ ss)
finished_injective {cs} {ds} {rs} {ss} h = (cc, cc)

result_injective : {a b : SafeQueryResult} → ok a ≡ ok b → a ≡ b
result_injective {a} {b} h = cc

module _ {E : Type 0} (G : SqlGlot E) (casefold upper : String → String)
    (starts_with : String → String → Bool) (numbered marked : String → ℕ → String)
    (python_str : Json → String) (show_uuid : Uuid → String) (parse_uuid : String → Option Uuid)
    (redacted : E → String) (tables_of : E → List E) (limit_of : E → LimitClause) (ops : MaskOps)
    (masker : ResultMasker) (settings : QuerySettings) (can_connect : DatabaseConnection → Bool)
    (adapter : DatabaseConnection → RewrittenQuery → AdapterAnswer)
    (accepts : QueryStore → Bool) where
  abbrev allowed_for : Uuid → Uuid → List Uuid → DatabaseConnection → QueryStore → EffectiveSchema
  allowed_for tenant_id user_id role_ids connection db =
      resolve tenant_id user_id role_ids connection.id db.catalog

  abbrev rewritten : Uuid → Uuid → EffectiveSchema → E → Result RewrittenQuery
  rewritten tenant_id user_id allowed e =
      rewrite G casefold numbered marked python_str show_uuid parse_uuid allowed
        (record { user_id = user_id; tenant_id = tenant_id }) settings.max_rows (tables_of e)
        (limit_of e)

  -- A query that a call sends is the rewriting of an accepted statement, and it is sent on the
  -- tenant's connection of the identifier asked for, which is active and connected.
  pub record Sends (tenant_id user_id : Uuid) (role_ids : List Uuid) (connection_id : Uuid)
      (sql : String) (db : QueryStore) (connection : DatabaseConnection) (statement : E)
      (query : RewrittenQuery) : Type 0 where
    pub stored : Has connection db.catalog.connections
    pub of_tenant : connection.tenant_id ≡ tenant_id
    pub named : connection.id ≡ connection_id
    pub active : connection.is_active ≡ true
    pub connected : db.status_of connection.id ≡ "connected"
    pub reached :
        Reached G casefold upper starts_with numbered marked python_str show_uuid parse_uuid
          redacted tables_of limit_of ops masker settings can_connect adapter accepts tenant_id
          user_id role_ids connection_id sql connection statement db
    pub is_rewriting :
        rewritten tenant_id user_id (allowed_for tenant_id user_id role_ids connection db) statement
        ≡ ok query

  Reached-Sends :
      (tenant_id user_id : Uuid) (role_ids : List Uuid) (connection_id : Uuid) (sql : String)
      (db : QueryStore) (connection : DatabaseConnection) (e : E) (query : RewrittenQuery)
      → Reached G casefold upper starts_with numbered marked python_str show_uuid parse_uuid
          redacted tables_of limit_of ops masker settings can_connect adapter accepts tenant_id
          user_id role_ids connection_id sql connection e db
      → rewritten tenant_id user_id (allowed_for tenant_id user_id role_ids connection db) e
        ≡ ok query
      → Sends tenant_id user_id role_ids connection_id sql db connection e query
  unfolding get_connection
  Reached-Sends tenant_id user_id role_ids connection_id sql db connection e query reached
        rewriting =
      let test : DatabaseConnection → Bool =
        λ c. c.tenant_id == tenant_id && (c.id == connection_id && c.is_active) in
      let holds = scalar-holds test db.catalog.connections connection reached.connection_found in
      record {
        stored = scalar-Has test connection db.catalog.connections reached.connection_found;
        of_tenant = ground (arith, holds);
        named = ground (arith, holds);
        active = ground (arith, holds);
        connected = (eq_iff (db.status_of connection.id) "connected").0 reached.connected;
        reached = reached;
        is_rewriting = rewriting;
      }

  -- What a result holds: the rows of the answer to the query that was sent, masked by the lineage of
  -- the statement. The masks of the outputs decide what may show: an answer that differs in
  -- values of outputs with a hiding mask only would be masked to the same.
  pub record Returns (tenant_id user_id : Uuid) (role_ids : List Uuid) (connection_id : Uuid)
      (sql : String) (db after : QueryStore) (r : SafeQueryResult) : Type 0 where
    pub connection : DatabaseConnection
    pub query : RewrittenQuery
    pub statement : E
    pub sends : Sends tenant_id user_id role_ids connection_id sql db connection statement query
    pub is_sent : after.sent ≡ db.sent ++ ((connection, query) ∷ [])
    pub answer_rows : List Row
    pub answer_truncated : Bool
    pub cut : Bool
    pub is_answer : adapter connection query ≡ returned r.columns answer_rows answer_truncated
    pub outputs : List OutputColumnLineage
    pub is_lineage :
        analyze G casefold numbered (allowed_for tenant_id user_id role_ids connection db) statement
        ≡ found outputs
    pub is_masked :
        mask_rows ops masker r.columns answer_rows
          (map (λ (o : OutputColumnLineage). o.mask_type) outputs)
        ≡ masked r.rows cut
    pub hides :
        (others : List Row)
        → AgreeRows (map (λ (o : OutputColumnLineage). o.mask_type) outputs) answer_rows others
        → mask_rows ops masker r.columns others (masking_plan outputs) ≡ masked r.rows cut

  fail_sent :
      (id : Uuid) (b : Bool) (db : QueryStore)
      → (fail_safely G casefold upper starts_with numbered marked python_str show_uuid parse_uuid
          redacted tables_of limit_of ops masker settings can_connect adapter accepts id b
          db).1.sent
        ≡ db.sent
  fail_sent id b db = elim (Bool-cases (accepts (set_execution id (settled_as b) db))) [
    | inl stored ↦ rw stored refl
    | inr dropped ↦ rw dropped refl
  ]

  fail_raises :
      (id : Uuid) (b : Bool) (db : QueryStore) (r : SafeQueryResult)
      → (fail_safely G casefold upper starts_with numbered marked python_str show_uuid parse_uuid
          redacted tables_of limit_of ops masker settings can_connect adapter accepts id b db).0
        ≡ ok r
      → ⊥
  fail_raises id b db r h = elim (Bool-cases (accepts (set_execution id (settled_as b) db))) [
    | inl stored ↦ cc (rw stored at h)
    | inr dropped ↦ cc (rw dropped at h)
  ]

  conclude_sent :
      (id : Uuid) (o : Outcome) (db : QueryStore)
      → (conclude G casefold upper starts_with numbered marked python_str show_uuid parse_uuid
          redacted tables_of limit_of ops masker settings can_connect adapter accepts id o
          db).1.sent
        ≡ db.sent
  conclude_sent id timeout_error db = fail_sent id true db
  conclude_sent id other_error db = fail_sent id false db
  conclude_sent id cancelled_error db = refl
  conclude_sent id (finished query columns rows truncated) db =
      elim (Bool-cases (accepts (set_execution id (finished_as query rows truncated) db))) [
        | inl stored ↦ rw stored refl
        | inr dropped ↦ rw dropped (fail_sent id false db)
      ]

  record Finished (o : Outcome) (r : SafeQueryResult) : Type 0 where
    query : RewrittenQuery
    truncated : Bool
    is_finished : o ≡ finished query r.columns r.rows truncated

  conclude-Finished :
      (id : Uuid) (o : Outcome) (db : QueryStore) (r : SafeQueryResult)
      → (conclude G casefold upper starts_with numbered marked python_str show_uuid parse_uuid
          redacted tables_of limit_of ops masker settings can_connect adapter accepts id o db).0
        ≡ ok r
      → Finished o r
  conclude-Finished id timeout_error db r h = absurd (fail_raises id true db r h)
  conclude-Finished id other_error db r h = absurd (fail_raises id false db r h)
  conclude-Finished id cancelled_error db r h = absurd (cc)
  conclude-Finished id (finished query columns rows truncated) db r h =
      elim (Bool-cases (accepts (set_execution id (finished_as query rows truncated) db))) [
        | inr dropped ↦ absurd (fail_raises id false db r (rw dropped at h))
        | inl stored ↦
            let same = result_injective (rw stored at h) in
            rw (sym same) (record { query = query; truncated = truncated; is_finished = refl })
      ]

  run-rewritten :
      (allowed : EffectiveSchema) (tenant_id user_id : Uuid) (connection : DatabaseConnection)
      (e : E) (on : DatabaseConnection) (query : RewrittenQuery)
      → (run G casefold upper starts_with numbered marked python_str show_uuid parse_uuid redacted
          tables_of limit_of ops masker settings can_connect adapter accepts allowed
          (record { user_id = user_id; tenant_id = tenant_id })
          connection
          e).0
        ≡ some (on, query)
      → (rewritten tenant_id user_id allowed e ≡ ok query) × (on ≡ connection)
  unfolding run
  run-rewritten allowed tenant_id user_id connection e on query h =
      elim (Bool-cases (can_connect connection)) [
        | inr off ↦ absurd (cc (rw off at h))
        | inl opens ↦ go (rewritten tenant_id user_id allowed e) (rw opens at h)
      ]
    where
      go :
          (m : Result RewrittenQuery)
          → (sent_query G casefold upper starts_with numbered marked python_str show_uuid parse_uuid
              redacted tables_of limit_of ops masker settings can_connect adapter accepts allowed
              connection e m).0
            ≡ some (on, query)
          → (m ≡ ok query) × (on ≡ connection)
      go (ok q) k =
          let same = some_injective k in
          (ap (λ (x : Sent). ok x.1) same, sym (ap (λ (x : Sent). x.0) same))
      go (err x) k = absurd (cc)

  -- the answer and the masking behind a result
  record Masked (allowed : EffectiveSchema) (connection : DatabaseConnection) (e : E)
      (query : RewrittenQuery) (columns : List String) (rows : List Row) : Type 0 where
    answer_rows : List Row
    answer_truncated : Bool
    cut : Bool
    is_answer : adapter connection query ≡ returned columns answer_rows answer_truncated
    outputs : List OutputColumnLineage
    is_lineage : analyze G casefold numbered allowed e ≡ found outputs
    is_masked : mask_rows ops masker columns answer_rows (masking_plan outputs) ≡ masked rows cut

  answered-Masked :
      (allowed : EffectiveSchema) (connection : DatabaseConnection) (e : E)
      (sent query : RewrittenQuery) (columns : List String) (rows : List Row) (truncated : Bool)
      → answered G casefold upper starts_with numbered marked python_str show_uuid parse_uuid
          redacted tables_of limit_of ops masker settings can_connect adapter accepts allowed e sent
          (adapter connection sent)
        ≡ finished query columns rows truncated
      → Masked allowed connection e sent columns rows
  answered-Masked allowed connection e sent query columns rows truncated h =
      go (adapter connection sent) refl h
    where
      by_mask :
          (cs : List String) (rs : List Row) (b : Bool) (outputs : List OutputColumnLineage)
          → adapter connection sent ≡ returned cs rs b
          → analyze G casefold numbered allowed e ≡ found outputs
          → (m : MaskResult) → mask_rows ops masker cs rs (masking_plan outputs) ≡ m
          → masked_outcome G casefold upper starts_with numbered marked python_str show_uuid
              parse_uuid redacted tables_of limit_of ops masker settings can_connect adapter accepts
              sent cs b m
            ≡ finished query columns rows truncated
          → Masked allowed connection e sent columns rows
      by_mask cs rs b outputs a l unsafe_metadata k h = absurd (cc)
      by_mask cs rs b outputs a l columns_mismatch k h = absurd (cc)
      by_mask cs rs b outputs a l (masked out cut) k h =
          let (same_columns, same_rows) = finished_injective h in
          rw (sym same_columns, sym same_rows)
            (record {
              answer_rows = rs;
              answer_truncated = b;
              cut = cut;
              is_answer = a;
              outputs = outputs;
              is_lineage = l;
              is_masked = k;
            })

      by_lineage :
          (cs : List String) (rs : List Row) (b : Bool)
          → adapter connection sent ≡ returned cs rs b
          → (l : Analysis (List OutputColumnLineage)) → analyze G casefold numbered allowed e ≡ l
          → with_plan G casefold upper starts_with numbered marked python_str show_uuid parse_uuid
              redacted tables_of limit_of ops masker settings can_connect adapter accepts sent cs rs
              b l
            ≡ finished query columns rows truncated
          → Masked allowed connection e sent columns rows
      by_lineage cs rs b a (found outputs) l h =
          by_mask cs rs b outputs a l (mask_rows ops masker cs rs (masking_plan outputs)) refl h
      by_lineage cs rs b a (Analysis.failed x) l h = absurd (cc)

      go :
          (a : AdapterAnswer)
          → adapter connection sent ≡ a
          → answered G casefold upper starts_with numbered marked python_str show_uuid parse_uuid
              redacted tables_of limit_of ops masker settings can_connect adapter accepts allowed e
              sent a
            ≡ finished query columns rows truncated
          → Masked allowed connection e sent columns rows
      go (returned cs rs b) a h =
          by_lineage cs rs b a (analyze G casefold numbered allowed e) refl h
      go timed_out a h = absurd (cc)
      go cancelled a h = absurd (cc)
      go raised a h = absurd (cc)

  run-Masked :
      (allowed : EffectiveSchema) (tenant_id user_id : Uuid) (connection : DatabaseConnection)
      (e : E) (query : RewrittenQuery) (columns : List String) (rows : List Row) (truncated : Bool)
      → (run G casefold upper starts_with numbered marked python_str show_uuid parse_uuid redacted
          tables_of limit_of ops masker settings can_connect adapter accepts allowed
          (record { user_id = user_id; tenant_id = tenant_id })
          connection
          e).1
        ≡ finished query columns rows truncated
      → (sent : RewrittenQuery) × (rewritten tenant_id user_id allowed e ≡ ok sent)
        × ((run G casefold upper starts_with numbered marked python_str show_uuid parse_uuid
              redacted tables_of limit_of ops masker settings can_connect adapter accepts allowed
              (record { user_id = user_id; tenant_id = tenant_id })
              connection
              e).0
            ≡ some (connection, sent))
        × Masked allowed connection e sent columns rows
  unfolding run
  run-Masked allowed tenant_id user_id connection e query columns rows truncated h =
      elim (Bool-cases (can_connect connection)) [
        | inr off ↦ absurd (cc (rw off at h))
        | inl on ↦
            let (sent, same, masks) = go (rewritten tenant_id user_id allowed e) (rw on at h) in
            (sent, same, rw (on, same) refl, masks)
      ]
    where
      go :
          (m : Result RewrittenQuery)
          → (sent_query G casefold upper starts_with numbered marked python_str show_uuid parse_uuid
              redacted tables_of limit_of ops masker settings can_connect adapter accepts allowed
              connection e m).1
            ≡ finished query columns rows truncated
          → (sent : RewrittenQuery) × (m ≡ ok sent) × Masked allowed connection e sent columns rows
      go (ok q) k = (q, refl, answered-Masked allowed connection e q query columns rows truncated k)
      go (err x) k = absurd (cc)

  -- A call sends nothing to the customer's database, or one query, the rewriting of a statement that
  -- was accepted over the schema resolved for the user, on a connection of the tenant that is active
  -- and connected.
  pub execute-Sends :
      (id tenant_id user_id : Uuid) (role_ids : List Uuid) (connection_id : Uuid) (sql : String)
      (db : QueryStore)
      → ((execute G casefold upper starts_with numbered marked python_str show_uuid parse_uuid
            redacted tables_of limit_of ops masker settings can_connect adapter accepts id tenant_id
            user_id role_ids connection_id sql db).1.sent
          ≡ db.sent)
        ⊎ ((connection : DatabaseConnection) × (statement : E) × (query : RewrittenQuery)
            × ((execute G casefold upper starts_with numbered marked python_str show_uuid parse_uuid
                  redacted tables_of limit_of ops masker settings can_connect adapter accepts id
                  tenant_id user_id role_ids connection_id sql db).1.sent
                ≡ db.sent ++ ((connection, query) ∷ []))
            × Sends tenant_id user_id role_ids connection_id sql db connection statement query)
  execute-Sends id tenant_id user_id role_ids connection_id sql db =
      execute-cases G casefold upper starts_with numbered marked python_str show_uuid parse_uuid
        redacted tables_of limit_of ops masker settings can_connect adapter accepts
        (λ r.
          (r.1.sent ≡ db.sent)
          ⊎ ((connection : DatabaseConnection) × (statement : E) × (query : RewrittenQuery)
              × (r.1.sent ≡ db.sent ++ ((connection, query) ∷ []))
              × Sends tenant_id user_id role_ids connection_id sql db connection statement query))
        id tenant_id user_id role_ids connection_id sql db (λ x. inl refl)
        (λ connection e. inl refl)
        (λ connection e reached.
          let allowed = allowed_for tenant_id user_id role_ids connection db in
          let outcome =
            run G casefold upper starts_with numbered marked python_str show_uuid parse_uuid
              redacted tables_of limit_of ops masker settings can_connect adapter accepts allowed
              (record { user_id = user_id; tenant_id = tenant_id }) connection e in
          let after =
            with_row G casefold upper starts_with numbered marked python_str show_uuid parse_uuid
              redacted tables_of limit_of ops masker settings can_connect adapter accepts id
              tenant_id user_id role_ids sql connection db in
          elim (Option-cases outcome.0) [
            | inl nothing ↦ inl (
                conclude_sent id outcome.1 (
                  logged G casefold upper starts_with numbered marked python_str show_uuid
                    parse_uuid redacted tables_of limit_of ops masker settings can_connect adapter
                    accepts outcome.0 after)
                ∙ rw nothing refl)
            | inr ((on, query), sent) ↦
                let (rewriting, same) =
                  run-rewritten allowed tenant_id user_id connection e on query sent in
                inr (
                  connection,
                  e,
                  query,
                  conclude_sent id outcome.1 (
                        logged G casefold upper starts_with numbered marked python_str show_uuid
                          parse_uuid redacted tables_of limit_of ops masker settings can_connect
                          adapter accepts outcome.0 after)
                      ∙ rw (sent, same) refl,
                  Reached-Sends tenant_id user_id role_ids connection_id sql db connection e query
                      reached rewriting,
                )
          ])

  abbrev ReturnsOr :
      Uuid
      → Uuid
      → List Uuid
      → Uuid
      → String
      → QueryStore
      → QueryStore
      → Result SafeQueryResult
      → Type 0
  ReturnsOr tenant_id user_id role_ids connection_id sql db after (ok r) =
      Returns tenant_id user_id role_ids connection_id sql db after r
  ReturnsOr tenant_id user_id role_ids connection_id sql db after (err x) = Unit

  attempted-Returns :
      (id tenant_id user_id : Uuid) (role_ids : List Uuid) (connection_id : Uuid) (sql : String)
      (db : QueryStore) (connection : DatabaseConnection) (e : E) (m : Result SafeQueryResult)
      → Reached G casefold upper starts_with numbered marked python_str show_uuid parse_uuid
          redacted tables_of limit_of ops masker settings can_connect adapter accepts tenant_id
          user_id role_ids connection_id sql connection e db
      → (attempted G casefold upper starts_with numbered marked python_str show_uuid parse_uuid
          redacted tables_of limit_of ops masker settings can_connect adapter accepts id tenant_id
          user_id role_ids sql connection e db).0
        ≡ m
      → ReturnsOr tenant_id user_id role_ids connection_id sql db
          (attempted G casefold upper starts_with numbered marked python_str show_uuid parse_uuid
            redacted tables_of limit_of ops masker settings can_connect adapter accepts id tenant_id
            user_id role_ids sql connection e db).1
          m
  attempted-Returns id tenant_id user_id role_ids connection_id sql db connection e (err x) reached
        h =
      tt
  attempted-Returns id tenant_id user_id role_ids connection_id sql db connection e (ok r) reached
        h =
      let allowed = allowed_for tenant_id user_id role_ids connection db in
      let outcome =
        run G casefold upper starts_with numbered marked python_str show_uuid parse_uuid redacted
          tables_of limit_of ops masker settings can_connect adapter accepts allowed
          (record { user_id = user_id; tenant_id = tenant_id }) connection e in
      let after =
        with_row G casefold upper starts_with numbered marked python_str show_uuid parse_uuid
          redacted tables_of limit_of ops masker settings can_connect adapter accepts id tenant_id
          user_id role_ids sql connection db in
      let done =
        conclude-Finished id outcome.1
          (logged G casefold upper starts_with numbered marked python_str show_uuid parse_uuid
            redacted tables_of limit_of ops masker settings can_connect adapter accepts outcome.0
            after)
          r h in
      let (sent, is_rewriting, is_sent, m) =
        run-Masked allowed tenant_id user_id connection e done.query r.columns r.rows done.truncated
          done.is_finished in
      record {
        connection = connection;
        query = sent;
        statement = e;
        sends =
            Reached-Sends tenant_id user_id role_ids connection_id sql db connection e sent reached
              is_rewriting;
        is_sent =
            conclude_sent id outcome.1 (
              logged G casefold upper starts_with numbered marked python_str show_uuid parse_uuid
                redacted tables_of limit_of ops masker settings can_connect adapter accepts
                outcome.0 after)
            ∙ rw is_sent refl;
        answer_rows = m.answer_rows;
        answer_truncated = m.answer_truncated;
        cut = m.cut;
        is_answer = m.is_answer;
        outputs = m.outputs;
        is_lineage = m.is_lineage;
        is_masked = m.is_masked;
        hides = λ others agree.
            sym (
              mask_rows-agree ops masker r.columns (masking_plan m.outputs) m.answer_rows others
                agree)
            ∙ m.is_masked;
      }

  -- A call that returns a result has sent one such query, and the rows of the result are those that
  -- the customer's database answered to it on that connection, under the masks of the outputs of the
  -- statement's lineage. They do not depend on the values of an output whose mask redacts or
  -- replaces by null: with other values there, the masked rows would be the same.
  pub execute-Returns :
      (id tenant_id user_id : Uuid) (role_ids : List Uuid) (connection_id : Uuid) (sql : String)
      (db : QueryStore) (r : SafeQueryResult)
      → (execute G casefold upper starts_with numbered marked python_str show_uuid parse_uuid
          redacted tables_of limit_of ops masker settings can_connect adapter accepts id tenant_id
          user_id role_ids connection_id sql db).0
        ≡ ok r
      → Returns tenant_id user_id role_ids connection_id sql db
          (execute G casefold upper starts_with numbered marked python_str show_uuid parse_uuid
            redacted tables_of limit_of ops masker settings can_connect adapter accepts id tenant_id
            user_id role_ids connection_id sql db).1
          r
  execute-Returns id tenant_id user_id role_ids connection_id sql db r h =
      subst
        (ReturnsOr tenant_id user_id role_ids connection_id sql db
          (execute G casefold upper starts_with numbered marked python_str show_uuid parse_uuid
            redacted tables_of limit_of ops masker settings can_connect adapter accepts id tenant_id
            user_id role_ids connection_id sql db).1)
        h
        (execute-cases G casefold upper starts_with numbered marked python_str show_uuid parse_uuid
          redacted tables_of limit_of ops masker settings can_connect adapter accepts
          (λ x. ReturnsOr tenant_id user_id role_ids connection_id sql db x.1 x.0) id tenant_id
          user_id role_ids connection_id sql db (λ x. tt) (λ connection e. tt)
          (λ connection e reached.
            attempted-Returns id tenant_id user_id role_ids connection_id sql db connection e _
              reached refl))
