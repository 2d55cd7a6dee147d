-- ===== src/Lib.antt =====
-- Verification of the tenant intelligence platform: the authority of users, tokens and permissions,
-- the safety of queries on customers' databases, the masking of results, and the ingestion of
-- documents.
--
-- The program is a FastAPI backend. A request carries an access token, from which
-- core/tenant_context.py finds the user, the tenant and the roles. Administrators change users and
-- roles (services/tenant_admin_service.py) and permissions (services/permission_service.py). A
-- question about a database is answered within the schema that
-- services/database/permission_resolver.py resolves for the user: services/database/query_executor.py
-- lets services/database/query_validator.py check the statement, services/database/query_rewriter.py
-- put the user's row filters around its tables, and services/database/result_masking.py mask the
-- rows, by the plan that services/database/column_lineage.py finds. Documents are uploaded
-- (services/documents/file_service.py) and ingested by an actor (workers/document_tasks.py), which
-- cuts them into chunks (services/documents/chunker.py); services/documents/retrieval.py finds the
-- chunks that answer a question. The chat graph (agents/graph.py) chooses between these ways to an
-- answer by the sources that the user selected.
--
-- Files and code:
--   Base          shared helpers: tests, lists, tables as lists of rows, membership, unique keys
--   Errors        app/exceptions.py
--   Exec          a service call: the committed store beside a result or an error
--   Identity      models/{tenant,user,role,refresh_token}.py, repositories/identity.py
--   TenantAdmin   services/tenant_admin_service.py; Requests are the calls of its routes
--   Auth          core/security.py, services/auth_service.py, core/tenant_context.py
--   Permissions   models/permission.py, schemas/permissions.py, repositories/permissions.py,
--                 services/permission_service.py, services/database/row_filter.py (RowFilter is
--                 the validation, Compiler the compilation),
--                 services/database/permission_resolver.py, services/database/allowed_schema.py
--   Queries       services/database/{column_lineage,query_validator,query_rewriter,
--                 query_executor}.py; SqlGlot is what they read of SQLGlot
--   Documents     models/document.py, services/documents/{chunker,access_policy,file_service}.py,
--                 services/documents/knowledge_base_service.py (deletion),
--                 workers/document_tasks.py (Attempt is the work between its transactions, Worker
--                 the transactions, Worker/Attempts the actor),
--                 services/documents/retrieval.py and the candidate queries of
--                 repositories/documents.py, as PostgreSQL answers them
--   Agents        agents/graph.py (classification and edges, the repair loop, the answer from
--                 documents)
--   Results       services/database/result_masking.py
--   Examples      concrete stores, statements and documents
--
-- A table of the database is a list of rows; a commit that a constraint refuses leaves the store as
-- it was. An asynchronous method is a function from the store to a result and the store after it.
-- Clock readings and fresh identifiers are arguments, and identifiers are numbers, since the code
-- only compares them. PyJWT, the password hasher, SHA-256, `UUID`, the text methods of Python, the
-- object store, the broker, the parsers and the embedder are parameters; the laws of the token
-- library that proofs use are the record `IsCrypto`. The chunker's loop runs on one more unit of
-- fuel than the element has tokens, since each turn moves at least one token on; the repair loop of
-- the chat graph ends on two units.
--
-- SQLGlot, a third-party library, is a parameter: a type of expressions with the attributes that the
-- code reads, its parser and its scope builder; scopes are finite trees. The rewriter's
-- transformation is read by the tables that it visits. A base column flows by its name: what flows
-- through an alias that renames columns, or a subquery inside a projection, is outside the flow that
-- the lineage is compared with. What a customer's database compares is a parameter too, in the
-- three-valued logic of SQL. Relevance scores, which are floating-point numbers, are a parameter with
-- their arithmetic. A call of a service is one step; a cancellation can end the adapter's call, and a
-- call of the object store can raise and still store the object.
--
-- Not modelled: connections and their drivers, language models, the other nodes of the chat graph,
-- conversations, the search branch of other databases than PostgreSQL, embeddings, knowledge-base
-- creation and update, upload inspection and the parsers, the rendering of statements as text,
-- logging, configuration, migrations, scripts and the frontend.
pub mod Base
pub mod Errors
pub mod Exec
pub mod Identity
pub mod TenantAdmin
pub mod Auth
pub mod Permissions
pub mod Documents
pub mod Agents
pub mod Queries
pub mod Results
pub mod Examples
