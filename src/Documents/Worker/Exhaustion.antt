-- ===== src/Documents/Worker/Exhaustion.antt =====
-- workers/document_tasks.py: the last attempt leaves no file under way.
use tenant_intelligence_plat.Base.{
  ℕ, ◌≤◌, ◌≡◌, refl, ◌∙◌, String, Bool, true, false, ◌&&◌, Option, none, some, List, [], ◌∷◌, leb,
  ◌==◌, ==_refl, any-Has, scalar, scalar-holds, scalar-Has, update_where, arith,
}
use tenant_intelligence_plat.Identity.Models.{Uuid}
use tenant_intelligence_plat.Documents.Chunker.{ChunkText}
use tenant_intelligence_plat.Documents.Models.{is_settled, StoredFile, Library, documents_hold}
use tenant_intelligence_plat.Documents.Attempt.{
  Raised, validation, retryable, Prepared, prepared, raised, WorkerSettings, Attempt, Ingestion,
  error_text, prepare,
}
use tenant_intelligence_plat.Documents.Worker.{
  find_file, is_current, mark_processing, start, begin, mark_ready, publication, exists_file,
  settle_publication, publish, failed_row, retry_row, mark_if_current, mark_failed,
  mark_retry_pending,
}
use tenant_intelligence_plat.Documents.Worker.Attempts.{
  handle, published, ingested, retried, process, process_document,
}

-- The row that a query finds is found again after an update of it that keeps what the query tests.
pub scalar-update_where {ℓ} :
    {A : Type ℓ} (p q : A → Bool) (f : A → A) (a : A) (xs : List A)
    → ((x : A) → p (f x) ≡ p x)
    → scalar p xs ≡ some a
    → q a ≡ true
    → scalar p (update_where q f xs) ≡ some (f a)
scalar-update_where p q f a [] keeps h e = absurd (ground arith)
scalar-update_where p q f a (x ∷ xs) keeps h e =
    ground (arith, keeps x, keeps a, scalar-update_where p q f a xs keeps)

module _ (tenant_id file_id : Uuid) (version : ℕ) where
  is_row : StoredFile → Bool
  is_row f = f.tenant_id == tenant_id && f.id == file_id

  -- A file of the version that is not deleted, and whose status the test takes.
  pub record Found (test : StoredFile → Bool) (db : Library) : Type 0 where
    pub row : StoredFile
    pub found : find_file tenant_id file_id db ≡ some row
    pub current : is_current version row ≡ true
    pub tested : test row ≡ true

  Found-mark_if_current :
      (test after_test : StoredFile → Bool) (f : StoredFile → StoredFile) (db : Library)
      → ((x : StoredFile) → is_row (f x) ≡ is_row x)
      → ((x : StoredFile) → is_current version (f x) ≡ is_current version x)
      → ((x : StoredFile) → after_test (f x) ≡ true)
      → Found test db
      → Found after_test (mark_if_current tenant_id file_id version f db)
  unfolding is_row
  Found-mark_if_current test after_test f db keeps_row keeps_current passes here = record {
    row = f here.row;
    found =
        scalar-update_where is_row (λ x. is_row x && is_current version x) f here.row db.files
          keeps_row here.found
          (ground (arith, scalar-holds is_row db.files here.row here.found, here.current));
    current = keeps_current here.row ∙ here.current;
    tested = passes here.row;
  }

  any_row : StoredFile → Bool
  any_row f = true

  settled : StoredFile → Bool
  settled f = is_settled f.processing_status

  -- An attempt that does not raise leaves the file settled.
  Reached : Option String × Library → Type 0
  Reached (none, db) = Found settled db
  Reached (some code, db) = Found any_row db

  fallback-settled : (code : String) (x : StoredFile) → settled (failed_row code x) ≡ true
  unfolding settled
  fallback-settled code x = ground arith

  mark_failed-settled :
      (code : String) (db : Library)
      → Found any_row db
      → Found settled (mark_failed tenant_id file_id version code db)
  unfolding mark_failed is_row
  mark_failed-settled code db here =
      Found-mark_if_current any_row settled (failed_row code) db (λ x. refl) (λ x. refl)
        (fallback-settled code) here

  handle-Reached :
      (r : Raised) (db : Library)
      → Found any_row db
      → Reached (handle tenant_id file_id version r db)
  unfolding Reached mark_retry_pending is_row any_row
  handle-Reached (validation e) db here = mark_failed-settled (error_text e) db here
  handle-Reached (retryable code) db here =
      Found-mark_if_current any_row any_row retry_row db (λ x. refl) (λ x. refl) (λ x. refl) here

  settle-Reached :
      (accepted : Bool) (changed db : Library)
      → Found settled changed
      → Found any_row db
      → Reached (published tenant_id file_id version (settle_publication accepted changed db) db)
  unfolding Reached
  settle-Reached true changed db good here = good
  settle-Reached false changed db good here =
      handle-Reached (retryable "DOCUMENT_PROCESSING_FAILED") db here

  ingested-Reached :
      (held : StoredFile) (now : ℕ) (work : Prepared Ingestion) (db : Library) (row : StoredFile)
      → find_file tenant_id file_id db ≡ some row
      → is_current version row ≡ true
      → is_row held ≡ true
      → is_current version held ≡ true
      → Reached (ingested tenant_id file_id version held now work db)
  unfolding Reached publish is_row any_row settled
  ingested-Reached held now (raised r) db row found current of current_held =
      handle-Reached r db (record { row = row; found = found; current = current; tested = refl })
  ingested-Reached held now (prepared work) db row found current of current_held = rw (open_gate) (
      settle-Reached (documents_hold changed) changed db
        (record {
          row = mark_ready held version work now row;
          found =
              scalar-update_where is_row (λ x. x.id == held.id) (mark_ready held version work now)
                row db.files (λ x. refl) found
                (ground (arith, scalar-holds is_row db.files row found, of));
          current = current;
          tested = refl;
        })
        (record { row = row; found = found; current = current; tested = refl }))
    where
      changed : Library
      changed = publication held version work now db

      open_gate : (exists_file held db && is_current version held) ≡ true
      open_gate = ground (
        arith,
        current_held,
        any-Has (λ (f : StoredFile). f.tenant_id == held.tenant_id && f.id == held.id) row db.files
            (scalar-Has is_row row db.files found)
            (ground (arith, scalar-holds is_row db.files row found, of)),
      )

  process-Reached :
      (text : ChunkText) (settings : WorkerSettings) (attempt : Attempt) (now : ℕ) (db : Library)
      (row : StoredFile)
      → find_file tenant_id file_id db ≡ some row
      → is_current version row ≡ true
      → Reached (process text settings tenant_id file_id version attempt now db)
  unfolding process begin is_row
  process-Reached text settings attempt now db row found current =
      rw (found, current)
        (ingested-Reached held now (prepare text settings attempt held) (start now db row).0 held
          (scalar-update_where is_row (λ x. x.id == row.id) (mark_processing now row) row db.files
            (λ x. refl) found (==_refl row.id))
          current (scalar-holds is_row db.files row found) current)
    where
      held : StoredFile
      held = mark_processing now row row

  retried-settled :
      (retries : ℕ) (r : Option String × Library)
      → 2 ≤ retries
      → Reached r
      → ((retried tenant_id file_id version retries r).0 ≡ false)
        × Found settled (retried tenant_id file_id version retries r).1
  unfolding Reached
  retried-settled retries (none, db) last here = (refl, here)
  retried-settled retries (some code, db) last here =
      rw (the_last) (refl, mark_failed-settled code db here)
    where
      the_last : leb 2 retries ≡ true
      the_last = ground (arith, last)

  -- The attempt after two retries raises nothing, whatever the object store, the parser and the
  -- embedder answer or raise, and leaves a file of the version that is not deleted either ready or
  -- failed, where no other commit comes between.
  pub process_document-settled :
      (text : ChunkText) (settings : WorkerSettings) (attempt : Attempt) (now retries : ℕ)
      (db : Library) (row : StoredFile)
      → find_file tenant_id file_id db ≡ some row
      → is_current version row ≡ true
      → 2 ≤ retries
      → ((process_document text settings tenant_id file_id version attempt now retries db).0
          ≡ false)
        × ((f : StoredFile) × (find_file tenant_id file_id
                (process_document text settings tenant_id file_id version attempt now retries db).1
              ≡ some f)
            × (is_settled f.processing_status ≡ true))
  unfolding process_document settled
  process_document-settled text settings attempt now retries db row found current last =
      let (quiet, here) =
        retried-settled retries (process text settings tenant_id file_id version attempt now db)
          last (process-Reached text settings attempt now db row found current) in
      (quiet, (here.row, here.found, here.tested))
