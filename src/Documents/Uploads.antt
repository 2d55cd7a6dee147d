-- ===== src/Documents/Uploads.antt =====
-- services/documents/file_service.py: what an upload that fails leaves behind.
use mathlib.Core.Path.{subst}
use tenant_intelligence_plat.Base.{
  ◌≡◌, refl, sym, ap, String, Bool, true, false, List, [], ◌∷◌, str_eq, eq_iff, any, delete_where,
  arith,
}
use tenant_intelligence_plat.Errors.{Error, conflict}
use tenant_intelligence_plat.Exec.{Result, ok, err, Exec, continue, raise_if, ◌>>◌}
use tenant_intelligence_plat.Identity.Models.{Uuid}
use tenant_intelligence_plat.Auth.Context.{TenantContext}
use tenant_intelligence_plat.Documents.Models.{KnowledgeBase, StoredFile, Library, documents_hold}
use tenant_intelligence_plat.Documents.Policy.{find_duplicate, require}
use tenant_intelligence_plat.Documents.Access.{require-Granted}
use tenant_intelligence_plat.Documents.Files.{
  Platform, ValidatedUpload, new_file, is_found, insert_file, put_object, commit_upload,
  store_object, upload, PutAnswer, put_done, put_failed, put_late,
}

delete_absent :
    (key : String) (keys : List String)
    → any (λ k. str_eq k key) keys ≡ false
    → delete_where (λ k. str_eq k key) keys ≡ keys
delete_absent key [] h = refl
delete_absent key (k ∷ keys) h = ground (arith, delete_absent key keys)

str_eq_refl : (s : String) → str_eq s s ≡ true
str_eq_refl s = ground (arith, eq_iff s s)

abbrev pub is_late : PutAnswer → Bool
is_late put_late = true
is_late put_done = false
is_late put_failed = false

module _ (context : TenantContext) (knowledge_base_id file_id : Uuid)
    (key_of : Uuid → Uuid → String) (validated : ValidatedUpload) (put : PutAnswer) where
  key : String
  key = key_of context.tenant.id file_id

  row : StoredFile
  row = new_file context knowledge_base_id file_id key validated

  -- the end of `upload`, once the object is stored
  finish : Exec Platform StoredFile
  finish w = commit_upload (documents_hold (insert_file row w.library)) true true true row w

  after_require : KnowledgeBase → Exec Platform StoredFile
  after_require kb w =
      (raise_if
            (is_found
              (find_duplicate context.tenant.id knowledge_base_id validated.checksum w.library))
            conflict
          >> (store_object put key >> finish))
        w

  finish-undone :
      (w : Platform) (e : Error)
      → any (λ k. str_eq k key) w.objects ≡ false
      → (finish (put_object key w)).0 ≡ err e
      → (finish (put_object key w)).1 ≡ w
  unfolding finish row
  finish-undone w e absent h = go (documents_hold (insert_file row w.library)) h
    where
      go :
          (b : Bool)
          → (commit_upload b true true true row (put_object key w)).0 ≡ err e
          → (commit_upload b true true true row (put_object key w)).1 ≡ w
      go true q = absurd (cc)
      go false q = rw (str_eq_refl key) (
          ap (λ (keys : List String). record w { objects = keys })
            (delete_absent key w.objects absent))

  after_require-undone :
      (kb : KnowledgeBase) (w : Platform) (e : Error)
      → is_late put ≡ false
      → any (λ k. str_eq k key) w.objects ≡ false
      → (after_require kb w).0 ≡ err e
      → (after_require kb w).1 ≡ w
  unfolding after_require finish row
  after_require-undone kb w e prompt absent h =
      go
        (is_found (find_duplicate context.tenant.id knowledge_base_id validated.checksum w.library))
        put prompt h
    where
      go :
          (duplicate : Bool) (stored : PutAnswer)
          → is_late stored ≡ false
          → ((raise_if duplicate conflict >> (store_object stored key >> finish)) w).0 ≡ err e
          → ((raise_if duplicate conflict >> (store_object stored key >> finish)) w).1 ≡ w
      go true stored k q = refl
      go false put_failed k q = refl
      go false put_late k q = absurd (cc)
      go false put_done k q = finish-undone w e absent q

  -- An upload that raises leaves the database, the object store and the queue as they were, if the
  -- new object key was not in the bucket, a call of the object store that raises has stored nothing,
  -- and the removal of the object, the broker and the refresh of the row answer.
  pub upload-undone :
      (w : Platform) (e : Error)
      → is_late put ≡ false
      → any (λ k. str_eq k (key_of context.tenant.id file_id)) w.objects ≡ false
      → (upload context knowledge_base_id file_id key_of validated put true true true w).0 ≡ err e
      → (upload context knowledge_base_id file_id key_of validated put true true true w).1 ≡ w
  unfolding upload after_require finish row key
  upload-undone w e prompt absent h =
      go (require context knowledge_base_id true true w.library).0
        (require context knowledge_base_id true true w.library).1
        (require-Granted context knowledge_base_id true true w.library).1 h
    where
      go :
          (r : Result KnowledgeBase) (db : Library)
          → db ≡ w.library
          → (continue r after_require (record w { library = db })).0 ≡ err e
          → (continue r after_require (record w { library = db })).1 ≡ w
      go (err x) db same q = ap (λ (db : Library). record w { library = db }) same
      go (ok kb) db same q =
          subst
            (λ (db : Library).
              (after_require kb (record w { library = db })).0 ≡ err e
              → (after_require kb (record w { library = db })).1 ≡ w)
            (sym same) (after_require-undone kb w e prompt absent) q
