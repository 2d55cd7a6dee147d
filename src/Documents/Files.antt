-- ===== src/Documents/Files.antt =====
-- services/documents/file_service.py: the lifecycle of a file over the database, the object store
-- and the queue. `remove_ok`, `send_ok` and `refresh_ok` say whether the object store, the broker and
-- `session.refresh` answer or raise; `validated` is what `stream_and_validate` returns. A call is one
-- step here, so that the row which it holds is the stored one.
use tenant_intelligence_plat.Base.{
  ℕ, suc, String, Bool, true, false, Option, none, some, List, [], ◌∷◌, ◌++◌, ◌==◌, str_eq,
  if◌then◌else◌, update_where, delete_where,
}
use tenant_intelligence_plat.Errors.{resource_not_found, conflict, integrity, unexpected}
use tenant_intelligence_plat.Exec.{ok, err, Exec, pure, gets, or_raise, raise_if, ◌>>=◌, ◌>>◌}
use tenant_intelligence_plat.Identity.Models.{Uuid}
use tenant_intelligence_plat.Auth.Context.{TenantContext}
use tenant_intelligence_plat.Documents.Models.{
  pending, deleting, deleted, is_deleted, is_under_way, StoredFile, Library, documents_hold,
}
use tenant_intelligence_plat.Documents.Policy.{get_file, find_duplicate, require}

-- a message of `DocumentQueue`
pub record Job : Type 0 where
  pub tenant_id : Uuid
  pub file_id : Uuid
  pub ingestion_version : ℕ

pub record Platform : Type 0 where
  pub library : Library
  -- the keys in the bucket
  pub objects : List String
  pub queue : List Job

pub record ValidatedUpload : Type 0 where
  pub extension : String
  pub detected_mime_type : String
  pub size : ℕ
  pub checksum : String

-- a call that reads the database alone
abbrev pub in_library : {A : Type 0} → Exec Library A → Exec Platform A
in_library m w = ((m w.library).0, record w { library = (m w.library).1 })

abbrev pub new_file : TenantContext → Uuid → Uuid → String → ValidatedUpload → StoredFile
new_file context knowledge_base_id file_id object_key validated = record {
  id = file_id;
  tenant_id = context.tenant.id;
  knowledge_base_id = knowledge_base_id;
  uploaded_by = context.user.id;
  object_key = object_key;
  detected_mime_type = validated.detected_mime_type;
  extension = validated.extension;
  file_size_bytes = validated.size;
  checksum = validated.checksum;
  processing_status = pending;
  processing_error_code = none;
  processing_error_message = none;
  processing_attempts = 0;
  page_count = none;
  extracted_text_length = none;
  chunk_count = 0;
  ingestion_version = 1;
  active_ingestion_version = 0;
  processing_started_at = none;
  processed_at = none;
  deleted_at = none;
}

abbrev pub is_found : {A : Type 0} → Option A → Bool
is_found none = false
is_found (some a) = true

abbrev pub insert_file : StoredFile → Library → Library
insert_file f db = record db { files = db.files ++ f ∷ [] }

abbrev pub put_object : String → Platform → Platform
put_object key w = record w { objects = key ∷ w.objects }

abbrev pub remove_object : String → Platform → Platform
remove_object key w = record w { objects = delete_where (λ k. str_eq k key) w.objects }

abbrev pub job_of : StoredFile → Job
job_of f = record {
  tenant_id = f.tenant_id;
  file_id = f.id;
  ingestion_version = f.ingestion_version;
}

abbrev pub enqueue : Bool → StoredFile → Exec Platform StoredFile
enqueue true f w = (ok f, record w { queue = w.queue ++ job_of f ∷ [] })
enqueue false f w = (err unexpected, w)

-- `session.refresh(row)`
abbrev pub refresh_row : Bool → StoredFile → Exec Platform StoredFile
refresh_row true f w = (ok f, w)
refresh_row false f w = (err unexpected, w)

-- the removal of the object of a file whose commit failed; where that raises, the object stays
abbrev pub undo_object : Bool → StoredFile → Exec Platform StoredFile
undo_object true f w = (err integrity, remove_object f.object_key w)
undo_object false f w = (err unexpected, w)

-- the commit of a new file, and what follows it
abbrev pub commit_upload : Bool → Bool → Bool → Bool → StoredFile → Exec Platform StoredFile
commit_upload true remove_ok send_ok refresh_ok f w =
    (enqueue send_ok f >>= refresh_row refresh_ok) (record w { library = insert_file f w.library })
commit_upload false remove_ok send_ok refresh_ok f w = undo_object remove_ok f w

-- how `put_file` ends: a call that raises on its timeout may have stored the object, or store it later
pub data PutAnswer : Type 0 where
  put_done put_failed put_late : PutAnswer

abbrev pub store_object : PutAnswer → String → Exec Platform Unit
store_object put_done key w = (ok tt, put_object key w)
store_object put_failed key w = (err unexpected, w)
store_object put_late key w = (err unexpected, put_object key w)

unfoldable pub upload :
    TenantContext
    → Uuid
    → Uuid
    → (Uuid → Uuid → String)
    → ValidatedUpload
    → PutAnswer
    → Bool
    → Bool
    → Bool
    → Exec Platform StoredFile
upload context knowledge_base_id file_id key_of validated put remove_ok send_ok refresh_ok = do
  kb ← in_library (require context knowledge_base_id true true)
  duplicate ←
      gets (λ w. find_duplicate context.tenant.id knowledge_base_id validated.checksum w.library)
  raise_if (is_found duplicate) conflict
  let object_key = key_of context.tenant.id file_id
  stored ← store_object put object_key
  let row = new_file context knowledge_base_id file_id object_key validated
  accepted ← gets (λ w. documents_hold (insert_file row w.library))
  commit_upload accepted remove_ok send_ok refresh_ok row

unfoldable pub require_file : TenantContext → Uuid → Bool → Exec Platform StoredFile
require_file context file_id manage = do
  found ← gets (λ w. get_file context.tenant.id file_id false w.library)
  row ← or_raise found resource_not_found
  kb ← in_library (require context row.knowledge_base_id manage false)
  pure row

abbrev pub set_file : Uuid → (StoredFile → StoredFile) → Library → Library
set_file id f db = record db { files = update_where (λ x. x.id == id) f db.files }

abbrev pub mark_deleting : StoredFile → StoredFile
mark_deleting f = record f { processing_status = deleting }

abbrev pub mark_deleted : ℕ → StoredFile → StoredFile
mark_deleted now f = record f { processing_status = deleted; deleted_at = some now }

abbrev pub write_file : Uuid → (StoredFile → StoredFile) → Exec Platform Unit
write_file id f w = (ok tt, record w { library = set_file id f w.library })

abbrev pub drop_object : Bool → String → Exec Platform Unit
drop_object true key w = (ok tt, remove_object key w)
drop_object false key w = (err unexpected, w)

-- `FileService.delete` from the check of the status on
abbrev pub delete_row : Bool → StoredFile → ℕ → Exec Platform Unit
delete_row remove_ok row now =
    if is_deleted row.processing_status
    then pure tt
    else (write_file row.id mark_deleting
        >> (drop_object remove_ok row.object_key >> write_file row.id (mark_deleted now)))

unfoldable pub delete_file : TenantContext → Uuid → Bool → ℕ → Exec Platform Unit
delete_file context file_id remove_ok now = do
  found ← gets (λ w. get_file context.tenant.id file_id true w.library)
  row ← or_raise found resource_not_found
  kb ← in_library (require context row.knowledge_base_id true false)
  delete_row remove_ok row now

abbrev pub next_version : StoredFile → StoredFile
next_version f = record f {
  ingestion_version = suc f.ingestion_version;
  processing_status = pending;
  processing_error_code = none;
  processing_error_message = none;
}

abbrev pub reprocess_row : Bool → Bool → StoredFile → Exec Platform StoredFile
reprocess_row send_ok refresh_ok row =
    if is_under_way row.processing_status
    then pure row
    else (write_file row.id next_version
        >> (enqueue send_ok (next_version row) >>= refresh_row refresh_ok))

unfoldable pub reprocess : TenantContext → Uuid → Bool → Bool → Exec Platform StoredFile
unfolding require_file
reprocess context file_id send_ok refresh_ok = do
  row ← require_file context file_id true
  reprocess_row send_ok refresh_ok row
