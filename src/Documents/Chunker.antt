-- ===== src/Documents/Chunker.antt =====
-- services/documents/chunker.py: the windows of tokens that a document is cut into. The regular
-- expression, `str.join`, `str.strip` and SHA-256 are parameters.
pub mod Bounds
pub mod Coverage
use tenant_intelligence_plat.Base.{
  ℕ, zero, suc, ◌+◌, ◌-◌, min, String, Bool, true, false, not, Option, none, some, List, [], ◌∷◌,
  ◌++◌, str_eq, if◌then◌else◌, ltb, leb, length, take, drop, is_empty,
}
use tenant_intelligence_plat.Permissions.Dsl.{Json}

-- the codes of `FileValidationError`
pub data FileError : Type 0 where
  content_limit_exceeded parsing_failed storage_integrity_failed mime_mismatch embedding_failed :
      FileError
  -- the codes of the parsers and of the container inspection
  other_file_error : String → FileError

pub data Outcome (A : Type 0) : Type 0 where
  done : A → Outcome A
  refused : FileError → Outcome A

-- services/documents/parsers/base.py
pub record ParsedElement : Type 0 where
  pub text : String
  pub page_number : Option ℕ
  pub section_title : Option String
  pub sheet_name : Option String
  pub row_start : Option ℕ
  pub row_end : Option ℕ
  pub metadata : Json

pub record ParsedDocument : Type 0 where
  pub elements : List ParsedElement
  pub page_count : Option ℕ

pub record ChunkDraft : Type 0 where
  pub index : ℕ
  pub content : String
  pub content_hash : String
  pub token_count : ℕ
  pub page_number : Option ℕ
  pub section_title : Option String
  pub sheet_name : Option String
  pub row_start : Option ℕ
  pub row_end : Option ℕ
  pub metadata : Json

-- the settings that the chunker reads
pub record ChunkSettings : Type 0 where
  pub document_chunk_target_tokens : ℕ
  pub document_chunk_overlap_tokens : ℕ
  pub document_max_chunks_per_file : ℕ

pub record ChunkText : Type 0 where
  -- `TOKEN.findall`
  pub findall : String → List String
  -- `" ".join`
  pub join_spaced : List String → String
  pub strip : String → String
  -- `hashlib.sha256(content.encode()).hexdigest()`
  pub sha256 : String → String

abbrev pub after :
    Option (Outcome (List ChunkDraft))
    → (List ChunkDraft → Option (Outcome (List ChunkDraft)))
    → Option (Outcome (List ChunkDraft))
after none k = none
after (some (refused e)) k = some (refused e)
after (some (done result)) k = k result

abbrev pub require_drafts : List ChunkDraft → Option (Outcome (List ChunkDraft))
require_drafts [] = some (refused parsing_failed)
require_drafts (d ∷ ds) = some (done (d ∷ ds))

module _ (text : ChunkText) (settings : ChunkSettings) where
  abbrev pub target : ℕ
  target = settings.document_chunk_target_tokens

  abbrev pub overlap : ℕ
  overlap = min settings.document_chunk_overlap_tokens (target - 1)

  abbrev pub window_at : ℕ → List String → List String
  window_at start tokens = take target (drop start tokens)

  abbrev pub content_of : List String → String
  content_of window = text.strip (text.join_spaced window)

  abbrev pub draft_of : ℕ → ParsedElement → List String → ChunkDraft
  draft_of index element window = record {
    index = index;
    content = content_of window;
    content_hash = text.sha256 (content_of window);
    token_count = length window;
    page_number = element.page_number;
    section_title = element.section_title;
    sheet_name = element.sheet_name;
    row_start = element.row_start;
    row_end = element.row_end;
    metadata = element.metadata;
  }

  -- `if content: result.append(...)`
  abbrev pub grown : ParsedElement → List String → List ChunkDraft → List ChunkDraft
  grown element window result =
      if str_eq (content_of window) ""
      then result
      else result ++ draft_of (length result) element window ∷ []

  -- the inner loop; `none` is the exhaustion of the fuel
  unfoldable pub chunk_tokens :
      ℕ → ParsedElement → List String → ℕ → List ChunkDraft → Option (Outcome (List ChunkDraft))
  chunk_tokens zero element tokens start result = none
  chunk_tokens (suc fuel) element tokens start result =
      let next = grown element (window_at start tokens) result in
      let rest = chunk_tokens fuel element tokens (start + (target - overlap)) next in
      if ltb start (length tokens)
      then (if ltb settings.document_max_chunks_per_file (length next)
          then some (refused content_limit_exceeded)
          else if leb (length tokens) (start + target)
          then some (done next)
          else rest)
      else some (done result)

  abbrev pub chunk_element : ParsedElement → List ChunkDraft → Option (Outcome (List ChunkDraft))
  chunk_element element result =
      let tokens = text.findall element.text in
      chunk_tokens (suc (length tokens)) element tokens 0 result

  unfoldable pub chunk_elements :
      List ParsedElement → List ChunkDraft → Option (Outcome (List ChunkDraft))
  unfolding chunk_tokens
  chunk_elements [] result = some (done result)
  chunk_elements (e ∷ es) result = after (chunk_element e result) (chunk_elements es)

  unfoldable pub chunk_document : ParsedDocument → Option (Outcome (List ChunkDraft))
  unfolding chunk_elements
  chunk_document document = after (chunk_elements document.elements []) require_drafts
