-- ===== src/Documents/Chunker/Bounds.antt =====
-- services/documents/chunker.py: the loop ends, and what holds of every list of drafts.
use tenant_intelligence_plat.Base.{
  ℕ, zero, suc, ◌+◌, ◌-◌, ◌≤◌, ◌<◌, ◌≡◌, refl, String, Bool, true, not, ◌&&◌, Option, none, some,
  inl, inr, List, [], ◌∷◌, ◌++◌, str_eq, ltb, leb, ◌==◌, length, length-take, length-drop, drop,
  Bool-cases, arith,
}
use tenant_intelligence_plat.Documents.Chunker.{
  FileError, Outcome, done, refused, ParsedElement, ParsedDocument, ChunkDraft, ChunkSettings,
  ChunkText, target, overlap, window_at, content_of, draft_of, grown, chunk_tokens, chunk_element,
  after, chunk_elements, require_drafts, chunk_document,
}

-- Drafts are numbered one by one, each with some content and between one and `target` tokens.
abbrev pub is_numbered : ℕ → ℕ → List ChunkDraft → Bool
is_numbered limit n [] = true
is_numbered limit n (d ∷ ds) =
    (d.index == n
      && (leb 1 d.token_count && (leb d.token_count limit && not (str_eq d.content ""))))
    && is_numbered limit (suc n) ds

is_numbered-append :
    (limit n : ℕ) (ds : List ChunkDraft) (d : ChunkDraft)
    → is_numbered limit n ds ≡ true
    → is_numbered limit (n + length ds) (d ∷ []) ≡ true
    → is_numbered limit n (ds ++ d ∷ []) ≡ true
is_numbered-append limit n [] d h k = ground (arith, k)
is_numbered-append limit n (x ∷ ds) d h k = ground (arith, is_numbered-append limit (suc n) ds d)

pub done_injective : (a b : List ChunkDraft) → some (done a) ≡ some (done b) → a ≡ b
done_injective a b q = cc

-- A chain of steps that returns ended its first step with a result.
pub after-cases :
    (o : Option (Outcome (List ChunkDraft)))
    (k : List ChunkDraft → Option (Outcome (List ChunkDraft))) (drafts : List ChunkDraft)
    → after o k ≡ some (done drafts)
    → (ds : List ChunkDraft) × (o ≡ some (done ds)) × (k ds ≡ some (done drafts))
after-cases none k drafts h = absurd (ground arith)
after-cases (some (refused e)) k drafts h = absurd (ground arith)
after-cases (some (done ds)) k drafts h = (ds, refl, h)

after-total :
    (o : Option (Outcome (List ChunkDraft)))
    (k : List ChunkDraft → Option (Outcome (List ChunkDraft)))
    → ((r : Outcome (List ChunkDraft)) × (o ≡ some r))
    → ((ds : List ChunkDraft) → (r : Outcome (List ChunkDraft)) × (k ds ≡ some r))
    → (r : Outcome (List ChunkDraft)) × (after o k ≡ some r)
after-total o k (refused e, q) h = (refused e, rw q refl)
after-total o k (done ds, q) h = let (r, e) = h ds in (r, rw q e)

require_drafts-total :
    (ds : List ChunkDraft) → (r : Outcome (List ChunkDraft)) × (require_drafts ds ≡ some r)
require_drafts-total [] = (refused FileError.parsing_failed, refl)
require_drafts-total (d ∷ ds) = (done (d ∷ ds), refl)

-- A document is refused rather than cut into no drafts.
pub require_drafts-cases :
    (ds drafts : List ChunkDraft)
    → require_drafts ds ≡ some (done drafts)
    → (ds ≡ drafts) × (1 ≤ length ds)
require_drafts-cases [] drafts h = absurd (ground arith)
require_drafts-cases (d ∷ ds) drafts h = (done_injective (d ∷ ds) drafts h, omega arith)

module _ (text : ChunkText) (settings : ChunkSettings) where
  chunk_tokens-total :
      (fuel : ℕ) (e : ParsedElement) (tokens : List String) (start : ℕ) (result : List ChunkDraft)
      → 1 ≤ settings.document_chunk_target_tokens
      → length tokens - start < fuel
      → (r : Outcome (List ChunkDraft)) × (chunk_tokens text settings fuel e tokens start result
          ≡ some r)
  unfolding chunk_tokens
  chunk_tokens-total zero e tokens start result positive enough = absurd (omega arith)
  chunk_tokens-total (suc fuel) e tokens start result positive enough =
      elim (Bool-cases (ltb start (length tokens))) [
        | inr over ↦ (done result, rw over refl)
        | inl within ↦ elim (Bool-cases (ltb settings.document_max_chunks_per_file (length next))) [
          | inl many ↦ (refused FileError.content_limit_exceeded, rw (within, many) refl)
          | inr few ↦ elim (Bool-cases (leb (length tokens) (start + target text settings))) [
            | inl last ↦ (done next, rw (within, few, last) refl)
            | inr more ↦
                let (r, q) =
                  chunk_tokens-total fuel e tokens
                    (start + (target text settings - overlap text settings)) next positive
                    (ground (arith, within, enough, positive)) in
                (r, rw (within, few, more) q)
          ]
        ]
      ]
    where
      next : List ChunkDraft
      next = grown text settings e (window_at text settings start tokens) result

  -- what the loop keeps of its result
  Kept : List ChunkDraft → Type 0
  Kept ds =
      (is_numbered (target text settings) 0 ds ≡ true)
      × (length ds ≤ settings.document_max_chunks_per_file)

  numbered_next :
      (e : ParsedElement) (tokens : List String) (start : ℕ) (result : List ChunkDraft)
      → 1 ≤ settings.document_chunk_target_tokens
      → ltb start (length tokens) ≡ true
      → is_numbered (target text settings) 0 result ≡ true
      → is_numbered
          (target text settings)
          0
          (grown text settings e (window_at text settings start tokens) result)
        ≡ true
  numbered_next e tokens start result positive within h =
      elim (Bool-cases (str_eq (content_of text settings window) "")) [
        | inl blank ↦ rw blank h
        | inr filled ↦ rw filled (
            is_numbered-append (target text settings) 0 result
              (draft_of text settings (length result) e window) h
              (ground (
                arith,
                filled,
                within,
                positive,
                length-take (target text settings) (drop start tokens),
                length-drop start tokens,
              )))
      ]
    where
      window : List String
      window = window_at text settings start tokens

  chunk_tokens-Kept :
      (fuel : ℕ) (e : ParsedElement) (tokens : List String) (start : ℕ)
      (result drafts : List ChunkDraft)
      → 1 ≤ settings.document_chunk_target_tokens
      → Kept result
      → chunk_tokens text settings fuel e tokens start result ≡ some (done drafts)
      → Kept drafts
  unfolding chunk_tokens Kept
  chunk_tokens-Kept zero e tokens start result drafts positive kept h = absurd (ground arith)
  chunk_tokens-Kept (suc fuel) e tokens start result drafts positive kept h =
      elim (Bool-cases (ltb start (length tokens))) [
        | inr over ↦ result_of result kept (rw over at h)
        | inl within ↦ elim (Bool-cases (ltb settings.document_max_chunks_per_file (length next))) [
          | inl many ↦ absurd (ground (arith, rw (within, many) at h))
          | inr few ↦
              let here : Kept next =
                (numbered_next e tokens start result positive within kept.0, ground (arith, few)) in
              elim (Bool-cases (leb (length tokens) (start + target text settings))) [
                | inl last ↦ result_of next here (rw (within, few, last) at h)
                | inr more ↦
                    chunk_tokens-Kept fuel e tokens
                      (start + (target text settings - overlap text settings)) next drafts positive
                      here (rw (within, few, more) at h)
              ]
        ]
      ]
    where
      next : List ChunkDraft
      next = grown text settings e (window_at text settings start tokens) result

      result_of :
          (ds : List ChunkDraft) → Kept ds → some (done ds) ≡ some (done drafts) → Kept drafts
      result_of ds k q = rw (done_injective ds drafts q) at k

  chunk_elements-total :
      (es : List ParsedElement) (result : List ChunkDraft)
      → 1 ≤ settings.document_chunk_target_tokens
      → (r : Outcome (List ChunkDraft)) × (chunk_elements text settings es result ≡ some r)
  unfolding chunk_elements
  chunk_elements-total [] result positive = (done result, refl)
  chunk_elements-total (e ∷ es) result positive =
      after-total (chunk_element text settings e result) (chunk_elements text settings es)
        (chunk_tokens-total (suc (length tokens)) e tokens 0 result positive (omega arith))
        (λ ds. chunk_elements-total es ds positive)
    where
      tokens : List String
      tokens = text.findall e.text

  chunk_elements-Kept :
      (es : List ParsedElement) (result drafts : List ChunkDraft)
      → 1 ≤ settings.document_chunk_target_tokens
      → Kept result
      → chunk_elements text settings es result ≡ some (done drafts)
      → Kept drafts
  unfolding chunk_elements
  chunk_elements-Kept [] result drafts positive kept h = rw (done_injective result drafts h) at kept
  chunk_elements-Kept (e ∷ es) result drafts positive kept h =
      let tokens = text.findall e.text in
      let (ds, q, k) =
        after-cases (chunk_element text settings e result) (chunk_elements text settings es) drafts
          h in
      chunk_elements-Kept es ds drafts positive
        (chunk_tokens-Kept (suc (length tokens)) e tokens 0 result ds positive kept q) k

  -- The chunker ends on every document, with drafts or an error, if the target is positive.
  pub chunk_document-total :
      (document : ParsedDocument)
      → 1 ≤ settings.document_chunk_target_tokens
      → (r : Outcome (List ChunkDraft)) × (chunk_document text settings document ≡ some r)
  unfolding chunk_document
  chunk_document-total document positive =
      after-total (chunk_elements text settings document.elements []) require_drafts
        (chunk_elements-total document.elements [] positive) require_drafts-total

  -- The drafts of a document are at least one and at most as many as the settings allow; they are
  -- numbered from 0 one by one, and each has some content and between one and `target` tokens. The
  -- target is positive.
  pub chunk_document-bounds :
      (document : ParsedDocument) (drafts : List ChunkDraft)
      → 1 ≤ settings.document_chunk_target_tokens
      → chunk_document text settings document ≡ some (done drafts)
      → (is_numbered settings.document_chunk_target_tokens 0 drafts ≡ true)
        × (1 ≤ length drafts)
        × (length drafts ≤ settings.document_max_chunks_per_file)
  unfolding chunk_document Kept
  chunk_document-bounds document drafts positive h =
      let (ds, q, k) =
        after-cases (chunk_elements text settings document.elements []) require_drafts drafts h in
      let (same, some_draft) = require_drafts-cases ds drafts k in
      let kept = chunk_elements-Kept document.elements [] ds positive (refl, omega arith) q in
      (rw same at kept.0, rw same at some_draft, rw same at kept.1)
