-- ===== src/Documents/Chunker/Coverage.antt =====
-- services/documents/chunker.py: no token of a document is left out of its drafts.
use tenant_intelligence_plat.Base.{
  ℕ, zero, suc, ◌+◌, ◌-◌, ◌≤◌, ◌<◌, ◌≡◌, refl, sym, String, true, false, some, inl, inr, List, [],
  ◌∷◌, str_eq, ltb, leb, length, Has, Has-append_left, Has-append_right, Bool-cases, arith,
}
use tenant_intelligence_plat.Documents.Chunker.{
  done, ParsedElement, ParsedDocument, ChunkDraft, ChunkSettings, ChunkText, target, overlap,
  window_at, content_of, draft_of, grown, chunk_tokens, chunk_element, chunk_elements,
  require_drafts, chunk_document,
}
use tenant_intelligence_plat.Documents.Chunker.Bounds.{
  done_injective, after-cases, require_drafts-cases,
}

module _ (text : ChunkText) (settings : ChunkSettings) where
  -- `" ".join(window).strip()` is not empty, for a window of tokens that are not blank
  abbrev pub HasContent : List String → Type 0
  HasContent tokens =
      (start : ℕ)
      → start < length tokens
      → str_eq (content_of text settings (window_at text settings start tokens)) "" ≡ false

  -- A draft of the list is a window of the element that holds the token at a position.
  pub record Covers (drafts : List ChunkDraft) (e : ParsedElement) (i : ℕ) : Type 0 where
    pub draft : ChunkDraft
    pub listed : Has draft drafts
    pub start : ℕ
    pub from_start : start ≤ i
    pub before_end : i < start + settings.document_chunk_target_tokens
    pub window :
        draft.content
        ≡ content_of text settings (window_at text settings start (text.findall e.text))
    pub page : draft.page_number ≡ e.page_number

  grown-Has :
      (e : ParsedElement) (window : List String) (result : List ChunkDraft) (d : ChunkDraft)
      → Has d result
      → Has d (grown text settings e window result)
  grown-Has e window result d h = elim (Bool-cases (str_eq (content_of text settings window) "")) [
    | inl blank ↦ rw blank h
    | inr filled ↦
        rw filled
          (Has-append_left d result (draft_of text settings (length result) e window ∷ []) h)
  ]

  chunk_tokens-Has :
      (fuel : ℕ) (e : ParsedElement) (tokens : List String) (start : ℕ)
      (result drafts : List ChunkDraft) (d : ChunkDraft)
      → Has d result
      → chunk_tokens text settings fuel e tokens start result ≡ some (done drafts)
      → Has d drafts
  unfolding chunk_tokens
  chunk_tokens-Has zero e tokens start result drafts d m h = absurd (ground arith)
  chunk_tokens-Has (suc fuel) e tokens start result drafts d m h =
      elim (Bool-cases (ltb start (length tokens))) [
        | inr over ↦ rw (done_injective result drafts (rw over at h)) at m
        | inl within ↦ elim (Bool-cases (ltb settings.document_max_chunks_per_file (length next))) [
          | inl many ↦ absurd (ground (arith, rw (within, many) at h))
          | inr few ↦ elim (Bool-cases (leb (length tokens) (start + target text settings))) [
            | inl last ↦ rw (done_injective next drafts (rw (within, few, last) at h)) at here
            | inr more ↦
                chunk_tokens-Has fuel e tokens
                  (start + (target text settings - overlap text settings)) next drafts d here
                  (rw (within, few, more) at h)
          ]
        ]
      ]
    where
      next : List ChunkDraft
      next = grown text settings e (window_at text settings start tokens) result

      here : Has d next
      here = grown-Has e (window_at text settings start tokens) result d m

  chunk_tokens-Covers :
      (fuel : ℕ) (e : ParsedElement) (start : ℕ) (result drafts : List ChunkDraft) (i : ℕ)
      → HasContent (text.findall e.text)
      → start ≤ i
      → i < length (text.findall e.text)
      → chunk_tokens text settings fuel e (text.findall e.text) start result ≡ some (done drafts)
      → Covers drafts e i
  unfolding chunk_tokens
  chunk_tokens-Covers zero e start result drafts i content from within h = absurd (ground arith)
  chunk_tokens-Covers (suc fuel) e start result drafts i content from within h =
      elim (Bool-cases (ltb settings.document_max_chunks_per_file (length next))) [
        | inl many ↦ absurd (ground (arith, rw (inside, many) at h))
        | inr few ↦ elim (Bool-cases (leb (length tokens) (start + target text settings))) [
          | inl last ↦
              covered
                (rw (done_injective next drafts (rw (inside, few, last) at h)) at fresh_listed)
                (ground (arith, last, within))
          | inr more ↦ elim (Bool-cases (ltb i (start + target text settings))) [
            | inl near ↦
                covered
                  (chunk_tokens-Has fuel e tokens later next drafts fresh fresh_listed
                    (rw (inside, few, more) at h))
                  (ground (arith, near))
            | inr far ↦
                chunk_tokens-Covers fuel e later next drafts i content (ground (arith, far)) within
                  (rw (inside, few, more) at h)
          ]
        ]
      ]
    where
      tokens : List String
      tokens = text.findall e.text

      inside : ltb start (length tokens) ≡ true
      inside = ground (arith, from, within)

      next : List ChunkDraft
      next = grown text settings e (window_at text settings start tokens) result

      later : ℕ
      later = start + (target text settings - overlap text settings)

      fresh : ChunkDraft
      fresh = draft_of text settings (length result) e (window_at text settings start tokens)

      fresh_listed : Has fresh next
      fresh_listed =
          rw (content start (ground (arith, from, within)))
            (Has-append_right fresh result (fresh ∷ []) (inl refl))

      covered : Has fresh drafts → i < start + target text settings → Covers drafts e i
      covered m near = record {
        draft = fresh;
        listed = m;
        start = start;
        from_start = from;
        before_end = near;
        window = refl;
        page = refl;
      }

  chunk_elements-Has :
      (es : List ParsedElement) (result drafts : List ChunkDraft) (d : ChunkDraft)
      → Has d result
      → chunk_elements text settings es result ≡ some (done drafts)
      → Has d drafts
  unfolding chunk_elements
  chunk_elements-Has [] result drafts d m h = rw (done_injective result drafts h) at m
  chunk_elements-Has (e ∷ es) result drafts d m h =
      let tokens = text.findall e.text in
      let (ds, q, k) =
        after-cases (chunk_element text settings e result) (chunk_elements text settings es) drafts
          h in
      chunk_elements-Has es ds drafts d
        (chunk_tokens-Has (suc (length tokens)) e tokens 0 result ds d m q) k

  Covers-grows :
      (ds drafts : List ChunkDraft) (e : ParsedElement) (i : ℕ)
      → ((d : ChunkDraft) → Has d ds → Has d drafts)
      → Covers ds e i
      → Covers drafts e i
  Covers-grows ds drafts e i more c = record {
    draft = c.draft;
    listed = more c.draft c.listed;
    start = c.start;
    from_start = c.from_start;
    before_end = c.before_end;
    window = c.window;
    page = c.page;
  }

  chunk_elements-Covers :
      (es : List ParsedElement) (result drafts : List ChunkDraft) (e : ParsedElement) (i : ℕ)
      → Has e es
      → HasContent (text.findall e.text)
      → i < length (text.findall e.text)
      → chunk_elements text settings es result ≡ some (done drafts)
      → Covers drafts e i
  unfolding chunk_elements
  chunk_elements-Covers [] result drafts e i m content within h = elim m [ ]
  chunk_elements-Covers (x ∷ es) result drafts e i (inl same) content within h =
      let (ds, q, k) =
        after-cases (chunk_element text settings x result) (chunk_elements text settings es) drafts
          h in
      let r = rw (sym same) at q in
      Covers-grows ds drafts e i (λ d m. chunk_elements-Has es ds drafts d m k)
        (chunk_tokens-Covers (suc (length (text.findall e.text))) e 0 result ds i content
          (omega arith) within r)
  chunk_elements-Covers (x ∷ es) result drafts e i (inr m) content within h =
      let (ds, q, k) =
        after-cases (chunk_element text settings x result) (chunk_elements text settings es) drafts
          h in
      chunk_elements-Covers es ds drafts e i m content within k

  -- Each token of each element of a document lies in the window of a draft, which has the page
  -- number of the element, where windows of tokens have some content.
  pub chunk_document-Covers :
      (document : ParsedDocument) (drafts : List ChunkDraft) (e : ParsedElement) (i : ℕ)
      → Has e document.elements
      → HasContent (text.findall e.text)
      → i < length (text.findall e.text)
      → chunk_document text settings document ≡ some (done drafts)
      → Covers drafts e i
  unfolding chunk_document
  chunk_document-Covers document drafts e i m content within h =
      let (ds, q, k) =
        after-cases (chunk_elements text settings document.elements []) require_drafts drafts h in
      let (same, some_draft) = require_drafts-cases ds drafts k in
      chunk_elements-Covers document.elements [] drafts e i m content within (rw same at q)
