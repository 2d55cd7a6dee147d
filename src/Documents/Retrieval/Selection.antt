-- ===== src/Documents/Retrieval/Selection.antt =====
-- services/documents/retrieval.py: how much evidence is selected.
use Prim.Native.Nat.{◌≤◌, ◌<◌}
use tenant_intelligence_plat.Base.{
  ℕ, suc, ◌+◌, ◌≡◌, refl, sym, ap, ◌∙◌, String, Bool, true, false, inl, inr, List, [], ◌∷◌, map,
  ◌==◌, leb, any, length, unique_by, arith, Bool-cases, Option, none, some, ==_iff, eq_iff,
  &&-right,
}
use tenant_intelligence_plat.Identity.Models.{Uuid}
use tenant_intelligence_plat.Documents.Models.{DocumentChunk, Library}
use tenant_intelligence_plat.Documents.Retrieval.{
  Floats, RetrievalSettings, TextSearch, RetrievedEvidence, Scored, same_page, page_count,
  evidence_of, is_skipped, select_evidence, retrieve, fused, dense_candidates, lexical_candidates,
  has_hash, same_number,
}

abbrev pub chunks_of : {S : Type 0} → List (RetrievedEvidence S) → List DocumentChunk
chunks_of es = map (λ e. e.chunk) es

abbrev pub same_hash : DocumentChunk → DocumentChunk → Bool
same_hash a b = has_hash a.content_hash b

same_number-eq : (a b : Option ℕ) → same_number a b ≡ true → a ≡ b
same_number-eq none none h = refl
same_number-eq (some m) (some n) h = ap some ((==_iff m n).0 h)
same_number-eq none (some n) h = absurd (cc)
same_number-eq (some m) none h = absurd (cc)

-- Chunks of one page have the same count.
page_count-same :
    (d c : DocumentChunk) (chosen : List DocumentChunk)
    → same_page d c ≡ true
    → page_count d chosen ≡ page_count c chosen
page_count-same d c chosen h =
    let file : d.file_id ≡ c.file_id = ground (arith, h) in
    let page : d.page_number ≡ c.page_number =
      same_number-eq d.page_number c.page_number (&&-right (d.file_id == c.file_id) _ h) in
    rw (file, page) refl

module _ {S : Type 0} (F : Floats S) (text : TextSearch S) (settings : RetrievalSettings S)
    (numbered : String → ℕ → String) where
  -- the characters of some chunks
  abbrev pub characters_of : List DocumentChunk → ℕ
  characters_of [] = 0
  characters_of (c ∷ cs) = text.char_count c.content + characters_of cs

  -- The identifiers are numbered one by one.
  abbrev pub Numbered : ℕ → List (RetrievedEvidence S) → Type 0
  Numbered n [] = Unit
  Numbered n (e ∷ es) = (e.evidence_id ≡ numbered "DOC" (suc n)) × Numbered (suc n) es

  -- What the loop adds after `chosen`.
  record Added (n characters : ℕ) (chosen : List DocumentChunk) (es : List (RetrievedEvidence S))
      : Type 0 where
    few : n + length es ≤ settings.final_top_k
    short : characters + characters_of (chunks_of es) ≤ settings.max_evidence_characters
    new_hashes :
        (h : String) → any (has_hash h) chosen ≡ true → any (has_hash h) (chunks_of es) ≡ false
    own_hashes : unique_by same_hash (chunks_of es) ≡ true
    pages :
        (d : DocumentChunk)
        → page_count d chosen ≤ 2
        → page_count d chosen + page_count d (chunks_of es) ≤ 2
    ids : Numbered n es

  nothing-Added :
      (n characters : ℕ) (chosen : List DocumentChunk)
      → n ≤ settings.final_top_k
      → characters ≤ settings.max_evidence_characters
      → Added n characters chosen []
  nothing-Added n characters chosen few short = record {
    few = omega (arith, few);
    short = omega (arith, short);
    new_hashes = λ h k. refl;
    own_hashes = refl;
    pages = λ d k. omega (arith, k);
    ids = tt;
  }

  -- One more that is not skipped.
  take-Added :
      (n characters : ℕ) (chosen : List DocumentChunk) (c : Scored S)
      (es : List (RetrievedEvidence S))
      → is_skipped F text settings numbered characters chosen c ≡ false
      → Added (suc n) (characters + text.char_count c.chunk.content) (c.chunk ∷ chosen) es
      → Added n characters chosen (evidence_of F text settings numbered n c ∷ es)
  take-Added n characters chosen c es kept rest = record {
    few = omega (arith, rest.few);
    short = omega (arith, rest.short);
    new_hashes = λ h k. elim (Bool-cases (has_hash h c.chunk)) [
      | inl same ↦ absurd (cc (sym (rw ((eq_iff h c.chunk.content_hash).0 same) at k) ∙ fresh))
      | inr other ↦ rw other (rest.new_hashes h (rw (other, k) refl))
    ];
    own_hashes =
        rw
          (rest.new_hashes c.chunk.content_hash
            (rw ((eq_iff c.chunk.content_hash c.chunk.content_hash).1 refl) refl))
          rest.own_hashes;
    pages = λ d k. elim (Bool-cases (same_page d c.chunk)) [
      | inl same ↦
          let equal = page_count-same d c.chunk chosen same in
          let more : page_count d (c.chunk ∷ chosen) ≡ suc (page_count d chosen) = rw same refl in
          let counted : page_count d (c.chunk ∷ chunks_of es) ≡ suc (page_count d (chunks_of es)) =
            rw same refl in
          let bound = rest.pages d (omega (arith, more, equal, room)) in
          omega (arith, bound, more, counted)
      | inr other ↦
          let more : page_count d (c.chunk ∷ chosen) ≡ page_count d chosen = rw other refl in
          let counted : page_count d (c.chunk ∷ chunks_of es) ≡ page_count d (chunks_of es) =
            rw other refl in
          let bound = rest.pages d (omega (arith, more, k)) in omega (arith, bound, more, counted)
    ];
    ids = (refl, rest.ids);
  }
    where
      fresh : any (has_hash c.chunk.content_hash) chosen ≡ false
      fresh = ground (arith, kept)

      room : page_count c.chunk chosen < 2
      room = ground (arith, kept)

  select_evidence-Added :
      (n characters : ℕ) (chosen : List DocumentChunk) (cs : List (Scored S))
      → n < settings.final_top_k
      → characters ≤ settings.max_evidence_characters
      → Added n characters chosen (select_evidence F text settings numbered n characters chosen cs)
  unfolding select_evidence
  select_evidence-Added n characters chosen [] few short =
      nothing-Added n characters chosen (omega (arith, few)) short
  select_evidence-Added n characters chosen (c ∷ cs) few short =
      elim (Bool-cases (is_skipped F text settings numbered characters chosen c)) [
        | inl skipped ↦ rw skipped (select_evidence-Added n characters chosen cs few short)
        | inr kept ↦
            let fits : characters + text.char_count c.chunk.content
                ≤ settings.max_evidence_characters =
              ground (arith, kept) in
            elim (Bool-cases (leb settings.final_top_k (suc n))) [
              | inl full ↦
                  rw (kept, full)
                    (take-Added n characters chosen c [] kept (
                      nothing-Added (suc n) (characters + text.char_count c.chunk.content)
                        (c.chunk ∷ chosen) (omega (arith, few)) fits))
              | inr more ↦
                  rw (kept, more)
                    (take-Added n characters chosen c _ kept (
                      select_evidence-Added (suc n) (characters + text.char_count c.chunk.content)
                        (c.chunk ∷ chosen) cs (ground (arith, more)) fits))
            ]
      ]

  -- What the evidence for a question is.
  pub record Bounded (es : List (RetrievedEvidence S)) : Type 0 where
    pub few : length es ≤ settings.final_top_k
    pub short : characters_of (chunks_of es) ≤ settings.max_evidence_characters
    pub own_hashes : unique_by same_hash (chunks_of es) ≡ true
    pub pages : (d : DocumentChunk) → page_count d (chunks_of es) ≤ 2
    pub ids : Numbered 0 es

  -- With an embedding of the right dimension the search returns evidence: at most as much as the
  -- settings allow, in pieces and in characters, with no two pieces of one content hash and at most
  -- two of one page, numbered from DOC1 on, where at least one piece is allowed.
  pub retrieve-Bounded :
      (tenant_id : Uuid) (kb_ids : List Uuid) (query : String) (db : Library)
      → 1 ≤ settings.final_top_k
      → length (text.embed query) ≡ settings.embedding_dimension
      → (es : List (RetrievedEvidence S)) × (retrieve F text settings numbered tenant_id kb_ids
            query db
          ≡ some es)
        × Bounded es
  unfolding retrieve
  retrieve-Bounded tenant_id kb_ids query db positive fits =
      let a = select_evidence-Added 0 0 [] _ (omega (arith, positive)) (omega arith) in
      let same = (==_iff (length (text.embed query)) settings.embedding_dimension).1 fits in
      let vector = text.embed query in
      let found =
        fused F text settings numbered query
          (dense_candidates F text settings numbered tenant_id kb_ids vector db)
          (lexical_candidates F text settings numbered tenant_id kb_ids query db) in
      (
        found,
        rw same refl,
        record {
          few = omega (arith, a.few);
          short = omega (arith, a.short);
          own_hashes = a.own_hashes;
          pages = λ d. let p = a.pages d (omega arith) in omega (arith, p);
          ids = a.ids;
        },
      )
