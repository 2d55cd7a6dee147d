-- ===== src/Documents/Bases/Closing.antt =====
-- services/documents/knowledge_base_service.py: nothing of a deleted knowledge base is left.
use mathlib.Core.Path.{subst}
use tenant_intelligence_plat.Base.{
  ℕ, ◌≡◌, refl, sym, String, Bool, true, false, not, ◌&&◌, none, inl, inr, List, [], ◌∷◌, ◌==◌,
  ==_refl, any, any-Has, select-Has, scalar, update_where, Has, Has-update_where, Bool-cases, arith,
}
use tenant_intelligence_plat.Exec.{Result, ok, err, Exec, continue, ◌>>=◌}
use tenant_intelligence_plat.Identity.Models.{Uuid}
use tenant_intelligence_plat.Auth.Context.{TenantContext}
use tenant_intelligence_plat.Documents.Models.{
  KbStatus, KnowledgeBase, is_kb_deleted, StoredFile, Library,
}
use tenant_intelligence_plat.Documents.Policy.{get_kb, require}
use tenant_intelligence_plat.Documents.Access.{require-Granted}
use tenant_intelligence_plat.Documents.Files.{Platform, remove_object, mark_deleted}
use tenant_intelligence_plat.Documents.Bases.{
  is_open, open_files, remove_objects, close_base, commit_closing, delete_base,
}

-- No file of the base is live, and no query finds the base.
abbrev pub IsClosed : Uuid → Uuid → Library → Type 0
IsClosed tenant_id kb_id db =
    ((f : StoredFile) → Has f db.files → is_open tenant_id kb_id f ≡ false)
    × (get_kb tenant_id kb_id false db ≡ none)

module _ (tenant_id : Uuid) (row : KnowledgeBase) (now : ℕ) (db : Library) where
  file-closed :
      (f : StoredFile)
      → Has f (close_base row (open_files tenant_id row.id db) now db).files
      → is_open tenant_id row.id f ≡ false
  file-closed f hf =
      let (g, hg, e) =
        Has-update_where (λ x. any (λ (f : StoredFile). f.id == x.id) files) (mark_deleted now) f
          db.files hf in
      elim (Bool-cases (any (λ (f : StoredFile). f.id == g.id) files)) [
        | inl hit ↦ rw (rw hit at e) (ground arith)
        | inr missed ↦ rw (rw missed at e) (elim (Bool-cases (is_open tenant_id row.id g)) [
          | inr shut ↦ shut
          | inl live ↦ absurd (
              ground (
                arith,
                missed,
                ==_refl g.id,
                any-Has (λ (f : StoredFile). f.id == g.id) g files
                    (select-Has (is_open tenant_id row.id) g db.files hg live),
              ))
        ])
      ]
    where
      files : List StoredFile
      files = open_files tenant_id row.id db

  base-closed :
      get_kb tenant_id row.id false (close_base row (open_files tenant_id row.id db) now db) ≡ none
  unfolding get_kb
  base-closed = go db.knowledge_bases
    where
      go :
          (ks : List KnowledgeBase)
          → scalar
              (λ (k : KnowledgeBase).
                (k.tenant_id == tenant_id && (k.id == row.id && not (is_kb_deleted k.status)))
                && true)
              (update_where
                (λ (k : KnowledgeBase). k.id == row.id)
                (λ (k : KnowledgeBase). record k { status = KbStatus.kb_deleted })
                ks)
            ≡ none
      go [] = refl
      go (k ∷ ks) = ground (arith, go ks)

remove_objects-library :
    (remove_ok : String → Bool) (fs : List StoredFile) (w : Platform)
    → (remove_objects remove_ok fs w).1.library ≡ w.library
remove_objects-library remove_ok [] w = refl
remove_objects-library remove_ok (f ∷ fs) w = elim (Bool-cases (remove_ok f.object_key)) [
  | inr kept ↦ rw kept refl
  | inl gone ↦ rw gone (remove_objects-library remove_ok fs (remove_object f.object_key w))
]

module _ (context : TenantContext) (kb_id : Uuid) (remove_ok : String → Bool) (now : ℕ) where
  -- the call once the policy has given the base
  after_require : KnowledgeBase → Exec Platform Unit
  after_require row w =
      (remove_objects remove_ok (open_files context.tenant.id kb_id w.library) >>= λ _.
      commit_closing row (open_files context.tenant.id kb_id w.library) now)
        w

  after_require-IsClosed :
      (row : KnowledgeBase) (w : Platform)
      → row.id ≡ kb_id
      → (after_require row w).0 ≡ ok tt
      → IsClosed context.tenant.id kb_id (after_require row w).1.library
  unfolding after_require
  after_require-IsClosed row w same h =
      go (remove_objects remove_ok files w).0 (remove_objects remove_ok files w).1
        (remove_objects-library remove_ok files w) h
    where
      files : List StoredFile
      files = open_files context.tenant.id kb_id w.library

      closed : IsClosed context.tenant.id kb_id (close_base row files now w.library)
      closed =
          subst
            (λ (id : Uuid).
              IsClosed context.tenant.id id
                (close_base row (open_files context.tenant.id id w.library) now w.library))
            same
            (
              file-closed context.tenant.id row now w.library,
              base-closed context.tenant.id row now w.library,
            )

      go :
          (r : Result Unit) (v : Platform)
          → v.library ≡ w.library
          → (continue r (λ _. commit_closing row files now) v).0 ≡ ok tt
          → IsClosed context.tenant.id kb_id
              (continue r (λ _. commit_closing row files now) v).1.library
      go (err e) v kept q = absurd (cc)
      go (ok u) v kept q =
          subst (λ (db : Library). IsClosed context.tenant.id kb_id (close_base row files now db))
            (sym kept) closed

  -- A deletion that succeeds leaves no live file in the knowledge base, and no query finds the base.
  pub delete_base-IsClosed :
      (w : Platform)
      → (delete_base context kb_id remove_ok now w).0 ≡ ok tt
      → IsClosed context.tenant.id kb_id (delete_base context kb_id remove_ok now w).1.library
  unfolding delete_base after_require
  delete_base-IsClosed w h =
      go (require context kb_id true false w.library).0
        (require context kb_id true false w.library).1
        (λ row e. ((require-Granted context kb_id true false w.library).0 row e).asked_for) h
    where
      go :
          (r : Result KnowledgeBase) (db : Library)
          → ((row : KnowledgeBase) → r ≡ ok row → row.id ≡ kb_id)
          → (continue r after_require (record w { library = db })).0 ≡ ok tt
          → IsClosed context.tenant.id kb_id
              (continue r after_require (record w { library = db })).1.library
      go (err e) db asked q = absurd (cc)
      go (ok row) db asked q =
          after_require-IsClosed row (record w { library = db }) (asked row refl) q
