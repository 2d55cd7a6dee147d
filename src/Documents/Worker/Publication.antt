-- ===== src/Documents/Worker/Publication.antt =====
-- workers/document_tasks.py: what each update of the files and each publication keep of the chunks
-- that are served.
use tenant_intelligence_plat.Base.{
  ℕ, ◌≡◌, ap, ◌∙◌, Bool, true, false, ◌&&◌, inl, inr, ◌==◌, update_where, unique_by-eq, Has,
  Has-update_where, update_where-Has, any-witness, Bool-cases, arith,
}
use tenant_intelligence_plat.Documents.Models.{StoredFile, Library, same_file_id, documents_hold}
use tenant_intelligence_plat.Documents.Worker.Preparation.{is_publishable}
use tenant_intelligence_plat.Documents.Worker.Generations.{
  generation, is_complete, IsServed, written_generation, other_generation,
}
use tenant_intelligence_plat.Documents.Attempt.{Ingestion}
use tenant_intelligence_plat.Documents.Worker.{mark_ready, publication, exists_file}

-- An update of the files that keeps their identity and active version.
pub update_where-IsServed :
    (q : StoredFile → Bool) (f : StoredFile → StoredFile) (db : Library)
    → ((x : StoredFile) → (f x).tenant_id ≡ x.tenant_id)
    → ((x : StoredFile) → (f x).id ≡ x.id)
    → ((x : StoredFile) → (f x).active_ingestion_version ≡ x.active_ingestion_version)
    → IsServed db
    → IsServed (record db { files = update_where q f db.files })
update_where-IsServed q f db tenant same active here x hx live =
    let (g, hg, e) = Has-update_where q f x db.files hx in
    elim (Bool-cases (q g)) [
      | inr kept ↦ let same_row = rw kept at e in rw same_row (here g hg (rw same_row at live))
      | inl hit ↦
          let moved = rw hit at e in
          rw (moved, tenant g, same g, active g) (here g hg (rw (moved, active g) at live))
    ]

module _ (held : StoredFile) (version now : ℕ) (work : Ingestion) (db : Library) where
  -- the generation of the published file at an active version that was there or is new
  served_version :
      (active : ℕ)
      → is_publishable work ≡ true
      → ((active == version) ≡ false
          → is_complete (generation held.tenant_id held.id active db) ≡ true)
      → is_complete
          (generation held.tenant_id held.id active (publication held version work now db))
        ≡ true
  served_version active good old = elim (Bool-cases (active == version)) [
    | inl same ↦
        let e : active ≡ version = ground (arith, same) in
        rw e (written_generation held version work now db good)
    | inr apart ↦
        rw
          (other_generation held version work now db held.tenant_id held.id active
            (ground (arith, apart)))
          (old apart)
  ]

  -- the row of the published file has the tenant that the session holds
  tenant_of_published :
      (g : StoredFile)
      → Has g db.files
      → (g.id == held.id) ≡ true
      → exists_file held db ≡ true
      → documents_hold (publication held version work now db) ≡ true
      → g.tenant_id ≡ held.tenant_id
  unfolding documents_hold
  tenant_of_published g hg hit present accepted =
      let (h, hh, at) =
        any-witness (λ (f : StoredFile). f.tenant_id == held.tenant_id && f.id == held.id) db.files
          present in
      let here : (h.id == held.id) ≡ true = ground (arith, at) in
      let m1 = update_where-Has (λ x. x.id == held.id) ready_row g db.files hg in
      let m2 = update_where-Has (λ x. x.id == held.id) ready_row h db.files hh in
      let same =
        unique_by-eq same_file_id (λ a b q. ground (arith, q)) (ready_row g) (ready_row h)
          (update_where (λ x. x.id == held.id) ready_row db.files) (ground (arith, accepted))
          (rw hit at m1) (rw here at m2) (ground (arith, hit, here)) in
      ap (λ (x : StoredFile). x.tenant_id) same ∙ ground (arith, at)
    where
      ready_row : StoredFile → StoredFile
      ready_row = mark_ready held version work now

  pub publication-IsServed :
      is_publishable work ≡ true
      → exists_file held db ≡ true
      → documents_hold (publication held version work now db) ≡ true
      → IsServed db
      → IsServed (publication held version work now db)
  publication-IsServed good present accepted here f hf live =
      let (g, hg, e) =
        Has-update_where (λ x. x.id == held.id) (mark_ready held version work now) f db.files hf in
      elim (Bool-cases (g.id == held.id)) [
        | inr apart ↦
            let kept = rw apart at e in
            rw kept (
              rw
                (other_generation held version work now db g.tenant_id g.id
                  g.active_ingestion_version (ground (arith, apart)))
                (here g hg (rw kept at live)))
        | inl hit ↦
            let moved = rw hit at e in
            let tenant = tenant_of_published g hg hit present accepted in
            let same : g.id ≡ held.id = ground (arith, hit) in
            elim (Bool-cases (held.active_ingestion_version == version)) [
              | inr fresh ↦
                  rw (moved, tenant, same, fresh)
                    (served_version version good (λ apart. absurd (ground (arith, apart))))
              | inl unchanged ↦
                  rw (moved, tenant, same, unchanged)
                    (served_version g.active_ingestion_version good
                      (λ apart. rw (tenant, same) at (here g hg (rw (moved, unchanged) at live))))
            ]
      ]
