-- ===== src/Knowledge/Outcomes.antt =====
-- How `run_ingestion` of backend/app/services/knowledge_service.py leaves a pending document.
use support_flow.Prelude.{
  String, ℕ, suc, ◌≤◌, ◌≡◌, refl, ap, ◌∙◌, ◌⊎◌, inl, inr, Bool, true, false, none, some, List, [],
  ◌∷◌, ◌++◌, ◌&&◌, ◌==◌, ==_refl, length, any_of-find?, select, select-append, select_kept,
  find?-true, find?-update_where, All, All-overwrite, is_some, arith,
}
use support_flow.Text.{Text}
use support_flow.Document.{TextChunk, Reading, read, refused, chunk}
use support_flow.Document.Extract.{Readers}
use support_flow.Enums.{ProcessingStatus}
use support_flow.Errors.{AppError, Result, ok, raised}
use support_flow.Db.{IngestionFailure, KnowledgeDocument, KnowledgeChunk}
use support_flow.Session.{World}
use support_flow.AiCalls.{AiSettings, Attempt}
use support_flow.Knowledge.Batches.{OneEach, Sized, embed_passages-Sized, embed_passages-Preserves}
use support_flow.Knowledge.{load_document}
use support_flow.Knowledge.Ingestion.{
  Sources, Sourced, sourced, no_source, passages_of, cut, some_passages, source_text, chunk_row,
  chunk_rows, is_claimable, claimed, escaped, claim_pending_document, save_document,
  failed_document, completed_document, Ingestion, fail_document, add_chunks, complete_document,
  ingester, with_vectors, ingest, ingest_claimed, run_ingestion,
}

-- A document that retrieval may search, with as many passages as it says.
abbrev pub IsPublished : ℕ → KnowledgeDocument → Type 0
IsPublished n d =
    (d.status ≡ ProcessingStatus.completed)
    × (d.is_published ≡ true)
    × (d.chunk_count ≡ n)
    × (d.error_message ≡ none)

-- A document that failed: it is kept from retrieval, and says why.
abbrev pub IsWithdrawn : KnowledgeDocument → Type 0
IsWithdrawn d =
    (d.status ≡ ProcessingStatus.failed)
    × (d.is_published ≡ false)
    × (d.chunk_count ≡ 0)
    × (is_some d.error_message ≡ true)

-- Every row of the document has the property.
abbrev pub Every : ℕ → (KnowledgeDocument → Type 0) → World → Type 0
Every id P w = All (λ d. (d.id == id) ≡ true → P d) w.session.knowledge_documents

abbrev pub chunks_of : ℕ → World → List KnowledgeChunk
chunks_of id w = select (λ c. c.document_id == id) w.session.knowledge_chunks

-- A run ended with a document of `n` passages that may be searched, or with one that failed and has none, and
-- what it returned says which; or an exception left it, in a world of which `P` holds.
abbrev pub Ingested : (World → Type 0) → ℕ → Result Ingestion × World → Type 0
Ingested P id r =
    ((n : ℕ) × ((r.0 ≡ ok (Ingestion.completed n))
        × (1 ≤ n)
        × Every id (IsPublished n) r.1
        × (length (chunks_of id r.1) ≡ n)))
    ⊎ (((r.0 ≡ ok Ingestion.failed) × Every id IsWithdrawn r.1 × (chunks_of id r.1 ≡ []))
        ⊎ ((r.0 ≡ raised AppError.internal_server_error) × P r.1))

fail_document-Ingested :
    (P : World → Type 0) (d : KnowledgeDocument) (reason : IngestionFailure) (now : ℕ) (w : World)
    → chunks_of d.id w ≡ []
    → Ingested P d.id (fail_document d reason now w)
unfolding fail_document save_document
fail_document-Ingested P d reason now w none_yet = inr (
    inl (
      refl,
      All-overwrite (λ (x : KnowledgeDocument). x.id) IsWithdrawn d.id
          (failed_document d reason now) w.session.knowledge_documents (refl, refl, refl, refl)
          refl,
      none_yet,
    ))

-- The rows of the passages: one for each, and all of the document.
chunk_rows-some :
    {V : Type 0} (model : String) (d : KnowledgeDocument) (id : ℕ) (ps : List TextChunk)
    (vs : List V)
    → length vs ≡ length ps
    → (rows : List KnowledgeChunk) × ((chunk_rows model d id ps vs ≡ some rows)
        × (length rows ≡ length ps)
        × All (λ c. (c.document_id == d.id) ≡ true) rows)
unfolding chunk_rows
chunk_rows-some model d id [] [] h = ([], (refl, refl, tt))
chunk_rows-some model d id [] (v ∷ vs) h = absurd (omega (arith, h))
chunk_rows-some model d id (p ∷ ps) [] h = absurd (omega (arith, h))
chunk_rows-some model d id (p ∷ ps) (v ∷ vs) h =
    let (rows, e) = chunk_rows-some model d (suc id) ps vs (omega (arith, h)) in
    (chunk_row model d id p ∷ rows, (rw (e.0) refl, ap suc e.1, (==_refl d.id, e.2)))

module _ {V : Type 0} (readers : Readers) (sources : Sources)
    (embed : List Text → ℕ → Attempt (List V)) (settings : AiSettings) (organization_id now : ℕ)
    (P : World → Type 0) where
  with_vectors-Ingested :
      (d : KnowledgeDocument) (text : Text) (p : TextChunk) (ps : List TextChunk)
      (r : Result (List V)) (w : World)
      → Sized (length (p ∷ ps)) r
      → chunks_of d.id w ≡ []
      → Ingested P d.id
          (with_vectors readers sources embed settings organization_id now d text (p ∷ ps) r w)
  unfolding with_vectors complete_document add_chunks save_document
  with_vectors-Ingested d text p ps (raised e) w s none_yet =
      fail_document-Ingested P d IngestionFailure.ai_failed now w none_yet
  with_vectors-Ingested d text p ps (ok vectors) w s none_yet =
      let (rows, e) =
        chunk_rows-some settings.embedding_model d w.session.next_id (p ∷ ps) vectors s in
      rw (e.0) (
        inl (
          length (p ∷ ps),
          (
            refl,
            omega arith,
            All-overwrite (λ (x : KnowledgeDocument). x.id) (IsPublished (length (p ∷ ps))) d.id
                (completed_document d text (length (p ∷ ps)) now) w.session.knowledge_documents
                (refl, refl, refl, refl) refl,
            ap length (
                  select-append (λ c. c.document_id == d.id) w.session.knowledge_chunks rows
                  ∙ ap (λ (c : List KnowledgeChunk). c ++ select (λ x. x.document_id == d.id) rows)
                      none_yet
                  ∙ select_kept (λ c. c.document_id == d.id) rows e.2)
                ∙ e.1,
          ),
        ))

  module _ (one : OneEach embed) where
    sourced-Ingested :
        (d : KnowledgeDocument) (text : Text) (p : TextChunk) (ps : List TextChunk) (w : World)
        → chunks_of d.id w ≡ []
        → Ingested P d.id
            (ingest readers sources embed settings organization_id now d (sourced (text, p ∷ ps)) w)
    unfolding ingest
    sourced-Ingested d text p ps w none_yet =
        with_vectors-Ingested d text p ps _ _
          (embed_passages-Sized embed one settings (ingester organization_id) (p ∷ ps) w)
          (embed_passages-Preserves embed settings (ingester organization_id)
            (λ v. chunks_of d.id v ≡ []) (λ rows v h. h) (p ∷ ps) w none_yet)

    passages-Ingested :
        (d : KnowledgeDocument) (text : Text) (r : Reading (List TextChunk)) (w : World)
        → chunks_of d.id w ≡ []
        → Ingested P d.id
            (ingest readers sources embed settings organization_id now d (some_passages text r) w)
    unfolding ingest
    passages-Ingested d text (refused e) w none_yet = fail_document-Ingested P d _ now w none_yet
    passages-Ingested d text (read []) w none_yet = fail_document-Ingested P d _ now w none_yet
    passages-Ingested d text (read (p ∷ ps)) w none_yet = sourced-Ingested d text p ps w none_yet

    cut-Ingested :
        (d : KnowledgeDocument) (source : Sourced Text) (w : World)
        → P w
        → chunks_of d.id w ≡ []
        → Ingested P d.id
            (ingest readers sources embed settings organization_id now d (cut source) w)
    unfolding ingest
    cut-Ingested d escaped w p none_yet = inr (inr (refl, p))
    cut-Ingested d (no_source reason) w p none_yet =
        fail_document-Ingested P d reason now w none_yet
    cut-Ingested d (sourced text) w p none_yet = passages-Ingested d text (chunk text) w none_yet

    claimed-Ingested :
        (d : KnowledgeDocument) (won : Bool) (w : World)
        → won ≡ true
        → ((v : World) → v.session ≡ w.session → P v)
        → chunks_of d.id w ≡ []
        → Ingested P d.id
            (ingest_claimed readers sources embed settings organization_id now won d w)
    unfolding ingest_claimed passages_of
    claimed-Ingested d true w won keep none_yet =
        cut-Ingested d (source_text readers sources d) _ (keep _ refl) none_yet
    claimed-Ingested d false w won keep none_yet = cc

module _ {V : Type 0} (readers : Readers) (sources : Sources)
    (embed : List Text → ℕ → Attempt (List V)) (settings : AiSettings) (organization_id now : ℕ)
    (one : OneEach embed) where
  -- Where the provider gives one vector for each text, a run for a pending document without passages ends in
  -- one of three ways. The document is completed and published with at least one passage, as many as it
  -- counts; or it is failed, unpublished and without a passage, with the reason; or the run raises what
  -- nothing catches, and the document is left in processing.
  pub run_ingestion-Ingested :
      (document_id : ℕ) (d : KnowledgeDocument) (w : World)
      → load_document organization_id document_id w.session ≡ some d
      → d.status ≡ ProcessingStatus.pending
      → chunks_of d.id w ≡ []
      → Ingested
          (λ v. load_document organization_id document_id v.session ≡ some (claimed now d))
          d.id
          (run_ingestion readers sources embed settings organization_id now document_id w)
  unfolding run_ingestion claim_pending_document load_document
  run_ingestion-Ingested document_id d w found pending none_yet =
      let asked =
        λ (x : KnowledgeDocument). x.id == document_id && x.organization_id == organization_id in
      let mine = find?-true asked w.session.knowledge_documents found in
      let claimable : is_claimable organization_id d.id d ≡ true =
        rw (pending, ==_refl d.id) (ground (arith, mine)) in
      let won =
        any_of-find? asked (is_claimable organization_id d.id) w.session.knowledge_documents found
          claimable in
      let left =
        find?-update_where asked (is_claimable organization_id d.id) (claimed now)
          w.session.knowledge_documents (λ y. refl) found claimable in
      rw (found, run_ingestion)
        (claimed-Ingested readers sources embed settings organization_id now
          (λ v. load_document organization_id document_id v.session ≡ some (claimed now d)) one d _
          _ won (λ v same. rw same left) none_yet)
