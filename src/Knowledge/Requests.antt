-- ===== src/Knowledge/Requests.antt =====
-- What `retrieve` of backend/app/services/knowledge_service.py reads of the documents.
use support_flow.Prelude.{
  arith, Exists, any_of-Exists, ℕ, ◌≡◌, refl, true, not, inl, inr, List, IsIn, All-IsIn, All-narrow,
  All, Bool-cases,
}
use support_flow.Errors.{Result, ok, raised}
use support_flow.Db.{KnowledgeDocument, KnowledgeChunk, Db}
use support_flow.Session.{World, continue, gets}
use support_flow.AiCalls.{AiSettings, Payer, Attempt, AiResponse, run, embedding}
use support_flow.AiCalls.Ledger.{run-Preserves}
use support_flow.Enums.Statuses.{completed_status}
use support_flow.Enums.{ProcessingStatus}
use support_flow.Knowledge.Retrieval.{
  is_published_for, is_searchable, has_published_chunks, search_chunks, retrieve,
}

-- A document that the organization has published.
abbrev pub Offers : ℕ → ℕ → KnowledgeDocument → Type 0
Offers organization_id document_id d =
    (d.id ≡ document_id)
    × (d.organization_id ≡ organization_id)
    × (d.is_published ≡ true)
    × (d.status ≡ ProcessingStatus.completed)

-- A passage of the table and the organization, of such a document.
abbrev pub IsOffered : ℕ → Db → KnowledgeChunk → Type 0
IsOffered organization_id db c =
    (c.organization_id ≡ organization_id)
    × IsIn c db.knowledge_chunks
    × Exists (Offers organization_id c.document_id) db.knowledge_documents

searchable-IsOffered :
    (organization_id : ℕ) (db : Db) (c : KnowledgeChunk)
    → is_searchable organization_id db c ≡ true
    → IsIn c db.knowledge_chunks
    → IsOffered organization_id db c
unfolding is_searchable
searchable-IsOffered organization_id db c h known = (
  ground (arith, h),
  known,
  any_of-Exists (Offers organization_id c.document_id)
      (is_published_for organization_id c.document_id) db.knowledge_documents
      (λ d e. (
        ground (arith, e),
        ground (arith, e),
        ground (arith, e),
        completed_status d.status (ground (arith, e)),
      ))
      (ground (arith, h)),
)

-- What a search may return.
abbrev pub AllSearchable : ℕ → Db → Result (List KnowledgeChunk) → Type 0
AllSearchable organization_id db (raised e) = Unit
AllSearchable organization_id db (ok chunks) = All (IsOffered organization_id db) chunks

-- A search returns rows of those that it is given.
abbrev pub IsSearch : {V : Type 0} → (V → List KnowledgeChunk → List KnowledgeChunk) → Type 1
IsSearch {V} nearest =
    (P : KnowledgeChunk → Type 0) (vector : V) (chunks : List KnowledgeChunk)
    → All P chunks
    → All P (nearest vector chunks)

module _ {V : Type 0} (nearest : V → List KnowledgeChunk → List KnowledgeChunk)
    (search : IsSearch nearest) (settings : AiSettings) (payer : Payer) where
  SameTables : World → World → Type 0
  SameTables w v =
      (v.session.knowledge_documents ≡ w.session.knowledge_documents)
      × (v.session.knowledge_chunks ≡ w.session.knowledge_chunks)

  search_chunks-Searchable :
      (r : Result (AiResponse V)) (w v : World)
      → SameTables w v
      → AllSearchable payer.organization_id w.session
          (continue r
            (λ response. gets (search_chunks nearest payer.organization_id response.value))
            v).0
  unfolding search_chunks SameTables is_searchable
  search_chunks-Searchable (raised e) w v same = tt
  search_chunks-Searchable (ok response) w v same =
      rw (same.0, same.1)
        (search (IsOffered payer.organization_id w.session) response.value _ (
          All-narrow (λ c. IsIn c w.session.knowledge_chunks)
            (IsOffered payer.organization_id w.session)
            (is_searchable payer.organization_id w.session) w.session.knowledge_chunks
            (searchable-IsOffered payer.organization_id w.session)
            (All-IsIn w.session.knowledge_chunks)))

  -- Where the search returns rows of those that it is given, retrieval returns only passages of the table that
  -- are the caller's organization's, of documents of that organization that are published and completed.
  pub retrieve-Searchable :
      (embed : ℕ → Attempt V) (w : World)
      → AllSearchable payer.organization_id w.session (retrieve nearest settings payer embed w).0
  unfolding retrieve SameTables
  retrieve-Searchable embed w =
      elim (Bool-cases (not (has_published_chunks payer.organization_id w.session))) [
        | inl nothing ↦ rw nothing tt
        | inr some' ↦ rw some' (
            search_chunks-Searchable (run settings (embedding settings payer) embed w).0 w _ (
              run-Preserves (SameTables w) settings (embedding settings payer) embed (λ rows v h. h)
                w (refl, refl)))
      ]
