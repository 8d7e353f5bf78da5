-- ===== src/Knowledge/Retrieval.antt =====
-- `retrieve` of backend/app/services/knowledge_service.py with the searches of
-- backend/app/repositories/knowledge_repository.py. What pgvector does, the passages near enough to a
-- vector in the order of their distance, is an argument.
use support_flow.Prelude.{ℕ, Bool, not, List, [], ◌&&◌, ◌==◌, any_of, select, if◌then◌else◌}
use support_flow.Enums.{is_completed}
use support_flow.Errors.{ok}
use support_flow.Db.{KnowledgeDocument, KnowledgeChunk, Db}
use support_flow.Session.{App, ◌>>=◌, gets}
use support_flow.AiCalls.{AiSettings, Payer, Attempt, run, embedding}

-- The document's half of both queries.
abbrev pub is_published_for : ℕ → ℕ → KnowledgeDocument → Bool
is_published_for organization_id document_id d =
    d.id == document_id
    && d.organization_id == organization_id
    && d.is_published
    && is_completed d.status

-- The join and the filter of both queries.
unfoldable pub is_searchable : ℕ → Db → KnowledgeChunk → Bool
is_searchable organization_id db c =
    c.organization_id == organization_id
    && any_of (is_published_for organization_id c.document_id) db.knowledge_documents

unfoldable pub has_published_chunks : ℕ → Db → Bool
unfolding is_searchable
has_published_chunks organization_id db =
    any_of (λ (c : KnowledgeChunk). c.embedded && is_searchable organization_id db c)
      db.knowledge_chunks

module _ {V : Type 0} (nearest : V → List KnowledgeChunk → List KnowledgeChunk) where
  unfoldable pub search_chunks : ℕ → V → Db → List KnowledgeChunk
  unfolding is_searchable
  search_chunks organization_id vector db =
      nearest vector (select (is_searchable organization_id db) db.knowledge_chunks)

  unfoldable pub retrieve : AiSettings → Payer → (ℕ → Attempt V) → App (List KnowledgeChunk)
  unfolding has_published_chunks search_chunks run
  retrieve settings payer embed w =
      if not (has_published_chunks payer.organization_id w.session)
      then (ok [], w)
      else (run settings (embedding settings payer) embed >>= λ response.
            gets (search_chunks payer.organization_id response.value))
          w
