-- ===== src/Knowledge.antt =====
-- The documents of a knowledge base: the requests of backend/app/services/knowledge_service.py with
-- backend/app/repositories/knowledge_repository.py. Uploads and the searched list are not modelled.
pub mod Retrieval
pub mod Ingestion
pub mod Batches
pub mod Outcomes
pub mod Requests
pub mod Creation
pub mod Answer
pub mod Grounding
use text.Mathlib.Text.{◌==◌ as str_eq}
use support_flow.Prelude.{
  ℕ, suc, String, Bool, true, false, not, Option, none, some, List, [], ◌∷◌, ◌++◌, ◌&&◌, ◌==◌, ltb,
  length, select, find?, is_some, if◌then◌else◌,
}
use support_flow.Text.{Text, codes}
use support_flow.Enums.{AuditAction, ProcessingStatus}
use support_flow.Errors.{AppError, ErrorCode, ok, raised}
use support_flow.Tenancy.{TenantContext}
use support_flow.Db.{AuditMetadata, DocumentSourceType, KnowledgeDocument, KnowledgeChunk, Db}
use support_flow.Session.{
  Effect, World, App, ◌>>=◌, ◌>>◌, pure, raise, gets, modify, emit, commit_session, require,
  require_some,
}
use support_flow.Audit.{record_as, record_for}

abbrev pub max_source_reference_chars : ℕ
max_source_reference_chars = 1000

-- KnowledgeDocumentCreate, with the URL as it prints.
pub record KnowledgeDocumentCreate : Type 0 where
  pub title : String
  pub content : Option Text
  pub url : Option String

-- The validator `_exactly_one_source`.
unfoldable pub exactly_one_source : KnowledgeDocumentCreate → Bool
exactly_one_source payload = elim (is_some payload.content) [
  | true ↦ not (is_some payload.url)
  | false ↦ is_some payload.url
]

abbrev pub new_document :
    TenantContext → String → Text → DocumentSourceType → Option String → ℕ → ℕ → KnowledgeDocument
new_document context title content source_type source_reference now id = record {
  id = id;
  organization_id = context.organization_id;
  title = title;
  content = content;
  source_type = source_type;
  source_reference = source_reference;
  status = ProcessingStatus.pending;
  error_message = none;
  chunk_count = 0;
  is_published = false;
  created_by_id = some context.user_id;
  updated_at = now;
  processed_at = none;
}

-- The insert at the commit, which is where the database gives the row its id.
unfoldable pub insert_document : (ℕ → KnowledgeDocument) → App KnowledgeDocument
insert_document document w =
    let db = w.session in
    (
      ok (document db.next_id),
      record w {
        session = record db {
          knowledge_documents = db.knowledge_documents ++ document db.next_id ∷ [];
          next_id = suc db.next_id;
        };
      },
    )

-- A broker failure is logged and skipped.
unfoldable pub enqueue_ingestion : ℕ → App Unit
enqueue_ingestion document_id = emit (Effect.ingest document_id)

-- `_register` of a document that has not been flushed, whose insert is the commit's. `document.id` is a server
-- default, so that it is `none` until then. (An upload is flushed before, and is not modelled.)
unfoldable pub register :
    TenantContext
    → String
    → DocumentSourceType
    → Option ℕ
    → (ℕ → KnowledgeDocument)
    → App KnowledgeDocument
unfolding insert_document enqueue_ingestion
register context title source_type document_id document = do
  record_as context AuditAction.knowledge_document_created "knowledge_document" document_id none
      none (some (AuditMetadata.document title source_type))
  d ← insert_document document
  commit_session
  enqueue_ingestion d.id
  pure d

unfoldable pub create_manual : TenantContext → KnowledgeDocumentCreate → ℕ → App KnowledgeDocument
unfolding register
create_manual context payload now = do
  content ← require_some payload.content AppError.validation_error
  register context payload.title DocumentSourceType.manual none
      (new_document context payload.title content DocumentSourceType.manual none now)

unfoldable pub create_from_url : TenantContext → KnowledgeDocumentCreate → ℕ → App KnowledgeDocument
unfolding register
create_from_url context payload now = do
  url ← require_some payload.url AppError.validation_error
  require (not (ltb max_source_reference_chars (length (codes url)))) AppError.validation_error
  register context payload.title DocumentSourceType.url none
      (new_document context payload.title [] DocumentSourceType.url (some url) now)

-- `KnowledgeDocumentRepository.get`, and `load_document` of the worker.
unfoldable pub load_document : ℕ → ℕ → Db → Option KnowledgeDocument
load_document organization_id document_id db =
    find? (λ d. d.id == document_id && d.organization_id == organization_id) db.knowledge_documents

unfoldable pub get_document : TenantContext → ℕ → App KnowledgeDocument
unfolding load_document
get_document context document_id = do
  found ← gets (load_document context.organization_id document_id)
  require_some found (AppError.not_found_error ErrorCode.knowledge_document_not_found)

-- `KnowledgeDocumentRepository.delete`, with the cascade to the chunks.
unfoldable pub delete_rows : ℕ → ℕ → Db → Db
delete_rows organization_id document_id db = record db {
  knowledge_documents =
      select (λ d. not (d.id == document_id && d.organization_id == organization_id))
        db.knowledge_documents;
  knowledge_chunks = select (λ c. not (c.document_id == document_id)) db.knowledge_chunks;
}

-- `delete_object` of the store, which raises where it is not reached.
abbrev remove_object : Bool → String → App Unit
remove_object reached key = do
  require reached AppError.storage_unavailable_error
  emit (Effect.delete_object key)

-- Only an upload has an object in the store.
unfoldable pub delete_source : Bool → KnowledgeDocument → App Unit
delete_source reached d = elim d.source_type [
  | DocumentSourceType.upload ↦ elim d.source_reference [
    | none ↦ pure tt
    | some key ↦ if str_eq key "" then pure tt else remove_object reached key
  ]
  | _ ↦ pure tt
]

-- `reached` is whether the object store answers.
unfoldable pub delete_document : Bool → TenantContext → ℕ → App Unit
unfolding get_document delete_source delete_rows record_for
delete_document reached context document_id = do
  d ← get_document context document_id
  delete_source reached d
  record_for context AuditAction.knowledge_document_deleted "knowledge_document" d.id none none
      (some (AuditMetadata.document d.title d.source_type))
  modify (delete_rows context.organization_id d.id)
  commit_session
