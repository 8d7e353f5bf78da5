-- ===== src/Knowledge/Ingestion.antt =====
-- The worker of backend/app/services/knowledge_service.py, from a pending document to its passages, with the
-- claims of backend/app/repositories/knowledge_repository.py. `now` is the instant of the run.
use support_flow.Prelude.{
  ℕ, zero, suc, ◌+◌, ◌/◌, String, Bool, true, false, Option, none, some, List, [], ◌∷◌, ◌++◌, ◌&&◌,
  ◌==◌, ltb, length, take, map, any_of, update_where,
}
use support_flow.Text.{Text, codes, drop}
use support_flow.Text.Utf8.{Bytes, encode_utf8}
use support_flow.Document.{Reading, read, refused, TextChunk, chunk}
use support_flow.Document.Extract.{Readers, extract}
use support_flow.Enums.{is_pending, is_processing, ProcessingStatus}
use support_flow.Errors.{AppError, Result, ok, raised}
use support_flow.Db.{DocumentSourceType, IngestionFailure, KnowledgeDocument, KnowledgeChunk, Db}
use support_flow.Session.{App, ◌>>=◌, ◌>>◌, pure, raise, modify, commit_session, caught}
use support_flow.AiCalls.{AiSettings, Payer, Attempt, run, embedding}
use support_flow.FileValidation.{AllowedType, type_of}
use support_flow.UrlFetch.{Network, Fetch, fetched, crashed, FetchedPage, fetch}
use support_flow.Knowledge.{load_document}

-- The network, the object that `read_object` brings, and the suffix of a name's last component in lower case,
-- as pathlib says it.
pub record Sources : Type 0 where
  pub network : Network
  pub read_object : String → Option Bytes
  pub suffix : String → String

-- A value, one of the exceptions in `_FAILURES`, or an exception that is not.
pub data Sourced (A : Type 0) : Type 0 where
  sourced : A → Sourced A
  no_source : IngestionFailure → Sourced A
  escaped : Sourced A

-- `extract`, whose exception names the reason.
abbrev of_reading : {A : Type 0} → Reading A → Sourced A
of_reading (read a) = sourced a
of_reading (refused e) = no_source (IngestionFailure.unreadable e)

abbrev extract_page : Readers → Fetch FetchedPage → Sourced Text
extract_page readers (fetched page) = of_reading (extract readers page.body page.content_type)
extract_page readers (Fetch.refused e) = no_source IngestionFailure.not_fetched
extract_page readers crashed = escaped

abbrev extract_object : Readers → String → Option Bytes → Sourced Text
extract_object readers media_type none = no_source IngestionFailure.storage_unavailable
extract_object readers media_type (some bytes) =
    of_reading (extract readers bytes (codes media_type))

abbrev stored_text : Readers → Sources → String → Option AllowedType → Sourced Text
stored_text readers sources reference none = no_source IngestionFailure.unknown_type
stored_text readers sources reference (some t) =
    extract_object readers t.media_type (sources.read_object reference)

-- The branches of `_source_text` on a reference.
abbrev referenced_text : Readers → Sources → DocumentSourceType → String → Sourced Text
referenced_text readers sources DocumentSourceType.url reference =
    extract_page readers (fetch sources.network (codes reference)).0
referenced_text readers sources _ reference =
    stored_text readers sources reference (type_of (sources.suffix reference))

abbrev some_reference : Readers → Sources → DocumentSourceType → Option String → Sourced Text
some_reference readers sources source_type none = no_source IngestionFailure.no_source
some_reference readers sources source_type (some reference) =
    referenced_text readers sources source_type reference

-- `_source_text`
unfoldable pub source_text : Readers → Sources → KnowledgeDocument → Sourced Text
unfolding extract type_of encode_utf8 fetch
source_text readers sources d = elim d.source_type [
  | DocumentSourceType.manual ↦
      of_reading (extract readers (encode_utf8 d.content) (codes "text/plain"))
  | source_type ↦ some_reference readers sources source_type d.source_reference
]

abbrev pub some_passages : Text → Reading (List TextChunk) → Sourced (Text × List TextChunk)
some_passages text (refused e) = no_source (IngestionFailure.unreadable e)
some_passages text (read []) = no_source IngestionFailure.no_passages
some_passages text (read (p ∷ ps)) = sourced (text, p ∷ ps)

abbrev pub cut : Sourced Text → Sourced (Text × List TextChunk)
cut (no_source e) = no_source e
cut escaped = escaped
cut (sourced text) = some_passages text (chunk text)

-- The text and its passages, or why there are none.
unfoldable pub passages_of : Readers → Sources → KnowledgeDocument → Sourced (Text × List TextChunk)
unfolding source_text chunk
passages_of readers sources d = cut (source_text readers sources d)

abbrev pub embedding_batch_size : ℕ
embedding_batch_size = 64

-- `_embed`, batch by batch; `embed` is the provider on a batch of texts at an attempt.
module _ {V : Type 0} (embed : List Text → ℕ → Attempt (List V)) (settings : AiSettings)
    (payer : Payer) where
  unfoldable pub embed_batches : ℕ → List TextChunk → App (List V)
  unfolding run drop
  embed_batches zero passages = pure []
  embed_batches (suc left) passages = do
    embedded ←
        run settings (embedding settings payer)
          (embed (map (λ p. p.content) (take embedding_batch_size passages)))
    vectors ← embed_batches left (drop embedding_batch_size passages)
    pure (embedded.value ++ vectors)

  -- `range(0, len(passages), EMBEDDING_BATCH_SIZE)` has this many members.
  unfoldable pub embed_passages : List TextChunk → App (List V)
  unfolding embed_batches
  embed_passages passages = embed_batches ((length passages + 63) / embedding_batch_size) passages

abbrev pub chunk_row : String → KnowledgeDocument → ℕ → TextChunk → KnowledgeChunk
chunk_row model d id p = record {
  id = id;
  organization_id = d.organization_id;
  document_id = d.id;
  chunk_index = p.index;
  content = p.content;
  embedded = true;
  embedding_model = some model;
  token_count = p.token_count;
}

-- `zip(passages, vectors, strict=True)` with the row of each pair.
unfoldable pub chunk_rows :
    {V : Type 0}
    → String
    → KnowledgeDocument
    → ℕ
    → List TextChunk
    → List V
    → Option (List KnowledgeChunk)
chunk_rows model d id [] [] = some []
chunk_rows model d id [] (v ∷ vs) = none
chunk_rows model d id (p ∷ ps) [] = none
chunk_rows model d id (p ∷ ps) (v ∷ vs) = elim (chunk_rows model d (suc id) ps vs) [
  | none ↦ none
  | some rows ↦ some (chunk_row model d id p ∷ rows)
]

abbrev pub is_claimable : ℕ → ℕ → KnowledgeDocument → Bool
is_claimable organization_id document_id d =
    d.id == document_id && d.organization_id == organization_id && is_pending d.status

abbrev pub claimed : ℕ → KnowledgeDocument → KnowledgeDocument
claimed now d = record d { status = ProcessingStatus.processing; updated_at = now }

unfoldable pub claim_pending_document : ℕ → ℕ → ℕ → App Bool
claim_pending_document organization_id document_id now w =
    let db = w.session in
    (
      ok (any_of (is_claimable organization_id document_id) db.knowledge_documents),
      record w {
        session = record db {
          knowledge_documents =
              update_where (is_claimable organization_id document_id) (claimed now)
                db.knowledge_documents;
        };
      },
    )

-- The flush of one changed document.
unfoldable pub save_document : KnowledgeDocument → Db → Db
save_document d db = record db {
  knowledge_documents = update_where (λ e. e.id == d.id) (λ _. d) db.knowledge_documents;
}

abbrev pub failed_document : KnowledgeDocument → IngestionFailure → ℕ → KnowledgeDocument
failed_document d reason now = record d {
  status = ProcessingStatus.failed;
  error_message = some reason;
  chunk_count = 0;
  is_published = false;
  updated_at = now;
}

abbrev pub completed_document : KnowledgeDocument → Text → ℕ → ℕ → KnowledgeDocument
completed_document d text chunk_count now = record d {
  content = text;
  chunk_count = chunk_count;
  status = ProcessingStatus.completed;
  processed_at = some now;
  error_message = none;
  is_published = true;
  updated_at = now;
}

-- What `run_ingestion` returns.
pub data Ingestion : Type 0 where
  missing skipped failed : Ingestion
  completed : ℕ → Ingestion

-- `_fail` and the return after it.
unfoldable pub fail_document : KnowledgeDocument → IngestionFailure → ℕ → App Ingestion
unfolding save_document
fail_document d reason now = do
  modify (save_document (failed_document d reason now))
  commit_session
  pure Ingestion.failed

unfoldable pub add_chunks : List KnowledgeChunk → Db → Db
add_chunks rows db = record db {
  knowledge_chunks = db.knowledge_chunks ++ rows;
  next_id = db.next_id + length rows;
}

-- The end of `run_ingestion`; `zip` raises where the lengths differ.
unfoldable pub complete_document :
    KnowledgeDocument → Text → ℕ → ℕ → Option (List KnowledgeChunk) → App Ingestion
unfolding add_chunks save_document
complete_document d text chunk_count now none = raise AppError.internal_server_error
complete_document d text chunk_count now (some rows) = do
  modify (add_chunks rows)
  modify (save_document (completed_document d text chunk_count now))
  commit_session
  pure (Ingestion.completed chunk_count)

-- The worker's WorkerContext.
abbrev pub ingester : ℕ → Payer
ingester organization_id = record {
  organization_id = organization_id;
  user_id = none;
  ticket_id = none;
}

module _ {V : Type 0} (readers : Readers) (sources : Sources)
    (embed : List Text → ℕ → Attempt (List V)) (settings : AiSettings)
    (organization_id now : ℕ) where
  -- What follows `_embed`: its vectors, or AIServiceError.
  unfoldable pub with_vectors :
      KnowledgeDocument → Text → List TextChunk → Result (List V) → App Ingestion
  unfolding chunk_rows complete_document fail_document
  with_vectors d text passages (raised e) w = fail_document d IngestionFailure.ai_failed now w
  with_vectors d text passages (ok vectors) w =
      complete_document d text (length passages) now
        (chunk_rows settings.embedding_model d w.session.next_id passages vectors) w

  unfoldable pub ingest : KnowledgeDocument → Sourced (Text × List TextChunk) → App Ingestion
  unfolding embed_passages with_vectors fail_document
  ingest d (no_source reason) = fail_document d reason now
  ingest d escaped = raise AppError.internal_server_error
  ingest d (sourced (text, passages)) = do
    vectors ← caught (embed_passages embed settings (ingester organization_id) passages)
    with_vectors d text passages vectors

  unfoldable pub ingest_claimed : Bool → KnowledgeDocument → App Ingestion
  unfolding passages_of ingest
  ingest_claimed false d = pure Ingestion.skipped
  ingest_claimed true d = do commit_session; ingest d (passages_of readers sources d)

  unfoldable pub run_ingestion : ℕ → App Ingestion
  unfolding load_document claim_pending_document ingest_claimed
  run_ingestion document_id w = elim (load_document organization_id document_id w.session) [
    | none ↦ (ok Ingestion.missing, w)
    | some d ↦ (claim_pending_document organization_id d.id now >>= λ won. ingest_claimed won d) w
  ]

unfoldable pub fail_abandoned_documents : ℕ → ℕ → Db → Db
fail_abandoned_documents claimed_before now db = record db {
  knowledge_documents =
      update_where (λ d. is_processing d.status && ltb d.updated_at claimed_before)
        (λ d. failed_document d IngestionFailure.abandoned now) db.knowledge_documents;
}
