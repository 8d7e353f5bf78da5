-- ===== src/Knowledge/Creation.antt =====
-- What `create_manual` and `create_from_url` of backend/app/services/knowledge_service.py leave for the worker.
use support_flow.Prelude.{
  ℕ, ◌≡◌, ◌<◌, ◌≤◌, ◌⊎◌, inl, inr, refl, false, String, Option, none, some, List, [], ◌∷◌, ◌++◌,
  ◌&&◌, ◌==◌, ==_refl, ltb, length, find?, All, Bool-cases, Option-cases, arith,
}
use support_flow.Text.{Text, codes}
use support_flow.Enums.{ProcessingStatus}
use support_flow.Errors.{AppError, Result, ok, raised}
use support_flow.Tenancy.{TenantContext}
use support_flow.Db.{DocumentSourceType, KnowledgeDocument, Db}
use support_flow.Session.{Effect, World}
use support_flow.Knowledge.{
  KnowledgeDocumentCreate, max_source_reference_chars, load_document, new_document, insert_document,
  enqueue_ingestion, register, create_manual, create_from_url,
}

-- The next key is above those of the documents.
abbrev pub IsFresh : Db → Type 0
IsFresh db = All (λ d. d.id < db.next_id) db.knowledge_documents

-- A row that is added with a key of its own is the one that its key finds.
find-added :
    (organization_id id : ℕ) (ds : List KnowledgeDocument) (d : KnowledgeDocument)
    → All (λ e. e.id < id) ds
    → d.id ≡ id
    → d.organization_id ≡ organization_id
    → find? (λ e. e.id == id && e.organization_id == organization_id) (ds ++ d ∷ []) ≡ some d
find-added organization_id id [] d h key org =
    rw (key, org, ==_refl id, ==_refl organization_id) refl
find-added organization_id id (e ∷ ds) d h key org =
    let other : (e.id == id) ≡ false = ground (arith, h.0) in
    rw other (find-added organization_id id ds d h.1 key org)

-- The document of an accepted body, as the committed state has it when its task is queued.
abbrev pub IsQueued : TenantContext → World → KnowledgeDocument → World → Type 0
IsQueued context w d w' =
    (load_document context.organization_id d.id w'.committed ≡ some d)
    × (w'.session.knowledge_documents ≡ w.session.knowledge_documents ++ d ∷ [])
    × (w'.committed ≡ w'.session)
    × (w'.effects ≡ (w.effects ++ Effect.commit ∷ []) ++ Effect.ingest d.id ∷ [])
    × (d.organization_id ≡ context.organization_id)
    × (d.created_by_id ≡ some context.user_id)
    × (d.status ≡ ProcessingStatus.pending)
    × (d.is_published ≡ false)

-- A body is accepted, and `Holds` of its document; or `Lacks` says why not, and nothing is done.
abbrev pub Created :
    TenantContext
    → (KnowledgeDocument → Type 0)
    → Type 0
    → World
    → Result KnowledgeDocument
    → World
    → Type 0
Created context Holds Lacks w (ok d) w' = Holds d × IsQueued context w d w'
Created context Holds Lacks w (raised e) w' = Lacks × (e ≡ AppError.validation_error) × (w' ≡ w)

abbrev pub IsManual : KnowledgeDocumentCreate → KnowledgeDocument → Type 0
IsManual payload d =
    (payload.content ≡ some d.content)
    × (d.title ≡ payload.title)
    × (d.source_type ≡ DocumentSourceType.manual)
    × (d.source_reference ≡ none)

-- A URL that the column can hold.
abbrev pub IsUrl : KnowledgeDocumentCreate → KnowledgeDocument → Type 0
IsUrl payload d =
    (url : String) × ((payload.url ≡ some url)
      × (d.source_reference ≡ some url)
      × (length (codes url) ≤ max_source_reference_chars)
      × (d.title ≡ payload.title)
      × (d.source_type ≡ DocumentSourceType.url)
      × (d.content ≡ []))

-- There is no URL, or one that the column cannot hold.
abbrev pub LacksUrl : KnowledgeDocumentCreate → Type 0
LacksUrl payload =
    (payload.url ≡ none)
    ⊎ ((url : String) × ((payload.url ≡ some url)
          × (max_source_reference_chars < length (codes url))))

module _ (context : TenantContext) (now : ℕ) (w : World) (fresh : IsFresh w.session) where
  register-IsQueued :
      (title : String) (content : Text) (source_type : DocumentSourceType)
      (reference : Option String)
      → IsQueued context w
          (new_document context title content source_type reference now w.session.next_id)
          (register context title source_type none
            (new_document context title content source_type reference now)
            w).1
  unfolding register insert_document enqueue_ingestion load_document
  register-IsQueued title content source_type reference = (
    find-added context.organization_id w.session.next_id w.session.knowledge_documents
        (new_document context title content source_type reference now w.session.next_id) fresh refl
        refl,
    refl,
    refl,
    refl,
    refl,
    refl,
    refl,
    refl,
  )

  create_manual-Created :
      (payload : KnowledgeDocumentCreate)
      → Created context
          (IsManual payload)
          (payload.content ≡ none)
          w
          (create_manual context payload now w).0
          (create_manual context payload now w).1
  unfolding create_manual register insert_document enqueue_ingestion
  create_manual-Created payload = elim (Option-cases payload.content) [
    | inl none' ↦ rw none' (refl, refl, refl)
    | inr (content, there) ↦ rw there (
      (refl, refl, refl, refl),
      register-IsQueued payload.title content DocumentSourceType.manual none,
    )
  ]

  create_from_url-Created :
      (payload : KnowledgeDocumentCreate)
      → Created context
          (IsUrl payload)
          (LacksUrl payload)
          w
          (create_from_url context payload now w).0
          (create_from_url context payload now w).1
  unfolding create_from_url register insert_document enqueue_ingestion
  create_from_url-Created payload = elim (Option-cases payload.url) [
    | inl none' ↦ rw none' (inl refl, refl, refl)
    | inr (url, there) ↦ elim (Bool-cases (ltb max_source_reference_chars (length (codes url)))) [
      | inl long ↦ rw (there, long) (inr (url, (refl, ground (arith, long))), refl, refl)
      | inr short ↦
          rw (there, short)
            (
              (url, (refl, refl, ground (arith, short), refl, refl, refl)),
              register-IsQueued payload.title [] DocumentSourceType.url (some url),
            )
    ]
  ]

-- Where the next key is above those of the documents, a request for a document from text or from a URL has two
-- outcomes. It is refused with a validation error and changes nothing, and then the body has no text, or no
-- URL or one of more than 1,000 characters. Or the document of that text or URL, of at most 1,000 characters,
-- is added for the caller's organization, pending and unpublished, and all is committed before its task is
-- queued, with the key that finds the document in the committed state.
pub create-Created :
    (context : TenantContext) (payload : KnowledgeDocumentCreate) (now : ℕ) (w : World)
    → IsFresh w.session
    → Created context
        (IsManual payload)
        (payload.content ≡ none)
        w
        (create_manual context payload now w).0
        (create_manual context payload now w).1
      × Created context
          (IsUrl payload)
          (LacksUrl payload)
          w
          (create_from_url context payload now w).0
          (create_from_url context payload now w).1
create-Created context payload now w fresh = (
  create_manual-Created context now w fresh payload,
  create_from_url-Created context now w fresh payload,
)
