-- ===== src/Analysis/OnDemand.antt =====
-- `request_summary` and `request_suggested_response` of backend/app/services/ai_analysis_service.py, with what
-- they read through backend/app/repositories/ai_repository.py. `made_by` gives the model of a stored row, with
-- its rate: a column that the table leaves out.
use support_flow.Prelude.{
  ℕ, String, Bool, true, false, not, Option, none, some, List, [], ◌∷◌, ◌&&◌, ◌==◌, leb, any_of,
  length, select, find?, order_by, if◌then◌else◌,
}
use support_flow.Enums.{is_completed, AiOperation, AuditAction, SenderType}
use support_flow.Errors.{AppError}
use support_flow.Tenancy.{TenantContext}
use support_flow.Db.{Ticket, Message, AiAnalysis, AuditMetadata, Db}
use support_flow.Session.{Effect, App, ◌>>=◌, ◌>>◌, pure, gets, emit, commit_session, require}
use support_flow.Audit.{record_for}
use support_flow.AiCalls.{ModelRate, record_cache_hit}
use support_flow.Analysis.{same_operation, in_flight_analyses, add_analysis}

-- The rows of one operation that are on their way.
unfoldable pub in_flight_of : AiOperation → Ticket → Db → List AiAnalysis
unfolding in_flight_analyses
in_flight_of operation t db =
    select (λ a. same_operation a.operation operation) (in_flight_analyses t db)

-- _CONVERSATION_SENDERS
abbrev pub is_conversation_sender : SenderType → Bool
is_conversation_sender SenderType.customer = true
is_conversation_sender SenderType.agent = true
is_conversation_sender _ = false

unfoldable pub conversation : Ticket → Db → List Message
conversation t db =
    select
      (λ m.
        m.ticket_id == t.id
        && m.organization_id == t.organization_id
        && is_conversation_sender m.sender_type)
      db.messages

abbrev pub later : ℕ → Option ℕ → ℕ
later c none = c
later c (some n) = if leb n c then c else n

-- `max(created_at)`
unfoldable pub newest_of : List Message → Option ℕ
newest_of [] = none
newest_of (m ∷ ms) = some (later m.created_at (newest_of ms))

pub record ConversationWatermark : Type 0 where
  pub count : ℕ
  pub newest : Option ℕ

unfoldable pub conversation_watermark : Ticket → Db → ConversationWatermark
unfolding conversation newest_of
conversation_watermark t db = record {
  count = length (conversation t db);
  newest = newest_of (conversation t db);
}

abbrev pub completed_for : AiOperation → Ticket → AiAnalysis → Bool
completed_for operation t a =
    a.ticket_id == t.id && same_operation a.operation operation && is_completed a.status

unfoldable pub latest_completed_summary : Ticket → Db → Option AiAnalysis
latest_completed_summary t db =
    find? (λ a. true)
      (order_by (λ a b. leb b.created_at a.created_at)
        (select (completed_for AiOperation.summarize t) db.ai_analyses))

unfoldable pub has_completed_suggestion : Ticket → Db → Bool
has_completed_suggestion t db = any_of (completed_for AiOperation.suggest_response t) db.ai_analyses

abbrev pub is_current : Option ℕ → AiAnalysis → Bool
is_current none a = true
is_current (some n) a = leb n a.created_at

-- The stored summary, where no message is newer.
abbrev pub current_summary : Option ℕ → Option AiAnalysis → Option AiAnalysis
current_summary newest none = none
current_summary newest (some a) = if is_current newest a then some a else none

-- A new row, audited, committed and handed to the worker.
unfoldable pub queue_one :
    TenantContext → Ticket → ℕ → AiOperation → AuditAction → AuditMetadata → App AiAnalysis
unfolding add_analysis record_for
queue_one context t now operation action metadata = do
  created ← add_analysis context.organization_id t now operation
  record_for context action "ticket" t.id none none (some metadata)
  commit_session
  emit (Effect.analyze t.id (created.id ∷ []))
  pure created

module _ (made_by : AiAnalysis → String × ModelRate) where
  unfoldable pub reuse_summary : TenantContext → Ticket → AiAnalysis → App AiAnalysis
  unfolding record_for record_cache_hit
  reuse_summary context t stored = do
    record_for context AuditAction.ai_analysis_requested "ticket" t.id none none
        (some (AuditMetadata.cached (AiOperation.summarize ∷ []) true))
    record_cache_hit (record {
      payer = record {
        organization_id = context.organization_id;
        user_id = some context.user_id;
        ticket_id = some t.id;
      };
      operation = AiOperation.summarize;
      model = (made_by stored).0;
      rate = (made_by stored).1;
    })
    commit_session
    emit (Effect.invalidate context.organization_id)
    pure stored

  unfoldable pub reuse_or_queue : TenantContext → Ticket → ℕ → Option AiAnalysis → App AiAnalysis
  unfolding reuse_summary queue_one
  reuse_or_queue context t now (some stored) = reuse_summary context t stored
  reuse_or_queue context t now none =
      queue_one context t now AiOperation.summarize AuditAction.ai_analysis_requested
        (AuditMetadata.cached (AiOperation.summarize ∷ []) false)

  -- `request_summary` with what is in flight.
  unfoldable pub summary_of : TenantContext → Ticket → ℕ → List AiAnalysis → App AiAnalysis
  unfolding conversation_watermark latest_completed_summary reuse_or_queue
  summary_of context t now (a ∷ in_flight) = pure a
  summary_of context t now [] = do
    watermark ← gets (conversation_watermark t)
    require (not (watermark.count == 0)) AppError.validation_error
    stored ← gets (latest_completed_summary t)
    reuse_or_queue context t now (current_summary watermark.newest stored)

  unfoldable pub request_summary : TenantContext → Ticket → ℕ → App AiAnalysis
  unfolding in_flight_of summary_of
  request_summary context t now = do
    in_flight ← gets (in_flight_of AiOperation.summarize t)
    summary_of context t now in_flight

-- `request_suggested_response` with what is in flight.
unfoldable pub suggestion_of : TenantContext → Ticket → ℕ → List AiAnalysis → App AiAnalysis
unfolding has_completed_suggestion queue_one
suggestion_of context t now (a ∷ in_flight) = pure a
suggestion_of context t now [] = do
  regenerating ← gets (has_completed_suggestion t)
  queue_one context t now AiOperation.suggest_response
      (if regenerating
        then AuditAction.ai_response_regenerated
        else AuditAction.ai_analysis_requested)
      (AuditMetadata.operations (AiOperation.suggest_response ∷ []))

unfoldable pub request_suggested_response : TenantContext → Ticket → ℕ → App AiAnalysis
unfolding in_flight_of suggestion_of
request_suggested_response context t now = do
  in_flight ← gets (in_flight_of AiOperation.suggest_response t)
  suggestion_of context t now in_flight
