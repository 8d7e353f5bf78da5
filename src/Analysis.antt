-- ===== src/Analysis.antt =====
-- backend/app/services/ai_analysis_service.py: queueing a ticket's analysis.
pub mod Coverage
pub mod OnDemand
pub mod Freshness
pub mod InFlight
use support_flow.Prelude.{
  ℕ, suc, Bool, true, false, not, some, none, List, [], ◌∷◌, ◌++◌, map, ◌&&◌, ◌==◌, any_of, select,
}
use support_flow.Enums.{AiOperation, ProcessingStatus, AuditAction}
use support_flow.Tenancy.{TenantContext}
use support_flow.Db.{Ticket, AiAnalysis, AuditMetadata, Db}
use support_flow.Errors.{ok}
use support_flow.Session.{Effect, App, ◌>>=◌, ◌>>◌, pure, gets, emit, commit_session}
use support_flow.Audit.{record_for}

abbrev pub operation_index : AiOperation → ℕ
operation_index AiOperation.classify = 0
operation_index AiOperation.sentiment = 1
operation_index AiOperation.summarize = 2
operation_index AiOperation.suggest_response = 3
operation_index AiOperation.embed = 4
operation_index AiOperation.knowledge_answer = 5

abbrev pub same_operation : AiOperation → AiOperation → Bool
same_operation a b = operation_index a == operation_index b

-- ANALYSIS_OPERATIONS
abbrev pub analysis_operations : List AiOperation
analysis_operations = AiOperation.classify ∷ AiOperation.sentiment ∷ []

abbrev pub is_in_flight : ProcessingStatus → Bool
is_in_flight ProcessingStatus.pending = true
is_in_flight ProcessingStatus.processing = true
is_in_flight _ = false

-- ai_repository.in_flight_analyses
unfoldable pub in_flight_analyses : Ticket → Db → List AiAnalysis
in_flight_analyses t db = select (λ a. a.ticket_id == t.id && is_in_flight a.status) db.ai_analyses

unfoldable pub uncovered : List AiAnalysis → List AiOperation
uncovered in_flight =
    select (λ o. not (any_of (λ (a : AiAnalysis). same_operation a.operation o) in_flight))
      analysis_operations

abbrev pub new_analysis : ℕ → ℕ → Ticket → ℕ → AiOperation → AiAnalysis
new_analysis id organization_id t now operation = record {
  id = id;
  organization_id = organization_id;
  ticket_id = t.id;
  operation = operation;
  status = ProcessingStatus.pending;
  result = none;
  error_message = none;
  prompt_tokens = none;
  completion_tokens = none;
  created_at = now;
  updated_at = now;
  completed_at = none;
}

unfoldable pub add_analysis : ℕ → Ticket → ℕ → AiOperation → App AiAnalysis
add_analysis organization_id t now operation w =
    let db = w.session in
    let a = new_analysis db.next_id organization_id t now operation in
    (
      ok a,
      record w {
        session = record db { ai_analyses = db.ai_analyses ++ a ∷ []; next_id = suc db.next_id };
      },
    )

unfoldable pub add_analyses : ℕ → Ticket → ℕ → List AiOperation → App (List AiAnalysis)
unfolding add_analysis
add_analyses organization_id t now [] = pure []
add_analyses organization_id t now (o ∷ os) = do
  a ← add_analysis organization_id t now o
  rest ← add_analyses organization_id t now os
  pure (a ∷ rest)

-- The operations that nothing in flight covers are queued. Where there are none, nothing is written,
-- committed or queued.
unfoldable pub queue_missing :
    TenantContext → Ticket → ℕ → List AiAnalysis → List AiOperation → App (List AiAnalysis)
unfolding add_analyses record_for
queue_missing context t now in_flight [] = pure in_flight
queue_missing context t now in_flight (o ∷ os) = do
  created ← add_analyses context.organization_id t now (o ∷ os)
  record_for context AuditAction.ai_analysis_requested "ticket" t.id none none
      (some (AuditMetadata.operations (o ∷ os)))
  commit_session
  emit (Effect.analyze t.id (map (λ a. a.id) created))
  pure (in_flight ++ created)

unfoldable pub request_analysis : TenantContext → Ticket → ℕ → App (List AiAnalysis)
unfolding queue_missing uncovered in_flight_analyses
request_analysis context t now = do
  in_flight ← gets (in_flight_analyses t)
  queue_missing context t now in_flight (uncovered in_flight)
