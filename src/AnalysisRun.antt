-- ===== src/AnalysisRun.antt =====
-- The claims of backend/app/repositories/ai_repository.py and the rows that the worker of
-- backend/app/services/ai_analysis_service.py writes; its run stands in Worker.
-- `now` is the instant of the run; the prompts are not modelled, so that a provider is a function of the
-- analysis and the attempt.
pub mod Worker
pub mod Rows
pub mod AiErrors
pub mod Outcomes
pub mod Backing
pub mod Redelivery
pub mod Privacy
use support_flow.Prelude.{
  ℕ, zero, suc, ◌+◌, ◌-◌, String, Bool, true, false, not, Option, none, some, List, [], ◌∷◌, ◌++◌,
  map, ◌&&◌, ◌==◌, leb, ltb, is_some, elem, any_of, length, select, find?, update_where, order_by,
  if◌then◌else◌,
}
use support_flow.Enums.{
  is_pending, is_processing, AiOperation, ProcessingStatus, SenderType, TicketPriority,
  TicketEventType, NotificationType, Sentiment,
}
use support_flow.Errors.{AppError, Result, ok, raised}
use support_flow.Db.{
  Ticket, TicketEvent, Json, Message, Notification, Title, AiAnalysis, AiResult, KnowledgeChunk, Db,
}
use support_flow.Session.{
  Effect, World, App, ◌>>=◌, ◌>>◌, pure, gets, modify, emit, commit_session, caught,
}
use support_flow.Notifications.{add_notification}
use support_flow.Tickets.{save_ticket, publish}
use support_flow.Analysis.{operation_index, same_operation, analysis_operations}
use support_flow.AiCalls.{AiSettings, Payer, Attempt, AiResponse, run, generation}
use support_flow.Knowledge.Retrieval.{retrieve}

-- The schemas of backend/app/schemas/ai.py, without confidences.
pub record Classification : Type 0 where
  pub category : String
  pub subcategory : Option String
  pub priority : TicketPriority

-- What the provider answers to the call for an analysis, by its id, at an attempt; and pgvector's search.
pub record Provider (V : Type 0) : Type 0 where
  pub classify_ticket : ℕ → ℕ → Attempt Classification
  pub analyze_sentiment : ℕ → ℕ → Attempt Sentiment
  pub summarize_conversation : ℕ → ℕ → Attempt String
  pub generate_response : ℕ → ℕ → Attempt String
  pub generate_embedding : ℕ → ℕ → Attempt V
  pub nearest : V → List KnowledgeChunk → List KnowledgeChunk

-- `_Outcome`
pub record Outcome : Type 0 where
  pub payload : AiResult
  pub prompt_tokens : ℕ
  pub completion_tokens : ℕ

-- `_reduced`
abbrev pub reduced : {A : Type 0} → (A → AiResult) → AiResponse A → Outcome
reduced payload r = record {
  payload = payload r.value;
  prompt_tokens = r.prompt_tokens;
  completion_tokens = r.completion_tokens;
}

-- ai_repository.load_ticket
unfoldable pub load_ticket : ℕ → ℕ → Db → Option Ticket
load_ticket organization_id ticket_id db =
    find? (λ t. t.id == ticket_id && t.organization_id == organization_id) db.tickets

abbrev pub is_owned : ℕ → List ℕ → AiAnalysis → Bool
is_owned organization_id ids a = elem a.id ids && a.organization_id == organization_id

-- ai_repository.owned_analysis_ids
unfoldable pub owned_analysis_ids : ℕ → List ℕ → Db → List ℕ
owned_analysis_ids organization_id ids db =
    map (λ a. a.id) (select (is_owned organization_id ids) db.ai_analyses)

abbrev pub is_claimable : ℕ → List ℕ → AiAnalysis → Bool
is_claimable organization_id ids a = is_owned organization_id ids a && is_pending a.status

abbrev pub claimed : ℕ → AiAnalysis → AiAnalysis
claimed now a = record a { status = ProcessingStatus.processing; updated_at = now }

-- ai_repository.claim_pending_analyses, with the ids of the rows that it moved
unfoldable pub claim_pending_analyses : ℕ → List ℕ → ℕ → App (List ℕ)
claim_pending_analyses organization_id ids now w =
    let db = w.session in
    (
      ok (map (λ a. a.id) (select (is_claimable organization_id ids) db.ai_analyses)),
      record w {
        session = record db {
          ai_analyses =
              update_where (is_claimable organization_id ids) (claimed now) db.ai_analyses;
        };
      },
    )

-- ai_repository.load_analyses
unfoldable pub load_analyses : ℕ → List ℕ → Db → List AiAnalysis
load_analyses organization_id ids db =
    order_by (λ a b. leb (operation_index a.operation) (operation_index b.operation))
      (select (is_owned organization_id ids) db.ai_analyses)

-- The flush of one changed analysis.
unfoldable pub save_analysis : AiAnalysis → Db → Db
save_analysis a db = record db {
  ai_analyses = update_where (λ b. b.id == a.id) (λ _. a) db.ai_analyses;
}

-- `_complete`
unfoldable pub complete : AiAnalysis → Outcome → ℕ → AiAnalysis
complete a outcome now = record a {
  status = ProcessingStatus.completed;
  result = some outcome.payload;
  prompt_tokens = some outcome.prompt_tokens;
  completion_tokens = some outcome.completion_tokens;
  completed_at = some now;
  updated_at = now;
}

-- `_fail`
unfoldable pub fail : AiAnalysis → String → ℕ → AiAnalysis
fail a message now = record a {
  status = ProcessingStatus.failed;
  error_message = some message;
  completed_at = some now;
  updated_at = now;
}

-- The draft of `_execute`, for staff only.
unfoldable pub add_draft : Ticket → String → ℕ → App Unit
add_draft t body now w =
    let db = w.session in
    let m : Message = record {
      id = db.next_id;
      organization_id = t.organization_id;
      ticket_id = t.id;
      sender_type = SenderType.ai_draft;
      sender_user_id = none;
      body = body;
      is_internal = true;
      created_at = now;
    } in
    (
      ok tt,
      record w {
        session = record db { messages = db.messages ++ m ∷ []; next_id = suc db.next_id };
      },
    )

-- ai_repository.fail_abandoned_claims
abbrev pub is_abandoned : ℕ → AiAnalysis → Bool
is_abandoned claimed_before a = is_processing a.status && ltb a.updated_at claimed_before

abbrev pub abandoned : ℕ → AiAnalysis → AiAnalysis
abandoned now a = record a {
  status = ProcessingStatus.failed;
  error_message = some "The worker running this analysis stopped before it finished.";
  completed_at = some now;
  updated_at = now;
}

unfoldable pub fail_abandoned_claims : ℕ → ℕ → Db → Db
fail_abandoned_claims claimed_before now db = record db {
  ai_analyses = update_where (is_abandoned claimed_before) (abandoned now) db.ai_analyses;
}
