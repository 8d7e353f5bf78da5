-- ===== src/Db.antt =====
-- The tables of backend/app/models that the modelled services read and write, and one database state.
-- A uuid is a number, a `timestamptz` the microseconds since the epoch. Rows keep the columns that
-- the services read; confidence scores (floats) and display columns are left out. `next_id` draws a
-- fresh primary key for each inserted row.
use support_flow.Prelude.{ℕ, String, Bool, Option, List}
use support_flow.Text.{Text}
use support_flow.Document.{DocumentTextError}
use support_flow.Enums.{
  UserRole, TicketStatus, TicketPriority, SenderType, ProcessingStatus, TicketEventType,
  AuditAction, NotificationType, AiOperation, Sentiment,
}

pub record Ticket : Type 0 where
  pub id : ℕ
  pub organization_id : ℕ
  pub number : ℕ
  pub customer_id : ℕ
  pub assigned_agent_id : Option ℕ
  pub subject : String
  pub description : String
  pub category : Option String
  pub status : TicketStatus
  pub priority : TicketPriority
  pub subcategory : Option String
  pub ai_recommended_priority : Option TicketPriority
  pub sentiment : Option Sentiment
  pub created_at : ℕ
  pub first_response_at : Option ℕ
  pub resolved_at : Option ℕ
  pub closed_at : Option ℕ

-- What the text of `from_value` and `to_value` renders.
pub data FieldValue : Type 0 where
  status : TicketStatus → FieldValue
  priority : TicketPriority → FieldValue
  user : ℕ → FieldValue

-- A value inside a JSONB column: a string, an instant in place of its ISO 8601 text (which is never
-- parsed back), a list of operations, or anything else.
pub data Json : Type 0 where
  text : String → Json
  instant : ℕ → Json
  number : ℕ → Json
  operations : List AiOperation → Json

pub record TicketEvent : Type 0 where
  pub id : ℕ
  pub organization_id : ℕ
  pub ticket_id : ℕ
  pub event_type : TicketEventType
  pub actor_user_id : Option ℕ
  pub from_value : Option FieldValue
  pub to_value : Option FieldValue
  pub extra_data : List (String × Json)
  pub created_at : ℕ

pub record SlaPolicy : Type 0 where
  pub id : ℕ
  pub organization_id : ℕ
  pub priority : TicketPriority
  pub response_time_minutes : ℕ
  pub resolution_time_minutes : ℕ
  pub warning_threshold_percent : ℕ
  pub is_active : Bool

-- The `before` and `after` of an audit row.
pub data AuditValue : Type 0 where
  ticket : ℕ → TicketStatus → AuditValue
  status : TicketStatus → AuditValue
  priority : TicketPriority → AuditValue
  agent : Option ℕ → AuditValue
  body : String → AuditValue
  role : UserRole → AuditValue
  active : Bool → AuditValue
  account : UserRole → String → AuditValue
  policy : ℕ → ℕ → ℕ → Bool → AuditValue

pub data DocumentSourceType : Type 0 where
  upload manual url : DocumentSourceType

-- The metadata that is merged into an audit row.
pub data AuditMetadata : Type 0 where
  subject : String → AuditMetadata
  operations : List AiOperation → AuditMetadata
  draft : ℕ → Bool → AuditMetadata
  document : String → DocumentSourceType → AuditMetadata
  -- the operations, and whether a stored answer was given
  cached : List AiOperation → Bool → AuditMetadata

pub record AuditLog : Type 0 where
  pub organization_id : ℕ
  pub actor_user_id : Option ℕ
  pub actor_email : Option String
  pub action : AuditAction
  pub target_type : String
  pub target_id : Option ℕ
  pub before : Option AuditValue
  pub after : Option AuditValue
  pub metadata : Option AuditMetadata

-- A title is a fixed sentence, or names a deadline.
pub data Title : Type 0 where
  sentence : String → Title
  deadline : String → String → ℕ → Title

pub record Notification : Type 0 where
  pub id : ℕ
  pub organization_id : ℕ
  pub user_id : ℕ
  pub notification_type : NotificationType
  pub title : Title
  pub body : ℕ × String
  pub ticket_id : Option ℕ
  pub read_at : Option ℕ

pub record Message : Type 0 where
  pub id : ℕ
  pub organization_id : ℕ
  pub ticket_id : ℕ
  pub sender_type : SenderType
  pub sender_user_id : Option ℕ
  pub body : String
  pub is_internal : Bool
  pub created_at : ℕ

-- The `result` of an analysis, as its schema in backend/app/schemas/ai.py dumps it: a category, a
-- subcategory and a recommended priority, a sentiment, a summary, or a reply. Confidences are left out.
pub data AiResult : Type 0 where
  classification : String → Option String → TicketPriority → AiResult
  sentiment : Sentiment → AiResult
  summary : String → AiResult
  reply : String → AiResult

pub record AiAnalysis : Type 0 where
  pub id : ℕ
  pub organization_id : ℕ
  pub ticket_id : ℕ
  pub operation : AiOperation
  pub status : ProcessingStatus
  pub result : Option AiResult
  pub error_message : Option String
  pub prompt_tokens : Option ℕ
  pub completion_tokens : Option ℕ
  pub created_at : ℕ
  pub updated_at : ℕ
  pub completed_at : Option ℕ

-- One attempt at a provider, or an answer from a cache, with its price in millionths of a dollar.
pub record AiUsage : Type 0 where
  pub organization_id : ℕ
  pub operation : AiOperation
  pub model : String
  pub prompt_tokens : ℕ
  pub completion_tokens : ℕ
  pub cost_usd : ℕ
  pub ticket_id : Option ℕ
  pub user_id : Option ℕ
  pub was_successful : Bool
  pub was_cached : Bool

-- The `error_message` of a document: the reason that the exception named.
pub data IngestionFailure : Type 0 where
  unreadable : DocumentTextError → IngestionFailure
  no_passages no_source unknown_type not_fetched storage_unavailable ai_failed abandoned :
      IngestionFailure

pub record KnowledgeDocument : Type 0 where
  pub id : ℕ
  pub organization_id : ℕ
  pub title : String
  pub content : Text
  pub source_type : DocumentSourceType
  pub source_reference : Option String
  pub status : ProcessingStatus
  pub error_message : Option IngestionFailure
  pub chunk_count : ℕ
  pub is_published : Bool
  pub created_by_id : Option ℕ
  pub updated_at : ℕ
  pub processed_at : Option ℕ

-- `embedded` is whether the vector is there; the vector itself is left out.
pub record KnowledgeChunk : Type 0 where
  pub id : ℕ
  pub organization_id : ℕ
  pub document_id : ℕ
  pub chunk_index : ℕ
  pub content : Text
  pub embedded : Bool
  pub embedding_model : Option String
  pub token_count : ℕ

pub record User : Type 0 where
  pub id : ℕ
  pub organization_id : ℕ
  pub role : UserRole
  pub email : String
  pub password_hash : String
  pub is_active : Bool
  pub customer_id : Option ℕ
  pub last_login_at : Option ℕ
  pub created_at : ℕ

pub record RefreshToken : Type 0 where
  pub id : ℕ
  pub organization_id : ℕ
  pub user_id : ℕ
  pub token_hash : String
  pub expires_at : ℕ
  pub revoked_at : Option ℕ
  pub replaced_by_id : Option ℕ

pub record Customer : Type 0 where
  pub id : ℕ
  pub organization_id : ℕ

pub record Db : Type 0 where
  pub tickets : List Ticket
  pub events : List TicketEvent
  pub audit_logs : List AuditLog
  pub notifications : List Notification
  pub messages : List Message
  pub ai_analyses : List AiAnalysis
  pub ai_usage : List AiUsage
  pub knowledge_documents : List KnowledgeDocument
  pub knowledge_chunks : List KnowledgeChunk
  pub sla_policies : List SlaPolicy
  pub users : List User
  pub customers : List Customer
  pub refresh_tokens : List RefreshToken
  pub next_id : ℕ
