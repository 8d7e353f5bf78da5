-- ===== src/Enums.antt =====
-- backend/app/models/enums.py: the domain enumerations and the ticket lifecycle table.
pub mod Lifecycle
pub mod Statuses
use support_flow.Prelude.{ℕ, Bool, true, false, List, [], ◌∷◌, ◌==◌, any_of}

pub data UserRole : Type 0 where
  admin manager agent customer : UserRole

pub data TicketStatus : Type 0 where
  «open» assigned in_progress waiting_for_customer resolved closed : TicketStatus

pub data TicketPriority : Type 0 where
  low medium high urgent : TicketPriority

pub data Sentiment : Type 0 where
  positive neutral negative : Sentiment

pub data SenderType : Type 0 where
  customer agent system ai_draft : SenderType

pub data ProcessingStatus : Type 0 where
  pending processing completed failed : ProcessingStatus

abbrev pub is_pending : ProcessingStatus → Bool
is_pending ProcessingStatus.pending = true
is_pending _ = false

abbrev pub is_processing : ProcessingStatus → Bool
is_processing ProcessingStatus.processing = true
is_processing _ = false

abbrev pub is_completed : ProcessingStatus → Bool
is_completed ProcessingStatus.completed = true
is_completed _ = false

pub data TicketEventType : Type 0 where
  created assigned unassigned status_changed priority_changed message_added : TicketEventType
  internal_note_added attachment_added ai_analysis_completed : TicketEventType
  sla_warning sla_breached reopened : TicketEventType

pub data AuditAction : Type 0 where
  user_created user_role_updated user_deactivated ticket_created ticket_assigned : AuditAction
  ticket_priority_changed ticket_status_changed ticket_resolved ticket_reopened : AuditAction
  knowledge_document_created knowledge_document_deleted ai_analysis_requested : AuditAction
  ai_response_accepted ai_response_regenerated sla_policy_updated : AuditAction
  organization_updated : AuditAction

pub data NotificationType : Type 0 where
  ticket_assigned ticket_reassigned new_customer_reply mention sla_warning : NotificationType
  sla_breached ai_analysis_completed ticket_resolved : NotificationType

pub data AiOperation : Type 0 where
  classify sentiment summarize suggest_response embed knowledge_answer : AiOperation

-- Equality of members, by their position in the class.
abbrev status_index : TicketStatus → ℕ
status_index TicketStatus.«open» = 0
status_index TicketStatus.assigned = 1
status_index TicketStatus.in_progress = 2
status_index TicketStatus.waiting_for_customer = 3
status_index TicketStatus.resolved = 4
status_index TicketStatus.closed = 5

abbrev pub same_status : TicketStatus → TicketStatus → Bool
same_status a b = status_index a == status_index b

abbrev priority_index : TicketPriority → ℕ
priority_index TicketPriority.low = 0
priority_index TicketPriority.medium = 1
priority_index TicketPriority.high = 2
priority_index TicketPriority.urgent = 3

abbrev pub same_priority : TicketPriority → TicketPriority → Bool
same_priority a b = priority_index a == priority_index b

-- The row of TICKET_TRANSITIONS for one status.
unfoldable pub ticket_transitions : TicketStatus → List TicketStatus
ticket_transitions TicketStatus.«open» = TicketStatus.assigned ∷ []
ticket_transitions TicketStatus.assigned = TicketStatus.in_progress ∷ []
ticket_transitions TicketStatus.in_progress =
    TicketStatus.waiting_for_customer ∷ TicketStatus.resolved ∷ []
ticket_transitions TicketStatus.waiting_for_customer = TicketStatus.in_progress ∷ []
ticket_transitions TicketStatus.resolved = TicketStatus.closed ∷ []
ticket_transitions TicketStatus.closed = TicketStatus.«open» ∷ []

unfoldable pub can_transition : TicketStatus → TicketStatus → Bool
unfolding ticket_transitions
can_transition current target = any_of (same_status target) (ticket_transitions current)
