-- ===== src/Tickets/Assignment.antt =====
-- backend/app/services/ticket_service.py: assignment and the business priority.
pub mod Outcome
use support_flow.Prelude.{
  ℕ, Bool, true, false, not, Option, none, some, [], ◌&&◌, same_id, is_some, if◌then◌else◌,
}
use support_flow.Enums.{
  TicketStatus, TicketPriority, TicketEventType, AuditAction, same_status, same_priority,
}
use support_flow.Tenancy.{TenantContext}
use support_flow.Errors.{AppError, ErrorCode}
use support_flow.Db.{Ticket, FieldValue, AuditValue, Db}
use support_flow.Scope.{get_user}
use support_flow.Session.{
  Effect, App, ◌>>=◌, ◌>>◌, pure, require, gets, modify, emit, commit_session,
}
use support_flow.Audit.{record_for}
use support_flow.Notifications.{notify_for_event, enqueue_delivery}
use support_flow.Tickets.{save_ticket, require_visible_ticket, record_event, publish}

abbrev agent_exists : TenantContext → Option ℕ → Db → Bool
agent_exists context none db = true
agent_exists context (some agent) db = is_some (get_user context agent db)

-- The columns that `assign_ticket` writes: the agent, and the one lifecycle edge it owns.
unfoldable pub with_agent : Option ℕ → Ticket → Ticket
with_agent agent t = record t {
  assigned_agent_id = agent;
  status =
      if is_some agent && same_status t.status TicketStatus.«open»
      then TicketStatus.assigned
      else t.status;
}

abbrev as_user : Option ℕ → Option FieldValue
as_user none = none
as_user (some id) = some (FieldValue.user id)

abbrev assignment_event : Option ℕ → TicketEventType
assignment_event none = TicketEventType.unassigned
assignment_event (some agent) = TicketEventType.assigned

-- The part of `assign_ticket` after its guards.
write_assignment : TenantContext → Option ℕ → ℕ → Ticket → App Ticket
unfolding with_agent
write_assignment context agent now t = do
  let t' = with_agent agent t
  modify (save_ticket t')
  event ←
      record_event context t' (assignment_event agent) (as_user t.assigned_agent_id) (as_user agent)
        [] now
  record_for context AuditAction.ticket_assigned "ticket" t'.id
      (some (AuditValue.agent t.assigned_agent_id)) (some (AuditValue.agent agent)) none
  notifications ← notify_for_event context t' event none
  commit_session
  enqueue_delivery notifications
  publish t' event notifications false
  emit (Effect.invalidate context.organization_id)
  pure t'

unfoldable pub assign_ticket : TenantContext → ℕ → Option ℕ → ℕ → App Ticket
unfolding write_assignment get_user
assign_ticket context ticket_id agent now = do
  t ← require_visible_ticket context ticket_id
  found ← gets (agent_exists context agent)
  require found (AppError.not_found_error ErrorCode.user_not_found)
  require (not (not (is_some agent) && same_status t.status TicketStatus.assigned))
      (AppError.invalid_ticket_transition_error TicketStatus.assigned TicketStatus.«open»)
  if same_id t.assigned_agent_id agent then pure t else write_assignment context agent now t

write_priority : TenantContext → TicketPriority → ℕ → Ticket → App Ticket
write_priority context priority now t = do
  let t' : Ticket = record t { priority = priority }
  modify (save_ticket t')
  event ←
      record_event context t' TicketEventType.priority_changed
        (some (FieldValue.priority t.priority)) (some (FieldValue.priority priority)) [] now
  record_for context AuditAction.ticket_priority_changed "ticket" t'.id
      (some (AuditValue.priority t.priority)) (some (AuditValue.priority priority)) none
  commit_session
  publish t' event [] false
  emit (Effect.invalidate context.organization_id)
  pure t'

unfoldable pub change_priority : TenantContext → ℕ → TicketPriority → ℕ → App Ticket
unfolding write_priority
change_priority context ticket_id priority now = do
  t ← require_visible_ticket context ticket_id
  if same_priority t.priority priority then pure t else write_priority context priority now t
