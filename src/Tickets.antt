-- ===== src/Tickets.antt =====
-- backend/app/services/ticket_service.py: the lifecycle of a ticket, each service call as an action
-- on the request's session. `now` is the instant of the request; the identity map writes a changed
-- ticket back by its primary key.
pub mod Assignment
pub mod Creation
pub mod Timeline
pub mod Outcome
pub mod Endpoints
pub mod Calls
use support_flow.Prelude.{
  ℕ, suc, String, Bool, true, false, not, Option, none, some, List, [], ◌∷◌, ◌++◌, ◌==◌, is_some,
  update_where, if◌then◌else◌,
}
use support_flow.Enums.{TicketStatus, TicketEventType, AuditAction, same_status, can_transition}
use support_flow.Tenancy.{TenantContext}
use support_flow.Errors.{AppError, ErrorCode, ok}
use support_flow.Db.{Ticket, TicketEvent, FieldValue, Json, AuditValue, Notification, Db}
use support_flow.Scope.{get_visible}
use support_flow.Realtime.{envelopes_for}
use support_flow.Session.{
  Effect, App, ◌>>=◌, ◌>>◌, pure, require, require_some, gets, modify, emit, commit_session,
}
use support_flow.Audit.{record_for}
use support_flow.Notifications.{notify_for_event, enqueue_delivery}

-- The flush of one changed ticket.
unfoldable pub save_ticket : Ticket → Db → Db
save_ticket t db = record db { tickets = update_where (λ s. s.id == t.id) (λ _. t) db.tickets }

unfoldable pub require_visible_ticket : TenantContext → ℕ → App Ticket
require_visible_ticket context ticket_id = do
  found ← gets (get_visible context ticket_id)
  require_some found (AppError.not_found_error ErrorCode.ticket_not_found)

-- The new row of `record_event`.
abbrev pub new_event :
    TenantContext
    → ℕ
    → Ticket
    → TicketEventType
    → Option FieldValue
    → Option FieldValue
    → List (String × Json)
    → ℕ
    → TicketEvent
new_event context id t event_type from_value to_value extra_data now = record {
  id = id;
  organization_id = context.organization_id;
  ticket_id = t.id;
  event_type = event_type;
  actor_user_id = some context.user_id;
  from_value = from_value;
  to_value = to_value;
  extra_data = extra_data;
  created_at = now;
}

unfoldable pub record_event :
    TenantContext
    → Ticket
    → TicketEventType
    → Option FieldValue
    → Option FieldValue
    → List (String × Json)
    → ℕ
    → App TicketEvent
record_event context t event_type from_value to_value extra_data now w =
    let db = w.session in
    let event = new_event context db.next_id t event_type from_value to_value extra_data now in
    (
      ok event,
      record w {
        session = record db { events = db.events ++ event ∷ []; next_id = suc db.next_id };
      },
    )

-- `realtime.publish`
unfoldable pub publish : Ticket → TicketEvent → List Notification → Bool → App Unit
publish t event notifications internal =
    emit (Effect.publish (envelopes_for t event notifications internal))

-- _ACTION_EDGES: the targets that have an endpoint of their own.
unfoldable pub is_action_edge : TicketStatus → Bool
is_action_edge TicketStatus.assigned = true
is_action_edge TicketStatus.closed = true
is_action_edge TicketStatus.«open» = true
is_action_edge _ = false

-- The status and the terminal timestamps that `_transition` writes.
unfoldable pub enter_status : TicketStatus → ℕ → Ticket → Ticket
enter_status TicketStatus.resolved now t = record t {
  status = TicketStatus.resolved;
  resolved_at = some now;
}
enter_status TicketStatus.closed now t = record t {
  status = TicketStatus.closed;
  closed_at = some now;
  resolved_at = if is_some t.resolved_at then t.resolved_at else some now;
}
enter_status target now t = record t { status = target }

abbrev transition_action : TicketEventType → TicketStatus → AuditAction
transition_action TicketEventType.reopened target = AuditAction.ticket_reopened
transition_action _ target =
    if same_status target TicketStatus.resolved
    then AuditAction.ticket_resolved
    else AuditAction.ticket_status_changed

-- `_transition`: validates the edge, writes the status, the event, the audit row and the alerts.
unfoldable pub transition_ :
    TenantContext
    → Ticket
    → TicketStatus
    → TicketEventType
    → ℕ
    → App (Ticket × TicketEvent × List Notification)
unfolding enter_status record_event
transition_ context t target event_type now = do
  let current = t.status
  require (can_transition current target) (AppError.invalid_ticket_transition_error current target)
  let t' = enter_status target now t
  modify (save_ticket t')
  event ←
      record_event context t' event_type (some (FieldValue.status current))
        (some (FieldValue.status target)) [] now
  record_for context (transition_action event_type target) "ticket" t'.id
      (some (AuditValue.status current)) (some (AuditValue.status target)) none
  notifications ← notify_for_event context t' event none
  pure (t', event, notifications)

unfoldable pub change_status : TenantContext → ℕ → TicketStatus → ℕ → App Ticket
change_status context ticket_id target now = do
  t ← require_visible_ticket context ticket_id
  require (not (is_action_edge target)) (AppError.invalid_ticket_transition_error t.status target)
  (t', event, notifications) ← transition_ context t target TicketEventType.status_changed now
  commit_session
  enqueue_delivery notifications
  publish t' event notifications false
  emit (Effect.invalidate context.organization_id)
  pure t'

unfoldable pub close_ticket : TenantContext → ℕ → ℕ → App Ticket
close_ticket context ticket_id now = do
  t ← require_visible_ticket context ticket_id
  (t', event, notifications) ←
      transition_ context t TicketStatus.closed TicketEventType.status_changed now
  commit_session
  enqueue_delivery notifications
  publish t' event notifications false
  emit (Effect.invalidate context.organization_id)
  pure t'

-- The columns that a reopen clears after the transition.
unfoldable pub clear_outcome : Ticket → Ticket
clear_outcome t = record t { resolved_at = none; closed_at = none; assigned_agent_id = none }

unfoldable pub reopen_ticket : TenantContext → ℕ → ℕ → App Ticket
unfolding clear_outcome
reopen_ticket context ticket_id now = do
  t ← require_visible_ticket context ticket_id
  (t', event, notifications) ←
      transition_ context t TicketStatus.«open» TicketEventType.reopened now
  let t'' = clear_outcome t'
  modify (save_ticket t'')
  commit_session
  enqueue_delivery notifications
  publish t'' event notifications false
  emit (Effect.invalidate context.organization_id)
  pure t''
