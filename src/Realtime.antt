-- ===== src/Realtime.antt =====
-- backend/app/websocket/events.py, and how backend/app/websocket/manager.py builds envelopes and
-- chooses the sockets of one process that receive one.
pub mod Boundary
pub mod Connections
use support_flow.Prelude.{
  ℕ, Bool, true, false, not, Option, none, some, List, [], ◌∷◌, map, ◌&&◌, ◌==◌, holds_id, same_id,
  if◌then◌else◌,
}
use support_flow.Enums.{TicketEventType, NotificationType}
use support_flow.Permissions.{Permission, RowScope, ticket_scope_by_role, row_scope_for}
use support_flow.Tenancy.{TenantContext, has}
use support_flow.Db.{Ticket, TicketEvent, Notification, Title, FieldValue}

pub data RealtimeEventType : Type 0 where
  ticket_created ticket_assigned ticket_unassigned ticket_status_changed : RealtimeEventType
  ticket_priority_changed ticket_message_added ticket_note_added : RealtimeEventType
  ticket_attachment_added ticket_reopened ticket_ai_analysis_completed : RealtimeEventType
  notification_created : RealtimeEventType

-- REALTIME_FOR_EVENT.get; the two SLA types are UNPUBLISHED_EVENT_TYPES.
unfoldable pub realtime_type_for : TicketEventType → Option RealtimeEventType
realtime_type_for TicketEventType.created = some RealtimeEventType.ticket_created
realtime_type_for TicketEventType.assigned = some RealtimeEventType.ticket_assigned
realtime_type_for TicketEventType.unassigned = some RealtimeEventType.ticket_unassigned
realtime_type_for TicketEventType.status_changed = some RealtimeEventType.ticket_status_changed
realtime_type_for TicketEventType.priority_changed = some RealtimeEventType.ticket_priority_changed
realtime_type_for TicketEventType.message_added = some RealtimeEventType.ticket_message_added
realtime_type_for TicketEventType.internal_note_added = some RealtimeEventType.ticket_note_added
realtime_type_for TicketEventType.attachment_added = some RealtimeEventType.ticket_attachment_added
realtime_type_for TicketEventType.reopened = some RealtimeEventType.ticket_reopened
realtime_type_for TicketEventType.ai_analysis_completed =
    some RealtimeEventType.ticket_ai_analysis_completed
realtime_type_for TicketEventType.sla_warning = none
realtime_type_for TicketEventType.sla_breached = none

pub record TicketEventEnvelope : Type 0 where
  pub type : RealtimeEventType
  pub organization_id : ℕ
  pub ticket_id : ℕ
  pub ticket_number : ℕ
  pub from_value : Option FieldValue
  pub to_value : Option FieldValue
  pub assigned_agent_id : Option ℕ
  pub customer_id : Option ℕ
  pub internal : Bool

pub record NotificationEnvelope : Type 0 where
  pub organization_id : ℕ
  pub user_id : ℕ
  pub notification_id : ℕ
  pub notification_type : NotificationType
  pub title : Title
  pub ticket_id : Option ℕ

pub data Envelope : Type 0 where
  ticket_event : TicketEventEnvelope → Envelope
  notification : NotificationEnvelope → Envelope

within_scope : RowScope → TicketEventEnvelope → TenantContext → Bool
within_scope RowScope.organization envelope context = true
within_scope RowScope.assigned envelope context =
    holds_id envelope.assigned_agent_id context.user_id
within_scope RowScope.own envelope context = elim envelope.customer_id [
  | none ↦ false
  | some c ↦ same_id (some c) context.customer_id
]

unfoldable pub ticket_event_visible_to : TicketEventEnvelope → TenantContext → Bool
unfolding within_scope
ticket_event_visible_to envelope context =
    if not (envelope.organization_id == context.organization_id)
    then false
    else if envelope.internal && not (has context (Permission.message_read_internal ∷ []))
    then false
    else within_scope (row_scope_for context.role ticket_scope_by_role) envelope context

unfoldable pub notification_visible_to : NotificationEnvelope → TenantContext → Bool
notification_visible_to envelope context =
    envelope.organization_id == context.organization_id && envelope.user_id == context.user_id

unfoldable pub envelope_visible_to : Envelope → TenantContext → Bool
envelope_visible_to (Envelope.notification envelope) context =
    notification_visible_to envelope context
envelope_visible_to (Envelope.ticket_event envelope) context =
    ticket_event_visible_to envelope context

-- `_ticket_envelope` of manager.py
unfoldable pub ticket_envelope : Ticket → TicketEvent → Bool → Option TicketEventEnvelope
unfolding realtime_type_for
ticket_envelope t event internal = elim (realtime_type_for event.event_type) [
  | none ↦ none
  | some kind ↦ some (record {
    type = kind;
    organization_id = t.organization_id;
    ticket_id = t.id;
    ticket_number = t.number;
    from_value = event.from_value;
    to_value = event.to_value;
    assigned_agent_id = t.assigned_agent_id;
    customer_id = some t.customer_id;
    internal = internal;
  })
]

unfoldable pub notification_envelope : Notification → Envelope
notification_envelope n = Envelope.notification (record {
  organization_id = n.organization_id;
  user_id = n.user_id;
  notification_id = n.id;
  notification_type = n.notification_type;
  title = n.title;
  ticket_id = n.ticket_id;
})

-- The envelopes of `publish`: the ticket's own first, then one for each notification.
unfoldable pub envelopes_for : Ticket → TicketEvent → List Notification → Bool → List Envelope
unfolding ticket_envelope notification_envelope
envelopes_for t event notifications internal =
    let rest = map notification_envelope notifications in
    elim (ticket_envelope t event internal) [
      | none ↦ rest
      | some envelope ↦ Envelope.ticket_event envelope ∷ rest
    ]
