-- ===== src/Notifications.antt =====
-- backend/app/services/notification_service.py: who is told what, staging the rows, and queueing
-- their emails.
pub mod Policy
pub mod Audience
pub mod Inbox
use support_flow.Prelude.{
  ℕ, suc, ◌+◌, String, Bool, true, false, not, Option, none, some, List, [], ◌∷◌, ◌++◌, map, ◌&&◌,
  ◌==◌, elem, is_some, select, if◌then◌else◌,
}
use support_flow.Enums.{SenderType, TicketStatus, TicketEventType, NotificationType, same_status}
use support_flow.Permissions.{role_in, sla_alert_roles}
use support_flow.Tenancy.{TenantContext}
use support_flow.Db.{Ticket, TicketEvent, Message, Notification, Title, User, Db}
use support_flow.Errors.{ok}
use support_flow.Session.{Effect, World, App, ◌>>=◌, ◌>>◌, pure, gets, emit}

-- SILENT_EVENT_TYPES
unfoldable pub is_silent : TicketEventType → Bool
is_silent TicketEventType.created = true
is_silent TicketEventType.unassigned = true
is_silent TicketEventType.priority_changed = true
is_silent TicketEventType.internal_note_added = true
is_silent TicketEventType.attachment_added = true
is_silent TicketEventType.reopened = true
is_silent _ = false

-- WORKER_EVENT_TYPES
unfoldable pub is_worker : TicketEventType → Bool
is_worker TicketEventType.sla_warning = true
is_worker TicketEventType.sla_breached = true
is_worker TicketEventType.ai_analysis_completed = true
is_worker _ = false

abbrev at_most_one : Option ℕ → List ℕ
at_most_one none = []
at_most_one (some user_id) = user_id ∷ []

-- UserRepository.list_by_customer_id, then the active ones.
unfoldable pub portal_users_for : TenantContext → ℕ → Db → List ℕ
portal_users_for context customer_id db =
    map (λ u. u.id)
      (select
        (λ u.
          u.organization_id == context.organization_id
          && elem customer_id (at_most_one u.customer_id)
          && u.is_active)
        db.users)

abbrev from_customer : Option Message → Bool
from_customer none = false
from_customer (some m) = elim m.sender_type [ SenderType.customer ↦ true | _ ↦ false ]

unfoldable pub recipients_for :
    TenantContext → Ticket → TicketEventType → Option Message → Db → List ℕ
unfolding portal_users_for
recipients_for context t TicketEventType.assigned message db = at_most_one t.assigned_agent_id
recipients_for context t TicketEventType.message_added message db =
    if from_customer message then at_most_one t.assigned_agent_id else []
recipients_for context t TicketEventType.status_changed message db =
    if same_status t.status TicketStatus.resolved
    then portal_users_for context t.customer_id db
    else []
recipients_for context t _ message db = []

unfoldable pub notification_type_for : TicketEvent → NotificationType
notification_type_for event = elim event.event_type [
  | TicketEventType.assigned ↦
      if is_some event.from_value
      then NotificationType.ticket_reassigned
      else NotificationType.ticket_assigned
  | TicketEventType.message_added ↦ NotificationType.new_customer_reply
  | _ ↦ NotificationType.ticket_resolved
]

unfoldable pub title_for : TicketEvent → Title
title_for event = elim event.event_type [
  | TicketEventType.assigned ↦
      if is_some event.from_value
      then Title.sentence "Ticket reassigned to you"
      else Title.sentence "Ticket assigned to you"
  | TicketEventType.message_added ↦ Title.sentence "New reply from the customer"
  | _ ↦ Title.sentence "Your ticket has been resolved"
]

-- `session.add` of one notification, which takes the next primary key.
unfoldable pub add_notification : ℕ → ℕ → NotificationType → Title → Ticket → App Notification
add_notification organization_id user_id kind title t w =
    let db = w.session in
    let n : Notification = record {
      id = db.next_id;
      organization_id = organization_id;
      user_id = user_id;
      notification_type = kind;
      title = title;
      body = (t.number, t.subject);
      ticket_id = some t.id;
      read_at = none;
    } in
    (
      ok n,
      record w {
        session = record db {
          notifications = db.notifications ++ n ∷ [];
          next_id = suc db.next_id;
        };
      },
    )

-- The loop of `notify_for_event` over its recipients.
unfoldable pub stage_for : TenantContext → Ticket → TicketEvent → List ℕ → App (List Notification)
unfolding add_notification
stage_for context t event [] = pure []
stage_for context t event (recipient_id ∷ rest) =
    let later = stage_for context t event rest in
    if recipient_id == context.user_id then later else do
      n ←
          add_notification context.organization_id recipient_id (notification_type_for event)
            (title_for event) t
      ns ← later
      pure (n ∷ ns)

unfoldable pub notify_for_event :
    TenantContext → Ticket → TicketEvent → Option Message → App (List Notification)
unfolding stage_for recipients_for is_silent is_worker
notify_for_event context t event message =
    if is_worker event.event_type
    then pure []
    else if is_silent event.event_type
    then pure []
    else do
      recipients ← gets (recipients_for context t event.event_type message)
      stage_for context t event recipients

-- Nothing is sent for an empty list; a broker failure is logged and skipped, so each id is an attempt.
unfoldable pub enqueue_delivery : List Notification → App Unit
enqueue_delivery [] = pure tt
enqueue_delivery (n ∷ ns) = emit (Effect.deliver (map (λ m. m.id) (n ∷ ns)))
