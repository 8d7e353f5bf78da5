-- ===== src/Tickets/Creation.antt =====
-- backend/app/services/ticket_service.py: raising a ticket, and the number it gets from
-- backend/app/repositories/ticket_repository.py.
pub mod Numbering
use support_flow.Prelude.{
  ℕ, suc, ◌+◌, String, false, not, Option, none, some, List, [], ◌∷◌, ◌++◌, ◌||◌, ◌==◌, is_some,
  if◌then◌else◌,
}
use Prim.Native.Nat.{max}
use support_flow.Enums.{TicketStatus, TicketPriority, TicketEventType, AuditAction}
use support_flow.Permissions.{Permission, RowScope, ticket_scope_by_role}
use support_flow.Tenancy.{TenantContext, has, scope_for}
use support_flow.Errors.{AppError, ErrorCode, ok}
use support_flow.Db.{Ticket, FieldValue, AuditValue, AuditMetadata, Db}
use support_flow.Scope.{get_customer}
use support_flow.Session.{
  Effect, App, ◌>>=◌, ◌>>◌, pure, require, require_some, gets, emit, commit_session,
}
use support_flow.Audit.{record_for}
use support_flow.Analysis.{request_analysis}
use support_flow.Tickets.{record_event, publish}

-- schemas/ticket.py TicketCreate
pub record TicketCreate : Type 0 where
  pub subject : String
  pub description : String
  pub category : Option String
  pub customer_id : Option ℕ
  pub priority : Option TicketPriority

-- `max(number)` over the organization's tickets, 0 if it has none.
unfoldable pub max_number : ℕ → List Ticket → ℕ
max_number organization_id [] = 0
max_number organization_id (t ∷ ts) =
    let rest = max_number organization_id ts in
    if t.organization_id == organization_id then max t.number rest else rest

-- Under the organization's advisory lock, so no other transaction numbers a ticket meanwhile.
unfoldable pub allocate_number : TenantContext → Db → ℕ
allocate_number context db = max_number context.organization_id db.tickets + 1

-- Whose ticket it is: a portal caller's own, and for staff the customer they name.
unfoldable pub customer_for : RowScope → TenantContext → Option ℕ → App ℕ
customer_for RowScope.own context requested = do
  require (not (is_some requested)) AppError.validation_error
  require_some context.customer_id AppError.validation_error
customer_for _ context requested = do
  customer_id ← require_some requested AppError.validation_error
  found ← gets (get_customer context customer_id)
  _ ← require_some found (AppError.not_found_error ErrorCode.customer_not_found)
  pure customer_id

unfoldable pub resolve_customer : TenantContext → Option ℕ → App ℕ
resolve_customer context requested =
    customer_for (scope_for context ticket_scope_by_role) context requested

unfoldable pub add_ticket : TenantContext → TicketCreate → ℕ → ℕ → App Ticket
add_ticket context payload customer_id now w =
    let db = w.session in
    let t : Ticket = record {
      id = db.next_id;
      organization_id = context.organization_id;
      number = allocate_number context db;
      customer_id = customer_id;
      assigned_agent_id = none;
      subject = payload.subject;
      description = payload.description;
      category = payload.category;
      status = TicketStatus.«open»;
      priority = elim payload.priority [ none ↦ TicketPriority.medium | some p ↦ p ];
      subcategory = none;
      ai_recommended_priority = none;
      sentiment = none;
      created_at = now;
      first_response_at = none;
      resolved_at = none;
      closed_at = none;
    } in
    (
      ok t,
      record w { session = record db { tickets = db.tickets ++ t ∷ []; next_id = suc db.next_id } },
    )

unfoldable pub create_ticket : TenantContext → TicketCreate → ℕ → App Ticket
unfolding add_ticket resolve_customer allocate_number
create_ticket context payload now = do
  customer_id ← resolve_customer context payload.customer_id
  require (not (is_some payload.priority) || has context (Permission.ticket_change_priority ∷ []))
      AppError.permission_denied_error
  t ← add_ticket context payload customer_id now
  event ←
      record_event context t TicketEventType.created none
        (some (FieldValue.status TicketStatus.«open»)) [] now
  record_for context AuditAction.ticket_created "ticket" t.id none
      (some (AuditValue.ticket t.number t.status)) (some (AuditMetadata.subject t.subject))
  commit_session
  publish t event [] false
  emit (Effect.invalidate context.organization_id)
  _ ← request_analysis context t now
  pure t
