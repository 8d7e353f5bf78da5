-- ===== src/Tickets/Calls.antt =====
-- Every call of backend/app/services/ticket_service.py on an existing ticket, as one data type.
pub mod Lifecycle
pub mod Consistency
pub mod Isolation
use support_flow.Prelude.{ℕ, ◌≡◌, Option}
use support_flow.Enums.{TicketStatus, TicketPriority}
use support_flow.Tenancy.{TenantContext}
use support_flow.Db.{Ticket, Db}
use support_flow.Scope.{get_visible}
use support_flow.Session.{World, App}
use support_flow.Tickets.{change_status, close_ticket, reopen_ticket}
use support_flow.Tickets.Assignment.{assign_ticket, change_priority}
use support_flow.Tickets.Outcome.{Outcome, Transition}
use support_flow.Tickets.Endpoints.{
  Moving, Reopening, change_status-Outcome, close_ticket-Outcome, reopen_ticket-Outcome,
}
use support_flow.Tickets.Assignment.Outcome.{
  Assigned, Reprioritised, assign_ticket-Outcome, change_priority-Outcome,
}

pub data Call : Type 0 where
  assign : ℕ → Option ℕ → Call
  prioritise : ℕ → TicketPriority → Call
  move : ℕ → TicketStatus → Call
  close reopen : ℕ → Call

abbrev pub ticket_of : Call → ℕ
ticket_of (Call.assign id agent) = id
ticket_of (Call.prioritise id priority) = id
ticket_of (Call.move id target) = id
ticket_of (Call.close id) = id
ticket_of (Call.reopen id) = id

abbrev pub perform : TenantContext → Call → ℕ → App Ticket
perform context (Call.assign id agent) now = assign_ticket context id agent now
perform context (Call.prioritise id priority) now = change_priority context id priority now
perform context (Call.move id target) now = change_status context id target now
perform context (Call.close id) now = close_ticket context id now
perform context (Call.reopen id) now = reopen_ticket context id now

-- How a successful call changes its ticket.
abbrev pub Change : TenantContext → Call → ℕ → Db → Ticket → Ticket → Type 0
Change context (Call.assign id agent) now db = Assigned context agent db
Change context (Call.prioritise id priority) now db = Reprioritised priority
Change context (Call.move id target) now db = Moving target now
Change context (Call.close id) now db = Transition TicketStatus.closed now
Change context (Call.reopen id) now db = Reopening now

pub perform-Outcome :
    (context : TenantContext) (call : Call) (now : ℕ) (w : World)
    → Outcome context w
        (get_visible context (ticket_of call) w.session)
        (Change context call now w.session)
        (perform context call now w)
perform-Outcome context (Call.assign id agent) now w = assign_ticket-Outcome context id agent now w
perform-Outcome context (Call.prioritise id priority) now w =
    change_priority-Outcome context id priority now w
perform-Outcome context (Call.move id target) now w = change_status-Outcome context id target now w
perform-Outcome context (Call.close id) now w = close_ticket-Outcome context id now w
perform-Outcome context (Call.reopen id) now w = reopen_ticket-Outcome context id now w
