-- ===== src/Examples/Creation.antt =====
-- A ticket raised at the desk, its analyses and its timeline.
use support_flow.Prelude.{ℕ, ◌≡◌, refl, Option, none, some, []}
use support_flow.Enums.{TicketStatus, TicketPriority}
use support_flow.Permissions.{ticket_scope_by_role}
use support_flow.Tenancy.{scope_for}
use support_flow.Errors.{AppError, ok, raised}
use support_flow.Db.{Ticket}
use support_flow.Scope.{get_visible}
use support_flow.Audit.{record_for}
use support_flow.Analysis.{request_analysis}
use support_flow.Tickets.{record_event, publish, require_visible_ticket}
use support_flow.Tickets.Creation.{TicketCreate, create_ticket, customer_for, max_number}
use support_flow.Tickets.Creation.Numbering.{Created, create_ticket-Created}
use support_flow.Tickets.Timeline.{list_events}
use support_flow.Examples.{portal, desk}

abbrev payload : Option ℕ → TicketCreate
payload customer_id = record {
  subject = "Lost parcel";
  description = "Nothing came.";
  category = none;
  customer_id = customer_id;
  priority = none;
}

abbrev raised_ticket : Ticket
raised_ticket = record {
  id = 100;
  organization_id = 1;
  number = 3;
  customer_id = 5;
  assigned_agent_id = none;
  subject = "Lost parcel";
  description = "Nothing came.";
  category = none;
  status = TicketStatus.«open»;
  priority = TicketPriority.medium;
  subcategory = none;
  ai_recommended_priority = none;
  sentiment = none;
  created_at = 9;
  first_response_at = none;
  resolved_at = none;
  closed_at = none;
}

portal_creates : (create_ticket portal (payload none) 9 desk).0 ≡ ok raised_ticket
unfolding create_ticket customer_for ticket_scope_by_role scope_for record_event record_for publish
    request_analysis max_number
portal_creates = refl

create_ticket-Created_example :
    Created portal desk raised_ticket (create_ticket portal (payload none) 9 desk).1
create_ticket-Created_example =
    create_ticket-Created portal (payload none) 9 desk raised_ticket portal_creates

-- A portal caller does not choose a customer.
portal_refused :
    (create_ticket portal (payload (some 5)) 9 desk).0 ≡ raised AppError.validation_error
unfolding create_ticket customer_for ticket_scope_by_role scope_for
portal_refused = refl

portal_timeline : (list_events portal 1 desk).0 ≡ ok []
unfolding list_events require_visible_ticket get_visible ticket_scope_by_role
portal_timeline = refl
