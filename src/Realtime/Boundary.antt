-- ===== src/Realtime/Boundary.antt =====
-- The socket's audience is the HTTP audience.
use support_flow.Prelude.{◌≡◌, Bool, not, some, [], ◌∷◌, ◌&&◌, ◌||◌, arith}
use support_flow.Permissions.{Permission, row_scope_for}
use support_flow.Tenancy.{TenantContext, has, scope_for}
use support_flow.Db.{Ticket, TicketEvent}
use support_flow.Scope.{ticket_visible}
use support_flow.Realtime.{TicketEventEnvelope, ticket_envelope, ticket_event_visible_to}

-- A published ticket event is shown to a socket exactly when the socket's holder could read the
-- ticket over HTTP and, for staff-only content, may read internal notes.
pub socket_audience :
    (t : Ticket) (event : TicketEvent) (internal : Bool) (context : TenantContext)
    {envelope : TicketEventEnvelope}
    → ticket_envelope t event internal ≡ some envelope
    → ticket_event_visible_to envelope context ≡ (
        ticket_visible context t
        && (not internal || has context (Permission.message_read_internal ∷ [])))
unfolding ticket_envelope ticket_event_visible_to ticket_visible row_scope_for scope_for
socket_audience t event internal context h = ground arith
