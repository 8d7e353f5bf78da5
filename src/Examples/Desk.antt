-- ===== src/Examples/Desk.antt =====
-- The ticket calls and the boundary of one tenant, at one desk.
use support_flow.Prelude.{inl, All, ◌≡◌, refl, true, not, none, some, [], ◌∷◌, ◌&&◌, ◌||◌, arith}
use support_flow.Enums.{UserRole, TicketStatus, TicketEventType, can_transition}
use support_flow.Permissions.{Permission, has_permission, ticket_scope_by_role}
use support_flow.Tenancy.{has}
use support_flow.Errors.{AppError, ErrorCode, ok, raised}
use support_flow.Db.{Ticket, TicketEvent, Db}
use support_flow.Scope.{ticket_visible, get_visible}
use support_flow.Scope.Isolation.{tenant_rows}
use support_flow.Realtime.{
  RealtimeEventType, TicketEventEnvelope, ticket_envelope, ticket_event_visible_to,
}
use support_flow.Realtime.Boundary.{socket_audience}
use support_flow.Session.Rules.{Leads}
use support_flow.Notifications.{notify_for_event, recipients_for, enqueue_delivery}
use support_flow.Audit.{record_for}
use support_flow.Notifications.Audience.{Addressed, notify_for_event-Addressed}
use support_flow.Notifications.Inbox.{get_for_user, mark_read}
use support_flow.Tickets.{
  close_ticket, change_status, new_event, require_visible_ticket, is_action_edge, transition_,
  publish,
}
use support_flow.Tickets.Calls.{Call, perform}
use support_flow.Tickets.Calls.Consistency.{AllCoherent, perform-AllCoherent}
use support_flow.Tickets.Calls.Lifecycle.{Follows, perform-Follows}
use support_flow.Tickets.Calls.Isolation.{perform-raised, perform-tenant_rows, perform-hidden}
use support_flow.Examples.{alert_row, agent, portal, outsider, working, solved, desk, desk_db}

abbrev closed : Ticket
closed = record solved { status = TicketStatus.closed; closed_at = some 90 }

desk_coherent : AllCoherent desk
desk_coherent = (
  ((refl, refl), ((refl, refl), ((refl, refl, refl), tt))),
  ((refl, refl), ((refl, refl), ((refl, refl, refl), tt))),
)

closing_returns : (close_ticket agent 2 90 desk).0 ≡ ok closed
unfolding close_ticket require_visible_ticket get_visible transition_ can_transition record_for
    notify_for_event enqueue_delivery publish ticket_scope_by_role
closing_returns = refl

-- A solved ticket cannot be put back to work.
refused : AppError
refused = AppError.invalid_ticket_transition_error TicketStatus.resolved TicketStatus.in_progress

moving_raises : (change_status agent 2 TicketStatus.in_progress 90 desk).0 ≡ raised refused
unfolding refused change_status require_visible_ticket get_visible is_action_edge transition_
    can_transition ticket_scope_by_role
moving_raises = refl

perform-AllCoherent_example : AllCoherent (perform agent (Call.close 2) 90 desk).1
perform-AllCoherent_example = perform-AllCoherent agent (Call.close 2) 90 desk desk_coherent

perform-Follows_example :
    (s : Ticket) × (get_visible agent 2 desk.session ≡ some s) × Follows s closed
perform-Follows_example = perform-Follows agent (Call.close 2) 90 desk closed closing_returns

perform-raised_example : (perform agent (Call.move 2 TicketStatus.in_progress) 90 desk).1 ≡ desk
perform-raised_example =
    perform-raised agent (Call.move 2 TicketStatus.in_progress) 90 desk refused moving_raises

perform-tenant_rows_example :
    (tenant_rows 2 (perform agent (Call.close 2) 90 desk).1.session ≡ tenant_rows 2 desk.session)
    × (tenant_rows 2 (perform agent (Call.close 2) 90 desk).1.committed
        ≡ tenant_rows 2 desk.committed)
perform-tenant_rows_example =
    perform-tenant_rows agent (Call.close 2) 90 2 desk (λ e. ground (arith, e))
      ((refl, (refl, tt)), ((refl, tt), (tt, tt))) refl

outsider_sees_none : get_visible outsider 2 desk.session ≡ none
unfolding get_visible ticket_scope_by_role
outsider_sees_none = refl

perform-hidden_example :
    perform outsider (Call.close 2) 90 desk
    ≡ (raised (AppError.not_found_error ErrorCode.ticket_not_found), desk)
perform-hidden_example = perform-hidden outsider (Call.close 2) 90 desk (
  (λ e. inl (λ o. ground (arith, o))),
  ((λ e. inl (λ o. ground (arith, o))), ((λ e. ground (arith, e)), tt)),
)

-- The note that an agent leaves on a ticket.
abbrev noted : TicketEvent
noted = new_event agent 70 working TicketEventType.internal_note_added none none [] 9

abbrev pub announced : TicketEventEnvelope
announced = record {
  type = RealtimeEventType.ticket_note_added;
  organization_id = 1;
  ticket_id = 1;
  ticket_number = 1;
  from_value = none;
  to_value = none;
  assigned_agent_id = some 11;
  customer_id = some 5;
  internal = true;
}

note_shown : ticket_envelope working noted true ≡ some announced
unfolding ticket_envelope
note_shown = refl

socket_audience_example : ticket_event_visible_to announced portal ≡ (
    ticket_visible portal working
    && (not true || has portal (Permission.message_read_internal ∷ [])))
socket_audience_example = socket_audience working noted true portal note_shown

-- The same desk without its second tenant.
abbrev alone : Db
alone = record desk_db { tickets = working ∷ solved ∷ [] }

reads_notes : has_permission UserRole.agent Permission.message_read_internal ≡ true
unfolding has_permission
reads_notes = refl

-- An assignment by somebody else, which the agent is told about.
abbrev assigned_event : TicketEvent
assigned_event = new_event outsider 71 working TicketEventType.assigned none none [] 9

notify_for_event-Addressed_example :
    Leads
      (λ ns w'.
        All
          (Addressed outsider working
            (recipients_for outsider working TicketEventType.assigned none desk.session))
          ns)
      (notify_for_event outsider working assigned_event none desk)
notify_for_event-Addressed_example =
    notify_for_event-Addressed outsider working assigned_event none desk

reading : (mark_read agent 40 9 desk).0 ≡ ok (record alert_row { read_at = some 9 })
unfolding mark_read get_for_user
reading = refl
