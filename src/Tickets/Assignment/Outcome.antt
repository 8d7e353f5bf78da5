-- ===== src/Tickets/Assignment/Outcome.antt =====
-- The outcome of assignment and of a priority change.
use support_flow.Prelude.{
  ℕ, ◌≡◌, refl, not, Option, none, some, [], ◌&&◌, inl, inr, Bool-cases, Option-cases, true, false,
  same_id, is_some,
}
use support_flow.Enums.{
  TicketStatus, TicketPriority, TicketEventType, AuditAction, same_status, same_priority,
}
use support_flow.Tenancy.{TenantContext}
use support_flow.Errors.{AppError, ErrorCode}
use support_flow.Db.{Ticket, TicketEvent, FieldValue, AuditValue, Db}
use support_flow.Scope.{get_visible}
use support_flow.Session.{World, App, ◌>>=◌, ◌>>◌, pure, modify}
use support_flow.Session.Rules.{Leads-bind}
use support_flow.Audit.{record_for}
use support_flow.Notifications.{enqueue_delivery}
use support_flow.Notifications.Policy.{notify_for_event-Leads}
use support_flow.Tickets.{save_ticket, require_visible_ticket, record_event}
use support_flow.Tickets.Outcome.{Outcome, Saved, announce-Saved}
use support_flow.Tickets.Assignment.{
  agent_exists, with_agent, assign_ticket, write_assignment, change_priority, write_priority,
}

write_assignment-Saved :
    (context : TenantContext) (agent : Option ℕ) (now : ℕ) (t : Ticket) (w : World)
    → Saved context w (with_agent agent t) (write_assignment context agent now t w)
unfolding write_assignment save_ticket record_event record_for
write_assignment-Saved context agent now t w =
    Leads-bind _ (Saved context w (with_agent agent t)) _ _
      (notify_for_event-Leads context (with_agent agent t) _ none _)
      λ ns w' h. announce-Saved context w w' (with_agent agent t) _ ns h.tickets h.effects

-- A new agent, under the guards of `assign_ticket`.
abbrev pub Assigned : TenantContext → Option ℕ → Db → Ticket → Ticket → Type 0
Assigned context agent db t t' =
    (t' ≡ with_agent agent t)
    × (agent_exists context agent db ≡ true)
    × (same_id t.assigned_agent_id agent ≡ false)
    × ((not (is_some agent) && same_status t.status TicketStatus.assigned) ≡ false)

pub assign_ticket-Outcome :
    (context : TenantContext) (id : ℕ) (agent : Option ℕ) (now : ℕ) (w : World)
    → Outcome context w
        (get_visible context id w.session)
        (Assigned context agent w.session)
        (assign_ticket context id agent now w)
unfolding assign_ticket require_visible_ticket
assign_ticket-Outcome context id agent now w =
    elim (Option-cases (get_visible context id w.session)) [
      | inl missing ↦ rw missing (Outcome.refused _ refl)
      | inr (t, found) ↦ rw found (elim (Bool-cases (agent_exists context agent w.session)) [
        | inr absent ↦
            Outcome.refused (AppError.not_found_error ErrorCode.user_not_found) (rw absent)
        | inl present ↦
            rw present
              (elim (Bool-cases
                (not (is_some agent) && same_status t.status TicketStatus.assigned)) [
                  | inl bare ↦
                      Outcome.refused
                        (AppError.invalid_ticket_transition_error TicketStatus.assigned
                          TicketStatus.«open»)
                        (rw bare)
                  | inr free ↦ rw free (elim (Bool-cases (same_id t.assigned_agent_id agent)) [
                    | inl same ↦ Outcome.unchanged t refl (rw same)
                    | inr other ↦
                        Outcome.saved t (with_agent agent t) refl (refl, present, other, free)
                          (rw other (write_assignment-Saved context agent now t w))
                  ])
                ])
      ])
    ]

-- The staged part of a priority change.
abbrev priority_writes : TenantContext → TicketPriority → ℕ → Ticket → App TicketEvent
priority_writes context priority now t = do
  let t' : Ticket = record t { priority = priority }
  modify (save_ticket t')
  event ←
      record_event context t' TicketEventType.priority_changed
        (some (FieldValue.priority t.priority)) (some (FieldValue.priority priority)) [] now
  record_for context AuditAction.ticket_priority_changed "ticket" t'.id
      (some (AuditValue.priority t.priority)) (some (AuditValue.priority priority)) none
  pure event

write_priority-Saved :
    (context : TenantContext) (priority : TicketPriority) (now : ℕ) (t : Ticket) (w : World)
    → Saved context w (record t { priority = priority }) (write_priority context priority now t w)
unfolding write_priority save_ticket record_event record_for enqueue_delivery
write_priority-Saved context priority now t w =
    announce-Saved context w (priority_writes context priority now t w).1
      (record t { priority = priority }) _ [] refl refl

abbrev pub Reprioritised : TicketPriority → Ticket → Ticket → Type 0
Reprioritised priority t t' =
    (t' ≡ record t { priority = priority }) × (same_priority t.priority priority ≡ false)

pub change_priority-Outcome :
    (context : TenantContext) (id : ℕ) (priority : TicketPriority) (now : ℕ) (w : World)
    → Outcome context w
        (get_visible context id w.session)
        (Reprioritised priority)
        (change_priority context id priority now w)
unfolding change_priority require_visible_ticket
change_priority-Outcome context id priority now w =
    elim (Option-cases (get_visible context id w.session)) [
      | inl missing ↦ rw missing (Outcome.refused _ refl)
      | inr (t, found) ↦ rw found (elim (Bool-cases (same_priority t.priority priority)) [
        | inl same ↦ Outcome.unchanged t refl (rw same)
        | inr other ↦
            Outcome.saved t (record t { priority = priority }) refl (refl, other)
              (rw other (write_priority-Saved context priority now t w))
      ])
    ]
