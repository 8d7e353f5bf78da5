-- ===== src/Tickets/Calls/Lifecycle.antt =====
-- The status of a ticket moves along the documented lifecycle only.
use support_flow.Prelude.{ℕ, ◌≡◌, refl, ap, ◌⊎◌, inl, inr, Option, some, true, arith}
use support_flow.Enums.{TicketStatus, can_transition}
use support_flow.Enums.Lifecycle.{Edge, can_transition-Edge}
use support_flow.Tenancy.{TenantContext}
use support_flow.Errors.{ok}
use support_flow.Db.{Ticket, Db}
use support_flow.Scope.{get_visible}
use support_flow.Session.{World}
use support_flow.Tickets.{enter_status, clear_outcome}
use support_flow.Tickets.Assignment.{with_agent}
use support_flow.Tickets.Outcome.{Outcome-ok}
use support_flow.Tickets.Calls.{Call, ticket_of, perform, Change, perform-Outcome}

-- The status stays, or follows one edge.
abbrev pub Follows : Ticket → Ticket → Type 0
Follows t t' = (t'.id ≡ t.id) × ((t'.status ≡ t.status) ⊎ Edge t.status t'.status)

-- What `_transition` writes besides the timestamps.
pub enter_status_keeps :
    (target : TicketStatus) (now : ℕ) (t : Ticket)
    → ((enter_status target now t).status ≡ target)
      × ((enter_status target now t).id ≡ t.id)
      × ((enter_status target now t).organization_id ≡ t.organization_id)
unfolding enter_status
enter_status_keeps target now t = ground arith

with_agent-Follows : (agent : Option ℕ) (t : Ticket) → Follows t (with_agent agent t)
unfolding with_agent
with_agent-Follows agent t = grind (arith, Edge.assign)

transition-Follows :
    (target : TicketStatus) (now : ℕ) (t : Ticket)
    → can_transition t.status target ≡ true
    → Follows t (enter_status target now t)
transition-Follows target now t legal =
    let (status, id, org) = enter_status_keeps target now t in
    (id, inr (rw status (can_transition-Edge t.status target legal)))

Change-Follows :
    (context : TenantContext) (call : Call) (now : ℕ) (db : Db) (t t' : Ticket)
    → Change context call now db t t'
    → Follows t t'
unfolding clear_outcome
Change-Follows context (Call.assign id agent) now db t t' h = rw (h.0) (with_agent-Follows agent t)
Change-Follows context (Call.prioritise id priority) now db t t' h = rw (h.0) (refl, inl refl)
Change-Follows context (Call.move id target) now db t t' h =
    rw (h.1.1) (transition-Follows target now t h.1.0)
Change-Follows context (Call.close id) now db t t' h =
    rw (h.1) (transition-Follows TicketStatus.closed now t h.0)
Change-Follows context (Call.reopen id) now db t t' h =
    rw (h.1) (transition-Follows TicketStatus.«open» now t h.0)

-- Whatever call succeeds on an existing ticket, the ticket it returns is the caller's visible ticket
-- with its status unchanged or moved along one edge of the documented lifecycle.
pub perform-Follows :
    (context : TenantContext) (call : Call) (now : ℕ) (w : World) (t : Ticket)
    → (perform context call now w).0 ≡ ok t
    → (s : Ticket) × (get_visible context (ticket_of call) w.session ≡ some s) × Follows s t
perform-Follows context call now w t h =
    let (s, found, change) = Outcome-ok (perform-Outcome context call now w) h in
    (
      s,
      found,
      elim change [
        | inl same ↦ (ap (λ (r : Ticket). r.id) same, inl (ap (λ (r : Ticket). r.status) same))
        | inr c ↦ Change-Follows context call now w.session s t c
      ],
    )
