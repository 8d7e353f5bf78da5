-- ===== src/Tickets/Calls/Consistency.antt =====
-- A ticket's status, agent and terminal timestamps agree, and every call keeps it so.
use support_flow.Prelude.{
  ℕ, ◌≡◌, ◌≢◌, refl, true, false, Option, none, is_some, All, All-update_where, ◌==◌, arith,
}
use support_flow.Enums.{TicketStatus, can_transition}
use support_flow.Tenancy.{TenantContext}
use support_flow.Db.{Ticket, Db}
use support_flow.Scope.Isolation.{get_visible-All}
use support_flow.Session.{World}
use support_flow.Tickets.{is_action_edge, enter_status, clear_outcome}
use support_flow.Tickets.Assignment.{with_agent}
use support_flow.Tickets.Outcome.{Outcome, saved_tickets}
use support_flow.Tickets.Calls.{Call, ticket_of, perform, Change, perform-Outcome}

-- Agent, resolution time and closing time that fit a status. The last two clauses imply the table's
-- `resolved_at_matches_status` constraint.
abbrev pub Fits : TicketStatus → Option ℕ → Option ℕ → Option ℕ → Type 0
Fits TicketStatus.«open» agent resolved closed =
    (agent ≡ none) × (resolved ≡ none) × (closed ≡ none)
Fits TicketStatus.assigned agent resolved closed =
    (is_some agent ≡ true) × (resolved ≡ none) × (closed ≡ none)
Fits TicketStatus.in_progress agent resolved closed = (resolved ≡ none) × (closed ≡ none)
Fits TicketStatus.waiting_for_customer agent resolved closed = (resolved ≡ none) × (closed ≡ none)
Fits TicketStatus.resolved agent resolved closed = (is_some resolved ≡ true) × (closed ≡ none)
Fits TicketStatus.closed agent resolved closed = (is_some resolved ≡ true) × (is_some closed ≡ true)

abbrev pub IsCoherent : Ticket → Type 0
IsCoherent t = Fits t.status t.assigned_agent_id t.resolved_at t.closed_at

transition-IsCoherent :
    (target : TicketStatus) (now : ℕ) (t : Ticket)
    → can_transition t.status target ≡ true
    → target ≢ TicketStatus.assigned
    → target ≢ TicketStatus.«open»
    → IsCoherent t
    → IsCoherent (enter_status target now t)
unfolding can_transition enter_status
transition-IsCoherent target now t legal a o h = ground arith

working-ne :
    (target : TicketStatus)
    → is_action_edge target ≡ false
    → (target ≢ TicketStatus.assigned) × (target ≢ TicketStatus.«open»)
unfolding is_action_edge
working-ne target h = ground arith

Change-IsCoherent :
    (context : TenantContext) (call : Call) (now : ℕ) (db : Db) (t t' : Ticket)
    → Change context call now db t t'
    → IsCoherent t
    → IsCoherent t'
unfolding with_agent clear_outcome
Change-IsCoherent context (Call.assign id agent) now db t t' h c = rw (h.0) (ground arith)
Change-IsCoherent context (Call.prioritise id priority) now db t t' h c = rw (h.0) c
Change-IsCoherent context (Call.move id target) now db t t' h c =
    rw (h.1.1) (
      transition-IsCoherent target now t h.1.0 (working-ne target h.0).0 (working-ne target h.0).1
        c)
Change-IsCoherent context (Call.close id) now db t t' h c =
    rw (h.1) (transition-IsCoherent TicketStatus.closed now t h.0 (λ e. cc) (λ e. cc) c)
Change-IsCoherent context (Call.reopen id) now db t t' h c =
    rw (h.1) (unfold enter_status in (refl, refl, refl))

-- Every ticket of the open transaction and of the committed state is coherent.
abbrev pub AllCoherent : World → Type 0
AllCoherent w = All IsCoherent w.session.tickets × All IsCoherent w.committed.tickets

-- Whether a call succeeds or raises, it keeps every ticket of the session and of the committed state
-- coherent: an open one has no agent, an assigned one has an agent, a resolved one its resolution
-- time and no closing time, a closed one both, and the other statuses neither.
pub perform-AllCoherent :
    (context : TenantContext) (call : Call) (now : ℕ) (w : World)
    → AllCoherent w
    → AllCoherent (perform context call now w).1
perform-AllCoherent context call now w h = elim (perform-Outcome context call now w) [
  | Outcome.refused e r ↦ rw r h
  | Outcome.unchanged t found r ↦ rw r h
  | Outcome.saved t t' found c saved ↦
      let kept : All IsCoherent (saved_tickets w t') =
        All-update_where IsCoherent (λ s. s.id == t'.id) (λ _. t') w.session.tickets
          (λ s _ _.
            Change-IsCoherent context call now w.session t t' c
              (get_visible-All IsCoherent context (ticket_of call) w.session h.0 found))
          h.0 in
      (rw (saved.tickets) kept, rw (saved.settled, saved.tickets) kept)
]
