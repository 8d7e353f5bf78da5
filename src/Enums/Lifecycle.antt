-- ===== src/Enums/Lifecycle.antt =====
-- The lifecycle of backend/app/models/enums.py as a graph: the edges of docs/requirements.md §5.
use support_flow.Prelude.{◌≡◌, ◌↔◌, refl, true, arith}
use support_flow.Enums.{TicketStatus, can_transition}

-- One arrow of the documented lifecycle diagram.
pub data Edge : TicketStatus → TicketStatus → Type 0 where
  assign : Edge TicketStatus.«open» TicketStatus.assigned
  start : Edge TicketStatus.assigned TicketStatus.in_progress
  ask : Edge TicketStatus.in_progress TicketStatus.waiting_for_customer
  answer : Edge TicketStatus.waiting_for_customer TicketStatus.in_progress
  resolve : Edge TicketStatus.in_progress TicketStatus.resolved
  close : Edge TicketStatus.resolved TicketStatus.closed
  reopen : Edge TicketStatus.closed TicketStatus.«open»

pub can_transition-Edge : (s t : TicketStatus) → can_transition s t ≡ true → Edge s t
unfolding can_transition
can_transition-Edge s t h = grind (arith, assign, start, ask, answer, resolve, close, reopen)

pub Edge-can_transition : {s t : TicketStatus} → Edge s t → can_transition s t ≡ true
unfolding can_transition
Edge-can_transition assign = refl
Edge-can_transition start = refl
Edge-can_transition ask = refl
Edge-can_transition answer = refl
Edge-can_transition resolve = refl
Edge-can_transition close = refl
Edge-can_transition reopen = refl

-- The transition table allows exactly the seven arrows of the documented lifecycle.
pub can_transition_iff : (s t : TicketStatus) → (can_transition s t ≡ true) ↔ Edge s t
can_transition_iff s t = (can_transition-Edge s t, Edge-can_transition)
