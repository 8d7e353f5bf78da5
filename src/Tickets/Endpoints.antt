-- ===== src/Tickets/Endpoints.antt =====
-- The outcome of each status endpoint of backend/app/services/ticket_service.py.
use support_flow.Prelude.{
  ℕ, ◌≡◌, refl, List, [], ◌∷◌, ◌==◌, ◌∙◌, ap, inl, inr, Bool-cases, Option-cases, update_where,
  arith, true, false,
}
use support_flow.Enums.{TicketStatus, TicketEventType, can_transition}
use support_flow.Tenancy.{TenantContext}
use support_flow.Errors.{AppError}
use support_flow.Db.{Ticket}
use support_flow.Scope.{get_visible}
use support_flow.Session.{World, continue, ◌>>◌, modify}
use support_flow.Session.Rules.{Leads-bind}
use support_flow.Tickets.{
  save_ticket, require_visible_ticket, is_action_edge, enter_status, transition_, change_status,
  close_ticket, reopen_ticket, clear_outcome,
}
use support_flow.Tickets.Outcome.{
  Outcome, Saved, Moved, Transition, announce, announce-Saved, transition_-Leads, transition_-Saved,
}

pub close_ticket-Outcome :
    (context : TenantContext) (id now : ℕ) (w : World)
    → Outcome context w
        (get_visible context id w.session)
        (Transition TicketStatus.closed now)
        (close_ticket context id now w)
unfolding close_ticket require_visible_ticket
close_ticket-Outcome context id now w = elim (Option-cases (get_visible context id w.session)) [
  | inl missing ↦ rw missing (Outcome.refused _ refl)
  | inr (t, found) ↦ rw found (elim (Bool-cases (can_transition t.status TicketStatus.closed)) [
    | inl legal ↦
        Outcome.saved t (enter_status TicketStatus.closed now t) refl (legal, refl)
          (transition_-Saved context t TicketStatus.closed TicketEventType.status_changed now w
            legal)
    | inr illegal ↦
        Outcome.refused (AppError.invalid_ticket_transition_error t.status TicketStatus.closed)
          (unfold transition_ in rw illegal)
  ])
]

-- A transition between the working states.
abbrev pub Moving : TicketStatus → ℕ → Ticket → Ticket → Type 0
Moving target now t t' = (is_action_edge target ≡ false) × Transition target now t t'

pub change_status-Outcome :
    (context : TenantContext) (id : ℕ) (target : TicketStatus) (now : ℕ) (w : World)
    → Outcome context w
        (get_visible context id w.session)
        (Moving target now)
        (change_status context id target now w)
unfolding change_status require_visible_ticket
change_status-Outcome context id target now w =
    elim (Option-cases (get_visible context id w.session)) [
      | inl missing ↦ rw missing (Outcome.refused _ refl)
      | inr (t, found) ↦ rw found (elim (Bool-cases (is_action_edge target)) [
        | inl other ↦ rw other (Outcome.refused _ refl)
        | inr working ↦ rw working (elim (Bool-cases (can_transition t.status target)) [
          | inl legal ↦
              Outcome.saved t (enter_status target now t) refl (working, (legal, refl))
                (transition_-Saved context t target TicketEventType.status_changed now w legal)
          | inr illegal ↦
              Outcome.refused (AppError.invalid_ticket_transition_error t.status target)
                (unfold transition_ in rw illegal)
        ])
      ])
    ]

-- Two writes of one row are the second.
save_twice :
    (a b : Ticket) (xs : List Ticket)
    → a.id ≡ b.id
    → update_where (λ s. s.id == b.id) (λ _. b) (update_where (λ s. s.id == a.id) (λ _. a) xs)
      ≡ update_where (λ s. s.id == b.id) (λ _. b) xs
save_twice a b [] h = refl
save_twice a b (x ∷ xs) h = ground (arith, save_twice a b xs h, h)

abbrev pub Reopening : ℕ → Ticket → Ticket → Type 0
Reopening now t t' =
    (can_transition t.status TicketStatus.«open» ≡ true)
    × (t' ≡ clear_outcome (enter_status TicketStatus.«open» now t))

reopen-Saved :
    (context : TenantContext) (t : Ticket) (now : ℕ) (w : World)
    → can_transition t.status TicketStatus.«open» ≡ true
    → Saved context w (clear_outcome (enter_status TicketStatus.«open» now t)) (
        continue
          (transition_ context t TicketStatus.«open» TicketEventType.reopened now w).0
          (λ (p : Moved).
            modify (save_ticket (clear_outcome p.0))
            >> announce context (clear_outcome p.0) p.1 p.2)
          (transition_ context t TicketStatus.«open» TicketEventType.reopened now w).1)
unfolding save_ticket clear_outcome enter_status
reopen-Saved context t now w legal =
    Leads-bind _ (Saved context w (clear_outcome (enter_status TicketStatus.«open» now t))) _ _
      (transition_-Leads context t TicketStatus.«open» TicketEventType.reopened now w legal)
      λ p w' h. rw (h.0) (
        announce-Saved context w
          (record w' {
            session =
                save_ticket (clear_outcome (enter_status TicketStatus.«open» now t)) w'.session;
          })
          (clear_outcome (enter_status TicketStatus.«open» now t)) p.1 p.2
          (ap
              (update_where (λ s. s.id == t.id)
                (λ _. clear_outcome (enter_status TicketStatus.«open» now t)))
              h.1.tickets
            ∙ save_twice (enter_status TicketStatus.«open» now t)
                (clear_outcome (enter_status TicketStatus.«open» now t)) w.session.tickets refl)
          h.1.effects)

pub reopen_ticket-Outcome :
    (context : TenantContext) (id now : ℕ) (w : World)
    → Outcome context w
        (get_visible context id w.session)
        (Reopening now)
        (reopen_ticket context id now w)
unfolding reopen_ticket require_visible_ticket
reopen_ticket-Outcome context id now w = elim (Option-cases (get_visible context id w.session)) [
  | inl missing ↦ rw missing (Outcome.refused _ refl)
  | inr (t, found) ↦ rw found (elim (Bool-cases (can_transition t.status TicketStatus.«open»)) [
    | inl legal ↦ Outcome.saved t _ refl (legal, refl) (reopen-Saved context t now w legal)
    | inr illegal ↦
        Outcome.refused (AppError.invalid_ticket_transition_error t.status TicketStatus.«open»)
          (unfold transition_ in rw illegal)
  ])
]
