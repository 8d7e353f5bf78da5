-- ===== src/Tickets/Outcome.antt =====
-- What a call on one existing ticket comes to: a refusal that changes nothing, a no-op, or one saved
-- ticket with its announcements after the commit.
use support_flow.Prelude.{
  ℕ, ◌≡◌, refl, true, false, Option, none, some, List, [], ◌∷◌, ◌++◌, map, ◌==◌, ◌∙◌, ap, ◌⊎◌, inl,
  inr, update_where,
}
use support_flow.Enums.{TicketStatus, TicketEventType, can_transition}
use support_flow.Tenancy.{TenantContext}
use support_flow.Errors.{AppError, Result, ok, raised}
use support_flow.Db.{Ticket, TicketEvent, Notification}
use support_flow.Realtime.{Envelope, envelopes_for}
use support_flow.Session.{Effect, World, App, continue, ◌>>◌, pure, emit, commit_session}
use support_flow.Session.Rules.{Leads, Leads-pure, Leads-bind}
use support_flow.Audit.{record_for}
use support_flow.Notifications.{notify_for_event, enqueue_delivery}
use support_flow.Notifications.Policy.{notify_for_event-Leads}
use support_flow.Tickets.{save_ticket, publish, enter_status, transition_}

abbrev delivered : List Notification → List Effect → List Effect
delivered [] es = es
delivered (n ∷ ns) es = es ++ Effect.deliver (map (λ m. m.id) (n ∷ ns)) ∷ []

-- The effects of one saved change: the commit, then the emails, the broadcast and the cache.
abbrev pub announcement : List Effect → List Notification → List Envelope → ℕ → List Effect
announcement es ns envelopes organization_id =
    (delivered ns (es ++ Effect.commit ∷ []) ++ Effect.publish envelopes ∷ [])
    ++ Effect.invalidate organization_id ∷ []

abbrev pub saved_tickets : World → Ticket → List Ticket
saved_tickets w t' = update_where (λ s. s.id == t'.id) (λ _. t') w.session.tickets

pub record Saved (context : TenantContext) (w : World) (t' : Ticket) (r : Result Ticket × World)
    : Type 0 where
  pub returns : r.0 ≡ ok t'
  pub tickets : r.1.session.tickets ≡ saved_tickets w t'
  pub settled : r.1.committed ≡ r.1.session
  pub event : TicketEvent
  pub alerts : List Notification
  pub trace :
      r.1.effects
      ≡ announcement w.effects alerts (envelopes_for t' event alerts false) context.organization_id

pub data Outcome (context : TenantContext) (w : World) (found : Option Ticket)
    (Change : Ticket → Ticket → Type 0) (r : Result Ticket × World) : Type 0 where
  refused : (e : AppError) → r ≡ (raised e, w) → Outcome context w found Change r
  unchanged : (t : Ticket) → found ≡ some t → r ≡ (ok t, w) → Outcome context w found Change r
  saved :
      (t t' : Ticket)
      → found ≡ some t
      → Change t t'
      → Saved context w t' r
      → Outcome context w found Change r

-- What a call that returned has done, and what one that raised has not.
module _ {context : TenantContext} {w : World} {found : Option Ticket}
    {Change : Ticket → Ticket → Type 0} {r : Result Ticket × World} where
  pub Outcome-ok :
      {t : Ticket}
      → Outcome context w found Change r
      → r.0 ≡ ok t
      → (s : Ticket) × (found ≡ some s) × ((t ≡ s) ⊎ Change s t)
  Outcome-ok (Outcome.refused e h) q = absurd (cc (ap (λ (p : Result Ticket × World). p.0) h, q))
  Outcome-ok (Outcome.unchanged s e h) q =
      (s, e, inl (cc (ap (λ (p : Result Ticket × World). p.0) h, q)))
  Outcome-ok {t} (Outcome.saved s s' e c h) q =
      let same : s' ≡ t = cc (h.returns, q) in (s, e, inr (rw same at c))

  pub Outcome-raised : {x : AppError} → Outcome context w found Change r → r.0 ≡ raised x → r.1 ≡ w
  Outcome-raised (Outcome.refused e h) q = ap (λ (p : Result Ticket × World). p.1) h
  Outcome-raised (Outcome.unchanged s e h) q =
      absurd (cc (ap (λ (p : Result Ticket × World). p.0) h, q))
  Outcome-raised (Outcome.saved s s' e c h) q = absurd (cc (h.returns, q))

-- The calls after the last write.
abbrev pub announce : TenantContext → Ticket → TicketEvent → List Notification → App Ticket
announce context t' event ns = do
  commit_session
  enqueue_delivery ns
  publish t' event ns false
  emit (Effect.invalidate context.organization_id)
  pure t'

pub announce-Saved :
    (context : TenantContext) (w w' : World) (t' : Ticket) (event : TicketEvent)
    (ns : List Notification)
    → w'.session.tickets ≡ saved_tickets w t'
    → w'.effects ≡ w.effects
    → Saved context w t' (announce context t' event ns w')
unfolding enqueue_delivery publish
announce-Saved context w w' t' event [] ht he = record {
  returns = refl;
  tickets = ht;
  settled = refl;
  event = event;
  alerts = [];
  trace = rw he;
}
announce-Saved context w w' t' event (n ∷ ns) ht he = record {
  returns = refl;
  tickets = ht;
  settled = refl;
  event = event;
  alerts = n ∷ ns;
  trace = rw he;
}

-- One saved ticket in the open transaction, nothing committed and nothing sent.
pub record Pending (w : World) (t' : Ticket) (w' : World) : Type 0 where
  pub tickets : w'.session.tickets ≡ saved_tickets w t'
  pub committed : w'.committed ≡ w.committed
  pub effects : w'.effects ≡ w.effects

abbrev pub Moved : Type 0
Moved = Ticket × TicketEvent × List Notification

alert-Leads :
    (context : TenantContext) (w w' : World) (t' : Ticket) (event : TicketEvent)
    → Pending w t' w'
    → Leads {A = Moved}
        (λ p w''. (p.0 ≡ t') × Pending w t' w'')
        (continue
          (notify_for_event context t' event none w').0
          (λ (ns : List Notification). pure (t', event, ns))
          (notify_for_event context t' event none w').1)
alert-Leads context w w' t' event h =
    Leads-bind _ (Leads _) (notify_for_event context t' event none w') _
      (notify_for_event-Leads context t' event none w')
      λ ns w'' k. Leads-pure _ _ w'' (
        refl,
        record {
          tickets = k.tickets ∙ h.tickets;
          committed = k.committed ∙ h.committed;
          effects = k.effects ∙ h.effects;
        },
      )

pub transition_-Leads :
    (context : TenantContext) (t : Ticket) (target : TicketStatus) (event_type : TicketEventType)
    (now : ℕ) (w : World)
    → can_transition t.status target ≡ true
    → Leads {A = Moved}
        (λ p w'. (p.0 ≡ enter_status target now t) × Pending w (enter_status target now t) w')
        (transition_ context t target event_type now w)
unfolding transition_ save_ticket record_for
transition_-Leads context t target event_type now w legal = rw legal (
    alert-Leads context w _ (enter_status target now t) _
      (record { tickets = refl; committed = refl; effects = refl }))

abbrev pub Transition : TicketStatus → ℕ → Ticket → Ticket → Type 0
Transition target now t t' =
    (can_transition t.status target ≡ true) × (t' ≡ enter_status target now t)

-- A legal transition that is then announced.
pub transition_-Saved :
    (context : TenantContext) (t : Ticket) (target : TicketStatus) (event_type : TicketEventType)
    (now : ℕ) (w : World)
    → can_transition t.status target ≡ true
    → Saved context w (enter_status target now t) (
        continue
          (transition_ context t target event_type now w).0
          (λ (p : Moved). announce context p.0 p.1 p.2)
          (transition_ context t target event_type now w).1)
transition_-Saved context t target event_type now w legal =
    Leads-bind _ (Saved context w (enter_status target now t)) _ _
      (transition_-Leads context t target event_type now w legal)
      λ p w' h.
        rw (h.0)
          (announce-Saved context w w' (enter_status target now t) p.1 p.2 h.1.tickets h.1.effects)
