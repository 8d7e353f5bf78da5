-- ===== src/Notifications/Policy.antt =====
-- The notification policy as a whole: staging succeeds, and touches no ticket.
use support_flow.Prelude.{ℕ, Option, List, [], ◌∷◌, inl, inr, Bool-cases, ◌==◌}
use support_flow.Tenancy.{TenantContext}
use support_flow.Db.{Ticket, TicketEvent, Message, Notification}
use support_flow.Session.{World}
use support_flow.Session.Rules.{Leads, Leads-pure, Leads-bind, SameTickets, SameTickets-refl}
use support_flow.Notifications.{
  is_worker, is_silent, recipients_for, stage_for, notify_for_event, add_notification,
  notification_type_for, title_for,
}

abbrev pub Staged : World → List Notification → World → Type 0
Staged w ns w' = SameTickets w w'

stage_for-Leads :
    (context : TenantContext) (t : Ticket) (event : TicketEvent) (recipients : List ℕ) (w : World)
    → Leads (Staged w) (stage_for context t event recipients w)
unfolding stage_for
stage_for-Leads context t event [] w = Leads-pure (Staged w) [] w (SameTickets-refl w)
stage_for-Leads context t event (r ∷ rest) w = elim (Bool-cases (r == context.user_id)) [
  | inl own ↦ rw own (stage_for-Leads context t event rest w)
  | inr other ↦
      let (n, w') =
        add_notification context.organization_id r (notification_type_for event) (title_for event) t
          w in
      rw other (
        Leads-bind (Staged w') (Leads (Staged w)) _ _ (stage_for-Leads context t event rest w')
          λ ns w'' h. Leads-pure (Staged w) _ w'' (record {
            tickets = h.tickets;
            messages = h.messages;
            committed = h.committed;
            effects = h.effects;
          }))
]

-- Staging the alerts of an event always succeeds, changes no ticket, commits nothing and sends
-- nothing.
pub notify_for_event-Leads :
    (context : TenantContext) (t : Ticket) (event : TicketEvent) (message : Option Message)
    (w : World)
    → Leads (Staged w) (notify_for_event context t event message w)
unfolding notify_for_event
notify_for_event-Leads context t event message w = elim (Bool-cases (is_worker event.event_type)) [
  | inl yes' ↦ rw yes' (Leads-pure (Staged w) [] w (SameTickets-refl w))
  | inr no' ↦ rw no' (elim (Bool-cases (is_silent event.event_type)) [
    | inl quiet ↦ rw quiet (Leads-pure (Staged w) [] w (SameTickets-refl w))
    | inr loud ↦ rw loud (
        stage_for-Leads context t event
          (recipients_for context t event.event_type message w.session) w)
  ])
]
