-- ===== src/Notifications/Audience.antt =====
-- Whom the notifications of an event go to.
use support_flow.Prelude.{
  ℕ, ◌≡◌, refl, true, false, Option, some, List, [], ◌∷◌, inl, inr, ◌==◌, ==_refl, elem, All,
  All-map, Bool-cases, arith,
}
use support_flow.Tenancy.{TenantContext}
use support_flow.Db.{Ticket, TicketEvent, Message, Notification}
use support_flow.Session.{World}
use support_flow.Session.Rules.{Leads, Leads-pure, Leads-bind}
use support_flow.Notifications.{
  is_worker, is_silent, recipients_for, stage_for, notify_for_event, add_notification,
  notification_type_for, title_for,
}

-- A notification about the ticket, within the tenant, to one of `recipients` who is not the actor.
abbrev pub Addressed : TenantContext → Ticket → List ℕ → Notification → Type 0
Addressed context t recipients n =
    (n.organization_id ≡ context.organization_id)
    × (n.ticket_id ≡ some t.id)
    × ((n.user_id == context.user_id) ≡ false)
    × (elem n.user_id recipients ≡ true)

stage_for-Addressed :
    (context : TenantContext) (t : Ticket) (event : TicketEvent) (recipients : List ℕ) (w : World)
    → Leads
        (λ ns w'. All (Addressed context t recipients) ns)
        (stage_for context t event recipients w)
unfolding stage_for add_notification
stage_for-Addressed context t event [] w = Leads-pure _ [] w tt
stage_for-Addressed context t event (r ∷ rest) w =
    let wider : (ns : List Notification)
        → All (Addressed context t rest) ns
        → All (Addressed context t (r ∷ rest)) ns =
      λ ns. All-map _ _ ns (λ n k. (k.0, k.1, k.2, ground (arith, k.3))) in
    elim (Bool-cases (r == context.user_id)) [
      | inl own ↦
          let later = stage_for-Addressed context t event rest w in
          rw own (record {
            result = later.result;
            returns = later.returns;
            post = wider later.result later.post;
          })
      | inr other ↦
          let (n, w') =
            add_notification context.organization_id r (notification_type_for event)
              (title_for event) t w in
          rw other (
            Leads-bind _ (Leads (λ ns w''. All (Addressed context t (r ∷ rest)) ns)) _ _
              (stage_for-Addressed context t event rest w')
              λ ns w'' h. Leads-pure _ _ w'' ((refl, refl, other, rw (==_refl r) refl), wider ns h))
    ]

-- Whatever the event, staging its notifications succeeds, and every one of them is about the ticket,
-- within the caller's organization, and addressed to one of the event's recipients and never to the
-- person who caused it.
pub notify_for_event-Addressed :
    (context : TenantContext) (t : Ticket) (event : TicketEvent) (message : Option Message)
    (w : World)
    → Leads
        (λ ns w'.
          All
            (Addressed context t (recipients_for context t event.event_type message w.session))
            ns)
        (notify_for_event context t event message w)
unfolding notify_for_event
notify_for_event-Addressed context t event message w =
    elim (Bool-cases (is_worker event.event_type)) [
      | inl yes' ↦ rw yes' (Leads-pure _ [] w tt)
      | inr no' ↦ rw no' (elim (Bool-cases (is_silent event.event_type)) [
        | inl quiet ↦ rw quiet (Leads-pure _ [] w tt)
        | inr loud ↦ rw loud (
            stage_for-Addressed context t event
              (recipients_for context t event.event_type message w.session) w)
      ])
    ]
