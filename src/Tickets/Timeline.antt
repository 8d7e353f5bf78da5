-- ===== src/Tickets/Timeline.antt =====
-- The timeline that `list_events` of backend/app/services/ticket_service.py reads through
-- backend/app/repositories/ticket_event_repository.py.
use support_flow.Prelude.{
  ℕ, ◌≡◌, subst, Bool, true, false, not, some, List, [], ◌∷◌, ◌&&◌, ◌||◌, ◌==◌, select, order_by,
  inl, inr, All, All-select, All-order_by, Option-cases, arith,
}
use support_flow.Enums.{TicketEventType}
use support_flow.Permissions.{Permission}
use support_flow.Tenancy.{TenantContext, has}
use support_flow.Errors.{ok, raised-ok, ok-ok}
use support_flow.Db.{Ticket, TicketEvent, Db}
use support_flow.Scope.{get_visible}
use support_flow.Session.{World, App, ◌>>=◌, gets}
use support_flow.Sla.Sweep.{by_creation}
use support_flow.Tickets.{require_visible_ticket}

abbrev pub is_note : TicketEventType → Bool
is_note TicketEventType.internal_note_added = true
is_note _ = false

abbrev pub is_sla_alert : TicketEventType → Bool
is_sla_alert TicketEventType.sla_warning = true
is_sla_alert TicketEventType.sla_breached = true
is_sla_alert _ = false

-- TicketEventRepository.list_for_ticket
unfoldable pub events_for_ticket : TenantContext → ℕ → Bool → Bool → Db → List TicketEvent
unfolding order_by
events_for_ticket context ticket_id include_internal include_sla_alerts db =
    order_by (λ a b. by_creation a.created_at a.id b.created_at b.id)
      (select
        (λ e.
          e.organization_id == context.organization_id
          && e.ticket_id == ticket_id
          && (include_internal || not (is_note e.event_type))
          && (include_sla_alerts || not (is_sla_alert e.event_type)))
        db.events)

unfoldable pub list_events : TenantContext → ℕ → App (List TicketEvent)
unfolding events_for_ticket
list_events context ticket_id = do
  _ ← require_visible_ticket context ticket_id
  gets (
      events_for_ticket context ticket_id (has context (Permission.message_read_internal ∷ []))
        (has context (Permission.sla_view ∷ [])))

-- What a timeline may hold.
abbrev pub Disclosable : TenantContext → ℕ → Bool → Bool → TicketEvent → Type 0
Disclosable context ticket_id notes alerts e =
    (e.organization_id ≡ context.organization_id)
    × (e.ticket_id ≡ ticket_id)
    × (notes ≡ false → is_note e.event_type ≡ false)
    × (alerts ≡ false → is_sla_alert e.event_type ≡ false)

events_for_ticket-Disclosable :
    (context : TenantContext) (ticket_id : ℕ) (notes alerts : Bool) (db : Db)
    → All
        (Disclosable context ticket_id notes alerts)
        (events_for_ticket context ticket_id notes alerts db)
unfolding events_for_ticket
events_for_ticket-Disclosable context ticket_id notes alerts db =
    All-order_by _ _ _ (All-select _ _ db.events (λ e h. ground (arith, h)))

-- A timeline is read only through a ticket that the caller can see, and holds that ticket's events
-- only; without the capability to read internal notes it mentions none, and without the capability to
-- see targets it has no SLA alert.
pub list_events-Disclosable :
    (context : TenantContext) (ticket_id : ℕ) (w : World) (es : List TicketEvent)
    → (list_events context ticket_id w).0 ≡ ok es
    → (t : Ticket) × ((get_visible context ticket_id w.session ≡ some t)
        × All
            (Disclosable context ticket_id
              (has context (Permission.message_read_internal ∷ []))
              (has context (Permission.sla_view ∷ [])))
            es)
unfolding list_events require_visible_ticket
list_events-Disclosable context ticket_id w es h =
    elim (Option-cases (get_visible context ticket_id w.session)) [
      | inl none' ↦ absurd (raised-ok (rw none' at h))
      | inr (t, found) ↦
          let notes = has context (Permission.message_read_internal ∷ []) in
          let alerts = has context (Permission.sla_view ∷ []) in
          let page : events_for_ticket context ticket_id notes alerts w.session ≡ es =
            ok-ok (rw found at h) in
          (
            t,
            (
              found,
              subst (All (Disclosable context ticket_id notes alerts)) page
                  (events_for_ticket-Disclosable context ticket_id notes alerts w.session),
            ),
          )
    ]
