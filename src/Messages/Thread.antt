-- ===== src/Messages/Thread.antt =====
-- Who reads which part of a thread of backend/app/services/message_service.py, and what a post does to
-- its ticket.
use support_flow.Prelude.{
  ℕ, zero, suc, ◌≡◌, refl, subst, String, Bool, true, false, some, List, [], ◌∷◌, ◌++◌, inl, inr,
  All, All-take, All-select, All-order_by, Option-cases, arith,
}
use support_flow.Permissions.{Permission}
use support_flow.Tenancy.{TenantContext, has}
use support_flow.Errors.{ok, raised-ok, ok-ok}
use support_flow.Db.{Ticket, TicketEvent, Message, Db}
use support_flow.Scope.{get_visible}
use support_flow.Realtime.{
  envelopes_for, envelope_visible_to, ticket_event_visible_to, ticket_envelope,
}
use support_flow.Session.{Effect, World}
use support_flow.Tickets.{require_visible_ticket, record_event, publish}
use support_flow.Messages.{drop, list_for_ticket, list_messages, post_, post_note}

All-drop : (P : Message → Type 0) (n : ℕ) (ms : List Message) → All P ms → All P (drop n ms)
unfolding drop
All-drop P zero ms h = h
All-drop P (suc n) [] h = tt
All-drop P (suc n) (m ∷ ms) h = All-drop P n ms h.1

-- What a page of a thread may hold.
abbrev pub Readable : TenantContext → ℕ → Bool → Message → Type 0
Readable context ticket_id staff m =
    (m.organization_id ≡ context.organization_id)
    × (m.ticket_id ≡ ticket_id)
    × (staff ≡ false → m.is_internal ≡ false)

list_for_ticket-Readable :
    (context : TenantContext) (ticket_id : ℕ) (staff : Bool) (limit offset : ℕ) (db : Db)
    → All
        (Readable context ticket_id staff)
        (list_for_ticket context ticket_id staff limit offset db)
unfolding list_for_ticket
list_for_ticket-Readable context ticket_id staff limit offset db = All-take _ limit _ (
    All-drop _ offset _
      (All-order_by _ _ _ (All-select _ _ db.messages (λ m h. ground (arith, h)))))

-- Whatever page a caller asks for, every message of it belongs to the caller's organization and to a
-- ticket that the caller can see, and none is an internal note if the caller may not read those.
pub list_messages-Readable :
    (context : TenantContext) (ticket_id limit offset : ℕ) (w : World) (ms : List Message)
    → (list_messages context ticket_id limit offset w).0 ≡ ok ms
    → (t : Ticket) × ((get_visible context ticket_id w.session ≡ some t)
        × All (Readable context t.id (has context (Permission.message_read_internal ∷ []))) ms)
unfolding list_messages require_visible_ticket
list_messages-Readable context ticket_id limit offset w ms h =
    elim (Option-cases (get_visible context ticket_id w.session)) [
      | inl none' ↦ absurd (raised-ok (rw none' at h))
      | inr (t, found) ↦
          let staff = has context (Permission.message_read_internal ∷ []) in
          let page : list_for_ticket context t.id staff limit offset w.session ≡ ms =
            ok-ok (rw found at h) in
          (
            t,
            (
              found,
              subst (All (Readable context t.id staff)) page
                  (list_for_ticket-Readable context t.id staff limit offset w.session),
            ),
          )
    ]

hidden_from :
    (t : Ticket) (event : TicketEvent) (reader : TenantContext)
    → has reader (Permission.message_read_internal ∷ []) ≡ false
    → All (λ e. envelope_visible_to e reader ≡ false) (envelopes_for t event [] true)
unfolding envelopes_for ticket_envelope envelope_visible_to ticket_event_visible_to
hidden_from t event reader h = ground (arith, h)

-- An internal note changes no ticket, is committed, and is announced to no socket whose holder may not
-- read internal notes, the ticket's own customer among them.
pub post_note-quiet :
    (context : TenantContext) (ticket_id : ℕ) (body : String) (now : ℕ) (w : World) (m : Message)
    (reader : TenantContext)
    → (post_note context ticket_id body now w).0 ≡ ok m
    → has reader (Permission.message_read_internal ∷ []) ≡ false
    → let w' = (post_note context ticket_id body now w).1 in
      (w'.session.tickets ≡ w.session.tickets)
      × (w'.committed ≡ w'.session)
      × ((envelopes : List _) × ((w'.effects
              ≡ (w.effects ++ Effect.commit ∷ []) ++ Effect.publish envelopes ∷ [])
            × All (λ e. envelope_visible_to e reader ≡ false) envelopes))
unfolding post_note require_visible_ticket post_ record_event publish
post_note-quiet context ticket_id body now w m reader h portal =
    elim (Option-cases (get_visible context ticket_id w.session)) [
      | inl none' ↦ absurd (raised-ok (rw none' at h))
      | inr (t, found) ↦ rw found (refl, refl, (_, (refl, hidden_from t _ reader portal)))
    ]
