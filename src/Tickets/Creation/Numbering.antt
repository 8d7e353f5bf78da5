-- ===== src/Tickets/Creation/Numbering.antt =====
-- What `create_ticket` of backend/app/services/ticket_service.py adds: one ticket, with a number of its
-- own.
use support_flow.Prelude.{
  ℕ, ◌≡◌, ◌≤◌, ◌<◌, refl, sym, ap, subst, ◌∙◌, ◌⊎◌, true, false, not, Option, none, some, List, [],
  ◌∷◌, ◌++◌, inl, inr, ◌||◌, ◌==◌, is_some, All, All-map, Bool-cases, Option-cases, arith,
}
use support_flow.Enums.{TicketStatus, TicketEventType, AuditAction}
use support_flow.Permissions.{Permission, RowScope, ticket_scope_by_role}
use support_flow.Tenancy.{TenantContext, has, scope_for}
use support_flow.Errors.{AppError, ErrorCode, Result, ok, raised, raised-ok, ok-raised, ok-ok}
use support_flow.Db.{Ticket, FieldValue, AuditValue, AuditMetadata, Db}
use support_flow.Scope.{get_customer}
use support_flow.Session.{Effect, World, App, ◌>>=◌, ◌>>◌, pure, emit, commit_session}
use support_flow.Session.Rules.{Leads, Leads-pure, Leads-bind}
use support_flow.Audit.{record_for}
use support_flow.Analysis.{request_analysis}
use support_flow.Analysis.Coverage.{request_analysis-Leads}
use support_flow.Tickets.{record_event, publish}
use support_flow.Tickets.Calls.Consistency.{IsCoherent}
use support_flow.Tickets.Creation.{
  TicketCreate, max_number, allocate_number, customer_for, resolve_customer, add_ticket,
  create_ticket,
}

max_number-All :
    (organization_id : ℕ) (ts : List Ticket)
    → All
        (λ s.
          (s.organization_id == organization_id) ≡ true → s.number ≤ max_number organization_id ts)
        ts
unfolding max_number
max_number-All organization_id [] = tt
max_number-All organization_id (t ∷ ts) = (
  λ same. ground (arith, same),
  All-map _ _ ts (λ s le same. ground (arith, le same)) (max_number-All organization_id ts),
)

-- The customer is the portal caller's own, or one of the organization's.
abbrev pub Owner : RowScope → TenantContext → Db → ℕ → Type 0
Owner RowScope.own context db customer_id = context.customer_id ≡ some customer_id
Owner _ context db customer_id = is_some (get_customer context customer_id db) ≡ true

customer_for-cases :
    (scope : RowScope) (context : TenantContext) (requested : Option ℕ) (w : World)
    → ((e : AppError) × (customer_for scope context requested w ≡ (raised e, w)))
      ⊎ ((c : ℕ) × ((customer_for scope context requested w ≡ (ok c, w))
            × Owner scope context w.session c))
unfolding customer_for
customer_for-cases RowScope.own context (some c) w = inl (AppError.validation_error, refl)
customer_for-cases RowScope.own context none w = elim (Option-cases context.customer_id) [
  | inl none' ↦ inl (AppError.validation_error, rw none' refl)
  | inr (c, own) ↦ inr (c, (rw own refl, own))
]
customer_for-cases scope context none w = inl (AppError.validation_error, refl)
customer_for-cases scope context (some c) w =
    elim (Option-cases (get_customer context c w.session)) [
      | inl none' ↦ inl (AppError.not_found_error ErrorCode.customer_not_found, rw none' refl)
      | inr (found, there) ↦ inr (c, (rw there refl, rw there refl))
    ]

-- The rest of the call, and what it does.
abbrev write_ticket : TenantContext → TicketCreate → ℕ → ℕ → App Ticket
write_ticket context payload customer_id now = do
  t ← add_ticket context payload customer_id now
  event ←
      record_event context t TicketEventType.created none
        (some (FieldValue.status TicketStatus.«open»)) [] now
  record_for context AuditAction.ticket_created "ticket" t.id none
      (some (AuditValue.ticket t.number t.status)) (some (AuditMetadata.subject t.subject))
  commit_session
  publish t event [] false
  emit (Effect.invalidate context.organization_id)
  _ ← request_analysis context t now
  pure t

abbrev pub Created : TenantContext → World → Ticket → World → Type 0
Created context w t w' =
    All (λ s. (s.organization_id == context.organization_id) ≡ true → s.number < t.number)
      w.session.tickets
    × (w'.session.tickets ≡ w.session.tickets ++ t ∷ [])
    × (w'.committed ≡ w'.session)
    × (t.organization_id ≡ context.organization_id)
    × Owner (scope_for context ticket_scope_by_role) context w.session t.customer_id
    × IsCoherent t

write_ticket-Leads :
    (context : TenantContext) (payload : TicketCreate) (customer_id now : ℕ) (w : World)
    → Owner (scope_for context ticket_scope_by_role) context w.session customer_id
    → Leads (Created context w) (write_ticket context payload customer_id now w)
unfolding add_ticket allocate_number record_event record_for publish
write_ticket-Leads context payload customer_id now w owner =
    Leads-bind _ (Leads (Created context w)) _ _ (request_analysis-Leads context _ _ _ refl)
      λ _ w' h. Leads-pure (Created context w) _ w' (
        All-map _ _ w.session.tickets (λ s le same. ground (arith, le same))
            (max_number-All context.organization_id w.session.tickets),
        h.0,
        h.1,
        refl,
        owner,
        (refl, refl, refl),
      )

-- A ticket that was created is added at the end of the table and changes no other, is committed,
-- belongs to the caller's organization and there to the portal caller's own customer or, for staff, to
-- one of the organization's customers, is coherent, and has a number above those of all the
-- organization's tickets before it.
pub create_ticket-Created :
    (context : TenantContext) (payload : TicketCreate) (now : ℕ) (w : World) (t : Ticket)
    → (create_ticket context payload now w).0 ≡ ok t
    → Created context w t (create_ticket context payload now w).1
unfolding create_ticket resolve_customer
create_ticket-Created context payload now w t h =
    elim (customer_for-cases (scope_for context ticket_scope_by_role) context payload.customer_id
      w) [
        | inl (e, refused) ↦ absurd (raised-ok (rw refused at h))
        | inr (c, (named, owner)) ↦
            elim (Bool-cases (
              not (is_some payload.priority)
              || has context (Permission.ticket_change_priority ∷ []))) [
                | inl allowed ↦
                    let same : create_ticket context payload now w
                        ≡ write_ticket context payload c now w =
                      rw (named, allowed) refl in
                    let d = write_ticket-Leads context payload c now w owner in
                    let same' : d.result ≡ t =
                      ok-ok
                        (sym d.returns ∙ ap (λ (r : Result Ticket × World). r.0) (sym same) ∙ h) in
                    rw same (
                      subst
                        (λ (s : Ticket).
                          Created context w s (write_ticket context payload c now w).1)
                        same' d.post)
                | inr denied ↦ absurd (raised-ok (rw (named, denied) at h))
              ]
      ]

-- A creation that raises, for whichever reason, leaves the world as it was.
pub create_ticket-raised :
    (context : TenantContext) (payload : TicketCreate) (now : ℕ) (w : World) (x : AppError)
    → (create_ticket context payload now w).0 ≡ raised x
    → (create_ticket context payload now w).1 ≡ w
unfolding create_ticket resolve_customer
create_ticket-raised context payload now w x h =
    elim (customer_for-cases (scope_for context ticket_scope_by_role) context payload.customer_id
      w) [
        | inl (e, refused) ↦ rw refused refl
        | inr (c, (named, owner)) ↦
            elim (Bool-cases (
              not (is_some payload.priority)
              || has context (Permission.ticket_change_priority ∷ []))) [
                | inl allowed ↦
                    let same : create_ticket context payload now w
                        ≡ write_ticket context payload c now w =
                      rw (named, allowed) refl in
                    let d = write_ticket-Leads context payload c now w owner in
                    absurd (
                      ok-raised
                        (sym d.returns ∙ ap (λ (r : Result Ticket × World). r.0) (sym same) ∙ h))
                | inr denied ↦ rw (named, denied) refl
              ]
      ]
