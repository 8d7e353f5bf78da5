-- ===== src/Tickets/Calls/Isolation.antt =====
-- Tenants cannot reach one another through a ticket call, and a call that raises changes nothing.
use support_flow.Enums.{UserRole}
use support_flow.Permissions.{ticket_scope_by_role, row_scope_for}
use support_flow.Prelude.{
  ℕ, Option, ◌⊎◌, inl, inr, ◌&&◌, Bool-cases, find?-none, holds_id, ◌≡◌, ◌≢◌, refl, true, false,
  some, none, All, All-map, select, select-update_where, PrimaryKey, ap, ◌∙◌, ◌==◌, arith,
}
use support_flow.Tenancy.{TenantContext, scope_for}
use support_flow.Errors.{AppError, ErrorCode, raised}
use support_flow.Db.{Ticket, Db}
use support_flow.Scope.{own_predicate, by_scope, row_scope_predicate, ticket_visible, get_visible}
use support_flow.Scope.Isolation.{tenant_rows, get_visible-visible, get_visible-key}
use support_flow.Session.{World}
use support_flow.Tickets.{
  require_visible_ticket, enter_status, clear_outcome, change_status, close_ticket, reopen_ticket,
}
use support_flow.Tickets.Assignment.{with_agent, assign_ticket, change_priority}
use support_flow.Tickets.Outcome.{Outcome, Outcome-raised, saved_tickets}
use support_flow.Tickets.Calls.{Call, ticket_of, perform, Change, perform-Outcome}
use support_flow.Tickets.Calls.Lifecycle.{enter_status_keeps}

-- A call that raises, whatever the error, leaves the session, the committed state and the outside
-- world exactly as they were.
pub perform-raised :
    (context : TenantContext) (call : Call) (now : ℕ) (w : World) (e : AppError)
    → (perform context call now w).0 ≡ raised e
    → (perform context call now w).1 ≡ w
perform-raised context call now w e h = Outcome-raised (perform-Outcome context call now w) h

-- A change keeps the row's key and its tenant.
Change-tenant :
    (context : TenantContext) (call : Call) (now : ℕ) (db : Db) (t t' : Ticket)
    → Change context call now db t t'
    → (t'.id ≡ t.id) × (t'.organization_id ≡ t.organization_id)
unfolding with_agent clear_outcome
Change-tenant context (Call.assign id agent) now db t t' h = rw (h.0) (refl, refl)
Change-tenant context (Call.prioritise id priority) now db t t' h = rw (h.0) (refl, refl)
Change-tenant context (Call.move id target) now db t t' h =
    let (status, key, org) = enter_status_keeps target now t in rw (h.1.1) (key, org)
Change-tenant context (Call.close id) now db t t' h = rw (h.1) (unfold enter_status in (refl, refl))
Change-tenant context (Call.reopen id) now db t t' h =
    rw (h.1) (unfold enter_status in (refl, refl))

visible-tenant :
    (context : TenantContext) (t : Ticket)
    → ticket_visible context t ≡ true
    → t.organization_id ≡ context.organization_id
unfolding ticket_visible
visible-tenant context t h = ground arith

-- A saved row of the caller's organization is in no other organization's rows, before or after.
saved-elsewhere :
    (context : TenantContext) (other : ℕ) (db : Db) (t t' : Ticket)
    → other ≢ context.organization_id
    → t.organization_id ≡ context.organization_id
    → (t'.id ≡ t.id) × (t'.organization_id ≡ t.organization_id)
    → All (λ s. (s.id == t.id) ≡ true → s ≡ t) db.tickets
    → All
        (λ s.
          (s.id == t'.id) ≡ true
          → ((s.organization_id == other) ≡ false) × ((t'.organization_id == other) ≡ false))
        db.tickets
saved-elsewhere context other db t t' ne org same only =
    All-map (λ s. (s.id == t.id) ≡ true → s ≡ t) _ db.tickets
      (λ s h e.
        let key : s ≡ t = h (ground (arith, e, same.0)) in
        let row : s.organization_id ≡ t.organization_id =
          ap (λ (r : Ticket). r.organization_id) key in
        (ground (arith, ne, org, row), ground (arith, ne, org, same.1)))
      only

saved_tickets-tenant_rows :
    (context : TenantContext) (call : Call) (now other : ℕ) (w : World) (t t' : Ticket)
    → other ≢ context.organization_id
    → PrimaryKey (λ (s : Ticket). s.id) w.session.tickets
    → get_visible context (ticket_of call) w.session ≡ some t
    → Change context call now w.session t t'
    → select (λ (s : Ticket). s.organization_id == other) (saved_tickets w t')
      ≡ tenant_rows other w.session
saved_tickets-tenant_rows context call now other w t t' ne key found c =
    select-update_where (λ s. s.id == t'.id) (λ s. s.organization_id == other) (λ _. t')
      w.session.tickets
      (saved-elsewhere context other w.session t t' ne
        (visible-tenant context t (get_visible-visible context (ticket_of call) w.session found).0)
        (Change-tenant context call now w.session t t' c)
        (get_visible-key context (ticket_of call) w.session key found))

-- In a settled session whose tickets have distinct keys, no call, successful or not, changes a ticket
-- row of an organization other than the caller's, in the session or in the committed state.
pub perform-tenant_rows :
    (context : TenantContext) (call : Call) (now other : ℕ) (w : World)
    → other ≢ context.organization_id
    → PrimaryKey (λ (s : Ticket). s.id) w.session.tickets
    → w.session ≡ w.committed
    → (tenant_rows other (perform context call now w).1.session ≡ tenant_rows other w.session)
      × (tenant_rows other (perform context call now w).1.committed ≡ tenant_rows other w.committed)
perform-tenant_rows context call now other w ne key settled =
    elim (perform-Outcome context call now w) [
      | Outcome.refused e r ↦ rw r (refl, refl)
      | Outcome.unchanged t found r ↦ rw r (refl, refl)
      | Outcome.saved t t' found c saved ↦
          let kept = saved_tickets-tenant_rows context call now other w t t' ne key found c in
          (
            rw (saved.tickets) kept,
            rw (saved.settled, saved.tickets) (kept ∙ ap (tenant_rows other) settled),
          )
    ]

-- What keeps a ticket of the organization from its role: nothing from an administrator or a manager, that an
-- agent is not the assignee, that a customer is not the owner.
abbrev pub BeyondRole : UserRole → TenantContext → Ticket → Type 0
BeyondRole UserRole.admin context t = ⊥
BeyondRole UserRole.manager context t = ⊥
BeyondRole UserRole.agent context t = t.assigned_agent_id ≢ some context.user_id
BeyondRole UserRole.customer context t = context.customer_id ≢ some t.customer_id

-- The ticket is another organization's, or out of the reach of the caller's role.
abbrev pub IsHidden : TenantContext → Ticket → Type 0
IsHidden context t =
    (t.organization_id ≢ context.organization_id) ⊎ BeyondRole context.role context t

holds_id-none : (o : Option ℕ) (id : ℕ) → o ≢ some id → holds_id o id ≡ false
holds_id-none none id h = refl
holds_id-none (some a) id h = elim (Bool-cases (a == id)) [
  | inl e ↦ absurd (h (ap (λ (n : ℕ). some n) (ground (arith, e))))
  | inr e ↦ e
]

own_predicate-none : (o : Option ℕ) (owner : ℕ) → o ≢ some owner → own_predicate o owner ≡ false
unfolding own_predicate
own_predicate-none none owner h = refl
own_predicate-none (some c) owner h = elim (Bool-cases (owner == c)) [
  | inl e ↦ absurd (h (ap (λ (n : ℕ). some n) (ground (arith, e))))
  | inr e ↦ e
]

beyond-by_scope :
    (role : UserRole) (context : TenantContext) (t : Ticket)
    → BeyondRole role context t
    → by_scope (ticket_scope_by_role role) context t.customer_id t.assigned_agent_id ≡ false
unfolding by_scope ticket_scope_by_role
beyond-by_scope UserRole.admin context t h = absurd h
beyond-by_scope UserRole.manager context t h = absurd h
beyond-by_scope UserRole.agent context t h = holds_id-none t.assigned_agent_id context.user_id h
beyond-by_scope UserRole.customer context t h =
    own_predicate-none context.customer_id t.customer_id h

hidden-visible :
    (context : TenantContext) (t : Ticket) → IsHidden context t → ticket_visible context t ≡ false
unfolding ticket_visible row_scope_predicate scope_for row_scope_for
hidden-visible context t (inl other) = ground (arith, other)
hidden-visible context t (inr beyond) =
    rw (beyond-by_scope context.role context t beyond) (ground arith)

hidden-get_visible :
    (context : TenantContext) (id : ℕ) (db : Db)
    → All (λ t. t.id ≡ id → IsHidden context t) db.tickets
    → get_visible context id db ≡ none
unfolding get_visible
hidden-get_visible context id db h =
    find?-none (λ t. ticket_visible context t && t.id == id) db.tickets
      (All-map (λ t. t.id ≡ id → IsHidden context t) _ db.tickets
        (λ t hidden. elim (Bool-cases (t.id == id)) [
          | inl e ↦ rw (hidden-visible context t (hidden (ground (arith, e)))) refl
          | inr e ↦ ground (arith, e)
        ])
        h)

-- What a call does that finds no ticket.
perform-unseen :
    (context : TenantContext) (call : Call) (now : ℕ) (w : World)
    → get_visible context (ticket_of call) w.session ≡ none
    → perform context call now w ≡ (raised (AppError.not_found_error ErrorCode.ticket_not_found), w)
unfolding assign_ticket change_priority change_status close_ticket reopen_ticket
    require_visible_ticket
perform-unseen context (Call.assign id agent) now w h = rw h
perform-unseen context (Call.prioritise id priority) now w h = rw h
perform-unseen context (Call.move id target) now w h = rw h
perform-unseen context (Call.close id) now w h = rw h
perform-unseen context (Call.reopen id) now w h = rw h

-- Where no ticket of the asked id is within the caller's reach, each being another organization's, for an
-- agent another assignee's or nobody's, for a customer another owner's, or there being none at all, every
-- call raises the one error 404 TICKET_NOT_FOUND and changes nothing.
pub perform-hidden :
    (context : TenantContext) (call : Call) (now : ℕ) (w : World)
    → All (λ t. t.id ≡ ticket_of call → IsHidden context t) w.session.tickets
    → perform context call now w ≡ (raised (AppError.not_found_error ErrorCode.ticket_not_found), w)
perform-hidden context call now w h =
    perform-unseen context call now w (hidden-get_visible context (ticket_of call) w.session h)
