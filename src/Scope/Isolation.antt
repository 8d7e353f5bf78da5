-- ===== src/Scope/Isolation.antt =====
-- Row scope and tenancy together: what a lookup can return, and what it cannot depend on.
use support_flow.Prelude.{
  ℕ, ◌≡◌, true, some, List, arith, ◌&&◌, ◌==◌, ap, sym, ◌∙◌, select, find?, find?-true,
  find?-select, All, All-find?, PrimaryKey, find?-PrimaryKey,
}
use support_flow.Tenancy.{TenantContext}
use support_flow.Db.{Ticket, Db}
use support_flow.Scope.{ticket_visible, get_visible}

pub get_visible-visible :
    (context : TenantContext) (id : ℕ) (db : Db) {t : Ticket}
    → get_visible context id db ≡ some t
    → (ticket_visible context t ≡ true) × (t.id ≡ id)
unfolding get_visible ticket_visible
get_visible-visible context id db {t} h =
    ground (arith, find?-true (λ s. ticket_visible context s && s.id == id) db.tickets h)

-- What holds of every ticket holds of the one that a lookup finds.
pub get_visible-All {κ} :
    (P : Ticket → Type κ) (context : TenantContext) (id : ℕ) (db : Db) {t : Ticket}
    → All P db.tickets
    → get_visible context id db ≡ some t
    → P t
unfolding get_visible
get_visible-All P context id db h found =
    All-find? P (λ s. ticket_visible context s && s.id == id) db.tickets h found

-- A ticket that a lookup finds is the only one with its primary key.
pub get_visible-key :
    (context : TenantContext) (id : ℕ) (db : Db) {t : Ticket}
    → PrimaryKey (λ (s : Ticket). s.id) db.tickets
    → get_visible context id db ≡ some t
    → All (λ s. (s.id == t.id) ≡ true → s ≡ t) db.tickets
unfolding get_visible
get_visible-key context id db k found =
    find?-PrimaryKey (λ (s : Ticket). s.id) (λ s. ticket_visible context s && s.id == id) db.tickets
      k found

-- The rows of one organization.
abbrev pub tenant_rows : ℕ → Db → List Ticket
tenant_rows organization_id db = select (λ t. t.organization_id == organization_id) db.tickets

row-tenant :
    (context : TenantContext) (id : ℕ) (t : Ticket)
    → (ticket_visible context t && t.id == id) ≡ true
    → (t.organization_id == context.organization_id) ≡ true
unfolding ticket_visible
row-tenant context id t h = ground arith

get_visible-tenant_rows :
    (context : TenantContext) (id : ℕ) (db : Db)
    → find? (λ t. ticket_visible context t && t.id == id) (tenant_rows context.organization_id db)
      ≡ get_visible context id db
unfolding get_visible
get_visible-tenant_rows context id db =
    find?-select (λ t. t.organization_id == context.organization_id)
      (λ t. ticket_visible context t && t.id == id) db.tickets (row-tenant context id)

-- A lookup depends on nothing outside the caller's organization: on two databases whose ticket tables
-- agree on that organization's rows, it finds the same ticket or fails on both.
pub get_visible_local :
    (context : TenantContext) (id : ℕ) (db db' : Db)
    → tenant_rows context.organization_id db ≡ tenant_rows context.organization_id db'
    → get_visible context id db ≡ get_visible context id db'
get_visible_local context id db db' h =
    sym (get_visible-tenant_rows context id db)
    ∙ ap (find? (λ t. ticket_visible context t && t.id == id)) h
    ∙ get_visible-tenant_rows context id db'
