-- ===== src/Scope.antt =====
-- backend/app/repositories/scoping.py, and the queries of backend/app/repositories/base.py and
-- ticket_repository.py that apply it. A predicate of a `WHERE` clause is a Boolean function of a row.
pub mod Isolation
use support_flow.Prelude.{
  ℕ, Bool, true, false, Option, none, some, List, ◌&&◌, ◌==◌, holds_id, find?, select,
}
use support_flow.Permissions.{RowScope, ScopeMap, ticket_scope_by_role}
use support_flow.Tenancy.{TenantContext, scope_for}
use support_flow.Db.{Ticket, User, Customer, Db}

unfoldable pub own_predicate : Option ℕ → ℕ → Bool
own_predicate none owner = false
own_predicate (some customer) owner = owner == customer

unfoldable pub by_scope : RowScope → TenantContext → ℕ → Option ℕ → Bool
unfolding own_predicate
by_scope RowScope.organization context owner assignee = true
by_scope RowScope.assigned context owner assignee = holds_id assignee context.user_id
by_scope RowScope.own context owner assignee = own_predicate context.customer_id owner

-- `owner` and `assignee` are the row's two columns.
unfoldable pub row_scope_predicate : TenantContext → ScopeMap → ℕ → Option ℕ → Bool
unfolding by_scope scope_for
row_scope_predicate context scopes owner assignee =
    by_scope (scope_for context scopes) context owner assignee

-- The predicate of `self._select(self._scope())`.
unfoldable pub ticket_visible : TenantContext → Ticket → Bool
unfolding row_scope_predicate
ticket_visible context t =
    t.organization_id == context.organization_id
    && row_scope_predicate context ticket_scope_by_role t.customer_id t.assigned_agent_id

-- TicketRepository.get_visible
unfoldable pub get_visible : TenantContext → ℕ → Db → Option Ticket
unfolding ticket_visible
get_visible context ticket_id db =
    find? (λ t. ticket_visible context t && t.id == ticket_id) db.tickets

-- TenantScopedRepository.get of UserRepository and CustomerRepository
unfoldable pub get_user : TenantContext → ℕ → Db → Option User
get_user context id db =
    find? (λ u. u.organization_id == context.organization_id && u.id == id) db.users

unfoldable pub get_customer : TenantContext → ℕ → Db → Option Customer
get_customer context id db =
    find? (λ c. c.organization_id == context.organization_id && c.id == id) db.customers
