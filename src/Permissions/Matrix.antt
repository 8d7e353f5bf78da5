-- ===== src/Permissions/Matrix.antt =====
-- What the role matrix of backend/app/core/permissions.py grants, role against role.
use support_flow.Prelude.{ℕ, ◌≤◌, ◌≡◌, true, false, ◌↔◌, arith}
use support_flow.Enums.{UserRole, SenderType}
use support_flow.Permissions.{
  Permission, RowScope, has_permission, row_scope_for, ticket_scope_by_role, sender_type_by_role,
  portal_roles, role_in,
}

-- The seniority in which docs/requirements.md §3 lists the roles.
abbrev pub seniority : UserRole → ℕ
seniority UserRole.admin = 3
seniority UserRole.manager = 2
seniority UserRole.agent = 1
seniority UserRole.customer = 0

manager-admin : (p : Permission) → has_permission UserRole.admin p ≡ true
unfolding has_permission
manager-admin p = ground arith

agent-manager :
    (p : Permission)
    → has_permission UserRole.agent p ≡ true
    → has_permission UserRole.manager p ≡ true
unfolding has_permission
agent-manager p h = ground arith

customer-agent :
    (p : Permission)
    → has_permission UserRole.customer p ≡ true
    → has_permission UserRole.agent p ≡ true
unfolding has_permission
customer-agent p h = ground arith

-- A role that stands above another in seniority holds every capability of the lower one.
pub has_permission_mono :
    (r s : UserRole) (p : Permission)
    → seniority r ≤ seniority s
    → has_permission r p ≡ true
    → has_permission s p ≡ true
has_permission_mono r s p le h = ground (arith, manager-admin p, agent-manager p, customer-agent p)

-- The four ways in which the code tells the customer's side from the support team agree on every
-- role: membership of `PORTAL_ROLES`, a ticket scope of `OWN`, writing as `CUSTOMER`, and lacking
-- the capability to read internal notes.
pub portal_agreement :
    (r : UserRole)
    → ((role_in r portal_roles ≡ true) ↔ (row_scope_for r ticket_scope_by_role ≡ RowScope.own))
      × ((role_in r portal_roles ≡ true) ↔ (sender_type_by_role r ≡ SenderType.customer))
      × ((role_in r portal_roles ≡ true)
          ↔ (has_permission r Permission.message_read_internal ≡ false))
unfolding row_scope_for ticket_scope_by_role sender_type_by_role has_permission
portal_agreement r = ground arith
