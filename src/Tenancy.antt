-- ===== src/Tenancy.antt =====
-- backend/app/core/tenancy.py: the identity that a request is served as. `permissions` is derived
-- from the role and is not a field.
use support_flow.Prelude.{ℕ, String, Bool, true, Option, List, [], ◌∷◌, ◌&&◌}
use support_flow.Enums.{UserRole}
use support_flow.Permissions.{Permission, RowScope, ScopeMap, has_permission}

pub record TenantContext : Type 0 where
  pub user_id : ℕ
  pub organization_id : ℕ
  pub role : UserRole
  pub customer_id : Option ℕ
  pub email : Option String

-- `all(permission in self.permissions for permission in permissions)`
unfoldable pub has : TenantContext → List Permission → Bool
has context [] = true
has context (p ∷ ps) = has_permission context.role p && has context ps

unfoldable pub scope_for : TenantContext → ScopeMap → RowScope
scope_for context scopes = scopes context.role
