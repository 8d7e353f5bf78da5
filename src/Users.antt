-- ===== src/Users.antt =====
-- backend/app/services/user_service.py with backend/app/repositories/user_repository.py: the accounts of
-- an organization. `hash_password` is pwdlib's, an argument of the one call that uses it.
pub mod Admins
pub mod Accounts
pub mod Deactivation
use support_flow.Prelude.{
  ℕ, suc, String, Bool, true, false, not, Option, none, some, List, [], ◌∷◌, ◌++◌, ◌&&◌, ◌==◌,
  is_some, length, find?, select, update_where, if◌then◌else◌,
}
use text.Mathlib.Text.{◌==◌ as str_eq}
use support_flow.Enums.{UserRole, AuditAction}
use support_flow.Permissions.{role_in, portal_roles, same_role}
use support_flow.Tenancy.{TenantContext}
use support_flow.Errors.{AppError, ErrorCode, ok}
use support_flow.Db.{User, AuditValue, Db}
use support_flow.Scope.{get_user, get_customer}
use support_flow.Session.{
  App, ◌>>=◌, ◌>>◌, pure, require, require_some, gets, modify, commit_session,
}
use support_flow.Audit.{record_for}

-- `other` is the account that is left out of the count.
abbrev pub is_admin_but : ℕ → ℕ → User → Bool
is_admin_but organization_id other u =
    u.organization_id == organization_id && same_role u.role UserRole.admin && not (u.id == other)

-- UserRepository.count_admins
unfoldable pub count_admins : ℕ → ℕ → Db → ℕ
count_admins organization_id excluding db =
    length (select (is_admin_but organization_id excluding) db.users)

unfoldable pub email_taken : TenantContext → String → Db → Bool
email_taken context email db =
    is_some
      (find? (λ u. u.organization_id == context.organization_id && str_eq u.email email) db.users)

-- schemas/user.py
pub record UserCreate : Type 0 where
  pub email : String
  pub password : String
  pub role : UserRole
  pub customer_id : Option ℕ

unfoldable pub require_customer : TenantContext → Option ℕ → App Unit
require_customer context none = pure tt
require_customer context (some customer_id) = do
  found ← gets (get_customer context customer_id)
  _ ← require_some found (AppError.not_found_error ErrorCode.customer_not_found)
  pure tt

unfoldable pub add_user : TenantContext → UserCreate → String → ℕ → App User
add_user context payload password_hash now w =
    let db = w.session in
    let u : User = record {
      id = db.next_id;
      organization_id = context.organization_id;
      role = payload.role;
      email = payload.email;
      password_hash = password_hash;
      is_active = true;
      customer_id = payload.customer_id;
      last_login_at = none;
      created_at = now;
    } in
    (
      ok u,
      record w { session = record db { users = db.users ++ u ∷ []; next_id = suc db.next_id } },
    )

unfoldable pub create_user : (String → String) → TenantContext → UserCreate → ℕ → App User
create_user hash_password context payload now = do
  let is_portal = role_in payload.role portal_roles
  require (not (is_portal && not (is_some payload.customer_id))) AppError.validation_error
  require (not (not is_portal && is_some payload.customer_id)) AppError.validation_error
  require_customer context payload.customer_id
  taken ← gets (email_taken context payload.email)
  require (not taken) AppError.user_already_exists_error
  u ← add_user context payload (hash_password payload.password) now
  record_for context AuditAction.user_created "user" u.id none
      (some (AuditValue.account payload.role payload.email)) none
  commit_session
  pure u

unfoldable pub save_account : User → Db → Db
save_account u db = record db { users = update_where (λ v. v.id == u.id) (λ _. u) db.users }

-- `_require_another_admin`
unfoldable pub require_another_admin : TenantContext → User → App Unit
require_another_admin context u = do
  remaining ← gets (count_admins context.organization_id u.id)
  require (not (remaining == 0)) AppError.validation_error

unfoldable pub write_role : TenantContext → UserRole → User → App User
write_role context role u = if same_role u.role role then pure u else do
  let u' : User = record u { role = role }
  modify (save_account u')
  record_for context AuditAction.user_role_updated "user" u.id (some (AuditValue.role u.role))
      (some (AuditValue.role role)) none
  commit_session
  pure u'

unfoldable pub update_role : TenantContext → ℕ → UserRole → App User
update_role context user_id role = do
  found ← gets (get_user context user_id)
  u ← require_some found (AppError.not_found_error ErrorCode.user_not_found)
  if same_role u.role UserRole.admin && not (same_role role UserRole.admin)
      then require_another_admin context u >> write_role context role u
      else write_role context role u

unfoldable pub write_inactive : TenantContext → User → App User
write_inactive context u = do
  let u' : User = record u { is_active = false }
  modify (save_account u')
  record_for context AuditAction.user_deactivated "user" u.id (some (AuditValue.active true))
      (some (AuditValue.active false)) none
  commit_session
  pure u'

unfoldable pub deactivate_user : TenantContext → ℕ → App User
deactivate_user context user_id = do
  found ← gets (get_user context user_id)
  u ← require_some found (AppError.not_found_error ErrorCode.user_not_found)
  require (not (u.id == context.user_id)) AppError.validation_error
  if same_role u.role UserRole.admin
      then require_another_admin context u >> write_inactive context u
      else write_inactive context u
