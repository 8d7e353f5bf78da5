-- ===== src/Examples/Staff.antt =====
-- The desk's accounts: one administrator at work, and one who has left.
use support_flow.Prelude.{◌≡◌, refl, inl, inr, true, false, none, some, [], ◌==◌, select, arith}
use support_flow.Enums.{UserRole}
use support_flow.Errors.{AppError, ok, raised}
use support_flow.Auth.{find_by_hash, refresh}
use support_flow.Db.{User}
use support_flow.Scope.{get_user, get_customer}
use support_flow.Audit.{record_for}
use support_flow.Users.{
  UserCreate, count_admins, update_role, require_another_admin, write_role, save_account,
  create_user, deactivate_user, write_inactive, require_customer, email_taken, add_user,
}
use support_flow.Users.Admins.{active_admin, update_role-lockout}
use support_flow.Users.Deactivation.{deactivate_user-refresh}
use support_flow.Examples.{user_row, chief, desk, plain, live}

abbrev last_chief : User
last_chief = user_row 14 1 UserRole.admin none

chief_found : get_user chief 14 desk.session ≡ some last_chief
unfolding get_user
chief_found = refl

one_other : (count_admins 1 14 desk.session == 0) ≡ false
unfolding count_admins
one_other = refl

update_role-lockout_example :
    ((update_role chief 14 UserRole.agent desk).0
      ≡ ok (record last_chief { role = UserRole.agent }))
    × (select (active_admin 1) (update_role chief 14 UserRole.agent desk).1.committed.users ≡ [])
update_role-lockout_example =
    update_role-lockout chief 14 UserRole.agent desk last_chief chief_found refl refl
      (inr (inr (inr (inl (refl, refl, refl, refl))))) (ground arith)

demoted :
    (update_role chief 14 UserRole.agent desk).0 ≡ ok (record last_chief { role = UserRole.agent })
unfolding update_role get_user require_another_admin write_role count_admins record_for save_account
demoted = refl

abbrev application : UserCreate
application = record {
  email = "second@shop.example";
  password = "secret";
  role = UserRole.customer;
  customer_id = some 5;
}

abbrev opened : User
opened = record {
  id = 100;
  organization_id = 1;
  role = UserRole.customer;
  email = "second@shop.example";
  password_hash = "secret";
  is_active = true;
  customer_id = some 5;
  last_login_at = none;
  created_at = 9;
}

account_opened : (create_user (λ password. password) chief application 9 desk).0 ≡ ok opened
unfolding create_user require_customer get_customer email_taken add_user record_for
account_opened = refl

abbrev dismissed : User
dismissed = record (user_row 11 1 UserRole.agent none) { is_active = false }

agent_dismissed : (deactivate_user chief 11 desk).0 ≡ ok dismissed
unfolding deactivate_user get_user write_inactive save_account record_for
agent_dismissed = refl

live_found : find_by_hash "new" (deactivate_user chief 11 desk).1.session ≡ some live
unfolding deactivate_user get_user write_inactive save_account record_for find_by_hash
live_found = refl

deactivate_user-refresh_example :
    (e : AppError) × ((refresh plain "new" "next" 20 (deactivate_user chief 11 desk).1).0
      ≡ raised e)
deactivate_user-refresh_example =
    deactivate_user-refresh plain chief 11 desk dismissed "new" "next" 20 live agent_dismissed
      live_found refl
