-- ===== src/Users/Admins.antt =====
-- The last-administrator rule of backend/app/services/user_service.py, and what it does not see.
use support_flow.Prelude.{
  ℕ, ◌≡◌, ◌≤◌, refl, ap, ◌∙◌, Bool, true, false, some, List, [], ◌∷◌, ◌&&◌, ◌==◌, inl, inr, length,
  select, select-update_where, update_where, All, All-pure, Exists, length-select, ==_refl,
  Bool-cases, arith,
}
use support_flow.Enums.{UserRole}
use support_flow.Permissions.{same_role}
use support_flow.Tenancy.{TenantContext}
use support_flow.Errors.{AppError, ok, raised, raised-ok}
use support_flow.Db.{User, Db}
use support_flow.Scope.{get_user}
use support_flow.Session.{World}
use support_flow.Audit.{record_for}
use support_flow.Users.{
  is_admin_but, count_admins, save_account, require_another_admin, write_role, update_role,
}

-- Saving an account does not enter the count that leaves this account out.
save_account-count_admins :
    (organization_id : ℕ) (u : User) (db : Db)
    → count_admins organization_id u.id (save_account u db) ≡ count_admins organization_id u.id db
unfolding count_admins save_account
save_account-count_admins organization_id u db = ap length (
    select-update_where (λ v. v.id == u.id) (is_admin_but organization_id u.id) (λ _. u) db.users
      (All-pure _ db.users (λ v same. ground (arith, same))))

role-change :
    (old role : UserRole)
    → same_role old UserRole.admin ≡ true
    → same_role role UserRole.admin ≡ false
    → same_role old role ≡ false
role-change old role a d = ground (arith, a, d)

-- What a demotion that is allowed does.
update_role-demotes :
    (context : TenantContext) (user_id : ℕ) (role : UserRole) (w : World) (u : User)
    → get_user context user_id w.session ≡ some u
    → same_role u.role UserRole.admin ≡ true
    → same_role role UserRole.admin ≡ false
    → (count_admins context.organization_id u.id w.session == 0) ≡ false
    → let p = update_role context user_id role w in
      (p.0 ≡ ok (record u { role = role }))
      × (p.1.session.users ≡ (save_account (record u { role = role }) w.session).users)
      × (p.1.committed ≡ p.1.session)
unfolding update_role require_another_admin write_role record_for save_account
update_role-demotes context user_id role w u found admin demoted others =
    rw (found, admin, demoted, others, role-change u.role role admin demoted) (refl, refl, refl)

-- An administrator who can act on the desk.
abbrev pub active_admin : ℕ → User → Bool
active_admin organization_id u =
    u.organization_id == organization_id && same_role u.role UserRole.admin && u.is_active

only-replaced :
    (organization_id : ℕ) (u' : User) (us : List User)
    → active_admin organization_id u' ≡ false
    → All (λ v. active_admin organization_id v ≡ true → (v.id == u'.id) ≡ true) us
    → select (active_admin organization_id) (update_where (λ v. v.id == u'.id) (λ _. u') us) ≡ []
only-replaced organization_id u' [] h only = refl
only-replaced organization_id u' (v ∷ us) h only =
    let rest = only-replaced organization_id u' us h only.1 in
    elim (Bool-cases (v.id == u'.id)) [
      | inl e ↦ rw (e, h) rest
      | inr e ↦ elim (Bool-cases (active_admin organization_id v)) [
        | inl a ↦ absurd (ground (arith, e, only.0 a))
        | inr a ↦ rw (e, a) rest
      ]
    ]

-- A deactivated administrator of the organization, other than the account.
abbrev pub IsFormerAdmin : ℕ → User → User → Type 0
IsFormerAdmin organization_id u v =
    (v.organization_id ≡ organization_id)
    × (v.role ≡ UserRole.admin)
    × (v.is_active ≡ false)
    × ((v.id == u.id) ≡ false)

-- The rule counts deactivated administrators.
former-counts :
    (organization_id : ℕ) (u : User) (db : Db)
    → Exists (IsFormerAdmin organization_id u) db.users
    → (count_admins organization_id u.id db == 0) ≡ false
unfolding count_admins
former-counts organization_id u db h =
    let some' =
      length-select (IsFormerAdmin organization_id u) (is_admin_but organization_id u.id) db.users
        (λ v f. rw (f.0, f.1, f.3, ==_refl organization_id) refl) h in
    ground (arith, some')

-- The rule counts deactivated administrators too: where the table has an administrator account of the
-- organization that is deactivated, and no account but the one that is demoted is an active administrator of
-- it, the demotion to another role succeeds, and no active administrator of the organization is left.
pub update_role-lockout :
    (context : TenantContext) (user_id : ℕ) (role : UserRole) (w : World) (u : User)
    → get_user context user_id w.session ≡ some u
    → same_role u.role UserRole.admin ≡ true
    → same_role role UserRole.admin ≡ false
    → Exists (IsFormerAdmin context.organization_id u) w.session.users
    → All
        (λ v. active_admin context.organization_id v ≡ true → (v.id == u.id) ≡ true)
        w.session.users
    → let p = update_role context user_id role w in
      (p.0 ≡ ok (record u { role = role }))
      × (select (active_admin context.organization_id) p.1.committed.users ≡ [])
unfolding save_account
update_role-lockout context user_id role w u found admin demoted former only =
    let others = former-counts context.organization_id u w.session former in
    let (result, users, settled) =
      update_role-demotes context user_id role w u found admin demoted others in
    (
      result,
      rw (settled, users)
          (only-replaced context.organization_id (record u { role = role }) w.session.users
            (rw demoted (ground arith)) only),
    )

count_admins-users :
    (organization_id excluding : ℕ) (db db' : Db)
    → db.users ≡ db'.users
    → count_admins organization_id excluding db ≡ count_admins organization_id excluding db'
unfolding count_admins
count_admins-users organization_id excluding db db' h =
    ap (λ (us : List User). length (select (is_admin_but organization_id excluding) us)) h

update_role-refused :
    (context : TenantContext) (user_id : ℕ) (role : UserRole) (w : World) (u : User)
    → get_user context user_id w.session ≡ some u
    → same_role u.role UserRole.admin ≡ true
    → same_role role UserRole.admin ≡ false
    → (count_admins context.organization_id u.id w.session == 0) ≡ true
    → update_role context user_id role w ≡ (raised AppError.validation_error, w)
unfolding update_role require_another_admin
update_role-refused context user_id role w u found admin demoted none' =
    rw (found, admin, demoted, none') refl

-- A demotion that succeeds leaves another administrator account, active or not, in the organization.
pub update_role-count_admins :
    (context : TenantContext) (user_id : ℕ) (role : UserRole) (w : World) (u u' : User)
    → get_user context user_id w.session ≡ some u
    → same_role u.role UserRole.admin ≡ true
    → same_role role UserRole.admin ≡ false
    → (update_role context user_id role w).0 ≡ ok u'
    → 1 ≤ count_admins context.organization_id u.id (update_role context user_id role w).1.session
update_role-count_admins context user_id role w u u' found admin demoted h =
    elim (Bool-cases (count_admins context.organization_id u.id w.session == 0)) [
      | inl none' ↦ absurd (
          raised-ok
            (rw (update_role-refused context user_id role w u found admin demoted none') at h))
      | inr others ↦
          let (result, users, settled) =
            update_role-demotes context user_id role w u found admin demoted others in
          let kept =
            count_admins-users context.organization_id u.id
              (update_role context user_id role w).1.session
              (save_account (record u { role = role }) w.session) users
            ∙ save_account-count_admins context.organization_id (record u { role = role })
                w.session in
          ground (arith, others, kept)
    ]
