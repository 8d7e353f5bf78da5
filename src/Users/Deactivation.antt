-- ===== src/Users/Deactivation.antt =====
-- What `deactivate_user` of backend/app/services/user_service.py does to the sessions that
-- backend/app/services/auth_service.py handed out.
use support_flow.Prelude.{
  ℕ, ◌≡◌, refl, subst, String, true, false, not, some, List, [], ◌∷◌, ◌==◌, is_some, leb, inl, inr,
  find?, find?-true, update_where, All, All-find?, Bool-cases, Option-cases,
}
use support_flow.Enums.{UserRole}
use support_flow.Permissions.{same_role}
use support_flow.Tenancy.{TenantContext}
use support_flow.Errors.{AppError, ok, raised, raised-ok, ok-ok}
use support_flow.Db.{User, RefreshToken, Db}
use support_flow.Scope.{get_user}
use support_flow.Session.{World}
use support_flow.Audit.{record_for}
use support_flow.Auth.{Security, find_by_hash, refresh, refresh_live, revoke_family, expire}
use support_flow.Users.{
  deactivate_user, write_inactive, require_another_admin, count_admins, save_account,
}

-- Every account with this id is inactive.
abbrev Idle : ℕ → Db → Type 0
Idle user_id db = All (λ (u : User). (u.id == user_id) ≡ true → u.is_active ≡ false) db.users

update_where-Idle :
    (u : User) (users : List User)
    → u.is_active ≡ false
    → All
        (λ (v : User). (v.id == u.id) ≡ true → v.is_active ≡ false)
        (update_where (λ v. v.id == u.id) (λ _. u) users)
update_where-Idle u [] idle = tt
update_where-Idle u (v ∷ users) idle = elim (Bool-cases (v.id == u.id)) [
  | inl same ↦ rw same ((λ _. idle), update_where-Idle u users idle)
  | inr other ↦ rw other ((λ same. absurd (cc (same, other))), update_where-Idle u users idle)
]

write_inactive-Idle :
    (context : TenantContext) (v u : User) (w : World)
    → (write_inactive context v w).0 ≡ ok u
    → Idle u.id (write_inactive context v w).1.session
unfolding write_inactive save_account record_for
write_inactive-Idle context v u w h =
    subst (λ (x : User). Idle x.id (write_inactive context v w).1.session) (ok-ok h)
      (update_where-Idle (record v { is_active = false }) w.session.users refl)

deactivate_user-Idle :
    (context : TenantContext) (user_id : ℕ) (w : World) (u : User)
    → (deactivate_user context user_id w).0 ≡ ok u
    → Idle u.id (deactivate_user context user_id w).1.session
unfolding deactivate_user require_another_admin
deactivate_user-Idle context user_id w u h =
    elim (Option-cases (get_user context user_id w.session)) [
      | inl none' ↦ absurd (raised-ok (rw none' at h))
      | inr (v, found) ↦ elim (Bool-cases (not (v.id == context.user_id))) [
        | inr own ↦ absurd (raised-ok (rw (found, own) at h))
        | inl another ↦ elim (Bool-cases (same_role v.role UserRole.admin)) [
          | inr staff ↦
              rw (found, another, staff)
                (write_inactive-Idle context v u w (rw (found, another, staff) at h))
          | inl admin ↦
              elim (Bool-cases (not (count_admins context.organization_id v.id w.session == 0))) [
                | inr last ↦ absurd (raised-ok (rw (found, another, admin, last) at h))
                | inl left ↦
                    rw (found, another, admin, left)
                      (write_inactive-Idle context v u w (rw (found, another, admin, left) at h))
              ]
        ]
      ]
    ]

refresh_live-Idle :
    (security : Security) (token : RefreshToken) (raw_refresh : String) (now : ℕ) (w : World)
    → Idle token.user_id w.session
    → (e : AppError) × ((refresh_live security token raw_refresh now w).0 ≡ raised e)
unfolding refresh_live revoke_family
refresh_live-Idle security token raw_refresh now w idle =
    elim (Option-cases (find? (λ u. u.id == token.user_id) w.session.users)) [
      | inl gone ↦ (AppError.authentication_required_error, rw gone refl)
      | inr (u, there) ↦
          let inactive =
            All-find? _ (λ v. v.id == token.user_id) w.session.users idle there
              (find?-true (λ v. v.id == token.user_id) w.session.users there) in
          (AppError.inactive_user_error, rw (there, inactive) refl)
    ]

refresh-Idle :
    (security : Security) (raw_token raw_refresh : String) (now : ℕ) (w : World)
    (token : RefreshToken)
    → find_by_hash (security.hash_refresh_token raw_token) w.session ≡ some token
    → Idle token.user_id w.session
    → (e : AppError) × ((refresh security raw_token raw_refresh now w).0 ≡ raised e)
unfolding refresh revoke_family expire
refresh-Idle security raw_token raw_refresh now w token found idle =
    elim (Bool-cases (is_some token.revoked_at)) [
      | inl used ↦ (AppError.authentication_required_error, rw (found, used) refl)
      | inr live ↦ elim (Bool-cases (leb token.expires_at now)) [
        | inl late ↦ (AppError.authentication_required_error, rw (found, live, late) refl)
        | inr early ↦
            rw (found, live, early) (refresh_live-Idle security token raw_refresh now w idle)
      ]
    ]

-- Once an account was deactivated, no refresh token of that account buys a session, whenever it is
-- presented in the state that the deactivation left: the call raises an error.
pub deactivate_user-refresh :
    (security : Security) (context : TenantContext) (user_id : ℕ) (w : World) (u : User)
    (raw_token raw_refresh : String) (now : ℕ) (token : RefreshToken)
    → (deactivate_user context user_id w).0 ≡ ok u
    → find_by_hash
        (security.hash_refresh_token raw_token)
        (deactivate_user context user_id w).1.session
      ≡ some token
    → token.user_id ≡ u.id
    → (e : AppError) × ((refresh security raw_token raw_refresh now
          (deactivate_user context user_id w).1).0
        ≡ raised e)
deactivate_user-refresh security context user_id w u raw_token raw_refresh now token h found owner =
    refresh-Idle security raw_token raw_refresh now _ token found
      (rw owner (deactivate_user-Idle context user_id w u h))
