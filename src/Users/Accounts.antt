-- ===== src/Users/Accounts.antt =====
-- The accounts that `create_user` of backend/app/services/user_service.py opens.
use support_flow.Prelude.{
  ℕ, ◌≡◌, refl, subst, ◌⊎◌, String, Bool, true, false, not, Option, none, some, ◌&&◌, inl, inr,
  is_some, Bool-cases, Option-cases, arith,
}
use support_flow.Permissions.{role_in, portal_roles}
use support_flow.Tenancy.{TenantContext}
use support_flow.Errors.{AppError, ErrorCode, ok, raised, raised-ok, ok-ok}
use support_flow.Db.{User, Db}
use support_flow.Scope.{get_customer}
use support_flow.Session.{World}
use support_flow.Audit.{record_for}
use support_flow.Users.{UserCreate, email_taken, require_customer, add_user, create_user}

-- The customer that an account acts as, if any, is one of the organization's.
abbrev pub Resolves : TenantContext → Option ℕ → Db → Type 0
Resolves context none db = Unit
Resolves context (some customer_id) db = is_some (get_customer context customer_id db) ≡ true

require_customer-cases :
    (context : TenantContext) (customer_id : Option ℕ) (w : World)
    → ((e : AppError) × (require_customer context customer_id w ≡ (raised e, w)))
      ⊎ ((require_customer context customer_id w ≡ (ok tt, w))
          × Resolves context customer_id w.session)
unfolding require_customer
require_customer-cases context none w = inr (refl, tt)
require_customer-cases context (some c) w = elim (Option-cases (get_customer context c w.session)) [
  | inl none' ↦ inl (AppError.not_found_error ErrorCode.customer_not_found, rw none' refl)
  | inr (found, there) ↦ inr (rw there refl, rw there refl)
]

agree :
    (portal linked : Bool)
    → not (portal && not linked) ≡ true
    → not (not portal && linked) ≡ true
    → linked ≡ portal
agree portal linked h k = ground (arith, h, k)

-- What a new account is.
abbrev pub Opened : TenantContext → World → User → Type 0
Opened context w u =
    (u.organization_id ≡ context.organization_id)
    × (is_some u.customer_id ≡ role_in u.role portal_roles)
    × Resolves context u.customer_id w.session
    × (email_taken context u.email w.session ≡ false)
    × (u.is_active ≡ true)

-- An account that was created is in the caller's organization, active, and under an address that was free
-- there; it names a customer exactly if its role is a portal role, and then one of the organization.
pub create_user-Opened :
    (hash_password : String → String) (context : TenantContext) (payload : UserCreate) (now : ℕ)
    (w : World) (u : User)
    → (create_user hash_password context payload now w).0 ≡ ok u
    → Opened context w u
unfolding create_user add_user record_for
create_user-Opened hash_password context payload now w u h =
    let portal = role_in payload.role portal_roles in
    let linked = is_some payload.customer_id in
    elim (Bool-cases (not (portal && not linked))) [
      | inr bad ↦ absurd (raised-ok (rw bad at h))
      | inl first ↦ elim (Bool-cases (not (not portal && linked))) [
        | inr bad ↦ absurd (raised-ok (rw (first, bad) at h))
        | inl second ↦ elim (require_customer-cases context payload.customer_id w) [
          | inl (e, bad) ↦ absurd (raised-ok (rw (first, second, bad) at h))
          | inr (good, resolves) ↦ elim (Bool-cases (email_taken context payload.email w.session)) [
            | inl taken ↦ absurd (raised-ok (rw (first, second, good, taken) at h))
            | inr free ↦
                subst (Opened context w) (ok-ok (rw (first, second, good, free) at h))
                  (refl, agree portal linked first second, resolves, free, refl)
          ]
        ]
      ]
    ]
