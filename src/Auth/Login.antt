-- ===== src/Auth/Login.antt =====
-- Whom `login` of backend/app/services/auth_service.py signs in, and whom it turns away.
use support_flow.Prelude.{
  ◌≤◌, ◌&&◌, sym, ◌∙◌, length, select, any_of, take_all, length-order_by, any_of-order_by,
  any_of-select, any_of-none, none-any_of, All-map, Bool-cases, arith, ℕ, ◌≡◌, refl, ap, String,
  Bool, true, false, not, Option, none, some, List, [], ◌∷◌, inl, inr, All, All-keep, All-IsIn,
  IsIn, All-take, All-select, All-order_by, if◌then◌else◌, ◌⊎◌, subst, Option-cases,
}
use text.Mathlib.Text.{◌==◌ as str_eq}
use support_flow.Errors.{AppError, Result, ok, raised, raised-ok, ok-raised}
use support_flow.Db.{User, Db}
use support_flow.Session.{World}
use support_flow.Auth.{
  Security, AuthResult, find_users_by_email_across_tenants, match_candidates, upgraded, login,
  issue_tokens, add_token, save_user,
}

candidates-email :
    (email : String) (db : Db)
    → All (λ u. str_eq u.email email ≡ true) (find_users_by_email_across_tenants email db)
unfolding find_users_by_email_across_tenants
candidates-email email db =
    All-take _ 5 _
      (All-order_by _ _ _ (All-select _ (λ u. str_eq u.email email) db.users (λ u h. h)))

candidates-IsIn :
    (email : String) (db : Db)
    → All (λ u. IsIn u db.users) (find_users_by_email_across_tenants email db)
unfolding find_users_by_email_across_tenants
candidates-IsIn email db = All-take _ 5 _ (
    All-order_by _ _ _
      (All-keep (λ u. IsIn u db.users) (λ u. str_eq u.email email) db.users (All-IsIn db.users)))

-- One round of the loop, by what it found out.
module _ {X : Type 0} where
  round-some :
      (valid active : Bool) (rest : Bool → Option X × Bool) (x : X) (inactive : Bool) (y : X)
      → (if not valid
          then rest inactive
          else if not active
          then rest true
          else (some x, inactive)).0
        ≡ some y
      → ((i : Bool) × ((rest i).0 ≡ some y)) ⊎ ((active ≡ true) × (valid ≡ true) × (x ≡ y))
  round-some false active rest x inactive y e = inl (inactive, e)
  round-some true false rest x inactive y e = inl (true, e)
  round-some true true rest x inactive y e = inr (refl, refl, cc)

  round-none :
      (valid active : Bool) (rest : Bool → Option X × Bool) (x : X) (inactive : Bool)
      → (if not valid
          then rest inactive
          else if not active
          then rest true
          else (some x, inactive)).0
        ≡ none
      → ((i : Bool) × ((rest i).0 ≡ none)) × (active ≡ true → valid ≡ false)
  round-none false active rest x inactive e = ((inactive, e), λ _. refl)
  round-none true false rest x inactive e = ((true, e), λ a. cc)
  round-none true true rest x inactive e = cc

module _ (security : Security) (password : String) where
  abbrev check : User → Bool
  check u = (security.verify_and_update_password password u.password_hash).0

  abbrev hash_of : User → Option String
  hash_of u = (security.verify_and_update_password password u.password_hash).1

  match_candidates-some :
      (P : User → Type 0) (us : List User) (inactive : Bool) (u : User) (new_hash : Option String)
      → All P us
      → (match_candidates security password us inactive).0 ≡ some (u, new_hash)
      → P u × (u.is_active ≡ true) × (check u ≡ true) × (hash_of u ≡ new_hash)
  unfolding match_candidates
  match_candidates-some P [] inactive u new_hash h e = cc
  match_candidates-some P (c ∷ us) inactive u new_hash h e =
      elim (round-some (check c) c.is_active (match_candidates security password us) _ inactive _
        e) [
          | inl (i, later) ↦ match_candidates-some P us i u new_hash h.1 later
          | inr (active, valid, same) ↦
              subst
                (λ (p : User × Option String).
                  P p.0 × (p.0.is_active ≡ true) × (check p.0 ≡ true) × (hash_of p.0 ≡ p.1))
                same (h.0, active, valid, refl)
        ]

  match_candidates-none :
      (us : List User) (inactive : Bool)
      → (match_candidates security password us inactive).0 ≡ none
      → All (λ u. u.is_active ≡ true → check u ≡ false) us
  unfolding match_candidates
  match_candidates-none [] inactive e = tt
  match_candidates-none (c ∷ us) inactive e =
      let r =
        round-none (check c) c.is_active (match_candidates security password us) _ inactive e in
      (r.1, match_candidates-none us r.0.0 r.0.1)

abbrev account : Result AuthResult → Option User
account (ok a) = some a.user
account (raised e) = none

-- The account at its sign-in: the time of it, and the hash that the check of the password gave, if any.
abbrev pub signed_in_at : ℕ → Option String → User → User
signed_in_at now none u = record u { last_login_at = some now }
signed_in_at now (some new_hash) u = record u { last_login_at = some now; password_hash = new_hash }

upgraded_lem :
    (security : Security) (now : ℕ) (new_hash : Option String) (u : User)
    → record (upgraded security u new_hash) { last_login_at = some now }
      ≡ signed_in_at now new_hash u
upgraded_lem security now none u = refl
upgraded_lem security now (some new_hash) u = refl

-- A login that succeeds signs in a row of the users table that is active and has the given e-mail address,
-- and whose password hash accepts the given password. The user that it returns is that row with the time of
-- the sign-in, and with the new hash where the check of the password gave one.
pub login-active :
    (security : Security) (email password raw_refresh : String) (now : ℕ) (w : World)
    (r : AuthResult)
    → (login security email password raw_refresh now w).0 ≡ ok r
    → (u : User) × (IsIn u w.session.users
        × (str_eq u.email email ≡ true)
        × (u.is_active ≡ true)
        × ((security.verify_and_update_password password u.password_hash).0 ≡ true)
        × (r.user
            ≡ signed_in_at now (security.verify_and_update_password password u.password_hash).1 u))
unfolding login issue_tokens add_token save_user
login-active security email password raw_refresh now w r h =
    elim (Option-cases
      (match_candidates security password (find_users_by_email_across_tenants email w.session)
        false).0) [
          | inl none' ↦ absurd (raised-ok (rw none' at h))
          | inr ((u, new_hash), some') ↦
              let (address, active, valid, hash) =
                match_candidates-some security password (λ v. str_eq v.email email ≡ true) _ false u
                  new_hash (candidates-email email w.session) some' in
              let (known, active_too, valid_too, hash_too) =
                match_candidates-some security password (λ v. IsIn v w.session.users) _ false u
                  new_hash (candidates-IsIn email w.session) some' in
              let same = ap account (rw some' at h) in
              (
                u,
                (
                  known,
                  address,
                  active,
                  valid,
                  rw hash (cc (same, upgraded_lem security now new_hash u)),
                ),
              )
        ]

-- The account may sign in with the password.
abbrev admits : Security → String → User → Bool
admits security password u =
    u.is_active && (security.verify_and_update_password password u.password_hash).0

not_admitted :
    (security : Security) (password : String) (u : User)
    → (u.is_active ≡ true
        → (security.verify_and_update_password password u.password_hash).0 ≡ false)
    → admits security password u ≡ false
not_admitted security password u k = elim (Bool-cases u.is_active) [
  | inl active ↦ rw (active, k active) refl
  | inr inactive ↦ rw inactive refl
]

-- With at most five accounts of the address, all of them are tried.
candidates-all :
    (email : String) (db : Db) (p : User → Bool)
    → length (select (λ u. str_eq u.email email) db.users) ≤ 5
    → any_of p (find_users_by_email_across_tenants email db)
      ≡ any_of (λ u. p u && str_eq u.email email) db.users
unfolding find_users_by_email_across_tenants
candidates-all email db p few =
    ap (any_of p) (take_all 5 _ (subst (λ n. n ≤ 5) (sym (length-order_by _ _)) few))
    ∙ any_of-order_by p _ _
    ∙ any_of-select p (λ u. str_eq u.email email) db.users

-- Where at most five accounts have the given e-mail address, a login that is refused changes nothing, and no
-- active account of that address in the users table accepts the given password.
pub login-raised :
    (security : Security) (email password raw_refresh : String) (now : ℕ) (w : World) (e : AppError)
    → length (select (λ u. str_eq u.email email) w.session.users) ≤ 5
    → (login security email password raw_refresh now w).0 ≡ raised e
    → ((login security email password raw_refresh now w).1 ≡ w)
      × All
          (λ u.
            str_eq u.email email ≡ true
            → u.is_active ≡ true
            → (security.verify_and_update_password password u.password_hash).0 ≡ false)
          w.session.users
unfolding login issue_tokens add_token save_user
login-raised security email password raw_refresh now w e few h =
    elim (Option-cases
      (match_candidates security password (find_users_by_email_across_tenants email w.session)
        false).0) [
          | inl none' ↦
              let tried = match_candidates-none security password _ false none' in
              let nobody =
                any_of-none (admits security password)
                  (find_users_by_email_across_tenants email w.session)
                  (All-map
                    (λ u.
                      u.is_active ≡ true
                      → (security.verify_and_update_password password u.password_hash).0 ≡ false)
                    _ (find_users_by_email_across_tenants email w.session)
                    (λ u k. not_admitted security password u k) tried) in
              (
                rw none' refl,
                All-map (λ u. (admits security password u && str_eq u.email email) ≡ false) _
                    w.session.users (λ u k address active. ground (arith, k, address, active))
                    (none-any_of _ w.session.users (
                      sym (candidates-all email w.session (admits security password) few)
                      ∙ nobody)),
              )
          | inr (m, some') ↦ absurd (ok-raised (rw some' at h))
        ]
