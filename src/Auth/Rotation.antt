-- ===== src/Auth/Rotation.antt =====
-- Rotation in backend/app/services/auth_service.py: a refresh token buys one session, and a second
-- attempt ends them all.
use support_flow.Prelude.{
  ℕ, ◌≡◌, refl, String, true, not, Option, some, List, [], ◌∷◌, ◌++◌, ◌&&◌, ◌==◌, ==_refl, is_some,
  inl, inr, leb, find?, find?-update_where, find?-append, update_where, All, Bool-cases,
  Option-cases, arith,
}
use text.Mathlib.Text.{◌==◌ as str_eq}
use support_flow.Errors.{AppError, ok, raised}
use support_flow.Db.{RefreshToken, Db}
use support_flow.Session.{World, request}
use support_flow.Auth.{
  Security, AuthResult, find_by_hash, revoke, revoke_all_for_user, refresh, refresh_live,
  revoke_family, rotate, expire, issue_tokens, add_token,
}

-- Every session of a user is closed.
abbrev pub AllRevoked : ℕ → Db → Type 0
AllRevoked user_id db =
    All (λ t. (t.user_id == user_id) ≡ true → is_some t.revoked_at ≡ true) db.refresh_tokens

revoked-rows :
    (user_id now : ℕ) (ts : List RefreshToken)
    → All
        (λ t. (t.user_id == user_id) ≡ true → is_some t.revoked_at ≡ true)
        (update_where
          (λ t. t.user_id == user_id && not (is_some t.revoked_at))
          (λ t. record t { revoked_at = some now })
          ts)
revoked-rows user_id now [] = tt
revoked-rows user_id now (t ∷ ts) = (λ same. ground (arith, same), revoked-rows user_id now ts)

refresh-used :
    (security : Security) (raw_token raw_refresh : String) (now : ℕ) (w : World)
    (token : RefreshToken)
    → find_by_hash (security.hash_refresh_token raw_token) w.session ≡ some token
    → is_some token.revoked_at ≡ true
    → (refresh security raw_token raw_refresh now w).0
      ≡ raised AppError.authentication_required_error
unfolding refresh
refresh-used security raw_token raw_refresh now w token found used = rw (found, used) refl

-- When a token is presented that was used or revoked before, the request fails with 401 and, although
-- it fails, leaves every session of the token's user revoked in the committed state.
pub refresh-replay :
    (security : Security) (raw_token raw_refresh : String) (now : ℕ) (w : World)
    (token : RefreshToken)
    → find_by_hash (security.hash_refresh_token raw_token) w.session ≡ some token
    → is_some token.revoked_at ≡ true
    → let p = request (refresh security raw_token raw_refresh now) w in
      (p.0 ≡ raised AppError.authentication_required_error)
      × AllRevoked token.user_id p.1.committed
      × (p.1.session ≡ p.1.committed)
unfolding request refresh revoke_all_for_user
refresh-replay security raw_token raw_refresh now w token found used =
    rw (found, used) (refl, revoked-rows token.user_id now w.session.refresh_tokens, refl)

-- The row under a hash after it was closed and others were added.
revoke-find_by_hash :
    (hash : String) (db : Db) (token row : RefreshToken) (link : Option ℕ) (now : ℕ)
    → find_by_hash hash db ≡ some token
    → find? (λ t. str_eq t.token_hash hash) ((revoke token link now db).refresh_tokens ++ row ∷ [])
      ≡ some (record token { revoked_at = some now; replaced_by_id = link })
unfolding find_by_hash revoke
revoke-find_by_hash hash db token row link now found =
    find?-append (λ t. str_eq t.token_hash hash) _ _
      (find?-update_where (λ t. str_eq t.token_hash hash) (λ t. t.id == token.id) _
        db.refresh_tokens (λ y. refl) found (==_refl token.id))

-- Under the hash of a token that was just exchanged stands a closed row.
abbrev Closed : String → World → Type 0
Closed hash w =
    (t : RefreshToken) × (find_by_hash hash w.session ≡ some t) × (is_some t.revoked_at ≡ true)

refresh_live-Closed :
    (security : Security) (hash raw_refresh : String) (now : ℕ) (w : World) (token : RefreshToken)
    (r : AuthResult)
    → find_by_hash hash w.session ≡ some token
    → (refresh_live security token raw_refresh now w).0 ≡ ok r
    → Closed hash (refresh_live security token raw_refresh now w).1
unfolding find_by_hash refresh_live revoke_family rotate issue_tokens add_token
refresh_live-Closed security hash raw_refresh now w token r found h =
    elim (Option-cases (find? (λ u. u.id == token.user_id) w.session.users)) [
      | inl gone ↦
          let bad : raised AppError.authentication_required_error ≡ ok r = rw gone at h in absurd cc
      | inr (u, there) ↦ elim (Bool-cases u.is_active) [
        | inl active ↦
            rw (there, active)
              (
                record token { revoked_at = some now; replaced_by_id = some w.session.next_id },
                revoke-find_by_hash hash w.session token _ (some w.session.next_id) now found,
                refl,
              )
        | inr idle ↦
            let bad : raised AppError.inactive_user_error ≡ ok r = rw (there, idle) at h in
            absurd cc
      ]
    ]

refresh-Closed :
    (security : Security) (raw_token raw_refresh : String) (now : ℕ) (w : World) (r : AuthResult)
    → (refresh security raw_token raw_refresh now w).0 ≡ ok r
    → Closed
        (security.hash_refresh_token raw_token)
        (refresh security raw_token raw_refresh now w).1
unfolding refresh revoke_family expire
refresh-Closed security raw_token raw_refresh now w r h =
    elim (Option-cases (find_by_hash (security.hash_refresh_token raw_token) w.session)) [
      | inl unknown ↦
          let bad : raised AppError.authentication_required_error ≡ ok r = rw unknown at h in
          absurd cc
      | inr (token, found) ↦ elim (Bool-cases (is_some token.revoked_at)) [
        | inl used ↦
            let bad : raised AppError.authentication_required_error ≡ ok r =
              rw (found, used) at h in
            absurd cc
        | inr live ↦ elim (Bool-cases (leb token.expires_at now)) [
          | inl late ↦
              let bad : raised AppError.authentication_required_error ≡ ok r =
                rw (found, live, late) at h in
              absurd cc
          | inr early ↦
              rw (found, live, early)
                (refresh_live-Closed security (security.hash_refresh_token raw_token) raw_refresh
                  now w token r found (rw (found, live, early) at h))
        ]
      ]
    ]

-- A refresh token that was exchanged once is refused with 401 at any later time in the session that the
-- exchange left.
pub refresh-refresh :
    (security : Security) (raw_token raw_refresh raw_refresh' : String) (now later : ℕ) (w : World)
    (r : AuthResult)
    → (refresh security raw_token raw_refresh now w).0 ≡ ok r
    → (refresh security raw_token raw_refresh' later
        (refresh security raw_token raw_refresh now w).1).0
      ≡ raised AppError.authentication_required_error
refresh-refresh security raw_token raw_refresh raw_refresh' now later w r h =
    let (t, found, used) = refresh-Closed security raw_token raw_refresh now w r h in
    refresh-used security raw_token raw_refresh' later _ t found used
