-- ===== src/Auth.antt =====
-- backend/app/services/auth_service.py with backend/app/repositories/refresh_token_repository.py and
-- user_repository.py: login, rotation of refresh tokens, and logout. The cryptography is the libraries'
-- (pwdlib, hashlib, pyjwt) and a parameter; the random token of a new session is an argument,
-- `raw_refresh`.
pub mod Rotation
pub mod Login
use support_flow.Prelude.{
  ℕ, suc, ◌+◌, ◌*◌, String, Bool, true, false, not, Option, none, some, List, [], ◌∷◌, ◌++◌, ◌&&◌,
  ◌==◌, is_some, leb, select, take, find?, update_where, order_by, if◌then◌else◌,
}
use text.Mathlib.Text.{◌==◌ as str_eq}
use support_flow.Enums.{UserRole}
use support_flow.Errors.{AppError, ok}
use support_flow.Db.{User, RefreshToken, Db}
use support_flow.Session.{App, ◌>>=◌, ◌>>◌, pure, raise, require_some, gets, modify, commit_session}

pub record Security : Type 0 where
  pub verify_and_update_password : String → String → Bool × Option String
  pub hash_refresh_token : String → String
  pub create_access_token : ℕ → ℕ → UserRole → String
  -- in microseconds and in seconds
  pub refresh_token_ttl : ℕ
  pub access_token_expiry : ℕ

pub record AuthResult : Type 0 where
  pub user : User
  pub access_token : String
  pub refresh_token : String
  pub expires_in : ℕ

unfoldable pub find_users_by_email_across_tenants : String → Db → List User
unfolding order_by
find_users_by_email_across_tenants email db =
    take 5 (
      order_by (λ a b. leb a.created_at b.created_at) (select (λ u. str_eq u.email email) db.users))

unfoldable pub find_by_hash : String → Db → Option RefreshToken
find_by_hash token_hash db = find? (λ t. str_eq t.token_hash token_hash) db.refresh_tokens

-- The flush of one revoked row, and of its link to the row that replaces it.
unfoldable pub revoke : RefreshToken → Option ℕ → ℕ → Db → Db
revoke token replaced_by_id now db = record db {
  refresh_tokens =
      update_where (λ t. t.id == token.id)
        (λ t. record t { revoked_at = some now; replaced_by_id = replaced_by_id })
        db.refresh_tokens;
}

unfoldable pub revoke_all_for_user : ℕ → ℕ → Db → Db
revoke_all_for_user user_id now db = record db {
  refresh_tokens =
      update_where (λ t. t.user_id == user_id && not (is_some t.revoked_at))
        (λ t. record t { revoked_at = some now }) db.refresh_tokens;
}

module _ (security : Security) where
  -- `_issue_tokens`; the row's key is drawn when it is inserted.
  unfoldable pub issue_tokens : User → String → ℕ → ℕ → AuthResult × RefreshToken
  issue_tokens user raw_refresh id now = (
    record {
      user = user;
      access_token = security.create_access_token user.id user.organization_id user.role;
      refresh_token = raw_refresh;
      expires_in = security.access_token_expiry;
    },
    record {
      id = id;
      organization_id = user.organization_id;
      user_id = user.id;
      token_hash = security.hash_refresh_token raw_refresh;
      expires_at = now + security.refresh_token_ttl;
      revoked_at = none;
      replaced_by_id = none;
    },
  )

  unfoldable pub add_token : RefreshToken → App Unit
  add_token row =
      modify
        λ db. record db { refresh_tokens = db.refresh_tokens ++ row ∷ []; next_id = suc db.next_id }

  -- The loop of `login`: the first active candidate that matches, with its upgraded hash, and whether an
  -- inactive one matched before it.
  unfoldable pub match_candidates : String → List User → Bool → Option (User × Option String) × Bool
  match_candidates password [] inactive = (none, inactive)
  match_candidates password (candidate ∷ candidates) inactive =
      let (valid, new_hash) =
        security.verify_and_update_password password candidate.password_hash in
      let rest = match_candidates password candidates in
      if not valid
      then rest inactive
      else if not candidate.is_active
      then rest true
      else (some (candidate, new_hash), inactive)

  abbrev pub upgraded : User → Option String → User
  upgraded user updated_hash = record user {
    password_hash = elim updated_hash [ none ↦ user.password_hash | some new_hash ↦ new_hash ];
  }

  unfoldable pub save_user : User → Db → Db
  save_user user db = record db { users = update_where (λ u. u.id == user.id) (λ _. user) db.users }

  unfoldable pub login : String → String → String → ℕ → App AuthResult
  unfolding find_users_by_email_across_tenants match_candidates issue_tokens add_token save_user
  login email password raw_refresh now = do
    candidates ← gets (find_users_by_email_across_tenants email)
    let (found, inactive_match) = match_candidates password candidates false
    (candidate, updated_hash) ← require_some found (
        if inactive_match then AppError.inactive_user_error else AppError.invalid_credentials_error)
    let matched : User = record (upgraded candidate updated_hash) { last_login_at = some now }
    modify (save_user matched)
    id ← gets (λ db. db.next_id)
    let (result, row) = issue_tokens matched raw_refresh id now
    add_token row
    commit_session
    pure result

  -- Every live session of the user is closed, for good, and the call still fails.
  unfoldable pub revoke_family : ℕ → ℕ → AppError → App AuthResult
  revoke_family user_id now error = do
    modify (revoke_all_for_user user_id now)
    commit_session
    raise error

  unfoldable pub rotate : RefreshToken → User → String → ℕ → App AuthResult
  rotate token user raw_refresh now = do
    id ← gets (λ db. db.next_id)
    let (result, replacement) = issue_tokens user raw_refresh id now
    modify (revoke token (some replacement.id) now)
    add_token replacement
    commit_session
    pure result

  unfoldable pub refresh_live : RefreshToken → String → ℕ → App AuthResult
  refresh_live token raw_refresh now = do
    user ← gets (λ db. find? (λ u. u.id == token.user_id) db.users)
    elim user [
      | none ↦ revoke_family token.user_id now AppError.authentication_required_error
      | some u ↦
          if not u.is_active
          then revoke_family token.user_id now AppError.inactive_user_error
          else rotate token u raw_refresh now
    ]

  unfoldable pub expire : RefreshToken → ℕ → App AuthResult
  expire token now = do
    modify (revoke token token.replaced_by_id now)
    commit_session
    raise AppError.authentication_required_error

  unfoldable pub refresh : String → String → ℕ → App AuthResult
  unfolding revoke_family rotate refresh_live expire issue_tokens add_token
  refresh raw_token raw_refresh now = do
    found ← gets (find_by_hash (security.hash_refresh_token raw_token))
    token ← require_some found AppError.authentication_required_error
    if is_some token.revoked_at
        then revoke_family token.user_id now AppError.authentication_required_error
        else if leb token.expires_at now
        then expire token now
        else refresh_live token raw_refresh now

  -- No token, or an empty one, is no session to end.
  unfoldable pub logout : Option String → ℕ → App Unit
  logout none now = pure tt
  logout (some raw_token) now = if str_eq raw_token "" then pure tt else do
    found ← gets (find_by_hash (security.hash_refresh_token raw_token))
    elim found [
      | none ↦ pure tt
      | some token ↦
          if is_some token.revoked_at
          then pure tt
          else do modify (revoke token token.replaced_by_id now); commit_session
    ]
