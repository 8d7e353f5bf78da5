-- ===== src/Examples/Accounts.antt =====
-- One account, its password and its refresh tokens.
use support_flow.Prelude.{All, false, arith, IsIn, ◌≡◌, refl, true, none, some}
use text.Mathlib.Text.{◌==◌ as str_eq}
use support_flow.Enums.{UserRole}
use support_flow.Errors.{AppError, ok, raised}
use support_flow.Db.{User}
use support_flow.Session.{request}
use support_flow.Auth.{AuthResult, find_by_hash, login, refresh, revoke}
use support_flow.Auth.Rotation.{AllRevoked, refresh-replay, refresh-refresh}
use support_flow.Auth.Login.{signed_in_at, login-active, login-raised}
use support_flow.Examples.{user_row, spent, desk, plain}

abbrev session_of : User → AuthResult
session_of user = record {
  user = user;
  access_token = "access";
  refresh_token = "next";
  expires_in = 900;
}

spent_found : find_by_hash "old" desk.session ≡ some spent
unfolding find_by_hash
spent_found = refl

refresh-replay_example :
    let p = request (refresh plain "old" "next" 9) desk in
    (p.0 ≡ raised AppError.authentication_required_error)
    × AllRevoked 11 p.1.committed
    × (p.1.session ≡ p.1.committed)
refresh-replay_example = refresh-replay plain "old" "next" 9 desk spent spent_found refl

rotated :
    (refresh plain "new" "next" 9 desk).0 ≡ ok (session_of (user_row 11 1 UserRole.agent none))
unfolding refresh find_by_hash revoke
rotated = refl

refresh-refresh_example :
    (refresh plain "new" "other" 20 (refresh plain "new" "next" 9 desk).1).0
    ≡ raised AppError.authentication_required_error
refresh-refresh_example =
    refresh-refresh plain "new" "next" "other" 9 20 desk
      (session_of (user_row 11 1 UserRole.agent none)) rotated

abbrev returning : User
returning = record (user_row 11 1 UserRole.agent none) { last_login_at = some 9 }

signed_in : (login plain "agent@desk.example" "secret" "next" 9 desk).0 ≡ ok (session_of returning)
unfolding login
signed_in = refl

login-active_example :
    (u : User) × (IsIn u desk.session.users
      × (str_eq u.email "agent@desk.example" ≡ true)
      × (u.is_active ≡ true)
      × ((plain.verify_and_update_password "secret" u.password_hash).0 ≡ true)
      × (returning
          ≡ signed_in_at 9 (plain.verify_and_update_password "secret" u.password_hash).1 u))
login-active_example =
    login-active plain "agent@desk.example" "secret" "next" 9 desk (session_of returning) signed_in

turned_away :
    (login plain "agent@desk.example" "guess" "next" 9 desk).0
    ≡ raised AppError.invalid_credentials_error
unfolding login
turned_away = refl

login-raised_example :
    ((login plain "agent@desk.example" "guess" "next" 9 desk).1 ≡ desk)
    × All
        (λ u.
          str_eq u.email "agent@desk.example" ≡ true
          → u.is_active ≡ true
          → (plain.verify_and_update_password "guess" u.password_hash).0 ≡ false)
        desk.session.users
login-raised_example =
    login-raised plain "agent@desk.example" "guess" "next" 9 desk AppError.invalid_credentials_error
      (omega arith) turned_away
