-- ===== src/Notifications/Inbox.antt =====
-- The caller's own notifications: backend/app/repositories/notification_repository.py under
-- backend/app/services/notification_service.py.
use support_flow.Prelude.{
  ℕ, ◌≡◌, refl, ap, subst, ◌∙◌, Bool, true, not, Option, some, List, [], ◌∷◌, ◌&&◌, ◌==◌, ==_refl,
  is_some, inl, inr, length, find?, find?-update_where, select, select-update_where, update_where,
  if◌then◌else◌, All-pure, Bool-cases, Option-cases, arith,
}
use support_flow.Tenancy.{TenantContext}
use support_flow.Errors.{AppError, ErrorCode, ok, raised-ok, ok-ok}
use support_flow.Db.{Notification, Db}
use support_flow.Session.{World, App, ◌>>=◌, ◌>>◌, pure, require_some, gets, modify, commit_session}

-- The tenant's predicate and `_own`.
abbrev pub own : TenantContext → Notification → Bool
own context n = n.organization_id == context.organization_id && n.user_id == context.user_id

abbrev pub unread : TenantContext → Notification → Bool
unread context n = own context n && not (is_some n.read_at)

unfoldable pub get_for_user : TenantContext → ℕ → Db → Option Notification
get_for_user context id db = find? (λ n. own context n && n.id == id) db.notifications

unfoldable pub count_unread : TenantContext → Db → ℕ
count_unread context db = length (select (unread context) db.notifications)

abbrev read_now : ℕ → Notification → Notification
read_now now n = record n { read_at = some now }

unfoldable pub mark_read : TenantContext → ℕ → ℕ → App Notification
mark_read context id now = do
  found ← gets (get_for_user context id)
  n ← require_some found (AppError.not_found_error ErrorCode.notification_not_found)
  if is_some n.read_at then pure n else do
    modify λ db. record db {
      notifications = update_where (λ m. m.id == n.id) (read_now now) db.notifications;
    }
    commit_session
    pure (read_now now n)

unfoldable pub mark_all_read : TenantContext → ℕ → App ℕ
mark_all_read context now = do
  changed ← gets (count_unread context)
  modify λ db. record db {
    notifications = update_where (unread context) (read_now now) db.notifications;
  }
  commit_session
  pure changed

read-rows :
    (context : TenantContext) (now : ℕ) (ns : List Notification)
    → select (unread context) (update_where (unread context) (read_now now) ns) ≡ []
read-rows context now [] = refl
read-rows context now (n ∷ ns) = ground (arith, read-rows context now ns)

-- Marking everything read returns the number of the caller's unread notifications, leaves none of them
-- unread, and touches nobody else's notifications.
pub mark_all_read-unread :
    (context : TenantContext) (now : ℕ) (w : World)
    → let p = mark_all_read context now w in
      (p.0 ≡ ok (count_unread context w.session))
      × (count_unread context p.1.session ≡ 0)
      × (select (λ n. not (own context n)) p.1.session.notifications
          ≡ select (λ n. not (own context n)) w.session.notifications)
      × (p.1.committed ≡ p.1.session)
unfolding mark_all_read count_unread
mark_all_read-unread context now w = (
  refl,
  ap length (read-rows context now w.session.notifications),
  select-update_where (unread context) (λ n. not (own context n)) (read_now now)
      w.session.notifications (All-pure _ w.session.notifications (λ n h. ground (arith, h))),
  refl,
)

get_for_user-read :
    (context : TenantContext) (id now : ℕ) (db : Db) (n : Notification)
    → get_for_user context id db ≡ some n
    → get_for_user context id (record db {
      notifications = update_where (λ m. m.id == n.id) (read_now now) db.notifications;
    })
      ≡ some (read_now now n)
unfolding get_for_user
get_for_user-read context id now db n found =
    find?-update_where (λ m. own context m && m.id == id) (λ m. m.id == n.id) (read_now now)
      db.notifications (λ y. refl) found (==_refl n.id)

mark_read-cases :
    (context : TenantContext) (id now : ℕ) (w : World) (n : Notification)
    → (mark_read context id now w).0 ≡ ok n
    → (get_for_user context id (mark_read context id now w).1.session ≡ some n)
      × (is_some n.read_at ≡ true)
unfolding mark_read
mark_read-cases context id now w n h = elim (Option-cases (get_for_user context id w.session)) [
  | inl none' ↦ absurd (raised-ok (rw none' at h))
  | inr (m, found) ↦ elim (Bool-cases (is_some m.read_at)) [
    | inl read ↦
        let same : m ≡ n = ok-ok (rw (found, read) at h) in
        rw (found, read)
          (
            found ∙ ap (λ (k : Notification). some k) same,
            subst (λ (k : Notification). is_some k.read_at ≡ true) same read,
          )
    | inr fresh ↦
        let same : read_now now m ≡ n = ok-ok (rw (found, fresh) at h) in
        rw (found, fresh)
          (
            get_for_user-read context id now w.session m found
                ∙ ap (λ (k : Notification). some k) same,
            subst (λ (k : Notification). is_some k.read_at ≡ true) same refl,
          )
  ]
]

mark_read-read :
    (context : TenantContext) (id now : ℕ) (w : World) (n : Notification)
    → get_for_user context id w.session ≡ some n
    → is_some n.read_at ≡ true
    → mark_read context id now w ≡ (ok n, w)
unfolding mark_read
mark_read-read context id now w n found read = rw (found, read) refl

-- Marking a notification as read a second time, whenever that is, returns what the first time returned
-- and changes nothing: the time at which it was read stays.
pub mark_read-mark_read :
    (context : TenantContext) (id now later : ℕ) (w : World) (n : Notification)
    → (mark_read context id now w).0 ≡ ok n
    → let w' = (mark_read context id now w).1 in mark_read context id later w' ≡ (ok n, w')
mark_read-mark_read context id now later w n h =
    let (found, read) = mark_read-cases context id now w n h in
    mark_read-read context id later _ n found read
