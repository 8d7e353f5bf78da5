-- ===== src/Sla/Sweep.antt =====
-- backend/app/workers/sla_tasks.py with its queries, backend/app/repositories/sla_repository.py, and
-- its fan-out, `notify_sla_alert` of backend/app/services/notification_service.py. One organization's
-- sweep is an action on a session of its own.
pub mod Once
pub mod Passes
pub mod Starvation
use support_flow.Prelude.{
  ℕ, suc, ◌+◌, String, Bool, true, false, not, Option, none, some, List, [], ◌∷◌, ◌++◌, map, ◌&&◌,
  ◌||◌, ◌==◌, leb, ltb, elem, select, take, order_by, if◌then◌else◌,
}
use support_flow.Enums.{
  TicketStatus, TicketPriority, TicketEventType, NotificationType, same_priority,
}
use support_flow.Permissions.{role_in, sla_alert_roles}
use support_flow.Db.{Ticket, TicketEvent, SlaPolicy, Notification, Json, Title, Db}
use support_flow.Realtime.{notification_envelope}
use support_flow.Session.{Effect, App, ◌>>=◌, ◌>>◌, pure, gets, modify, emit, commit_session}
use support_flow.Notifications.{add_notification, enqueue_delivery}
use support_flow.Sla.{SlaTimer, earliest_alert_offset, resolve_position}
use support_flow.Sla.Alerts.{SlaAlert, index_alerts, due_alerts, timer_value, is_warning}

abbrev pub by_creation : ℕ → ℕ → ℕ → ℕ → Bool
by_creation created id created' id' = ltb created created' || (created == created' && leb id id')

-- sla_repository.load_policies
unfoldable pub active_policies : ℕ → Db → List SlaPolicy
active_policies organization_id db =
    select (λ p. p.organization_id == organization_id && p.is_active) db.sla_policies

abbrev pub is_terminal : TicketStatus → Bool
is_terminal TicketStatus.resolved = true
is_terminal TicketStatus.closed = true
is_terminal _ = false

-- The `WHERE` of `find_pending`: `created_at <= now - offset`, with the offset on the left.
unfoldable pub is_pending : ℕ → TicketPriority → ℕ → ℕ → Ticket → Bool
is_pending organization_id priority offset now t =
    t.organization_id == organization_id
    && same_priority t.priority priority
    && not (is_terminal t.status)
    && leb (t.created_at + offset) now

unfoldable pub find_pending : ℕ → TicketPriority → ℕ → ℕ → ℕ → Db → List Ticket
unfolding is_pending order_by
find_pending organization_id priority offset now limit db = take limit (
    order_by (λ a b. by_creation a.created_at a.id b.created_at b.id)
      (select (is_pending organization_id priority offset now) db.tickets))

abbrev is_alert : TicketEventType → Bool
is_alert TicketEventType.sla_warning = true
is_alert TicketEventType.sla_breached = true
is_alert _ = false

unfoldable pub find_alerts : ℕ → List ℕ → Db → List TicketEvent
unfolding order_by
find_alerts organization_id ticket_ids db =
    order_by (λ a b. by_creation a.created_at a.id b.created_at b.id)
      (select
        (λ e.
          e.organization_id == organization_id
          && elem e.ticket_id ticket_ids
          && is_alert e.event_type)
        db.events)

unfoldable pub find_manager_ids : ℕ → Db → List ℕ
find_manager_ids organization_id db =
    map (λ u. u.id)
      (select
        (λ u. u.organization_id == organization_id && role_in u.role sla_alert_roles && u.is_active)
        db.users)

-- `dict.fromkeys`: the first of each.
without : ℕ → List ℕ → List ℕ
without a = select (λ b. not (b == a))

unfoldable pub distinct : List ℕ → List ℕ
unfolding without
distinct [] = []
distinct (a ∷ rest) = a ∷ without a (distinct rest)

abbrev assignee_first : Option ℕ → List ℕ → List ℕ
assignee_first none managers = managers
assignee_first (some agent) managers = agent ∷ managers

unfoldable pub alert_recipients : ℕ → Ticket → Db → List ℕ
unfolding distinct find_manager_ids
alert_recipients organization_id t db =
    distinct (assignee_first t.assigned_agent_id (find_manager_ids organization_id db))

abbrev scheduled_type : TicketEventType → NotificationType
scheduled_type TicketEventType.sla_breached = NotificationType.sla_breached
scheduled_type _ = NotificationType.sla_warning

abbrev timer_label : SlaTimer → String
timer_label SlaTimer.response = "first response"
timer_label SlaTimer.resolution = "resolution"

abbrev sla_title : SlaAlert → Title
sla_title alert =
    if is_warning alert.event_type
    then Title.deadline "SLA warning: {label} is due {deadline}" (timer_label alert.timer)
        alert.due_at
    else Title.deadline "SLA breach: {label} was due {deadline}" (timer_label alert.timer)
        alert.due_at

unfoldable pub stage_alert : ℕ → Ticket → SlaAlert → List ℕ → App (List Notification)
stage_alert organization_id t alert [] = pure []
stage_alert organization_id t alert (recipient ∷ rest) = do
  n ←
      add_notification organization_id recipient (scheduled_type alert.event_type) (sla_title alert)
        t
  ns ← stage_alert organization_id t alert rest
  pure (n ∷ ns)

unfoldable pub notify_sla_alert : ℕ → Ticket → SlaAlert → App (List Notification)
unfolding stage_alert alert_recipients
notify_sla_alert organization_id t alert = do
  recipients ← gets (alert_recipients organization_id t)
  stage_alert organization_id t alert recipients

-- The row that `_record` adds.
abbrev pub alert_event : ℕ → ℕ → Ticket → SlaAlert → ℕ → TicketEvent
alert_event id organization_id t alert now = record {
  id = id;
  organization_id = organization_id;
  ticket_id = t.id;
  event_type = alert.event_type;
  actor_user_id = none;
  from_value = none;
  to_value = none;
  extra_data =
      ("timer", Json.text (timer_value alert.timer)) ∷ ("due_at", Json.instant alert.due_at) ∷ [];
  created_at = now;
}

unfoldable pub record_alert : ℕ → Ticket → SlaAlert → ℕ → App Unit
record_alert organization_id t alert now = modify λ db. record db {
  events = db.events ++ alert_event db.next_id organization_id t alert now ∷ [];
  next_id = suc db.next_id;
}

-- The innermost loop of `_sweep`.
unfoldable pub sweep_alerts : ℕ → Ticket → ℕ → List SlaAlert → App (List Notification)
sweep_alerts organization_id t now [] = pure []
sweep_alerts organization_id t now (alert ∷ rest) = do
  record_alert organization_id t alert now
  ns ← notify_sla_alert organization_id t alert
  ns' ← sweep_alerts organization_id t now rest
  pure (ns ++ ns')

unfoldable pub sweep_tickets :
    ℕ → SlaPolicy → ℕ → List TicketEvent → List Ticket → App (List Notification)
sweep_tickets organization_id policy now events [] = pure []
sweep_tickets organization_id policy now events (t ∷ ts) = do
  ns ←
      sweep_alerts organization_id t now
        (due_alerts (resolve_position t policy now) (index_alerts events t.id))
  ns' ← sweep_tickets organization_id policy now events ts
  pure (ns ++ ns')

unfoldable pub sweep_policies : ℕ → ℕ → ℕ → List SlaPolicy → App (List Notification)
sweep_policies organization_id limit now [] = pure []
sweep_policies organization_id limit now (policy ∷ rest) = do
  candidates ←
      gets (find_pending organization_id policy.priority (earliest_alert_offset policy) now limit)
  events ← gets (find_alerts organization_id (map (λ t. t.id) candidates))
  ns ← sweep_tickets organization_id policy now events candidates
  ns' ← sweep_policies organization_id limit now rest
  pure (ns ++ ns')

-- `publish_notifications` of websocket/manager.py
unfoldable pub publish_notifications : List Notification → App Unit
publish_notifications [] = pure tt
publish_notifications (n ∷ ns) = emit (Effect.publish (map notification_envelope (n ∷ ns)))

-- `_sweep`: `limit` is SLA_SWEEP_BATCH_SIZE.
unfoldable pub sweep : ℕ → ℕ → ℕ → App (List Notification)
unfolding sweep_policies sweep_tickets sweep_alerts notify_sla_alert record_alert
    publish_notifications
sweep organization_id limit now = do
  policies ← gets (active_policies organization_id)
  elim policies [
    | [] ↦ pure []
    | p ∷ ps ↦ do
      ns ← sweep_policies organization_id limit now (p ∷ ps)
      commit_session
      enqueue_delivery ns
      publish_notifications ns
      pure ns
  ]
