-- ===== src/Sla/Display.antt =====
-- backend/app/services/sla_service.py: the position of a page of tickets as the API shows it. A dictionary by
-- ticket is a list of pairs.
use support_flow.Prelude.{
  ℕ, ◌≡◌, ◌↔◌, refl, Bool, true, Option, none, some, List, [], ◌∷◌, ◌++◌, map, ◌&&◌, is_some, find?,
  if◌then◌else◌, arith,
}
use support_flow.Prelude.Int.{ℤ}
use support_flow.Enums.{same_priority}
use support_flow.Permissions.{Permission}
use support_flow.Tenancy.{TenantContext, has}
use support_flow.Db.{Ticket, SlaPolicy, Db}
use support_flow.Sla.{SlaTimer, SlaTimerState, TimerPosition, SlaPosition, resolve_position}
use support_flow.Sla.Alerts.{RecordedAlerts, SlaAlert, index_alerts, due_alert, due_alerts}
use support_flow.Sla.Sweep.{active_policies, find_alerts}

-- schemas/sla.py
pub record SlaTimerRead : Type 0 where
  pub timer : SlaTimer
  pub state : SlaTimerState
  pub due_at : ℕ
  pub remaining_seconds : ℤ
  pub stopped_at : Option ℕ
  pub warned_at : Option ℕ
  pub breached_at : Option ℕ

pub record TicketSlaRead : Type 0 where
  pub response : SlaTimerRead
  pub resolution : SlaTimerRead
  pub policy : SlaPolicy

unfoldable pub timer_read : TimerPosition → RecordedAlerts → SlaTimerRead
timer_read position alerts = record {
  timer = position.timer;
  state = position.state;
  due_at = position.due_at;
  remaining_seconds = position.remaining_seconds;
  stopped_at = position.stopped_at;
  warned_at = alerts.warnings position.timer;
  breached_at = alerts.breaches position.timer;
}

unfoldable pub to_read : SlaPosition → RecordedAlerts → TicketSlaRead
unfolding timer_read
to_read position alerts = record {
  response = timer_read position.response alerts;
  resolution = timer_read position.resolution alerts;
  policy = position.policy;
}

unfoldable pub positions :
    List SlaPolicy → (ℕ → RecordedAlerts) → ℕ → List Ticket → List (ℕ × TicketSlaRead)
unfolding to_read
positions policies alerts now [] = []
positions policies alerts now (t ∷ ts) =
    let rest = positions policies alerts now ts in
    elim (find? (λ p. same_priority p.priority t.priority) policies) [
      | none ↦ rest
      | some policy ↦ (t.id, to_read (resolve_position t policy now) (alerts t.id)) ∷ rest
    ]

-- The repository's queries are those of the sweep, with the tenant of the context.
unfoldable pub decorate : TenantContext → List Ticket → ℕ → Db → List (ℕ × TicketSlaRead)
unfolding positions
decorate context tickets now db =
    if has context (Permission.sla_view ∷ [])
    then positions (active_policies context.organization_id db)
        (index_alerts (find_alerts context.organization_id (map (λ t. t.id) tickets) db)) now
        tickets
    else []

-- What a timer shows has been told to somebody.
abbrev pub told : SlaTimerRead → Bool
told r = elim r.state [
  | SlaTimerState.warning ↦ is_some r.warned_at
  | SlaTimerState.breached ↦ is_some r.breached_at
  | _ ↦ true
]

due_alert-told :
    (position : TimerPosition) (alerts : RecordedAlerts)
    → (told (timer_read position alerts) ≡ true → due_alert position alerts ≡ [])
      × (due_alert position alerts ≡ [] → told (timer_read position alerts) ≡ true)
unfolding timer_read due_alert
due_alert-told position alerts = ground arith

append-empty : (xs ys : List SlaAlert) → xs ++ ys ≡ [] → (xs ≡ []) × (ys ≡ [])
append-empty [] ys h = (refl, h)
append-empty (x ∷ xs) ys h = cc

both : (a b : Bool) → (a && b) ≡ true → (a ≡ true) × (b ≡ true)
both a b h = ground (arith, h)

-- The API and the sweep agree on what has been said: nothing is due for a ticket exactly when each of its
-- two displayed timers, if it is in its warning band or breached, carries the time of that alert.
pub due_alerts-to_read :
    (position : SlaPosition) (alerts : RecordedAlerts)
    → (due_alerts position alerts ≡ []) ↔ (
        (told (to_read position alerts).response && told (to_read position alerts).resolution)
        ≡ true)
unfolding due_alerts to_read
due_alerts-to_read position alerts =
    let (ra, rb) = due_alert-told position.response alerts in
    let (sa, sb) = due_alert-told position.resolution alerts in
    (
      λ none'. let (first, second) = append-empty _ _ none' in rw (rb first, sb second) refl,
      λ all.
          let (first, second) = both (told (timer_read position.response alerts)) _ all in
          rw (ra first, sa second) refl,
    )
