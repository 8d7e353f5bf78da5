-- ===== src/Sla/Alerts.antt =====
-- backend/app/services/sla_service.py: what the timeline says has been alerted, and what is due.
pub mod Window
use support_flow.Prelude.{
  ℕ, String, Bool, true, false, not, Option, none, some, List, [], ◌∷◌, ◌++◌, ◌&&◌, ◌==◌, is_some,
  if◌then◌else◌,
}
use Prim.Native.Nat.{min}
use text.Mathlib.Text.{◌==◌ as str_eq}
use support_flow.Enums.{TicketEventType}
use support_flow.Db.{TicketEvent, Json}
use support_flow.Sla.{SlaTimer, SlaTimerState, TimerPosition, SlaPosition}

-- The two dictionaries of alerts, by timer.
pub record RecordedAlerts : Type 0 where
  pub warnings : SlaTimer → Option ℕ
  pub breaches : SlaTimer → Option ℕ

abbrev pub no_alerts : RecordedAlerts
no_alerts = record { warnings = λ timer. none; breaches = λ timer. none }

abbrev pub get_key : String → List (String × Json) → Option Json
get_key k [] = none
get_key k ((j, v) ∷ rest) = if str_eq j k then some v else get_key k rest

-- The members' values, and `SLATimer(value)`.
abbrev pub timer_value : SlaTimer → String
timer_value SlaTimer.response = "response"
timer_value SlaTimer.resolution = "resolution"

unfoldable pub parse_timer : String → Option SlaTimer
parse_timer value =
    if str_eq value "response"
    then some SlaTimer.response
    else if str_eq value "resolution"
    then some SlaTimer.resolution
    else none

abbrev read_timer : Option Json → Option SlaTimer
read_timer (some (Json.text value)) = parse_timer value
read_timer _ = none

unfoldable pub timer_of : TicketEvent → Option SlaTimer
unfolding parse_timer
timer_of event = read_timer (get_key "timer" event.extra_data)

abbrev pub is_warning : TicketEventType → Bool
is_warning TicketEventType.sla_warning = true
is_warning _ = false

abbrev pub same_timer : SlaTimer → SlaTimer → Bool
same_timer SlaTimer.response SlaTimer.response = true
same_timer SlaTimer.resolution SlaTimer.resolution = true
same_timer _ _ = false

-- `timer is None` stands for both timers.
abbrev pub concerns : Option SlaTimer → SlaTimer → Bool
concerns none which = true
concerns (some timer) which = same_timer timer which

abbrev pub earliest : ℕ → Option ℕ → Option ℕ
earliest at none = some at
earliest at (some earlier) = some (min at earlier)

unfoldable pub note : Option SlaTimer → ℕ → (SlaTimer → Option ℕ) → SlaTimer → Option ℕ
note timer at target which =
    if concerns timer which then earliest at (target which) else target which

unfoldable pub add_alert : TicketEvent → RecordedAlerts → RecordedAlerts
unfolding note timer_of
add_alert event current =
    if is_warning event.event_type
    then record current { warnings = note (timer_of event) event.created_at current.warnings }
    else record current { breaches = note (timer_of event) event.created_at current.breaches }

-- The loop of `index_alerts`; a dictionary by ticket is a function, `RecordedAlerts()` where it has no
-- key.
unfoldable pub index_from : (ℕ → RecordedAlerts) → List TicketEvent → ℕ → RecordedAlerts
unfolding add_alert
index_from indexed [] = indexed
index_from indexed (event ∷ events) =
    index_from (λ id. if id == event.ticket_id then add_alert event (indexed id) else indexed id)
      events

unfoldable pub index_alerts : List TicketEvent → ℕ → RecordedAlerts
unfolding index_from
index_alerts events = index_from (λ id. no_alerts) events

pub record SlaAlert : Type 0 where
  pub timer : SlaTimer
  pub event_type : TicketEventType
  pub due_at : ℕ

unfoldable pub due_alert : TimerPosition → RecordedAlerts → List SlaAlert
due_alert position alerts = elim position.state [
  | SlaTimerState.warning ↦
      if is_some (alerts.warnings position.timer)
      then []
      else record {
        timer = position.timer;
        event_type = TicketEventType.sla_warning;
        due_at = position.due_at;
      }
        ∷ []
  | SlaTimerState.breached ↦
      if is_some (alerts.breaches position.timer)
      then []
      else record {
        timer = position.timer;
        event_type = TicketEventType.sla_breached;
        due_at = position.due_at;
      }
        ∷ []
  | _ ↦ []
]

unfoldable pub due_alerts : SlaPosition → RecordedAlerts → List SlaAlert
unfolding due_alert
due_alerts position alerts =
    due_alert position.response alerts ++ due_alert position.resolution alerts
