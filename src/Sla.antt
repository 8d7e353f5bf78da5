-- ===== src/Sla.antt =====
-- backend/app/services/sla_service.py: the clock. Instants and durations are microseconds. The
-- warning offset is `target * (percent / 100)`; for targets up to the schema's year the product stays
-- below 2 ^ 52, where the rounding of the float factor and of the product gives the exact value
-- `minutes * percent * 600000`, so the model has it without the float.
pub mod Clock
pub mod Alerts
pub mod Sweep
pub mod Policies
pub mod Display
use support_flow.Prelude.{ℕ, ◌+◌, ◌*◌, Option, none, some, leb, if◌then◌else◌}
use support_flow.Prelude.Int.{ℤ, quot_sub}
use support_flow.Db.{Ticket, SlaPolicy}

pub data SlaTimer : Type 0 where
  response resolution : SlaTimer

pub data SlaTimerState : Type 0 where
  on_track warning breached met : SlaTimerState

pub record TimerPosition : Type 0 where
  pub timer : SlaTimer
  pub state : SlaTimerState
  pub due_at : ℕ
  pub remaining_seconds : ℤ
  pub stopped_at : Option ℕ

pub record SlaPosition : Type 0 where
  pub policy : SlaPolicy
  pub response : TimerPosition
  pub resolution : TimerPosition

abbrev pub microseconds_per_minute : ℕ
microseconds_per_minute = 60000000

unfoldable pub warning_offset : ℕ → ℕ → ℕ
warning_offset target_minutes percent = target_minutes * percent * 600000

unfoldable pub earliest_alert_offset : SlaPolicy → ℕ
unfolding warning_offset
earliest_alert_offset policy =
    warning_offset policy.response_time_minutes policy.warning_threshold_percent

running_state : ℕ → ℕ → ℕ → SlaTimerState
running_state due_at warning_at now =
    if leb due_at now
    then SlaTimerState.breached
    else if leb warning_at now
    then SlaTimerState.warning
    else SlaTimerState.on_track

unfoldable pub resolve_timer : SlaTimer → ℕ → Option ℕ → ℕ → ℕ → ℕ → TimerPosition
unfolding running_state warning_offset
resolve_timer timer started_at none target_minutes percent now =
    let due_at = started_at + target_minutes * microseconds_per_minute in
    record {
      timer = timer;
      state = running_state due_at (started_at + warning_offset target_minutes percent) now;
      due_at = due_at;
      remaining_seconds = quot_sub due_at now 1000000;
      stopped_at = none;
    }
resolve_timer timer started_at (some stopped_at) target_minutes percent now =
    let due_at = started_at + target_minutes * microseconds_per_minute in
    record {
      timer = timer;
      state = if leb stopped_at due_at then SlaTimerState.met else SlaTimerState.breached;
      due_at = due_at;
      remaining_seconds = quot_sub due_at stopped_at 1000000;
      stopped_at = some stopped_at;
    }

unfoldable pub resolve_position : Ticket → SlaPolicy → ℕ → SlaPosition
unfolding resolve_timer
resolve_position t policy now = record {
  policy = policy;
  response =
      resolve_timer SlaTimer.response t.created_at t.first_response_at policy.response_time_minutes
        policy.warning_threshold_percent now;
  resolution =
      resolve_timer SlaTimer.resolution t.created_at t.resolved_at policy.resolution_time_minutes
        policy.warning_threshold_percent now;
}
