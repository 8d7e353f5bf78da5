-- ===== src/Sla/Clock.antt =====
-- The clock of backend/app/services/sla_service.py against time.
use support_flow.Prelude.{ℕ, ◌≤◌, ◌≡◌, ◌≢◌, ◌⊎◌, Option, none, some, arith}
use support_flow.Prelude.Int.{pos, quot_sub, ◌≤ℤ◌}
use support_flow.Sla.{SlaTimer, SlaTimerState, resolve_timer}

-- How far a running timer has come.
abbrev pub progress : SlaTimerState → ℕ
progress SlaTimerState.on_track = 0
progress SlaTimerState.warning = 1
progress SlaTimerState.breached = 2
progress SlaTimerState.met = 0

-- As time passes, a running timer goes only from on track to warning to breached, and never back.
pub resolve_timer_mono :
    (timer : SlaTimer) (started target percent now later : ℕ)
    → now ≤ later
    → progress (resolve_timer timer started none target percent now).state
      ≤ progress (resolve_timer timer started none target percent later).state
unfolding resolve_timer
resolve_timer_mono timer started target percent now later h = ground arith

-- The countdown's sign agrees with the verdict: a breached timer has no time left, and every other
-- state has time to spare or exactly none.
pub remaining_seconds_sign :
    (timer : SlaTimer) (started : ℕ) (stopped : Option ℕ) (target percent now : ℕ)
    → let p = resolve_timer timer started stopped target percent now in
      ((p.state ≡ SlaTimerState.breached) × (p.remaining_seconds ≤ℤ pos 0))
      ⊎ ((p.state ≢ SlaTimerState.breached) × (pos 0 ≤ℤ p.remaining_seconds))
unfolding resolve_timer quot_sub
remaining_seconds_sign timer started none target percent now = ground arith
remaining_seconds_sign timer started (some s) target percent now = ground arith
