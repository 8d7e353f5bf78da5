-- ===== src/Sla/Alerts/Window.antt =====
-- The sweep's one time bound misses no alert.
use support_flow.Prelude.{
  ℕ, ◌≤◌, ◌<◌, ◌+◌, ◌*◌, ◌≢◌, ◌⊎◌, inl, inr, Option, none, some, List, [], ◌∷◌, ◌++◌, arith,
}
use support_flow.Db.{Ticket, SlaPolicy}
use support_flow.Sla.{
  SlaTimer, warning_offset, earliest_alert_offset, resolve_timer, resolve_position,
}
use support_flow.Sla.Alerts.{RecordedAlerts, due_alert, due_alerts}

-- A timestamp that is empty, or not in the future.
abbrev pub NotAfter : ℕ → Option ℕ → Type 0
NotAfter now none = Unit
NotAfter now (some at) = at ≤ now

warning_offset-le-target :
    (target percent : ℕ) → percent < 100 → warning_offset target percent ≤ target * 60000000
unfolding warning_offset
warning_offset-le-target target percent h = grind arith

warning_offset_mono :
    (a b percent : ℕ) → a ≤ b → warning_offset a percent ≤ warning_offset b percent
unfolding warning_offset
warning_offset_mono a b percent h = grind arith

due_alert-window :
    (timer : SlaTimer) (started : ℕ) (stopped : Option ℕ) (target percent now : ℕ)
    (alerts : RecordedAlerts)
    → NotAfter now stopped
    → warning_offset target percent ≤ target * 60000000
    → due_alert (resolve_timer timer started stopped target percent now) alerts ≢ []
    → started + warning_offset target percent ≤ now
unfolding due_alert resolve_timer
due_alert-window timer started none target percent now alerts past h ne = ground (arith, h)
due_alert-window timer started (some s) target percent now alerts past h ne = ground (arith, h)

append-ne {ℓ} : {A : Type ℓ} (xs ys : List A) → xs ++ ys ≢ [] → (xs ≢ []) ⊎ (ys ≢ [])
append-ne [] ys h = inr h
append-ne (x ∷ xs) ys h = inl (λ e. cc)

-- If an alert is due for a ticket on a policy whose targets are in order and whose threshold is below
-- 100 percent, and the ticket's stop times are not in the future, then the ticket was created before
-- the bound with which the sweep selects its candidates.
pub due_alerts-window :
    (t : Ticket) (policy : SlaPolicy) (now : ℕ) (alerts : RecordedAlerts)
    → policy.response_time_minutes ≤ policy.resolution_time_minutes
    → policy.warning_threshold_percent < 100
    → NotAfter now t.first_response_at
    → NotAfter now t.resolved_at
    → due_alerts (resolve_position t policy now) alerts ≢ []
    → t.created_at + earliest_alert_offset policy ≤ now
unfolding due_alerts resolve_position earliest_alert_offset
due_alerts-window t policy now alerts ordered below past past' ne =
    let percent = policy.warning_threshold_percent in
    elim (append-ne (due_alert (resolve_position t policy now).response alerts) _ ne) [
      | inl first ↦
          due_alert-window SlaTimer.response t.created_at t.first_response_at
            policy.response_time_minutes percent now alerts past
            (warning_offset-le-target policy.response_time_minutes percent below) first
      | inr second ↦
          let late =
            due_alert-window SlaTimer.resolution t.created_at t.resolved_at
              policy.resolution_time_minutes percent now alerts past'
              (warning_offset-le-target policy.resolution_time_minutes percent below) second in
          omega (
            arith,
            late,
            warning_offset_mono policy.response_time_minutes policy.resolution_time_minutes percent
                ordered,
          )
    ]
