-- ===== src/Examples/Clock.antt =====
-- The clock of one urgent ticket: 30 minutes to the first response, 4 hours to resolution.
use support_flow.Prelude.{ℕ, ◌≡◌, ◌≢◌, ◌≤◌, ◌+◌, refl, true, [], arith}
use support_flow.Enums.{TicketPriority, TicketEventType}
use support_flow.Errors.{AppError, raised}
use support_flow.Session.Rules.{Leads}
use support_flow.Sla.{
  SlaTimer, warning_offset, earliest_alert_offset, resolve_timer, resolve_position,
}
use support_flow.Sla.Alerts.{SlaAlert, no_alerts, due_alert, due_alerts}
use support_flow.Sla.Alerts.Window.{due_alerts-window}
use support_flow.Sla.Policies.{Field, SlaPolicyUpdate, validate, policy_for, update_policy}
use support_flow.Sla.Policies.Targets.{Keeps, update_policy-IsEnforceable}
use support_flow.Sla.Sweep.{find_pending, sweep}
use support_flow.Sla.Sweep.Starvation.{sweep-find_pending}
use support_flow.Examples.{agent, working, desk, urgent_policy}

-- 25 minutes after the ticket was raised, in microseconds: past 80 percent of the first target.
abbrev late : ℕ
late = 1500000000

warning_due : due_alerts (resolve_position working urgent_policy late) no_alerts ≢ []
unfolding due_alerts due_alert resolve_position resolve_timer warning_offset
warning_due e = cc

due_alerts-window_example : 0 + earliest_alert_offset urgent_policy ≤ late
due_alerts-window_example =
    due_alerts-window working urgent_policy late no_alerts (ground arith) (ground arith) tt tt
      warning_due

abbrev warning : SlaAlert
warning = record {
  timer = SlaTimer.response;
  event_type = TicketEventType.sla_warning;
  due_at = 1800000000;
}

sweep-find_pending_example :
    Leads
      (λ ns w'.
        find_pending 1 TicketPriority.urgent (earliest_alert_offset urgent_policy) late 1 w'.session
        ≡ find_pending 1 TicketPriority.urgent
            (earliest_alert_offset urgent_policy)
            late
            1
            desk.session)
      (sweep 1 1 late desk)
sweep-find_pending_example =
    sweep-find_pending 1 1 late desk 1 TicketPriority.urgent (earliest_alert_offset urgent_policy)
      late 1

abbrev tighter : SlaPolicyUpdate
tighter = record {
  response_time_minutes = Field.given 15;
  resolution_time_minutes = Field.unset;
  warning_threshold_percent = Field.unset;
  is_active = Field.unset;
}

tighter_valid : validate tighter ≡ true
unfolding validate
tighter_valid = refl

desk_enforceable : Keeps desk
desk_enforceable = ground arith

update_policy-IsEnforceable_example :
    Keeps (update_policy agent TicketPriority.urgent tighter desk).1
update_policy-IsEnforceable_example =
    update_policy-IsEnforceable agent TicketPriority.urgent tighter desk tighter_valid
      desk_enforceable

abbrev emptied : SlaPolicyUpdate
emptied = record {
  response_time_minutes = Field.null;
  resolution_time_minutes = Field.unset;
  warning_threshold_percent = Field.unset;
  is_active = Field.unset;
}

-- A null passes the validation and is answered with the generic error.
emptied_raises :
    (validate emptied ≡ true)
    × ((update_policy agent TicketPriority.urgent emptied desk).0
        ≡ raised AppError.internal_server_error)
unfolding validate update_policy policy_for
emptied_raises = (refl, refl)
