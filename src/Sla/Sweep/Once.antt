-- ===== src/Sla/Sweep/Once.antt =====
-- An alert that the timeline records is not sent again.
use support_flow.Prelude.{
  ℕ, ◌≡◌, refl, inl, inr, true, some, Option, List, [], ◌∷◌, ◌++◌, ◌==◌, ==_refl, is_some, All,
  All-map, All-append, if◌then◌else◌, Bool-cases, arith,
}
use support_flow.Db.{Ticket, TicketEvent}
use support_flow.Sla.{SlaTimer, TimerPosition, SlaPosition}
use support_flow.Sla.Alerts.{
  RecordedAlerts, SlaAlert, note, add_alert, index_from, index_alerts, due_alert, due_alerts,
  timer_of, timer_value, parse_timer, no_alerts, is_warning,
}
use support_flow.Sla.Sweep.{alert_event}

-- The alerts of `a` are recorded in `b` too.
pub record Extends (a b : RecordedAlerts) : Type 0 where
  pub warnings :
      (timer : SlaTimer) → is_some (a.warnings timer) ≡ true → is_some (b.warnings timer) ≡ true
  pub breaches :
      (timer : SlaTimer) → is_some (a.breaches timer) ≡ true → is_some (b.breaches timer) ≡ true

pub Extends-refl : (a : RecordedAlerts) → Extends a a
Extends-refl a = record { warnings = λ timer h. h; breaches = λ timer h. h }

pub Extends-trans : {a b c : RecordedAlerts} → Extends a b → Extends b c → Extends a c
Extends-trans f g = record {
  warnings = λ timer h. g.warnings timer (f.warnings timer h);
  breaches = λ timer h. g.breaches timer (f.breaches timer h);
}

add_alert-Extends : (event : TicketEvent) (a : RecordedAlerts) → Extends a (add_alert event a)
unfolding add_alert note
add_alert-Extends event a = record {
  warnings = λ timer h. ground arith;
  breaches = λ timer h. ground arith;
}

index_from-append :
    (indexed : ℕ → RecordedAlerts) (es es' : List TicketEvent)
    → index_from indexed (es ++ es') ≡ index_from (index_from indexed es) es'
unfolding index_from
index_from-append indexed [] es' = refl
index_from-append indexed (e ∷ es) es' =
    index_from-append (λ id. if id == e.ticket_id then add_alert e (indexed id) else indexed id) es
      es'

index_from-Extends :
    (indexed : ℕ → RecordedAlerts) (es : List TicketEvent) (id : ℕ)
    → Extends (indexed id) (index_from indexed es id)
unfolding index_from
index_from-Extends indexed [] id = Extends-refl (indexed id)
index_from-Extends indexed (e ∷ es) id =
    let rest =
      index_from-Extends (λ i. if i == e.ticket_id then add_alert e (indexed i) else indexed i) es
        id in
    elim (Bool-cases (id == e.ticket_id)) [
      | inl same ↦ Extends-trans (add_alert-Extends e (indexed id)) (rw same at rest)
      | inr other ↦ (rw other at rest)
    ]

-- The alert is in the dictionary of its own kind.
abbrev pub Recorded : RecordedAlerts → SlaAlert → Type 0
Recorded a alert =
    is_some ((if is_warning alert.event_type then a.warnings else a.breaches) alert.timer) ≡ true

pub Recorded-Extends :
    (a b : RecordedAlerts) (alert : SlaAlert) → Extends a b → Recorded a alert → Recorded b alert
Recorded-Extends a b alert f h = elim (Bool-cases (is_warning alert.event_type)) [
  | inl e ↦ rw e (f.warnings alert.timer (rw e at h))
  | inr e ↦ rw e (f.breaches alert.timer (rw e at h))
]

parse_timer-timer_value : (timer : SlaTimer) → parse_timer (timer_value timer) ≡ some timer
unfolding parse_timer
parse_timer-timer_value SlaTimer.response = refl
parse_timer-timer_value SlaTimer.resolution = refl

timer_of-alert_event :
    (id organization_id : ℕ) (t : Ticket) (alert : SlaAlert) (now : ℕ)
    → timer_of (alert_event id organization_id t alert now) ≡ some alert.timer
unfolding timer_of
timer_of-alert_event id organization_id t alert now = parse_timer-timer_value alert.timer

note-same :
    (timer : SlaTimer) (at : ℕ) (target : SlaTimer → Option ℕ)
    → is_some (note (some timer) at target timer) ≡ true
unfolding note
note-same SlaTimer.response at target = ground arith
note-same SlaTimer.resolution at target = ground arith

-- The row that the sweep writes is read back as the alert it stands for.
add_alert-Recorded :
    (id organization_id : ℕ) (t : Ticket) (alert : SlaAlert) (now : ℕ) (a : RecordedAlerts)
    → Recorded (add_alert (alert_event id organization_id t alert now) a) alert
unfolding add_alert
add_alert-Recorded id organization_id t alert now a =
    elim (Bool-cases (is_warning alert.event_type)) [
      | inl e ↦
          rw (e, timer_of-alert_event id organization_id t alert now)
            (note-same alert.timer now a.warnings)
      | inr e ↦
          rw (e, timer_of-alert_event id organization_id t alert now)
            (note-same alert.timer now a.breaches)
    ]

pub index_alerts-Extends :
    (events later : List TicketEvent) (id : ℕ)
    → Extends (index_alerts events id) (index_alerts (events ++ later) id)
unfolding index_alerts
index_alerts-Extends events later id =
    rw (index_from-append (λ i. no_alerts) events later)
      (index_from-Extends (index_from (λ i. no_alerts) events) later id)

pub index_alerts-Recorded :
    (events : List TicketEvent) (id organization_id : ℕ) (t : Ticket) (alert : SlaAlert) (now : ℕ)
    → Recorded (index_alerts (events ++ alert_event id organization_id t alert now ∷ []) t.id) alert
unfolding index_alerts index_from
index_alerts-Recorded events id organization_id t alert now =
    rw
      (
        index_from-append (λ i. no_alerts) events (alert_event id organization_id t alert now ∷ []),
        ==_refl t.id,
      )
      (add_alert-Recorded id organization_id t alert now _)

All-parts : (P : SlaAlert → Type 0) (xs ys : List SlaAlert) → All P (xs ++ ys) → All P xs × All P ys
All-parts P [] ys h = (tt, h)
All-parts P (x ∷ xs) ys h = let (hx, hy) = All-parts P xs ys h.1 in ((h.0, hx), hy)

due_alert-Recorded :
    (position : TimerPosition) (a b : RecordedAlerts)
    → Extends a b
    → All (Recorded b) (due_alert position a)
    → due_alert position b ≡ []
unfolding due_alert
due_alert-Recorded position a b f h =
    ground (arith, f.warnings position.timer, f.breaches position.timer)

-- Of an alert that the dictionaries hold, none is due.
pub due_alerts-Recorded :
    (position : SlaPosition) (a b : RecordedAlerts)
    → Extends a b
    → All (Recorded b) (due_alerts position a)
    → due_alerts position b ≡ []
unfolding due_alerts
due_alerts-Recorded position a b f h =
    let (first, second) = All-parts (Recorded b) (due_alert position.response a) _ h in
    rw
      (
        due_alert-Recorded position.response a b f first,
        due_alert-Recorded position.resolution a b f second,
      )
      refl

due_alert-unrecorded :
    (position : TimerPosition) (a : RecordedAlerts)
    → All (λ b. ¬ Recorded a b) (due_alert position a)
unfolding due_alert
due_alert-unrecorded position a = ground arith

due_alerts-unrecorded :
    (position : SlaPosition) (a : RecordedAlerts)
    → All (λ b. ¬ Recorded a b) (due_alerts position a)
unfolding due_alerts
due_alerts-unrecorded position a =
    All-append (λ b. ¬ Recorded a b) (due_alert position.response a) _
      (due_alert-unrecorded position.response a) (due_alert-unrecorded position.resolution a)

-- Once the row of an alert stands in the timeline, then whatever rows came before and come after it,
-- and whatever position the clock computes later, no alert of the same timer and kind is due for the
-- ticket.
pub due_alerts-alert_event :
    (events later : List TicketEvent) (id organization_id : ℕ) (t : Ticket) (alert : SlaAlert)
    (now : ℕ) (position : SlaPosition)
    → All
        (λ b. ¬ ((b.timer ≡ alert.timer) × (b.event_type ≡ alert.event_type)))
        (due_alerts position (
          index_alerts ((events ++ alert_event id organization_id t alert now ∷ []) ++ later) t.id))
due_alerts-alert_event events later id organization_id t alert now position =
    let recorded =
      Recorded-Extends _ _ alert
        (index_alerts-Extends (events ++ alert_event id organization_id t alert now ∷ []) later
          t.id)
        (index_alerts-Recorded events id organization_id t alert now) in
    All-map (λ b. ¬ Recorded _ b) _ _ (λ b free same. free (rw (same.0, same.1) recorded))
      (due_alerts-unrecorded position _)
