-- ===== src/Sla/Sweep/Passes.antt =====
-- A pass of backend/app/workers/sla_tasks.py over one ticket, over a page and over all policies: it
-- runs to its end, and what it leaves behind.
use support_flow.Prelude.{ℕ, ◌≡◌, refl, ◌∙◌, List, [], ◌∷◌, All}
use support_flow.Db.{Ticket, TicketEvent, SlaPolicy, Notification}
use support_flow.Session.{World}
use support_flow.Session.Rules.{Leads, Leads-pure, Leads-bind, SameTickets, SameTickets-refl}
use support_flow.Notifications.{add_notification}
use support_flow.Sla.{resolve_position}
use support_flow.Sla.Alerts.{SlaAlert, index_alerts, due_alerts}
use support_flow.Sla.Sweep.{
  stage_alert, alert_recipients, notify_sla_alert, record_alert, sweep_alerts, sweep_tickets,
  sweep_policies, scheduled_type, sla_title,
}
use support_flow.Sla.Sweep.Once.{
  Extends, Extends-refl, Extends-trans, Recorded, Recorded-Extends, index_alerts-Extends,
  index_alerts-Recorded, due_alerts-Recorded,
}

SameTickets-trans : {a b c : World} → SameTickets a b → SameTickets b c → SameTickets a c
SameTickets-trans f g = record {
  tickets = g.tickets ∙ f.tickets;
  messages = g.messages ∙ f.messages;
  committed = g.committed ∙ f.committed;
  effects = g.effects ∙ f.effects;
}

-- Notifications are staged without touching the timeline.
abbrev Alerted : World → List Notification → World → Type 0
Alerted w ns w' = SameTickets w w' × (w'.session.events ≡ w.session.events)

stage_alert-Leads :
    (organization_id : ℕ) (t : Ticket) (alert : SlaAlert) (recipients : List ℕ) (w : World)
    → Leads (Alerted w) (stage_alert organization_id t alert recipients w)
unfolding stage_alert add_notification
stage_alert-Leads organization_id t alert [] w =
    Leads-pure (Alerted w) [] w (SameTickets-refl w, refl)
stage_alert-Leads organization_id t alert (r ∷ rest) w =
    let (n, w') =
      add_notification organization_id r (scheduled_type alert.event_type) (sla_title alert) t w in
    Leads-bind (Alerted w') (Leads (Alerted w)) _ _
      (stage_alert-Leads organization_id t alert rest w')
      λ ns w'' h. Leads-pure (Alerted w) _ w'' (
        record {
          tickets = h.0.tickets;
          messages = h.0.messages;
          committed = h.0.committed;
          effects = h.0.effects;
        },
        h.1,
      )

-- The timeline only grows, and has the alerts.
abbrev pub Swept : Ticket → List SlaAlert → World → List Notification → World → Type 0
Swept t alerts w ns w' =
    SameTickets w w'
    × Extends (index_alerts w.session.events t.id) (index_alerts w'.session.events t.id)
    × All (Recorded (index_alerts w'.session.events t.id)) alerts

pub sweep_alerts-Leads :
    (organization_id : ℕ) (t : Ticket) (now : ℕ) (alerts : List SlaAlert) (w : World)
    → Leads (Swept t alerts w) (sweep_alerts organization_id t now alerts w)
unfolding sweep_alerts record_alert notify_sla_alert
sweep_alerts-Leads organization_id t now [] w =
    Leads-pure (Swept t [] w) [] w (SameTickets-refl w, Extends-refl _, tt)
sweep_alerts-Leads organization_id t now (alert ∷ rest) w =
    let w1 = (record_alert organization_id t alert now w).1 in
    Leads-bind (Alerted w1) (Leads (Swept t (alert ∷ rest) w)) _ _
      (stage_alert-Leads organization_id t alert (alert_recipients organization_id t w1.session) w1)
      λ ns w2 h2.
        Leads-bind (Swept t rest w2) (Leads (Swept t (alert ∷ rest) w)) _ _
          (sweep_alerts-Leads organization_id t now rest w2)
          λ ns' w3 h3. Leads-pure (Swept t (alert ∷ rest) w) _ w3 (
            SameTickets-trans
                (record {
                  tickets = h2.0.tickets;
                  messages = h2.0.messages;
                  committed = h2.0.committed;
                  effects = h2.0.effects;
                })
                h3.0,
            Extends-trans (rw (h2.1) (index_alerts-Extends w.session.events _ t.id)) h3.1,
            (
              Recorded-Extends _ _ alert h3.1 (
                  rw (h2.1) (index_alerts-Recorded w.session.events _ organization_id t alert now)),
              h3.2,
            ),
          )

-- Once a pass over the alerts that are due for a ticket has run, which it always does to its end, none
-- of that ticket's alerts is due at that instant.
pub sweep_alerts-due_alerts :
    (organization_id : ℕ) (t : Ticket) (policy : SlaPolicy) (now : ℕ) (w : World)
    → Leads
        (λ ns w'.
          due_alerts (resolve_position t policy now) (index_alerts w'.session.events t.id) ≡ [])
        (sweep_alerts organization_id t now
          (due_alerts (resolve_position t policy now) (index_alerts w.session.events t.id))
          w)
sweep_alerts-due_alerts organization_id t policy now w =
    let h =
      sweep_alerts-Leads organization_id t now
        (due_alerts (resolve_position t policy now) (index_alerts w.session.events t.id)) w in
    record {
      result = h.result;
      returns = h.returns;
      post = due_alerts-Recorded (resolve_position t policy now) _ _ h.post.1 h.post.2;
    }

-- No pass touches a ticket, commits or sends anything.
abbrev Quiet : World → List Notification → World → Type 0
Quiet w ns w' = SameTickets w w'

sweep_tickets-Leads :
    (organization_id : ℕ) (policy : SlaPolicy) (now : ℕ) (events : List TicketEvent)
    (ts : List Ticket) (w : World)
    → Leads (Quiet w) (sweep_tickets organization_id policy now events ts w)
unfolding sweep_tickets
sweep_tickets-Leads organization_id policy now events [] w =
    Leads-pure (Quiet w) [] w (SameTickets-refl w)
sweep_tickets-Leads organization_id policy now events (t ∷ ts) w =
    Leads-bind _ (Leads (Quiet w)) _ _ (sweep_alerts-Leads organization_id t now _ w) λ ns w1 h1.
      Leads-bind (Quiet w1) (Leads (Quiet w)) _ _
        (sweep_tickets-Leads organization_id policy now events ts w1)
        λ ns' w2 h2. Leads-pure (Quiet w) _ w2 (SameTickets-trans h1.0 h2)

pub sweep_policies-Leads :
    (organization_id limit now : ℕ) (policies : List SlaPolicy) (w : World)
    → Leads (Quiet w) (sweep_policies organization_id limit now policies w)
unfolding sweep_policies
sweep_policies-Leads organization_id limit now [] w = Leads-pure (Quiet w) [] w (SameTickets-refl w)
sweep_policies-Leads organization_id limit now (p ∷ ps) w =
    Leads-bind _ (Leads (Quiet w)) _ _ (sweep_tickets-Leads organization_id p now _ _ w) λ ns w1 h1.
      Leads-bind (Quiet w1) (Leads (Quiet w)) _ _
        (sweep_policies-Leads organization_id limit now ps w1)
        λ ns' w2 h2. Leads-pure (Quiet w) _ w2 (SameTickets-trans h1 h2)
