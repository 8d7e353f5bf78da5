-- ===== src/Sla/Sweep/Starvation.antt =====
-- The page of candidates that backend/app/repositories/sla_repository.py gives the next sweep.
use support_flow.Prelude.{ℕ, ◌≡◌, refl, inl, inr, List-cases, List, [], ◌∷◌}
use support_flow.Enums.{TicketPriority}
use support_flow.Db.{Notification}
use support_flow.Session.{World, App, ◌>>◌, pure, commit_session}
use support_flow.Session.Rules.{Leads, Leads-pure, Leads-bind}
use support_flow.Notifications.{enqueue_delivery}
use support_flow.Sla.Sweep.{sweep, find_pending, active_policies, publish_notifications}
use support_flow.Sla.Sweep.Passes.{sweep_policies-Leads}

-- No ticket changed, and what the sweep wrote is committed.
abbrev Settled : World → List Notification → World → Type 0
Settled w ns w' = w'.session.tickets ≡ w.session.tickets

-- The calls after the last policy.
abbrev finish : List Notification → App (List Notification)
finish ns = do commit_session; enqueue_delivery ns; publish_notifications ns; pure ns

finish-Leads :
    (w w' : World) (ns : List Notification) → Settled w [] w' → Leads (Settled w) (finish ns w')
unfolding enqueue_delivery publish_notifications
finish-Leads w w' [] h = Leads-pure (Settled w) _ _ h
finish-Leads w w' (n ∷ ns) h = Leads-pure (Settled w) _ _ h

sweep-Leads :
    (organization_id limit now : ℕ) (w : World)
    → Leads (Settled w) (sweep organization_id limit now w)
unfolding sweep
sweep-Leads organization_id limit now w =
    elim (List-cases (active_policies organization_id w.session)) [
      | inl none' ↦ rw none' (Leads-pure (Settled w) [] w refl)
      | inr (p, (ps, some')) ↦ rw some' (
          Leads-bind _ (Leads (Settled w)) _ _
            (sweep_policies-Leads organization_id limit now (p ∷ ps) w)
            λ ns w' h. finish-Leads w w' ns h.tickets)
    ]

-- A sweep always runs to its end, and what it did does not enter the selection of candidates: for
-- whatever organization, priority, bound, instant and page size, the page that is read after the
-- sweep is the page that was read before it.
pub sweep-find_pending :
    (organization_id limit now : ℕ) (w : World) (organization_id' : ℕ) (priority : TicketPriority)
    (offset now' limit' : ℕ)
    → Leads
        (λ ns w'.
          find_pending organization_id' priority offset now' limit' w'.session
          ≡ find_pending organization_id' priority offset now' limit' w.session)
        (sweep organization_id limit now w)
unfolding find_pending
sweep-find_pending organization_id limit now w organization_id' priority offset now' limit' =
    let h = sweep-Leads organization_id limit now w in
    record { result = h.result; returns = h.returns; post = rw (h.post) refl }
