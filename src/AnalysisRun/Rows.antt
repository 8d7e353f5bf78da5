-- ===== src/AnalysisRun/Rows.antt =====
-- What the worker of backend/app/services/ai_analysis_service.py keeps of the database, whatever the provider
-- answers.
use support_flow.Prelude.{
  ℕ, String, Bool, true, false, not, Option, some, inl, inr, List, [], ◌∷◌, select, Bool-cases,
  Option-cases, any_of,
}
use support_flow.Enums.{is_completed, AiOperation, NotificationType}
use support_flow.Errors.{Result}
use support_flow.Db.{Title, Ticket, TicketEvent, Notification, AiAnalysis, AiUsage}
use support_flow.Session.{World, Effect, except_ai, modify, emit, commit_session}
use support_flow.Session.Rules.{Preserves, continue-rule}
use support_flow.Notifications.{add_notification}
use support_flow.Tickets.{save_ticket, publish}
use support_flow.AiCalls.{AiSettings, Attempt, run, embedding, generation}
use support_flow.AiCalls.Ledger.{with_usage, run-Preserves}
use support_flow.Knowledge.Retrieval.{retrieve, has_published_chunks}
use support_flow.AnalysisRun.{Provider, Outcome, add_draft, save_analysis, load_analyses}
use support_flow.AnalysisRun.Worker.{
  worker, classified, execute, settled, run_each, record_completion, notify_analysis_completed,
  announce, announce_event, notify_if, ask, passages, draft_reply, writes_ticket, work_on,
}

-- A property of the world that no write of the worker touches but those of the analyses.
pub record Survives (P : World → Type 0) : Type 0 where
  pub usage : (rows : List AiUsage) (w : World) → P w → P (with_usage rows w)
  pub ticket : (t : Ticket) → Preserves P (modify (save_ticket t))
  pub draft : (t : Ticket) (body : String) (now : ℕ) → Preserves P (add_draft t body now)
  pub completion :
      (organization_id : ℕ) (t : Ticket) (done : List AiAnalysis) (now : ℕ)
      → Preserves P (record_completion organization_id t done now)
  pub notification :
      (organization_id : ℕ) (t : Ticket) → Preserves P (notify_analysis_completed organization_id t)
  pub effect : (e : Effect) → Preserves P (emit e)
  pub commit : Preserves P commit_session

module _ {V : Type 0} (provider : Provider V) (settings : AiSettings) (organization_id now : ℕ)
    (P : World → Type 0) (s : Survives P) where
  retrieve-Preserves :
      (t : Ticket) (id : ℕ)
      → Preserves P (
          retrieve provider.nearest settings
            (worker organization_id t)
            (provider.generate_embedding id))
  unfolding retrieve
  retrieve-Preserves t id w h =
      elim (Bool-cases (not (has_published_chunks organization_id w.session))) [
        | inl nothing ↦ rw nothing h
        | inr some' ↦ rw some' (
            continue-rule P
              (run settings (embedding settings (worker organization_id t))
                (provider.generate_embedding id) w).0
              _ _
              (run-Preserves P settings (embedding settings (worker organization_id t))
                (provider.generate_embedding id) s.usage w h)
              λ r w' k. k)
      ]

  ask-Preserves :
      {A : Type 0} (o : AiOperation) (t : Ticket) (answer : ℕ → Attempt A)
      → Preserves P (ask provider settings organization_id now o t answer)
  unfolding ask
  ask-Preserves o t answer =
      run-Preserves P settings (generation settings (worker organization_id t) o) answer s.usage

  draft_reply-Preserves :
      (id : ℕ) (t : Ticket) → Preserves P (draft_reply provider settings organization_id now id t)
  unfolding draft_reply
  draft_reply-Preserves id t w h =
      continue-rule P
        (ask provider settings organization_id now AiOperation.suggest_response t
          (provider.generate_response id) w).0
        _ _ (ask-Preserves AiOperation.suggest_response t (provider.generate_response id) w h)
        λ r. s.draft t r.value now

  pub execute-Preserves :
      (o : AiOperation) (id : ℕ) (t : Ticket)
      → Preserves P (execute provider settings organization_id now o id t)
  unfolding execute passages
  execute-Preserves AiOperation.classify id t w h =
      continue-rule P
        (ask provider settings organization_id now AiOperation.classify t
          (provider.classify_ticket id) w).0
        _ _ (ask-Preserves AiOperation.classify t (provider.classify_ticket id) w h)
        λ r. s.ticket (classified t r.value)
  execute-Preserves AiOperation.sentiment id t w h =
      continue-rule P
        (ask provider settings organization_id now AiOperation.sentiment t
          (provider.analyze_sentiment id) w).0
        _ _ (ask-Preserves AiOperation.sentiment t (provider.analyze_sentiment id) w h)
        λ r. s.ticket (record t { sentiment = some r.value })
  execute-Preserves AiOperation.summarize id t w h =
      continue-rule P
        (ask provider settings organization_id now AiOperation.summarize t
          (provider.summarize_conversation id) w).0
        _ _ (ask-Preserves AiOperation.summarize t (provider.summarize_conversation id) w h)
        λ r w' k. k
  execute-Preserves AiOperation.suggest_response id t w h =
      continue-rule P (passages provider settings organization_id now id t w).0 _ _
        (retrieve-Preserves t id w h) λ r. draft_reply-Preserves id t
  execute-Preserves AiOperation.embed id t w h = h
  execute-Preserves AiOperation.knowledge_answer id t w h = h

  -- The loop keeps what every flush of a settled analysis keeps.
  pub run_each-Preserves :
      ((a : AiAnalysis) (t : Ticket) (r : Result (Option Outcome × Ticket))
        → Preserves P
            (modify (save_analysis (settled provider settings organization_id now a t r).0)))
      → (as' : List AiAnalysis) (t : Ticket)
      → Preserves P (run_each provider settings organization_id now as' t)
  unfolding run_each
  run_each-Preserves keep [] t w h = h
  run_each-Preserves keep (a ∷ as') t w h =
      let r = execute provider settings organization_id now a.operation a.id t w in
      continue-rule P (except_ai r.0) _ r.1 (execute-Preserves a.operation a.id t w h)
        λ caught w1 h1.
          let s' = settled provider settings organization_id now a t caught in
          let w2 = (commit_session (modify (save_analysis s'.0) w1).1).1 in
          continue-rule P (run_each provider settings organization_id now as' s'.1 w2).0 _ _
            (run_each-Preserves keep as' s'.1 w2 (s.commit _ (keep a t caught w1 h1))) λ x w' k. k

  notify_if-Preserves :
      (wanted : Bool) (t : Ticket) → Preserves P (notify_if wanted organization_id t)
  unfolding notify_if
  notify_if-Preserves true t = s.notification organization_id t
  notify_if-Preserves false t = λ w h. h

  announce_event-Preserves :
      (t : Ticket) (event : TicketEvent) (ns : List Notification)
      → Preserves P (announce_event organization_id t event ns)
  unfolding announce_event publish
  announce_event-Preserves t event ns w h = s.effect _ _ (s.effect _ _ (s.commit w h))

  pub announce-Preserves :
      (t : Ticket) (done : List AiAnalysis) → Preserves P (announce organization_id t done now)
  unfolding announce record_completion
  announce-Preserves t [] w h = s.effect _ _ (s.commit w h)
  announce-Preserves t (a ∷ done) w h =
      let w1 = record_completion organization_id t (a ∷ done) now w in
      continue-rule P (notify_if (any_of writes_ticket (a ∷ done)) organization_id t w1.1).0 _ _
        (notify_if-Preserves (any_of writes_ticket (a ∷ done)) t w1.1
          (s.completion organization_id t (a ∷ done) now w h))
        λ ns. announce_event-Preserves t _ ns

  pub work_on-Preserves :
      ((a : AiAnalysis) (t : Ticket) (r : Result (Option Outcome × Ticket))
        → Preserves P
            (modify (save_analysis (settled provider settings organization_id now a t r).0)))
      → (t : Ticket) (skipped : ℕ) (ids : List ℕ)
      → Preserves P (work_on provider settings organization_id now t skipped ids)
  unfolding work_on
  work_on-Preserves keep t skipped [] w h = h
  work_on-Preserves keep t skipped (id ∷ ids) w h =
      let pending = load_analyses organization_id (id ∷ ids) w.session in
      continue-rule P (run_each provider settings organization_id now pending t w).0 _ _
        (run_each-Preserves keep pending t w h)
        λ x w' k.
          continue-rule P
            (announce organization_id x.1 (select (λ (a : AiAnalysis). is_completed a.status) x.0)
              now w').0
            _ _
            (announce-Preserves x.1 (select (λ (a : AiAnalysis). is_completed a.status) x.0) w' k)
            λ u w2 k2. k2

-- A notification adds a notification.
pub notify-rule :
    (P : World → Type 0)
    → ((organization_id agent_id : ℕ) (kind : NotificationType) (title : Title) (t : Ticket)
        → Preserves P (add_notification organization_id agent_id kind title t))
    → (organization_id : ℕ) (t : Ticket) → Preserves P (notify_analysis_completed organization_id t)
unfolding notify_analysis_completed
notify-rule P add organization_id t w h = elim (Option-cases t.assigned_agent_id) [
  | inl nobody ↦ rw nobody h
  | inr (agent_id, someone) ↦ rw someone (add organization_id agent_id _ _ t w h)
]

-- A property of the table of analyses alone survives all other writes.
pub analyses-Survives : (Q : List AiAnalysis → Type 0) → Survives (λ w. Q w.session.ai_analyses)
unfolding save_ticket add_draft record_completion add_notification
analyses-Survives Q = record {
  usage = λ rows w h. h;
  ticket = λ t w h. h;
  draft = λ t body now w h. h;
  completion = λ organization_id t done now w h. h;
  notification =
      notify-rule (λ w. Q w.session.ai_analyses) (λ organization_id agent_id kind title t w h. h);
  effect = λ e w h. h;
  commit = λ w h. h;
}
