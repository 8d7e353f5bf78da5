-- ===== src/AnalysisRun/Worker.antt =====
-- `_execute` and `run_analysis` of backend/app/services/ai_analysis_service.py.
use support_flow.Prelude.{
  ℕ, suc, ◌-◌, Bool, false, Option, none, some, List, [], ◌∷◌, ◌++◌, map, any_of, length, select,
  if◌then◌else◌,
}
use support_flow.Enums.{is_completed, AiOperation, TicketEventType, NotificationType}
use support_flow.Errors.{Result, ok, raised}
use support_flow.Db.{
  Ticket, TicketEvent, Json, Notification, Title, AiAnalysis, AiResult, KnowledgeChunk,
}
use support_flow.Session.{
  Effect, App, ◌>>=◌, ◌>>◌, pure, gets, modify, emit, commit_session, caught_ai,
}
use support_flow.Notifications.{add_notification}
use support_flow.Tickets.{save_ticket, publish}
use support_flow.Analysis.{same_operation, analysis_operations}
use support_flow.AiCalls.{AiSettings, Payer, Attempt, AiResponse, run, generation}
use support_flow.Knowledge.Retrieval.{retrieve}
use support_flow.AnalysisRun.{
  Classification, Provider, Outcome, reduced, load_ticket, owned_analysis_ids,
  claim_pending_analyses, load_analyses, save_analysis, complete, fail, add_draft,
}

abbrev pub worker : ℕ → Ticket → Payer
worker organization_id t = record {
  organization_id = organization_id;
  user_id = none;
  ticket_id = some t.id;
}

-- What the worker may be told to do, and the ticket that it does it for.
abbrev pub classified : Ticket → Classification → Ticket
classified t c = record t {
  category = some c.category;
  subcategory = c.subcategory;
  ai_recommended_priority = some c.priority;
}

module _ {V : Type 0} (provider : Provider V) (settings : AiSettings)
    (organization_id now : ℕ) where
  -- A generation of the worker for a ticket.
  unfoldable pub ask : {A : Type 0} → AiOperation → Ticket → (ℕ → Attempt A) → App (AiResponse A)
  unfolding run
  ask operation t answer =
      run settings (generation settings (worker organization_id t) operation) answer

  -- The passages for a reply, or none when the AI service fails; another error is raised on.
  unfoldable pub passages : ℕ → Ticket → App (Result (List KnowledgeChunk))
  unfolding retrieve
  passages id t = caught_ai (
      retrieve provider.nearest settings (worker organization_id t)
        (provider.generate_embedding id))

  -- The draft of `_execute` and its outcome.
  unfoldable pub draft_reply : ℕ → Ticket → App (Option Outcome × Ticket)
  unfolding add_draft ask
  draft_reply id t = do
    r ← ask AiOperation.suggest_response t (provider.generate_response id)
    add_draft t r.value now
    pure (some (reduced AiResult.reply r), t)

  -- `_execute`: the outcome, if the operation is implemented, and the ticket as it now is.
  unfoldable pub execute : AiOperation → ℕ → Ticket → App (Option Outcome × Ticket)
  unfolding save_ticket ask passages draft_reply
  execute AiOperation.classify id t = do
    r ← ask AiOperation.classify t (provider.classify_ticket id)
    let t' = classified t r.value
    modify (save_ticket t')
    pure (some (reduced (λ c. AiResult.classification c.category c.subcategory c.priority) r), t')
  execute AiOperation.sentiment id t = do
    r ← ask AiOperation.sentiment t (provider.analyze_sentiment id)
    let t' : Ticket = record t { sentiment = some r.value }
    modify (save_ticket t')
    pure (some (reduced AiResult.sentiment r), t')
  execute AiOperation.summarize id t = do
    r ← ask AiOperation.summarize t (provider.summarize_conversation id)
    pure (some (reduced AiResult.summary r), t)
  execute AiOperation.suggest_response id t = do _ ← passages id t; draft_reply id t
  execute AiOperation.embed id t = pure (none, t)
  execute AiOperation.knowledge_answer id t = pure (none, t)

  -- The row of an analysis after `_execute`, and the ticket.
  abbrev pub settled : AiAnalysis → Ticket → Result (Option Outcome × Ticket) → AiAnalysis × Ticket
  settled a t (ok (some outcome, t')) = (complete a outcome now, t')
  settled a t (ok (none, t')) =
      (fail a "This analysis operation is not implemented in this version." now, t')
  settled a t (raised e) = (fail a "The AI service is temporarily unavailable." now, t)

  -- The loop of `run_analysis`, with a commit after each analysis. An error that is not of the AI service ends
  -- it, and leaves the rows that it has not come to as they were claimed.
  unfoldable pub run_each : List AiAnalysis → Ticket → App (List AiAnalysis × Ticket)
  unfolding execute save_analysis
  run_each [] t = pure ([], t)
  run_each (a ∷ rest) t = do
    r ← caught_ai (execute a.operation a.id t)
    let (a', t') = settled a t r
    modify (save_analysis a')
    commit_session
    (done, t'') ← run_each rest t'
    pure (a' ∷ done, t'')

-- notification_service.notify_analysis_completed
unfoldable pub notify_analysis_completed : ℕ → Ticket → App (List Notification)
unfolding add_notification
notify_analysis_completed organization_id t = elim t.assigned_agent_id [
  | none ↦ pure []
  | some agent_id ↦ do
    n ←
        add_notification organization_id agent_id NotificationType.ai_analysis_completed
          (Title.sentence "AI analysis ready for review") t
    pure (n ∷ [])
]

-- `_record_completion`
unfoldable pub record_completion : ℕ → Ticket → List AiAnalysis → ℕ → App TicketEvent
record_completion organization_id t done now w =
    let db = w.session in
    let event : TicketEvent = record {
      id = db.next_id;
      organization_id = organization_id;
      ticket_id = t.id;
      event_type = TicketEventType.ai_analysis_completed;
      actor_user_id = none;
      from_value = none;
      to_value = none;
      extra_data = ("operations", Json.operations (map (λ a. a.operation) done)) ∷ [];
      created_at = now;
    } in
    (
      ok event,
      record w {
        session = record db { events = db.events ++ event ∷ []; next_id = suc db.next_id };
      },
    )

-- An operation that writes a column of the ticket.
abbrev pub writes_ticket : AiAnalysis → Bool
writes_ticket a = any_of (λ o. same_operation a.operation o) analysis_operations

-- The commit of `run_analysis` and what it sends after it.
unfoldable pub announce_event : ℕ → Ticket → TicketEvent → List Notification → App Unit
unfolding publish
announce_event organization_id t event notifications = do
  commit_session
  publish t event notifications false
  emit (Effect.invalidate organization_id)

unfoldable pub notify_if : Bool → ℕ → Ticket → App (List Notification)
unfolding notify_analysis_completed
notify_if wanted organization_id t =
    if wanted then notify_analysis_completed organization_id t else pure []

-- The end of `run_analysis`: what is announced of the analyses that were completed.
unfoldable pub announce : ℕ → Ticket → List AiAnalysis → ℕ → App Unit
unfolding record_completion notify_if announce_event
announce organization_id t [] now = do commit_session; emit (Effect.invalidate organization_id)
announce organization_id t (a ∷ done) now = do
  event ← record_completion organization_id t (a ∷ done) now
  notifications ← notify_if (any_of writes_ticket (a ∷ done)) organization_id t
  announce_event organization_id t event notifications

pub record Counts : Type 0 where
  pub completed : ℕ
  pub failed : ℕ
  pub skipped : ℕ

module _ {V : Type 0} (provider : Provider V) (settings : AiSettings)
    (organization_id now : ℕ) where
  -- `run_analysis` from the claim on: nothing claimed, or rows to work on.
  unfoldable pub work_on : Ticket → ℕ → List ℕ → App Counts
  unfolding load_analyses run_each announce
  work_on t skipped [] = pure (record { completed = 0; failed = 0; skipped = skipped })
  work_on t skipped (id ∷ ids) = do
    pending ← gets (load_analyses organization_id (id ∷ ids))
    (rows, t') ← run_each provider settings organization_id now pending t
    let done = select (λ (a : AiAnalysis). is_completed a.status) rows
    announce organization_id t' done now
    pure (record { completed = length done; failed = length rows - length done; skipped = skipped })

  unfoldable pub run_claimed : List ℕ → Ticket → App Counts
  unfolding owned_analysis_ids claim_pending_analyses work_on
  run_claimed analysis_ids t = do
    owned ← gets (owned_analysis_ids organization_id analysis_ids)
    ids ← claim_pending_analyses organization_id owned now
    commit_session
    work_on t (length owned - length ids) ids

  unfoldable pub run_analysis : ℕ → List ℕ → App Counts
  unfolding load_ticket run_claimed
  run_analysis ticket_id analysis_ids w = elim (load_ticket organization_id ticket_id w.session) [
    | none ↦ (ok (record { completed = 0; failed = 0; skipped = 0 }), w)
    | some t ↦ run_claimed analysis_ids t w
  ]
