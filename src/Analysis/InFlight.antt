-- ===== src/Analysis/InFlight.antt =====
-- How many rows `request_summary` and `request_suggested_response` of
-- backend/app/services/ai_analysis_service.py leave on their way for a ticket.
use mathlib.Core.List.{append-nil}
use support_flow.Prelude.{
  ℕ, String, ◌≡◌, refl, ap, sym, ◌∙◌, subst, inl, inr, ◌≤◌, false, Option, none, some, List, [],
  ◌∷◌, ◌++◌, ◌==◌, length, select, select-append, Bool-cases, arith,
}
use support_flow.Enums.{AiOperation, AuditAction}
use support_flow.Tenancy.{TenantContext}
use support_flow.Db.{Ticket, AiAnalysis, AuditMetadata}
use support_flow.Session.{World}
use support_flow.Audit.{record_for}
use support_flow.Analysis.Coverage.{in_flight-add_analysis}
use support_flow.AiCalls.{ModelRate, record_cache_hit, stage_usage}
use support_flow.Analysis.{same_operation, in_flight_analyses, add_analysis, new_analysis}
use support_flow.Analysis.OnDemand.{
  in_flight_of, conversation, newest_of, conversation_watermark, latest_completed_summary,
  current_summary, queue_one, reuse_summary, reuse_or_queue, summary_of, request_summary,
  suggestion_of, request_suggested_response,
}

-- No two rows of the operation are on their way for the ticket.
abbrev pub AtMostOne : AiOperation → Ticket → World → Type 0
AtMostOne o t w = length (in_flight_of o t w.session) ≤ 1

queue_one-AtMostOne :
    (context : TenantContext) (t : Ticket) (now : ℕ) (o : AiOperation) (action : AuditAction)
    (metadata : AuditMetadata) (w : World)
    → in_flight_of o t w.session ≡ []
    → AtMostOne o t (queue_one context t now o action metadata w).1
unfolding queue_one record_for in_flight_of in_flight_analyses add_analysis
queue_one-AtMostOne context t now o action metadata w none_yet =
    let created = new_analysis w.session.next_id context.organization_id t now o in
    let joined : in_flight_of o t (queue_one context t now o action metadata w).1.session
        ≡ select (λ a. same_operation a.operation o) (created ∷ []) =
      ap (select (λ a. same_operation a.operation o))
        (in_flight-add_analysis context.organization_id t now o w)
      ∙ select-append (λ a. same_operation a.operation o) (in_flight_analyses t w.session)
          (created ∷ [])
      ∙ ap
          (λ (as' : List AiAnalysis).
            as' ++ select (λ a. same_operation a.operation o) (created ∷ []))
          none_yet in
    subst (λ (as' : List AiAnalysis). length as' ≤ 1) (sym joined) (ground arith)

-- A row of another operation does not enter the count.
queue_one-other :
    (context : TenantContext) (t : Ticket) (now : ℕ) (o p : AiOperation) (action : AuditAction)
    (metadata : AuditMetadata) (w : World)
    → same_operation o p ≡ false
    → AtMostOne p t w
    → AtMostOne p t (queue_one context t now o action metadata w).1
unfolding queue_one record_for in_flight_of in_flight_analyses add_analysis
queue_one-other context t now o p action metadata w other h =
    let created = new_analysis w.session.next_id context.organization_id t now o in
    let joined : in_flight_of p t (queue_one context t now o action metadata w).1.session
        ≡ in_flight_of p t w.session ++ [] =
      ap (select (λ a. same_operation a.operation p))
        (in_flight-add_analysis context.organization_id t now o w)
      ∙ select-append (λ a. same_operation a.operation p) (in_flight_analyses t w.session)
          (created ∷ [])
      ∙ rw other refl in
    subst (λ (as' : List AiAnalysis). length as' ≤ 1)
      (sym (joined ∙ append-nil (in_flight_of p t w.session))) h

-- At most one summary and at most one draft are on their way for the ticket.
abbrev pub AtMostOneEach : Ticket → World → Type 0
AtMostOneEach t w = AtMostOne AiOperation.summarize t w × AtMostOne AiOperation.suggest_response t w

module _ (made_by : AiAnalysis → String × ModelRate) (context : TenantContext) (t : Ticket)
    (now : ℕ) where
  reuse_or_queue-AtMostOneEach :
      (o : Option AiAnalysis) (w : World)
      → in_flight_of AiOperation.summarize t w.session ≡ []
      → AtMostOneEach t w
      → AtMostOneEach t (reuse_or_queue made_by context t now o w).1
  unfolding reuse_or_queue reuse_summary record_for record_cache_hit stage_usage in_flight_of
      in_flight_analyses
  reuse_or_queue-AtMostOneEach (some a) w e h = h
  reuse_or_queue-AtMostOneEach none w e h =
      let metadata = AuditMetadata.cached (AiOperation.summarize ∷ []) false in
      let requested = AuditAction.ai_analysis_requested in
      (
        queue_one-AtMostOne context t now AiOperation.summarize requested metadata w e,
        queue_one-other context t now AiOperation.summarize AiOperation.suggest_response requested
            metadata w refl h.1,
      )

  summary_of-AtMostOneEach :
      (in_flight : List AiAnalysis) (w : World)
      → in_flight_of AiOperation.summarize t w.session ≡ in_flight
      → AtMostOneEach t w
      → AtMostOneEach t (summary_of made_by context t now in_flight w).1
  unfolding summary_of conversation_watermark
  summary_of-AtMostOneEach (a ∷ in_flight) w e h = h
  summary_of-AtMostOneEach [] w e h = elim (Bool-cases (length (conversation t w.session) == 0)) [
    | inl empty ↦ rw empty h
    | inr some' ↦ rw some' (
        reuse_or_queue-AtMostOneEach
          (current_summary (newest_of (conversation t w.session))
            (latest_completed_summary t w.session))
          w e h)
  ]

  suggestion_of-AtMostOneEach :
      (in_flight : List AiAnalysis) (w : World)
      → in_flight_of AiOperation.suggest_response t w.session ≡ in_flight
      → AtMostOneEach t w
      → AtMostOneEach t (suggestion_of context t now in_flight w).1
  unfolding suggestion_of
  suggestion_of-AtMostOneEach (a ∷ in_flight) w e h = h
  suggestion_of-AtMostOneEach [] w e h = (
    queue_one-other context t now AiOperation.suggest_response AiOperation.summarize _ _ w refl h.0,
    queue_one-AtMostOne context t now AiOperation.suggest_response _ _ w e,
  )

  -- Where at most one summary and at most one draft are on their way for a ticket, both are so after a request
  -- for a summary, and both are so after a request for a draft.
  pub request-AtMostOne :
      (w : World)
      → AtMostOneEach t w
      → AtMostOneEach t (request_summary made_by context t now w).1
        × AtMostOneEach t (request_suggested_response context t now w).1
  unfolding request_summary request_suggested_response
  request-AtMostOne w h = (
    summary_of-AtMostOneEach (in_flight_of AiOperation.summarize t w.session) w refl h,
    suggestion_of-AtMostOneEach (in_flight_of AiOperation.suggest_response t w.session) w refl h,
  )
