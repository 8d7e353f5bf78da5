-- ===== src/Analysis/Freshness.antt =====
-- What `request_summary` and `request_suggested_response` of backend/app/services/ai_analysis_service.py answer.
use support_flow.Prelude.{
  ℕ, String, ◌≡◌, ◌≢◌, IsIn, All-IsIn, All-narrow, refl, subst, ◌⊎◌, inl, inr, ◌≤◌, true, false,
  Option, none, some, List, [], ◌∷◌, ◌++◌, ◌&&◌, ◌==◌, leb, length, select, All, All-select,
  All-keep, All-find?, All-order_by, Bool-cases, arith,
}
use support_flow.Enums.Statuses.{completed_status}
use support_flow.Enums.{AiOperation, ProcessingStatus}
use support_flow.Errors.{AppError, Result, ok, raised}
use support_flow.Tenancy.{TenantContext}
use support_flow.Db.{Ticket, Message, AiAnalysis, Db}
use support_flow.Session.{World}
use support_flow.Audit.{record_for}
use support_flow.AiCalls.{ModelRate, record_cache_hit, stage_usage}
use support_flow.Analysis.{same_operation, is_in_flight, in_flight_analyses, add_analysis}
use support_flow.Analysis.OnDemand.{
  completed_for, in_flight_of, conversation, later, newest_of, conversation_watermark,
  latest_completed_summary, is_current, current_summary, queue_one, reuse_summary, reuse_or_queue,
  summary_of, request_summary,
}

later_bound :
    (c : ℕ) (newest : Option ℕ) (a : AiAnalysis)
    → leb (later c newest) a.created_at ≡ true
    → (c ≤ a.created_at) × (is_current newest a ≡ true)
later_bound c none a h = (ground (arith, h), refl)
later_bound c (some n) a h = ground (arith, h)

-- A summary that is current is as young as every message.
current_bound :
    (a : AiAnalysis) (ms : List Message)
    → is_current (newest_of ms) a ≡ true
    → All (λ m. m.created_at ≤ a.created_at) ms
unfolding newest_of
current_bound a [] h = tt
current_bound a (m ∷ ms) h =
    let (here, rest) = later_bound m.created_at (newest_of ms) a h in
    (here, current_bound a ms rest)

abbrev pub IsSummary : Ticket → AiAnalysis → Type 0
IsSummary t a =
    (a.ticket_id ≡ t.id)
    × (a.operation ≡ AiOperation.summarize)
    × (a.status ≡ ProcessingStatus.completed)

-- A completed summary of the ticket that no message of its conversation is newer than.
abbrev pub IsCurrent : Ticket → World → AiAnalysis → Type 0
IsCurrent t w a =
    IsSummary t a
    × IsIn a w.session.ai_analyses
    × All (λ m. m.created_at ≤ a.created_at) (conversation t w.session)

is_summarize :
    (o : AiOperation) → same_operation o AiOperation.summarize ≡ true → o ≡ AiOperation.summarize
is_summarize AiOperation.classify h = cc
is_summarize AiOperation.sentiment h = cc
is_summarize AiOperation.summarize h = refl
is_summarize AiOperation.suggest_response h = cc
is_summarize AiOperation.embed h = cc
is_summarize AiOperation.knowledge_answer h = cc

stored-IsSummary :
    (t : Ticket) (db : Db) (a : AiAnalysis)
    → latest_completed_summary t db ≡ some a
    → IsSummary t a × IsIn a db.ai_analyses
unfolding latest_completed_summary
stored-IsSummary t db a h = (
  All-find? (IsSummary t) (λ x. true) _
      (All-order_by (IsSummary t) _ _ (
        All-select (IsSummary t) (completed_for AiOperation.summarize t) db.ai_analyses (λ x e. (
          ground (arith, e),
          is_summarize x.operation (ground (arith, e)),
          completed_status x.status (ground (arith, e)),
        ))))
      h,
  All-find? (λ x. IsIn x db.ai_analyses) (λ x. true) _
      (All-order_by (λ x. IsIn x db.ai_analyses) _ _
        (All-keep (λ x. IsIn x db.ai_analyses) (completed_for AiOperation.summarize t)
          db.ai_analyses (All-IsIn db.ai_analyses)))
      h,
)

current_summary-IsCurrent :
    (t : Ticket) (w : World) (o : Option AiAnalysis) (a : AiAnalysis)
    → latest_completed_summary t w.session ≡ o
    → current_summary (newest_of (conversation t w.session)) o ≡ some a
    → IsCurrent t w a
current_summary-IsCurrent t w none a e h = cc
current_summary-IsCurrent t w (some b) a e h =
    elim (Bool-cases (is_current (newest_of (conversation t w.session)) b)) [
      | inl now ↦
          let h' : some b ≡ some a = rw now at h in
          let b≡a : b ≡ a = cc in
          let (summary, known) = stored-IsSummary t w.session b e in
          subst (IsCurrent t w) b≡a (summary, known, current_bound b (conversation t w.session) now)
      | inr old ↦ let h' : Option.none ≡ some a = rw old at h in cc
    ]

-- A summary of the ticket that is on its way.
abbrev pub IsUnderway : Ticket → AiAnalysis → Type 0
IsUnderway t a =
    (a.ticket_id ≡ t.id) × (a.operation ≡ AiOperation.summarize) × (is_in_flight a.status ≡ true)

-- No summary is on its way, and there is something to summarize.
abbrev pub IsOpen : Ticket → World → Type 0
IsOpen t w = (in_flight_of AiOperation.summarize t w.session ≡ []) × (conversation t w.session ≢ [])

-- A row that is on its way; or one that is current; or a new one; or there is nothing to summarize.
abbrev pub Answered : Ticket → World → Result AiAnalysis → World → Type 0
Answered t w (ok a) w' =
    (IsUnderway t a × IsIn a w.session.ai_analyses × (w' ≡ w))
    ⊎ (IsOpen t w
        × IsCurrent t w a
        × (w'.session.ai_analyses ≡ w.session.ai_analyses)
        × (w'.committed ≡ w'.session))
    ⊎ (IsOpen t w
        × IsUnderway t a
        × (w'.session.ai_analyses ≡ w.session.ai_analyses ++ a ∷ [])
        × (w'.committed ≡ w'.session))
Answered t w (raised e) w' =
    (e ≡ AppError.validation_error)
    × (in_flight_of AiOperation.summarize t w.session ≡ [])
    × (conversation t w.session ≡ [])
    × (w' ≡ w)

abbrev Waits : Ticket → World → AiAnalysis → Type 0
Waits t w a = IsUnderway t a × IsIn a w.session.ai_analyses

in_flight_of-Waits :
    (t : Ticket) (w : World) → All (Waits t w) (in_flight_of AiOperation.summarize t w.session)
unfolding in_flight_of in_flight_analyses
in_flight_of-Waits t w =
    let Row : AiAnalysis → Type 0 =
      λ a. (a.ticket_id ≡ t.id) × (is_in_flight a.status ≡ true) × IsIn a w.session.ai_analyses in
    All-narrow Row (Waits t w) (λ a. same_operation a.operation AiOperation.summarize)
      (select (λ a. a.ticket_id == t.id && is_in_flight a.status) w.session.ai_analyses)
      (λ a e row. ((row.0, is_summarize a.operation e, row.1), row.2))
      (All-narrow (λ a. IsIn a w.session.ai_analyses) Row
        (λ a. a.ticket_id == t.id && is_in_flight a.status) w.session.ai_analyses
        (λ a e known. (ground (arith, e), ground (arith, e), known))
        (All-IsIn w.session.ai_analyses))

no_messages : (ms : List Message) → (length ms == 0) ≡ true → ms ≡ []
no_messages [] h = refl
no_messages (m ∷ ms) h = absurd (ground (arith, h))

messages : (ms : List Message) → (length ms == 0) ≡ false → ms ≢ []
messages ms h empty = let e : true ≡ false = rw empty at h in absurd (cc e)

module _ (made_by : AiAnalysis → String × ModelRate) (context : TenantContext) (t : Ticket)
    (now : ℕ) where
  reuse_or_queue-Answered :
      (o : Option AiAnalysis) (w : World)
      → IsOpen t w
      → ((a : AiAnalysis) → o ≡ some a → IsCurrent t w a)
      → Answered t w
          (reuse_or_queue made_by context t now o w).0
          (reuse_or_queue made_by context t now o w).1
  unfolding reuse_or_queue reuse_summary queue_one add_analysis record_for record_cache_hit
      stage_usage
  reuse_or_queue-Answered (some a) w open' h = inr (inl (open', h a refl, refl, refl))
  reuse_or_queue-Answered none w open' h = inr (inr (open', (refl, refl, refl), refl, refl))

  summary_of-Answered :
      (in_flight : List AiAnalysis) (w : World)
      → in_flight_of AiOperation.summarize t w.session ≡ in_flight
      → All (Waits t w) in_flight
      → Answered t w
          (summary_of made_by context t now in_flight w).0
          (summary_of made_by context t now in_flight w).1
  unfolding summary_of conversation_watermark
  summary_of-Answered (a ∷ in_flight) w e h = inl (h.0.0, h.0.1, refl)
  summary_of-Answered [] w e h = elim (Bool-cases (length (conversation t w.session) == 0)) [
    | inl empty ↦ rw empty (refl, e, no_messages (conversation t w.session) empty, refl)
    | inr some' ↦ rw some' (
        reuse_or_queue-Answered
          (current_summary (newest_of (conversation t w.session))
            (latest_completed_summary t w.session))
          w (e, messages (conversation t w.session) some')
          (λ a e. current_summary-IsCurrent t w (latest_completed_summary t w.session) a refl e))
  ]

  -- A request for a summary has four outcomes. It answers with a summary of the ticket in the table that is on
  -- its way, and nothing changes. Where none is on its way and the ticket has a conversation, it answers with
  -- a completed summary of the ticket in the table that is as young as every message of the conversation, and
  -- adds no row; or with a new row on its way, which is added to the table and committed. It is refused with a
  -- validation error where none is on its way and the ticket has no conversation, and then nothing changes.
  pub request_summary-Answered :
      (w : World)
      → Answered t w
          (request_summary made_by context t now w).0
          (request_summary made_by context t now w).1
  unfolding request_summary
  request_summary-Answered w =
      summary_of-Answered (in_flight_of AiOperation.summarize t w.session) w refl
        (in_flight_of-Waits t w)
