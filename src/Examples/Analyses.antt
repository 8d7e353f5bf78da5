-- ===== src/Examples/Analyses.antt =====
-- The worker of the analyses, at the desk with four of them.
use support_flow.Prelude.{
  ◌≤◌, arith, List, false, length, subst, sym, String, ℕ, zero, suc, ◌≡◌, refl, none, some, [], ◌∷◌,
  All, arith,
}
use support_flow.Enums.{AiOperation, ProcessingStatus, TicketPriority, Sentiment}
use support_flow.Db.{AiResult, AiAnalysis}
use support_flow.Session.{World}
use support_flow.AiCalls.{ModelRate, AiSettings, Attempt, run, generation}
use support_flow.AiCalls.Ledger.{Accounted, run-Accounted}
use support_flow.AnalysisRun.{Provider, load_ticket, fail_abandoned_claims}
use support_flow.AnalysisRun.Worker.{worker, run_analysis}
use support_flow.AnalysisRun.Outcomes.{Finished, run_analysis-Finished}
use support_flow.AnalysisRun.Backing.{AllBacked, IsBacked, run_analysis-AllBacked}
use support_flow.AnalysisRun.Redelivery.{run_analysis-redelivered}
use support_flow.AnalysisRun.Privacy.{public_messages, run_analysis-public_messages}
use support_flow.Analysis.OnDemand.{in_flight_of, request_summary, request_suggested_response}
use support_flow.Analysis.Freshness.{Answered, request_summary-Answered}
use support_flow.Analysis.InFlight.{AtMostOneEach, request-AtMostOne}
use support_flow.Examples.{agent, note_row, working, desk, desk_db}

abbrev pub haiku : AiSettings
haiku = record {
  ai_model = "claude-haiku-4-5-20251001";
  ai_rate = record { input_per_mtok = 100; output_per_mtok = 500 };
  embedding_model = "text-embedding-3-small";
  embedding_rate = record { input_per_mtok = 2; output_per_mtok = 0 };
  ai_max_attempts = 2;
}

abbrev analysis_row : ℕ → AiOperation → AiAnalysis
analysis_row id operation = record {
  id = id;
  organization_id = 1;
  ticket_id = 1;
  operation = operation;
  status = ProcessingStatus.pending;
  result = none;
  error_message = none;
  prompt_tokens = none;
  completion_tokens = none;
  created_at = 20;
  updated_at = 20;
  completed_at = none;
}

abbrev waiting : World
waiting = record desk {
  session = record desk_db {
    ai_analyses =
        analysis_row 70 AiOperation.suggest_response
        ∷ analysis_row 71 AiOperation.classify
        ∷ analysis_row 72 AiOperation.summarize
        ∷ [];
  };
}

-- An answer at the second attempt.
abbrev second : {A : Type 0} → A → ℕ → Attempt A
second a zero = Attempt.transient 40 0
second a (suc zero) = Attempt.transient 40 0
second a (suc (suc n)) = Attempt.answered a 40 12

abbrev yes : ℕ → Attempt String
yes = second "Yes."

-- A provider that writes replies and sorts tickets, and cannot summarize.
abbrev scribe : Provider ℕ
scribe = record {
  classify_ticket = λ id.
      second (record { category = "delivery"; subcategory = none; priority = TicketPriority.high });
  analyze_sentiment = λ id. second Sentiment.negative;
  summarize_conversation = λ id attempt. Attempt.failed 40 0;
  generate_response = λ id. second "It is on its way.";
  generate_embedding = λ id. second 0;
  nearest = λ vector chunks. chunks;
}

ticket_found : load_ticket 1 1 waiting.session ≡ some working
unfolding load_ticket
ticket_found = refl

run-Accounted_example :
    Accounted
      (generation haiku (worker 1 working) AiOperation.suggest_response)
      yes
      1
      2
      waiting
      (run haiku (generation haiku (worker 1 working) AiOperation.suggest_response) yes waiting)
run-Accounted_example =
    run-Accounted (generation haiku (worker 1 working) AiOperation.suggest_response) yes haiku
      waiting (omega arith)

run_analysis-Finished_example :
    Finished 72 (run_analysis scribe haiku 1 30 1 (70 ∷ 72 ∷ []) waiting).1.session.ai_analyses
run_analysis-Finished_example =
    run_analysis-Finished scribe haiku 1 30 1 (70 ∷ 72 ∷ []) working 72 waiting ticket_found refl

run_analysis-AllBacked_example :
    AllBacked (run_analysis scribe haiku 1 30 1 (70 ∷ 72 ∷ []) waiting).1
    × All IsBacked (fail_abandoned_claims 25 30 waiting.session).ai_analyses
run_analysis-AllBacked_example =
    run_analysis-AllBacked scribe haiku 1 30 1 25 (70 ∷ 72 ∷ []) waiting (tt, (tt, (tt, tt)))

run_analysis-redelivered_example :
    let w' = (run_analysis scribe haiku 1 30 1 (70 ∷ 72 ∷ []) waiting).1 in
    (run_analysis scribe haiku 1 35 1 (70 ∷ 72 ∷ []) w').1.session ≡ w'.session
run_analysis-redelivered_example =
    run_analysis-redelivered scribe scribe haiku 1 30 35 1 (70 ∷ 72 ∷ []) working waiting
      ticket_found

run_analysis-public_messages_example :
    public_messages (run_analysis scribe haiku 1 30 1 (70 ∷ 72 ∷ []) waiting).1.session
    ≡ public_messages waiting.session
run_analysis-public_messages_example =
    run_analysis-public_messages scribe haiku 1 30 1 (70 ∷ 72 ∷ []) waiting

-- A summary of the ticket from before its conversation.
abbrev old_summary : AiAnalysis
old_summary = record (analysis_row 73 AiOperation.summarize) {
  status = ProcessingStatus.completed;
  result = some (AiResult.summary "A parcel is missing.");
}

abbrev summarized : World
summarized = record desk {
  session = record desk_db {
    ai_analyses = old_summary ∷ [];
    messages = record note_row { is_internal = false } ∷ [];
  };
}

abbrev haiku_made : AiAnalysis → String × ModelRate
haiku_made a = ("claude-haiku-4-5-20251001", haiku.ai_rate)

request_summary-Answered_example :
    Answered working summarized
      (request_summary haiku_made agent working 50 summarized).0
      (request_summary haiku_made agent working 50 summarized).1
request_summary-Answered_example = request_summary-Answered haiku_made agent working 50 summarized

none_queued : in_flight_of AiOperation.summarize working summarized.session ≡ []
unfolding in_flight_of
none_queued = refl

none_drafted : in_flight_of AiOperation.suggest_response working summarized.session ≡ []
unfolding in_flight_of
none_drafted = refl

request-AtMostOne_example :
    AtMostOneEach working (request_summary haiku_made agent working 50 summarized).1
    × AtMostOneEach working (request_suggested_response agent working 50 summarized).1
request-AtMostOne_example = request-AtMostOne haiku_made agent working 50 summarized (
  subst (λ (as' : List AiAnalysis). length as' ≤ 1) (sym none_queued) (omega arith),
  subst (λ (as' : List AiAnalysis). length as' ≤ 1) (sym none_drafted) (omega arith),
)
