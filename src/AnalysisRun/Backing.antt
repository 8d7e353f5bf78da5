-- ===== src/AnalysisRun/Backing.antt =====
-- The check of the table `ai_analyses`: a completed analysis has a result, a failed one an error message.
use support_flow.Prelude.{
  ℕ, ◌≡◌, refl, true, Option, none, some, inl, inr, List, select, is_some, All, All-update_where,
  Option-cases, length, map, ◌-◌,
}
use support_flow.Enums.{ProcessingStatus}
use support_flow.Errors.{Result, ok, raised}
use support_flow.Db.{Ticket, AiAnalysis}
use support_flow.Session.{World, modify}
use support_flow.Session.Rules.{Preserves}
use support_flow.AiCalls.{AiSettings}
use support_flow.AnalysisRun.{
  Provider, Outcome, complete, fail, save_analysis, load_ticket, is_claimable, claimed,
  owned_analysis_ids, claim_pending_analyses, fail_abandoned_claims, is_abandoned, abandoned,
}
use support_flow.AnalysisRun.Worker.{settled, run_claimed, run_analysis}
use support_flow.AnalysisRun.Rows.{analyses-Survives, work_on-Preserves}

abbrev pub IsBacked : AiAnalysis → Type 0
IsBacked a = elim a.status [
  | ProcessingStatus.completed ↦ is_some a.result ≡ true
  | ProcessingStatus.failed ↦ is_some a.error_message ≡ true
  | _ ↦ Unit
]

abbrev pub AllBacked : World → Type 0
AllBacked w = All IsBacked w.session.ai_analyses

module _ {V : Type 0} (provider : Provider V) (settings : AiSettings)
    (organization_id now : ℕ) where
  settled-IsBacked :
      (a : AiAnalysis) (t : Ticket) (r : Result (Option Outcome × Ticket))
      → IsBacked (settled provider settings organization_id now a t r).0
  unfolding complete fail
  settled-IsBacked a t (ok (some outcome, t')) = refl
  settled-IsBacked a t (ok (none, t')) = refl
  settled-IsBacked a t (raised e) = refl

  saved-AllBacked :
      (a : AiAnalysis) (t : Ticket) (r : Result (Option Outcome × Ticket))
      → Preserves AllBacked
          (modify (save_analysis (settled provider settings organization_id now a t r).0))
  unfolding save_analysis
  saved-AllBacked a t r w h =
      All-update_where IsBacked _ (λ _. (settled provider settings organization_id now a t r).0)
        w.session.ai_analyses (λ x e k. settled-IsBacked a t r) h

  run_claimed-AllBacked :
      (analysis_ids : List ℕ) (t : Ticket)
      → Preserves AllBacked (run_claimed provider settings organization_id now analysis_ids t)
  unfolding run_claimed claim_pending_analyses
  run_claimed-AllBacked analysis_ids t w h =
      let owned = owned_analysis_ids organization_id analysis_ids w.session in
      let ids =
        map (λ (a : AiAnalysis). a.id)
          (select (is_claimable organization_id owned) w.session.ai_analyses) in
      work_on-Preserves provider settings organization_id now AllBacked
        (analyses-Survives (All IsBacked)) saved-AllBacked t (length owned - length ids) ids _
        (All-update_where IsBacked (is_claimable organization_id owned) (claimed now)
          w.session.ai_analyses (λ x e k. tt) h)

  -- Where every completed analysis has a result and every failed one an error message, that is so after a run,
  -- and after the claims of dead workers are ended.
  pub run_analysis-AllBacked :
      (ticket_id claimed_before : ℕ) (analysis_ids : List ℕ) (w : World)
      → AllBacked w
      → AllBacked (run_analysis provider settings organization_id now ticket_id analysis_ids w).1
        × All IsBacked (fail_abandoned_claims claimed_before now w.session).ai_analyses
  unfolding run_analysis fail_abandoned_claims
  run_analysis-AllBacked ticket_id claimed_before analysis_ids w h = (
    elim (Option-cases (load_ticket organization_id ticket_id w.session)) [
      | inl nobody ↦ rw (nobody, run_analysis) h
      | inr (t, found) ↦ rw (found, run_analysis) (run_claimed-AllBacked analysis_ids t w h)
    ],
    All-update_where IsBacked (is_abandoned claimed_before) (abandoned now) w.session.ai_analyses
        (λ x e k. refl) h,
  )
