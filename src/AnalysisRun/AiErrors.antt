-- ===== src/AnalysisRun/AiErrors.antt =====
-- Which errors reach the `except AIServiceError` of `run_analysis` in backend/app/services/ai_analysis_service.py.
use support_flow.Prelude.{ℕ, ◌≡◌, refl, sym, subst, not, inl, inr, Bool-cases}
use support_flow.Enums.{AiOperation}
use support_flow.Errors.{AppError, Result, ok, raised}
use support_flow.Db.{Ticket}
use support_flow.Session.{World, App, continue, except_ai}
use support_flow.AiCalls.{AiSettings, Attempt, run, embedding}
use support_flow.AiCalls.Raised.{IsAi, run-IsAi}
use support_flow.Knowledge.Retrieval.{retrieve, has_published_chunks}
use support_flow.AnalysisRun.{Provider, add_draft}
use support_flow.AnalysisRun.Worker.{worker, ask, passages, draft_reply, execute}

continue-IsAi :
    {A B : Type 0} (r : Result A) (f : A → App B) (w : World)
    → IsAi r
    → ((a : A) → IsAi (f a w).0)
    → IsAi (continue r f w).0
continue-IsAi (ok a) f w h k = k a
continue-IsAi (raised e) f w h k = h

-- Such a call is always caught.
pub except_ai-IsAi : {A : Type 0} (r : Result A) → IsAi r → except_ai r ≡ ok r
except_ai-IsAi (ok a) h = refl
except_ai-IsAi {A} (raised e) h =
    subst (λ (x : AppError). except_ai {A = A} (raised x) ≡ ok (raised x)) (sym h) refl

pub caught-IsAi : {A : Type 0} (r : Result A) → IsAi r → IsAi (except_ai r)
caught-IsAi r h = rw (except_ai-IsAi r h) tt

module _ {V : Type 0} (provider : Provider V) (settings : AiSettings)
    (organization_id now : ℕ) where
  retrieve-IsAi :
      (id : ℕ) (t : Ticket) (w : World)
      → IsAi
          (retrieve provider.nearest settings
            (worker organization_id t)
            (provider.generate_embedding id)
            w).0
  unfolding retrieve
  retrieve-IsAi id t w = elim (Bool-cases (not (has_published_chunks organization_id w.session))) [
    | inl nothing ↦ rw nothing tt
    | inr some' ↦ rw some' (
        continue-IsAi
          (run settings (embedding settings (worker organization_id t))
            (provider.generate_embedding id) w).0
          _ _
          (run-IsAi settings (embedding settings (worker organization_id t))
            (provider.generate_embedding id) w)
          λ response. tt)
  ]

  ask-IsAi :
      {A : Type 0} (o : AiOperation) (t : Ticket) (answer : ℕ → Attempt A) (w : World)
      → IsAi (ask provider settings organization_id now o t answer w).0
  unfolding ask
  ask-IsAi o t answer w = run-IsAi settings _ answer w

  draft_reply-IsAi :
      (id : ℕ) (t : Ticket) (w : World)
      → IsAi (draft_reply provider settings organization_id now id t w).0
  unfolding draft_reply add_draft
  draft_reply-IsAi id t w =
      continue-IsAi
        (ask provider settings organization_id now AiOperation.suggest_response t
          (provider.generate_response id) w).0
        _ _ (ask-IsAi AiOperation.suggest_response t (provider.generate_response id) w) λ r. tt

  -- An operation raises nothing but the AI service's error.
  pub execute-IsAi :
      (o : AiOperation) (id : ℕ) (t : Ticket) (w : World)
      → IsAi (execute provider settings organization_id now o id t w).0
  unfolding execute passages
  execute-IsAi AiOperation.classify id t w =
      continue-IsAi
        (ask provider settings organization_id now AiOperation.classify t
          (provider.classify_ticket id) w).0
        _ _ (ask-IsAi AiOperation.classify t (provider.classify_ticket id) w) λ r. tt
  execute-IsAi AiOperation.sentiment id t w =
      continue-IsAi
        (ask provider settings organization_id now AiOperation.sentiment t
          (provider.analyze_sentiment id) w).0
        _ _ (ask-IsAi AiOperation.sentiment t (provider.analyze_sentiment id) w) λ r. tt
  execute-IsAi AiOperation.summarize id t w =
      continue-IsAi
        (ask provider settings organization_id now AiOperation.summarize t
          (provider.summarize_conversation id) w).0
        _ _ (ask-IsAi AiOperation.summarize t (provider.summarize_conversation id) w) λ r. tt
  execute-IsAi AiOperation.suggest_response id t w =
      continue-IsAi (passages provider settings organization_id now id t w).0 _ _
        (caught-IsAi _ (retrieve-IsAi id t w)) λ r. draft_reply-IsAi id t _
  execute-IsAi AiOperation.embed id t w = tt
  execute-IsAi AiOperation.knowledge_answer id t w = tt
