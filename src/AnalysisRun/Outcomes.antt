-- ===== src/AnalysisRun/Outcomes.antt =====
-- How `run_analysis` of backend/app/services/ai_analysis_service.py leaves the analyses that it claimed.
use support_flow.Prelude.{
  ℕ, Bool, ◌≡◌, refl, sym, ◌∙◌, subst, true, false, ◌&&◌, ◌==◌, ==_iff, Option, none, some, inl,
  inr, List, [], ◌∷◌, select, map, elem, elem-map, any_of, any_of_mono, any_of-select,
  any_of-update_where, any_of-order_by, update_where, All, All-update_where, All-overwrite,
  Bool-cases, arith,
}
use support_flow.Enums.{is_completed, ProcessingStatus}
use support_flow.Errors.{Result, ok, raised}
use support_flow.Db.{Ticket, AiAnalysis}
use support_flow.Session.{World, modify, commit_session}
use support_flow.Session.Rules.{Preserves, continue-rule}
use support_flow.AiCalls.{AiSettings}
use support_flow.AnalysisRun.{
  Provider, Outcome, complete, fail, save_analysis, load_ticket, load_analyses, is_owned,
  is_claimable, claimed, owned_analysis_ids, claim_pending_analyses,
}
use support_flow.AnalysisRun.Worker.{
  execute, settled, run_each, announce, work_on, run_claimed, run_analysis,
}
use support_flow.AnalysisRun.AiErrors.{except_ai-IsAi, execute-IsAi}
use support_flow.AnalysisRun.Rows.{analyses-Survives, run_each-Preserves, announce-Preserves}

abbrev pub has_ended : ProcessingStatus → Bool
has_ended ProcessingStatus.completed = true
has_ended ProcessingStatus.failed = true
has_ended _ = false

-- Every row of the analysis has ended.
abbrev pub Finished : ℕ → List AiAnalysis → Type 0
Finished id = All λ a. (a.id == id) ≡ true → has_ended a.status ≡ true

abbrev Finishes : ℕ → World → Type 0
Finishes id w = Finished id w.session.ai_analyses

module _ {V : Type 0} (provider : Provider V) (settings : AiSettings)
    (organization_id now : ℕ) where
  settled-terminal :
      (a : AiAnalysis) (t : Ticket) (r : Result (Option Outcome × Ticket))
      → ((settled provider settings organization_id now a t r).0.id ≡ a.id)
        × (has_ended (settled provider settings organization_id now a t r).0.status ≡ true)
  unfolding complete fail
  settled-terminal a t (ok (some outcome, t')) = (refl, refl)
  settled-terminal a t (ok (none, t')) = (refl, refl)
  settled-terminal a t (raised e) = (refl, refl)

  saved-keeps :
      (id : ℕ) (a : AiAnalysis) (t : Ticket) (r : Result (Option Outcome × Ticket))
      → Preserves
          (Finishes id)
          (modify (save_analysis (settled provider settings organization_id now a t r).0))
  unfolding save_analysis
  saved-keeps id a t r w h =
      All-update_where _ _ (λ _. (settled provider settings organization_id now a t r).0)
        w.session.ai_analyses (λ x e k _. (settled-terminal a t r).1) h

  run_each-Finished :
      (id : ℕ) (rows : List AiAnalysis) (t : Ticket) (w : World)
      → any_of (λ (a : AiAnalysis). a.id == id) rows ≡ true
      → Finishes id (run_each provider settings organization_id now rows t w).1
  unfolding run_each save_analysis
  run_each-Finished id [] t w h = cc
  run_each-Finished id (a ∷ rows) t w h =
      let r = execute provider settings organization_id now a.operation a.id t w in
      let s = settled provider settings organization_id now a t r.0 in
      let w1 = (commit_session (modify (save_analysis s.0) r.1).1).1 in
      let after : Finishes id (run_each provider settings organization_id now rows s.1 w1).1 =
        elim (Bool-cases (a.id == id)) [
          | inl here ↦
              run_each-Preserves provider settings organization_id now (Finishes id)
                (analyses-Survives (Finished id)) (saved-keeps id) rows s.1 w1
                (All-overwrite (λ (b : AiAnalysis). b.id) (λ b. has_ended b.status ≡ true) id s.0
                  r.1.session.ai_analyses (settled-terminal a t r.0).1
                  ((settled-terminal a t r.0).0 ∙ (==_iff a.id id).0 here))
          | inr other ↦ run_each-Finished id rows s.1 w1 (rw other at h)
        ] in
      rw
        (except_ai-IsAi r.0
          (execute-IsAi provider settings organization_id now a.operation a.id t w))
        (continue-rule (Finishes id) (run_each provider settings organization_id now rows s.1 w1).0
          _ _ after λ x w' k. k)

  listed-same :
      (id : ℕ) (ids : List ℕ) (x : AiAnalysis)
      → elem id ids ≡ true
      → (x.id == id) ≡ true
      → elem x.id ids ≡ true
  listed-same id ids x listed e = subst (λ k. elem k ids ≡ true) (sym ((==_iff x.id id).0 e)) listed

  claimable-is_owned :
      (id : ℕ) (owned ids : List ℕ) (x : AiAnalysis)
      → elem id ids ≡ true
      → (x.id == id && is_claimable organization_id owned x) ≡ true
      → (x.id == id && is_owned organization_id ids x) ≡ true
  claimable-is_owned id owned ids x listed e =
      let here = listed-same id ids x listed (ground (arith, e)) in ground (arith, e, here)

  claimable-claimable :
      (id : ℕ) (owned ids : List ℕ) (x : AiAnalysis)
      → elem id ids ≡ true
      → (x.id == id && is_claimable organization_id owned x) ≡ true
      → (x.id == id && is_claimable organization_id ids x) ≡ true
  claimable-claimable id owned ids x listed e =
      let here = listed-same id ids x listed (ground (arith, e)) in ground (arith, e, here)

  -- A claim finds its rows again.
  claimed-loaded :
      (id : ℕ) (owned : List ℕ) (w : World)
      → any_of
          (λ (a : AiAnalysis). a.id == id && is_claimable organization_id owned a)
          w.session.ai_analyses
        ≡ true
      → any_of
          (λ (a : AiAnalysis). a.id == id)
          (load_analyses organization_id
            (map (λ a. a.id) (select (is_claimable organization_id owned) w.session.ai_analyses))
            (claim_pending_analyses organization_id owned now w).1.session)
        ≡ true
  unfolding load_analyses claim_pending_analyses
  claimed-loaded id owned w h =
      let rows = w.session.ai_analyses in
      let ids = map (λ (a : AiAnalysis). a.id) (select (is_claimable organization_id owned) rows) in
      let listed : elem id ids ≡ true =
        elem-map (λ (a : AiAnalysis). a.id) id (select (is_claimable organization_id owned) rows)
        ∙ any_of-select _ _ rows
        ∙ h in
      any_of-order_by _ _ (
        select (is_owned organization_id ids)
          (update_where (is_claimable organization_id owned) (claimed now) rows))
      ∙ any_of-select _ (is_owned organization_id ids)
          (update_where (is_claimable organization_id owned) (claimed now) rows)
      ∙ any_of-update_where (λ a. a.id == id && is_owned organization_id ids a) _ (claimed now) rows
          (λ x. refl)
      ∙ any_of_mono (λ (a : AiAnalysis). a.id == id && is_claimable organization_id owned a)
          (λ a. a.id == id && is_owned organization_id ids a) rows
          (λ x e. claimable-is_owned id owned ids x listed e) h

  work_on-Finished :
      (id : ℕ) (t : Ticket) (skipped : ℕ) (ids : List ℕ) (w : World)
      → any_of (λ (a : AiAnalysis). a.id == id) (load_analyses organization_id ids w.session) ≡ true
      → (ids ≡ [] → ⊥)
      → Finishes id (work_on provider settings organization_id now t skipped ids w).1
  unfolding work_on
  work_on-Finished id t skipped [] w h some' = absurd (some' refl)
  work_on-Finished id t skipped (k ∷ ids) w h some' =
      let pending = load_analyses organization_id (k ∷ ids) w.session in
      continue-rule (Finishes id) (run_each provider settings organization_id now pending t w).0 _ _
        (run_each-Finished id pending t w h)
        λ x w' kept.
          let done = select (λ (a : AiAnalysis). is_completed a.status) x.0 in
          continue-rule (Finishes id) (announce organization_id x.1 done now w').0 _ _
            (announce-Preserves provider settings organization_id now (Finishes id)
              (analyses-Survives (Finished id)) x.1 done w' kept)
            λ u w2 k2. k2

  some-any :
      {A : Type 0} (p : A → Bool) (key : A → ℕ) (xs : List A)
      → any_of p xs ≡ true
      → map key xs ≡ []
      → ⊥
  some-any p key [] h e = cc
  some-any p key (x ∷ xs) h e = cc

  run_claimed-Finished :
      (id : ℕ) (analysis_ids : List ℕ) (t : Ticket) (w : World)
      → any_of
          (λ (a : AiAnalysis). a.id == id && is_claimable organization_id analysis_ids a)
          w.session.ai_analyses
        ≡ true
      → Finishes id (run_claimed provider settings organization_id now analysis_ids t w).1
  unfolding run_claimed claim_pending_analyses owned_analysis_ids
  run_claimed-Finished id analysis_ids t w h =
      let rows = w.session.ai_analyses in
      let owned =
        map (λ (a : AiAnalysis). a.id) (select (is_owned organization_id analysis_ids) rows) in
      let ids = map (λ (a : AiAnalysis). a.id) (select (is_claimable organization_id owned) rows) in
      let listed : elem id owned ≡ true =
        elem-map (λ (a : AiAnalysis). a.id) id (select (is_owned organization_id analysis_ids) rows)
        ∙ any_of-select _ _ rows
        ∙ any_of_mono
            (λ (a : AiAnalysis). a.id == id && is_claimable organization_id analysis_ids a)
            (λ x. x.id == id && is_owned organization_id analysis_ids x) rows
            (λ x e. ground (arith, e)) h in
      let claimable =
        any_of_mono _ (λ a. a.id == id && is_claimable organization_id owned a) rows
          (λ x e. claimable-claimable id analysis_ids owned x listed e) h in
      work_on-Finished id t _ ids _ (claimed-loaded id owned w claimable) (
        some-any (λ (a : AiAnalysis). a.id == id) (λ a. a.id)
          (select (is_claimable organization_id owned) rows) (any_of-select _ _ rows ∙ claimable))

  -- A run for a ticket of the organization ends every analysis that was waiting and that it was given, as
  -- completed or as failed, whatever the attempts at a provider come to, where each ends as the interface
  -- documents: in an answer, in a transient error or in another AI error.
  pub run_analysis-Finished :
      (ticket_id : ℕ) (analysis_ids : List ℕ) (t : Ticket) (id : ℕ) (w : World)
      → load_ticket organization_id ticket_id w.session ≡ some t
      → any_of
          (λ (a : AiAnalysis). a.id == id && is_claimable organization_id analysis_ids a)
          w.session.ai_analyses
        ≡ true
      → Finished id
          (run_analysis provider settings organization_id now ticket_id analysis_ids
            w).1.session.ai_analyses
  unfolding run_analysis
  run_analysis-Finished ticket_id analysis_ids t id w found h =
      rw (found, run_analysis) (run_claimed-Finished id analysis_ids t w h)
