-- ===== src/AnalysisRun/Redelivery.antt =====
-- The second delivery of a task of `run_analysis` of backend/app/services/ai_analysis_service.py.
use support_flow.Prelude.{
  ℕ, ◌≡◌, refl, ◌∙◌, sym, subst, true, false, ◌&&◌, ◌==◌, ==_iff, Option, none, some, inl, inr,
  List, [], ◌∷◌, select, select-none, map, elem, elem-map, any_of-select, any_of-says, update_where,
  update_where-none, All, All-map, All-elem, All-update_where, Option-cases, Bool-cases, length,
  ◌-◌, arith,
}
use support_flow.Errors.{Result, ok, raised}
use support_flow.Db.{Ticket, AiAnalysis}
use support_flow.Session.{World, modify}
use support_flow.Session.Rules.{Preserves}
use support_flow.AiCalls.{AiSettings}
use support_flow.AnalysisRun.{
  Provider, Outcome, complete, fail, save_analysis, load_ticket, is_owned, is_claimable, claimed,
  owned_analysis_ids, claim_pending_analyses,
}
use support_flow.AnalysisRun.Worker.{settled, work_on, run_claimed, run_analysis}
use support_flow.AnalysisRun.Rows.{analyses-Survives, work_on-Preserves}

module _ (organization_id : ℕ) (analysis_ids : List ℕ) where
  -- No row of these is there to claim.
  abbrev Claimed : AiAnalysis → Type 0
  Claimed a = is_claimable organization_id analysis_ids a ≡ false

  abbrev AllClaimed : World → Type 0
  AllClaimed w = All Claimed w.session.ai_analyses

  module _ {V : Type 0} (provider : Provider V) (settings : AiSettings) (now : ℕ) where
    settled-Claimed :
        (a : AiAnalysis) (t : Ticket) (r : Result (Option Outcome × Ticket))
        → Claimed (settled provider settings organization_id now a t r).0
    unfolding complete fail
    settled-Claimed a t (ok (some outcome, t')) = ground arith
    settled-Claimed a t (ok (none, t')) = ground arith
    settled-Claimed a t (raised e) = ground arith

    saved-AllClaimed :
        (a : AiAnalysis) (t : Ticket) (r : Result (Option Outcome × Ticket))
        → Preserves AllClaimed
            (modify (save_analysis (settled provider settings organization_id now a t r).0))
    unfolding save_analysis
    saved-AllClaimed a t r w h =
        All-update_where Claimed _ (λ _. (settled provider settings organization_id now a t r).0)
          w.session.ai_analyses (λ x e k. settled-Claimed a t r) h

    -- The claim takes all that is there to claim.
    claimed-All :
        (owned : List ℕ) (rows : List AiAnalysis)
        → All (λ a. is_owned organization_id analysis_ids a ≡ true → elem a.id owned ≡ true) rows
        → All Claimed (update_where (is_claimable organization_id owned) (claimed now) rows)
    claimed-All owned [] h = tt
    claimed-All owned (a ∷ rows) h = (
      elim (Bool-cases (is_claimable organization_id owned a)) [
        | inl e ↦ rw e (ground arith)
        | inr e ↦ rw e (elim (Bool-cases (is_owned organization_id analysis_ids a)) [
          | inl mine ↦ let k = h.0 mine in ground (arith, mine, k, e)
          | inr other ↦ ground (arith, other)
        ])
      ],
      claimed-All owned rows h.1,
    )

    run_claimed-AllClaimed :
        (t : Ticket) (w : World)
        → AllClaimed (run_claimed provider settings organization_id now analysis_ids t w).1
    unfolding run_claimed claim_pending_analyses owned_analysis_ids
    run_claimed-AllClaimed t w =
        let owned = owned_analysis_ids organization_id analysis_ids w.session in
        let ids =
          map (λ (a : AiAnalysis). a.id)
            (select (is_claimable organization_id owned) w.session.ai_analyses) in
        work_on-Preserves provider settings organization_id now AllClaimed
          (analyses-Survives (All Claimed)) saved-AllClaimed t (length owned - length ids) ids _
          (claimed-All owned w.session.ai_analyses (
            All-elem (λ (a : AiAnalysis). a.id) (is_owned organization_id analysis_ids)
              w.session.ai_analyses))

  -- What the table owns of these ids is among them.
  owned-Claimed :
      (rows : List AiAnalysis) (a : AiAnalysis)
      → Claimed a
      → is_claimable organization_id
          (map (λ a. a.id) (select (is_owned organization_id analysis_ids) rows))
          a
        ≡ false
  owned-Claimed rows a h =
      let owned =
        map (λ (a : AiAnalysis). a.id) (select (is_owned organization_id analysis_ids) rows) in
      elim (Bool-cases (elem a.id owned)) [
        | inr e ↦ ground (arith, e)
        | inl e ↦
            let listed : elem a.id analysis_ids ≡ true =
              any_of-says
                (λ (x : AiAnalysis). x.id == a.id && is_owned organization_id analysis_ids x)
                (elem a.id analysis_ids) rows
                (λ x k.
                  subst (λ n. elem n analysis_ids ≡ true) ((==_iff x.id a.id).0 (ground (arith, k)))
                    (ground (arith, k)))
                (sym (any_of-select (λ (x : AiAnalysis). x.id == a.id) _ rows)
                  ∙ sym (
                      elem-map (λ (x : AiAnalysis). x.id) a.id
                        (select (is_owned organization_id analysis_ids) rows))
                  ∙ e) in
            ground (arith, listed, e, h)
      ]

  module _ {V : Type 0} (provider : Provider V) (settings : AiSettings) (now : ℕ) where
    -- Nothing to claim, nothing done but an empty commit.
    again :
        (t : Ticket) (w : World)
        → AllClaimed w
        → (run_claimed provider settings organization_id now analysis_ids t w).1.session ≡ w.session
    unfolding run_claimed claim_pending_analyses owned_analysis_ids work_on
    again t w h =
        let owned = owned_analysis_ids organization_id analysis_ids w.session in
        let none_left =
          All-map Claimed (λ a. is_claimable organization_id owned a ≡ false) w.session.ai_analyses
            (owned-Claimed w.session.ai_analyses) h in
        rw
          (
            select-none (is_claimable organization_id owned) w.session.ai_analyses none_left,
            update_where-none (is_claimable organization_id owned) (claimed now)
                w.session.ai_analyses none_left,
          )
          refl

-- When a task is delivered again after a run of it for a ticket of the organization, the run changes nothing
-- in the database, at whatever instant and whatever the provider would now answer: each analysis is run once.
pub run_analysis-redelivered :
    {V : Type 0} (provider provider' : Provider V) (settings : AiSettings)
    (organization_id now now' ticket_id : ℕ) (analysis_ids : List ℕ) (t : Ticket) (w : World)
    → load_ticket organization_id ticket_id w.session ≡ some t
    → let w' = (run_analysis provider settings organization_id now ticket_id analysis_ids w).1 in
      (run_analysis provider' settings organization_id now' ticket_id analysis_ids w').1.session
      ≡ w'.session
unfolding run_analysis
run_analysis-redelivered provider provider' settings organization_id now now' ticket_id analysis_ids
      t w found =
    let w1 = (run_claimed provider settings organization_id now analysis_ids t w).1 in
    let same : (run_analysis provider settings organization_id now ticket_id analysis_ids w).1
        ≡ w1 =
      rw (found, run_analysis) refl in
    let later : (run_analysis provider' settings organization_id now' ticket_id analysis_ids
          w1).1.session
        ≡ w1.session =
      elim (Option-cases (load_ticket organization_id ticket_id w1.session)) [
        | inl gone ↦ rw (gone, run_analysis) refl
        | inr (t', found') ↦
            rw (found', run_analysis)
              (again organization_id analysis_ids provider' settings now' t' w1
                (run_claimed-AllClaimed organization_id analysis_ids provider settings now t w))
      ] in
    subst
      (λ x.
        (run_analysis provider' settings organization_id now' ticket_id analysis_ids x).1.session
        ≡ x.session)
      (sym same) later
