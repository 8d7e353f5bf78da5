-- ===== src/AnalysisRun/Privacy.antt =====
-- What the customer sees of a run of backend/app/services/ai_analysis_service.py: nothing.
use mathlib.Core.List.{append-nil}
use support_flow.Prelude.{
  ℕ, ◌≡◌, refl, ◌∙◌, not, inl, inr, List, select, select-append, Option-cases, length, map, ◌-◌,
}
use support_flow.Db.{Ticket, AiAnalysis, Message, Db}
use support_flow.Session.{World}
use support_flow.Session.Rules.{Preserves}
use support_flow.Notifications.{add_notification}
use support_flow.Tickets.{save_ticket}
use support_flow.AiCalls.{AiSettings}
use support_flow.AnalysisRun.{
  Provider, save_analysis, add_draft, load_ticket, is_claimable, owned_analysis_ids,
  claim_pending_analyses,
}
use support_flow.AnalysisRun.Worker.{record_completion, run_claimed, run_analysis}
use support_flow.AnalysisRun.Rows.{Survives, notify-rule, work_on-Preserves}

-- The messages of every ticket that a customer may read.
abbrev pub public_messages : Db → List Message
public_messages db = select (λ m. not m.is_internal) db.messages

Shown : List Message → World → Type 0
Shown shown w = public_messages w.session ≡ shown

Shown-Survives : (shown : List Message) → Survives (Shown shown)
unfolding Shown save_ticket add_draft record_completion add_notification
Shown-Survives shown = record {
  usage = λ rows w h. h;
  ticket = λ t w h. h;
  draft = λ t body now w h. select-append _ w.session.messages _ ∙ append-nil _ ∙ h;
  completion = λ organization_id t done now w h. h;
  notification = notify-rule (Shown shown) (λ organization_id agent_id kind title t w h. h);
  effect = λ e w h. h;
  commit = λ w h. h;
}

module _ {V : Type 0} (provider : Provider V) (settings : AiSettings)
    (organization_id now : ℕ) where
  run_claimed-Shown :
      (shown : List Message) (analysis_ids : List ℕ) (t : Ticket)
      → Preserves (Shown shown) (run_claimed provider settings organization_id now analysis_ids t)
  unfolding run_claimed claim_pending_analyses save_analysis Shown
  run_claimed-Shown shown analysis_ids t w h =
      let owned = owned_analysis_ids organization_id analysis_ids w.session in
      let ids =
        map (λ (a : AiAnalysis). a.id)
          (select (is_claimable organization_id owned) w.session.ai_analyses) in
      work_on-Preserves provider settings organization_id now (Shown shown) (Shown-Survives shown)
        (λ a t' r w' k. k) t (length owned - length ids) ids _ h

  -- A run adds no message that a customer may read, and takes none away.
  pub run_analysis-public_messages :
      (ticket_id : ℕ) (analysis_ids : List ℕ) (w : World)
      → public_messages
          (run_analysis provider settings organization_id now ticket_id analysis_ids w).1.session
        ≡ public_messages w.session
  unfolding run_analysis Shown
  run_analysis-public_messages ticket_id analysis_ids w =
      elim (Option-cases (load_ticket organization_id ticket_id w.session)) [
        | inl nobody ↦ rw (nobody, run_analysis) refl
        | inr (t, found) ↦
            rw (found, run_analysis)
              (run_claimed-Shown (public_messages w.session) analysis_ids t w refl)
      ]
