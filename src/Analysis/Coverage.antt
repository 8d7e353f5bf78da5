-- ===== src/Analysis/Coverage.antt =====
-- Queueing in backend/app/services/ai_analysis_service.py: what a request for an analysis leaves in
-- flight.
use support_flow.Prelude.{
  ℕ, ◌≡◌, refl, ◌∙◌, ap, Bool, true, false, not, List, [], ◌∷◌, ◌++◌, All, All-map, ==_refl,
  select-append, select-none, select-All, any_of, any_of-append, arith, ◌&&◌, ◌==◌,
}
use support_flow.Enums.{AiOperation}
use support_flow.Tenancy.{TenantContext}
use support_flow.Db.{Ticket, AiAnalysis}
use support_flow.Session.{World}
use support_flow.Session.Rules.{Leads, Leads-pure, Leads-bind}
use support_flow.Audit.{record_for}
use support_flow.Analysis.{
  new_analysis, queue_missing, add_analysis, add_analyses, in_flight_analyses, uncovered,
  request_analysis, analysis_operations, same_operation, is_in_flight,
}

-- The new rows are the ones that were added, in flight, for that ticket.
abbrev Added : Ticket → World → List AiAnalysis → World → Type 0
Added t w as' w' =
    (w'.session.tickets ≡ w.session.tickets)
    × (in_flight_analyses t w'.session ≡ in_flight_analyses t w.session ++ as')

add_analyses-Leads :
    (organization_id : ℕ) (t : Ticket) (now : ℕ) (os : List AiOperation) (w : World)
    → Leads
        (λ as' w'. w'.session.tickets ≡ w.session.tickets)
        (add_analyses organization_id t now os w)
unfolding add_analyses add_analysis
add_analyses-Leads organization_id t now [] w = Leads-pure _ [] w refl
add_analyses-Leads organization_id t now (o ∷ os) w =
    let (a, w1) = add_analysis organization_id t now o w in
    Leads-bind _ (Leads (λ as' w'. w'.session.tickets ≡ w.session.tickets)) _ _
      (add_analyses-Leads organization_id t now os w1) λ rest w2 h. Leads-pure _ _ w2 h

-- From a settled session, queueing leaves the tickets as they were and the session settled.
abbrev pub Settled : World → List AiAnalysis → World → Type 0
Settled w as' w' = (w'.session.tickets ≡ w.session.tickets) × (w'.committed ≡ w'.session)

queue_missing-Leads :
    (context : TenantContext) (t : Ticket) (now : ℕ) (in_flight : List AiAnalysis)
    (os : List AiOperation) (w : World)
    → w.committed ≡ w.session
    → Leads (Settled w) (queue_missing context t now in_flight os w)
unfolding queue_missing record_for
queue_missing-Leads context t now in_flight [] w settled =
    Leads-pure (Settled w) _ w (refl, settled)
queue_missing-Leads context t now in_flight (o ∷ os) w settled =
    Leads-bind _ (Leads (Settled w)) _ _
      (add_analyses-Leads context.organization_id t now (o ∷ os) w)
      λ created w' h. Leads-pure (Settled w) _ _ (h, refl)

pub request_analysis-Leads :
    (context : TenantContext) (t : Ticket) (now : ℕ) (w : World)
    → w.committed ≡ w.session
    → Leads (Settled w) (request_analysis context t now w)
unfolding request_analysis
request_analysis-Leads context t now w settled =
    queue_missing-Leads context t now (in_flight_analyses t w.session)
      (uncovered (in_flight_analyses t w.session)) w settled

-- What is in flight covers an operation.
abbrev pub covers : List AiAnalysis → AiOperation → Bool
covers as' o = any_of (λ (a : AiAnalysis). same_operation a.operation o) as'

pub in_flight-add_analysis :
    (organization_id : ℕ) (t : Ticket) (now : ℕ) (o : AiOperation) (w : World)
    → in_flight_analyses t (add_analysis organization_id t now o w).1.session
      ≡ in_flight_analyses t w.session
        ++ new_analysis w.session.next_id organization_id t now o ∷ []
unfolding in_flight_analyses add_analysis
in_flight-add_analysis organization_id t now o w =
    rw
      (
        select-append (λ (a : AiAnalysis). a.ticket_id == t.id && is_in_flight a.status)
            w.session.ai_analyses (new_analysis w.session.next_id organization_id t now o ∷ []),
        ==_refl t.id,
      )
      refl

-- The new rows join those in flight, one for each operation.
abbrev Queued : Ticket → List AiOperation → World → List AiAnalysis → World → Type 0
Queued t os w as' w' =
    (in_flight_analyses t w'.session ≡ in_flight_analyses t w.session ++ as')
    × All (λ o. covers as' o ≡ true) os

same_operation_refl : (o : AiOperation) → same_operation o o ≡ true
same_operation_refl o = ground arith

append_nil : (as' : List AiAnalysis) → as' ≡ as' ++ []
append_nil [] = refl
append_nil (a ∷ as') = ap (λ (r : List AiAnalysis). a ∷ r) (append_nil as')

append_assoc :
    (as' : List AiAnalysis) (a : AiAnalysis) (bs : List AiAnalysis)
    → (as' ++ a ∷ []) ++ bs ≡ as' ++ a ∷ bs
append_assoc [] a bs = refl
append_assoc (b ∷ as') a bs = ap (λ (r : List AiAnalysis). b ∷ r) (append_assoc as' a bs)

add_analyses-Queued :
    (organization_id : ℕ) (t : Ticket) (now : ℕ) (os : List AiOperation) (w : World)
    → Leads (Queued t os w) (add_analyses organization_id t now os w)
unfolding add_analyses
add_analyses-Queued organization_id t now [] w =
    Leads-pure (Queued t [] w) [] w (append_nil (in_flight_analyses t w.session), tt)
add_analyses-Queued organization_id t now (o ∷ os) w =
    let (a, w1) = add_analysis organization_id t now o w in
    Leads-bind _ (Leads (Queued t (o ∷ os) w)) _ _ (add_analyses-Queued organization_id t now os w1)
      λ rest w2 h. Leads-pure (Queued t (o ∷ os) w) _ w2 (
        h.0
            ∙ ap (λ (r : List AiAnalysis). r ++ rest)
                (in_flight-add_analysis organization_id t now o w)
            ∙ append_assoc (in_flight_analyses t w.session) _ rest,
        (
          rw (same_operation_refl o) refl,
          All-map (λ p. covers rest p ≡ true) _ os (λ p c. ground (arith, c)) h.1,
        ),
      )

-- Queueing what is not covered covers everything.
covered-after :
    (before created : List AiAnalysis)
    → All (λ o. covers created o ≡ true) (uncovered before)
    → uncovered (before ++ created) ≡ []
unfolding uncovered
covered-after before created h =
    select-none (λ o. not (covers (before ++ created) o)) analysis_operations
      (All-map (λ o. not (covers before o) ≡ true → covers created o ≡ true)
        (λ o. not (covers (before ++ created) o) ≡ false) analysis_operations
        (λ o k.
          rw (any_of-append (λ (a : AiAnalysis). same_operation a.operation o) before created)
            (ground (arith, k)))
        (select-All (λ o. covers created o ≡ true) (λ o. not (covers before o)) analysis_operations
          h))

-- What a request returns is what is in flight, and leaves no operation uncovered.
abbrev pub Covered : Ticket → List AiAnalysis → World → Type 0
Covered t as' w' = (in_flight_analyses t w'.session ≡ as') × (uncovered as' ≡ [])

queue_missing-Covered :
    (context : TenantContext) (t : Ticket) (now : ℕ) (os : List AiOperation) (w : World)
    → uncovered (in_flight_analyses t w.session) ≡ os
    → Leads (Covered t) (queue_missing context t now (in_flight_analyses t w.session) os w)
unfolding queue_missing record_for in_flight_analyses
queue_missing-Covered context t now [] w h = Leads-pure (Covered t) _ w (refl, h)
queue_missing-Covered context t now (o ∷ os) w h =
    Leads-bind _ (Leads (Covered t)) _ _
      (add_analyses-Queued context.organization_id t now (o ∷ os) w)
      λ created w' k.
        Leads-pure (Covered t) _ _
          (k.0, covered-after (in_flight_analyses t w.session) created (rw h k.1))

-- A request for an analysis always succeeds, returns all that is then in flight for the ticket, and
-- leaves no analysis operation without a row in flight.
pub request_analysis-Covered :
    (context : TenantContext) (t : Ticket) (now : ℕ) (w : World)
    → Leads (Covered t) (request_analysis context t now w)
unfolding request_analysis
request_analysis-Covered context t now w = queue_missing-Covered context t now _ w refl

request_analysis-covered :
    (context : TenantContext) (t : Ticket) (now : ℕ) (w : World)
    → uncovered (in_flight_analyses t w.session) ≡ []
    → (request_analysis context t now w).1 ≡ w
unfolding request_analysis queue_missing
request_analysis-covered context t now w h = rw h refl

-- A second request, by whoever it is made, finds everything in flight and changes nothing.
pub request_analysis-request_analysis :
    (context other : TenantContext) (t : Ticket) (now : ℕ) (w : World)
    → let w' = (request_analysis context t now w).1 in (request_analysis other t now w').1 ≡ w'
request_analysis-request_analysis context other t now w =
    let h = request_analysis-Covered context t now w in
    request_analysis-covered other t now _ (rw (h.post.0) h.post.1)
