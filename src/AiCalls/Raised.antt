-- ===== src/AiCalls/Raised.antt =====
-- The one error that a call of backend/app/services/ai_service.py raises.
use support_flow.Prelude.{ℕ, zero, suc, ◌≡◌, refl, List}
use support_flow.Errors.{AppError, Result, ok, raised}
use support_flow.Db.{AiUsage}
use support_flow.Session.{World}
use support_flow.AiCalls.{AiSettings, Call, Attempt, AiResponse, attempt_from, run}
use support_flow.AiCalls.Ledger.{Ended, attempt_from-Accounted}

-- The call returns, or the error that it raises is the AI service's.
abbrev pub IsAi : {A : Type 0} → Result A → Type 0
IsAi (ok a) = Unit
IsAi (raised e) = e ≡ AppError.ai_service_error

Ended-IsAi :
    {A : Type 0} (c : Call) (call : ℕ → Attempt A) (attempt : ℕ) (r : Result (AiResponse A))
    (rows : List AiUsage)
    → Ended c call attempt r rows
    → IsAi r
Ended-IsAi c call attempt (ok b) rows h = tt
Ended-IsAi c call attempt (raised e) rows h = h.0

attempt_from-IsAi :
    {A : Type 0} (c : Call) (call : ℕ → Attempt A) (attempt left : ℕ) (w : World)
    → IsAi (attempt_from c call attempt left w).0
unfolding attempt_from
attempt_from-IsAi c call attempt zero w = refl
attempt_from-IsAi c call attempt (suc left) w =
    let (rows, e) = attempt_from-Accounted c call attempt left w in
    Ended-IsAi c call attempt (attempt_from c call attempt (suc left) w).0 rows e.3

pub run-IsAi :
    {A : Type 0} (settings : AiSettings) (c : Call) (call : ℕ → Attempt A) (w : World)
    → IsAi (run settings c call w).0
unfolding run
run-IsAi settings c call w = attempt_from-IsAi c call 1 settings.ai_max_attempts w
