-- ===== src/AiCalls/Ledger.antt =====
-- What a call of backend/app/services/ai_service.py leaves in the ledger.
use mathlib.Core.List.{append_assoc, append-nil}
use support_flow.Prelude.{
  ◌⊎◌, ap, subst, sym, ◌∙◌, ℕ, zero, suc, ◌+◌, ◌-◌, ◌≤◌, ◌≡◌, refl, true, false, inl, inr, List, [],
  ◌∷◌, ◌++◌, length, All, arith,
}
use support_flow.Errors.{AppError, Result, ok, raised}
use support_flow.Db.{AiUsage}
use support_flow.Session.{World}
use support_flow.Session.Rules.{Preserves}
use support_flow.AiCalls.{
  Attempt, AiResponse, Call, AiSettings, usage_row, stage_usage, attempt_from, run,
}

-- The world with more rows in the ledger, and otherwise the same.
abbrev pub with_usage : List AiUsage → World → World
with_usage rows w = record w {
  session = record w.session { ai_usage = w.session.ai_usage ++ rows };
}

abbrev pub Unsuccessful : AiUsage → Type 0
Unsuccessful row = row.was_successful ≡ false

Attempt-cases :
    {A : Type 0} (a : Attempt A)
    → ((value : A) × ((p : ℕ) × ((k : ℕ) × (a ≡ Attempt.answered value p k))))
      ⊎ (((p : ℕ) × ((k : ℕ) × (a ≡ Attempt.transient p k)))
          ⊎ ((p : ℕ) × ((k : ℕ) × (a ≡ Attempt.failed p k))))
Attempt-cases (Attempt.answered value p k) = inl (value, (p, (k, refl)))
Attempt-cases (Attempt.transient p k) = inr (inl (p, (k, refl)))
Attempt-cases (Attempt.failed p k) = inr (inr (p, (k, refl)))

module _ {A : Type 0} (c : Call) (call : ℕ → Attempt A) where
  -- What the rows of a call say of how it ended. It returned the answer of the attempt after those that are
  -- in the ledger as failed, or it raised the one error and no row is a success.
  abbrev pub Ended : ℕ → Result (AiResponse A) → List AiUsage → Type 0
  Ended attempt (ok b) rows =
      (before : List AiUsage) × ((rows
          ≡ before ++ usage_row c b.prompt_tokens b.completion_tokens true false ∷ [])
        × All Unsuccessful before
        × (call (attempt + length before)
            ≡ Attempt.answered b.value b.prompt_tokens b.completion_tokens))
  Ended attempt (raised e) rows = (e ≡ AppError.ai_service_error) × All Unsuccessful rows

  -- A call adds its rows to the ledger, between one and as many as it may attempt, and does nothing else.
  abbrev pub Accounted : ℕ → ℕ → World → Result (AiResponse A) × World → Type 0
  Accounted attempt left w r =
      (rows : List AiUsage) × ((r.1 ≡ with_usage rows w)
        × (1 ≤ length rows)
        × (length rows ≤ left)
        × Ended attempt r.0 rows)

  Ended-cons :
      (attempt : ℕ) (r : Result (AiResponse A)) (row : AiUsage) (rows : List AiUsage)
      → Unsuccessful row
      → Ended (suc attempt) r rows
      → Ended attempt r (row ∷ rows)
  Ended-cons attempt (ok b) row rows h (before, e) = (
    row ∷ before,
    (
      ap (λ (x : List AiUsage). row ∷ x) e.0,
      (h, e.1),
      subst (λ n. call n ≡ Attempt.answered b.value b.prompt_tokens b.completion_tokens)
          (omega arith) e.2,
    ),
  )
  Ended-cons attempt (raised e) row rows h k = (k.0, (h, k.1))

  Accounted-cons :
      (attempt left : ℕ) (w : World) (row : AiUsage) (r : Result (AiResponse A) × World)
      → Unsuccessful row
      → Accounted (suc attempt) left (with_usage (row ∷ []) w) r
      → Accounted attempt (suc left) w r
  Accounted-cons attempt left w row r h (rows, e) = (
    row ∷ rows,
    (
      e.0
          ∙ ap (λ (x : List AiUsage). record w { session = record w.session { ai_usage = x } })
              (append_assoc w.session.ai_usage (row ∷ []) rows),
      omega arith,
      omega (arith, e.2),
      Ended-cons attempt r.0 row rows h e.3,
    ),
  )

  answered-Accounted :
      (attempt left : ℕ) (w : World) (value : A) (p k : ℕ)
      → call attempt ≡ Attempt.answered value p k
      → Accounted attempt (suc left) w (attempt_from c call attempt (suc left) w)
  unfolding attempt_from stage_usage
  answered-Accounted attempt left w value p k e =
      rw (e, attempt_from)
        (
          usage_row c p k true false ∷ [],
          (
            refl,
            omega arith,
            omega arith,
            ([], (refl, tt, subst (λ n. call n ≡ Attempt.answered value p k) (omega arith) e)),
          ),
        )

  failed-Accounted :
      (attempt left : ℕ) (w : World) (p k : ℕ)
      → call attempt ≡ Attempt.failed p k
      → Accounted attempt (suc left) w (attempt_from c call attempt (suc left) w)
  unfolding attempt_from stage_usage
  failed-Accounted attempt left w p k e =
      rw (e, attempt_from)
        (usage_row c p k false false ∷ [], (refl, omega arith, omega arith, (refl, (refl, tt))))

  pub attempt_from-Accounted :
      (attempt left : ℕ) (w : World)
      → Accounted attempt (suc left) w (attempt_from c call attempt (suc left) w)
  unfolding attempt_from stage_usage
  attempt_from-Accounted attempt zero w = elim (Attempt-cases (call attempt)) [
    | inl (value, (p, (k, e))) ↦ answered-Accounted attempt zero w value p k e
    | inr (inl (p, (k, e))) ↦
        rw (e, attempt_from)
          (usage_row c p k false false ∷ [], (refl, omega arith, omega arith, (refl, (refl, tt))))
    | inr (inr (p, (k, e))) ↦ failed-Accounted attempt zero w p k e
  ]
  attempt_from-Accounted attempt (suc left) w = elim (Attempt-cases (call attempt)) [
    | inl (value, (p, (k, e))) ↦ answered-Accounted attempt (suc left) w value p k e
    | inr (inl (p, (k, e))) ↦
        let later =
          attempt_from-Accounted (suc attempt) left
            (with_usage (usage_row c p k false false ∷ []) w) in
        rw (e, attempt_from)
          (Accounted-cons attempt (suc left) w (usage_row c p k false false) _ refl later)
    | inr (inr (p, (k, e))) ↦ failed-Accounted attempt (suc left) w p k e
  ]

  -- Where at least one attempt is allowed, a call adds between one row and as many as are allowed to the
  -- ledger, and changes nothing else. It returns the answer of the first attempt that was answered, whose row
  -- is the last and the only successful one, or it raises the one service error and no row is successful.
  pub run-Accounted :
      (settings : AiSettings) (w : World)
      → 1 ≤ settings.ai_max_attempts
      → Accounted 1 settings.ai_max_attempts w (run settings c call w)
  unfolding run
  run-Accounted settings w h =
      let e : settings.ai_max_attempts ≡ suc (settings.ai_max_attempts - 1) = omega arith in
      rw e (attempt_from-Accounted 1 (settings.ai_max_attempts - 1) w)

-- A call changes nothing but the ledger.
attempt_from-with_usage :
    {A : Type 0} (c : Call) (call : ℕ → Attempt A) (attempt left : ℕ) (w : World)
    → (rows : List AiUsage) × ((attempt_from c call attempt left w).1 ≡ with_usage rows w)
unfolding attempt_from
attempt_from-with_usage c call attempt zero w = (
  [],
  ap (λ (x : List AiUsage). record w { session = record w.session { ai_usage = x } })
      (sym (append-nil w.session.ai_usage)),
)
attempt_from-with_usage c call attempt (suc left) w =
    let (rows, e) = attempt_from-Accounted c call attempt left w in (rows, e.0)

pub run-Preserves :
    {A : Type 0} (P : World → Type 0) (settings : AiSettings) (c : Call) (call : ℕ → Attempt A)
    → ((rows : List AiUsage) (w : World) → P w → P (with_usage rows w))
    → Preserves P (run settings c call)
unfolding run
run-Preserves P settings c call keep w h =
    let (rows, e) = attempt_from-with_usage c call 1 settings.ai_max_attempts w in
    subst P (sym e) (keep rows w h)

-- What a call returned is what some attempt answered.
abbrev pub Answered : {A : Type 0} → (ℕ → Attempt A) → Result (AiResponse A) → Type 0
Answered call (ok b) =
    (attempt : ℕ) × (call attempt ≡ Attempt.answered b.value b.prompt_tokens b.completion_tokens)
Answered call (raised e) = Unit

Ended-Answered :
    {A : Type 0} (c : Call) (call : ℕ → Attempt A) (attempt : ℕ) (r : Result (AiResponse A))
    (rows : List AiUsage)
    → Ended c call attempt r rows
    → Answered call r
Ended-Answered c call attempt (ok b) rows (before, e) = (attempt + length before, e.2)
Ended-Answered c call attempt (raised e) rows h = tt

attempt_from-Answered :
    {A : Type 0} (c : Call) (call : ℕ → Attempt A) (attempt left : ℕ) (w : World)
    → Answered call (attempt_from c call attempt left w).0
unfolding attempt_from
attempt_from-Answered c call attempt zero w = tt
attempt_from-Answered c call attempt (suc left) w =
    let (rows, e) = attempt_from-Accounted c call attempt left w in
    Ended-Answered c call attempt (attempt_from c call attempt (suc left) w).0 rows e.3

pub run-Answered :
    {A : Type 0} (settings : AiSettings) (c : Call) (call : ℕ → Attempt A) (w : World)
    → Answered call (run settings c call w).0
unfolding run
run-Answered settings c call w = attempt_from-Answered c call 1 settings.ai_max_attempts w
