-- ===== src/AiCalls.antt =====
-- backend/app/services/ai_service.py with backend/app/ai/pricing.py: one call of a provider, its retries and
-- its ledger. A provider is a function of the attempt, since a second attempt may be answered otherwise;
-- the waits between attempts and the latencies are left out.
pub mod Price
pub mod Ledger
pub mod Raised
use text.Mathlib.Text.{◌==◌ as str_eq}
use support_flow.Prelude.{
  ℕ, zero, suc, ◌+◌, ◌*◌, ◌/◌, String, Bool, true, false, Option, none, some, List, [], ◌∷◌, ◌++◌,
  ◌==◌, if◌then◌else◌,
}
use support_flow.Enums.{AiOperation}
use support_flow.Errors.{AppError, ok}
use support_flow.Db.{AiUsage}
use support_flow.Session.{App, ◌>>=◌, ◌>>◌, pure, raise, modify}

-- Hundredths of a dollar for a million tokens.
pub record ModelRate : Type 0 where
  pub input_per_mtok : ℕ
  pub output_per_mtok : ℕ

-- RATES; a model without a rate is refused.
unfoldable pub rate_for : String → Option ModelRate
rate_for model =
    if str_eq model "claude-sonnet-5"
    then some (record { input_per_mtok = 200; output_per_mtok = 1000 })
    else if str_eq model "claude-opus-5"
    then some (record { input_per_mtok = 500; output_per_mtok = 2500 })
    else if str_eq model "claude-haiku-4-5-20251001"
    then some (record { input_per_mtok = 100; output_per_mtok = 500 })
    else if str_eq model "claude-fable-5-1"
    then some (record { input_per_mtok = 1000; output_per_mtok = 5000 })
    else if str_eq model "claude-fable-5"
    then some (record { input_per_mtok = 1000; output_per_mtok = 5000 })
    else if str_eq model "openai/gpt-oss-120b"
    then some (record { input_per_mtok = 15; output_per_mtok = 60 })
    else if str_eq model "text-embedding-3-small"
    then some (record { input_per_mtok = 2; output_per_mtok = 0 })
    else none

-- In millionths of a dollar, rounded half up.
unfoldable pub cost_usd : ModelRate → ℕ → ℕ → ℕ
cost_usd rate prompt_tokens completion_tokens =
    (prompt_tokens * rate.input_per_mtok + completion_tokens * rate.output_per_mtok + 50) / 100

-- The settings of the calls. A configured model has its rate: `Settings` refuses one that `rate_for` does.
pub record AiSettings : Type 0 where
  pub ai_model : String
  pub ai_rate : ModelRate
  pub embedding_model : String
  pub embedding_rate : ModelRate
  pub ai_max_attempts : ℕ

-- Whom a call is charged to: the context's organization, its user if it has one, and the ticket.
pub record Payer : Type 0 where
  pub organization_id : ℕ
  pub user_id : Option ℕ
  pub ticket_id : Option ℕ

-- What an attempt came to: an answer, AITransientError, or another AIError; each with its tokens.
pub data Attempt (A : Type 0) : Type 0 where
  answered : A → ℕ → ℕ → Attempt A
  transient : ℕ → ℕ → Attempt A
  failed : ℕ → ℕ → Attempt A

-- `AIResult`
pub record AiResponse (A : Type 0) : Type 0 where
  pub value : A
  pub prompt_tokens : ℕ
  pub completion_tokens : ℕ

-- What is the same in all attempts of one call.
pub record Call : Type 0 where
  pub payer : Payer
  pub operation : AiOperation
  pub model : String
  pub rate : ModelRate

abbrev pub usage_row : Call → ℕ → ℕ → Bool → Bool → AiUsage
usage_row c prompt_tokens completion_tokens was_successful was_cached = record {
  organization_id = c.payer.organization_id;
  operation = c.operation;
  model = c.model;
  prompt_tokens = prompt_tokens;
  completion_tokens = completion_tokens;
  cost_usd = cost_usd c.rate prompt_tokens completion_tokens;
  ticket_id = c.payer.ticket_id;
  user_id = c.payer.user_id;
  was_successful = was_successful;
  was_cached = was_cached;
}

-- `_stage_usage`
unfoldable pub stage_usage : Call → ℕ → ℕ → Bool → Bool → App Unit
stage_usage c prompt_tokens completion_tokens was_successful was_cached = modify λ db. record db {
  ai_usage =
      db.ai_usage ++ usage_row c prompt_tokens completion_tokens was_successful was_cached ∷ [];
}

unfoldable pub record_cache_hit : Call → App Unit
unfolding stage_usage
record_cache_hit c = stage_usage c 0 0 true true

-- `if attempt == settings.AI_MAX_ATTEMPTS: raise AIServiceError()`
abbrev unless_last : {A : Type 0} → ℕ → App A → App A
unless_last zero again = raise AppError.ai_service_error
unless_last (suc left) again = again

-- The loop of `_run` from one attempt on, with how many are left.
unfoldable pub attempt_from : {A : Type 0} → Call → (ℕ → Attempt A) → ℕ → ℕ → App (AiResponse A)
unfolding stage_usage
attempt_from c call attempt zero = raise AppError.ai_service_error
attempt_from c call attempt (suc left) =
    let again = attempt_from c call (suc attempt) left in
    elim (call attempt) [
      | Attempt.answered value p k ↦ do
        stage_usage c p k true false
        pure (record { value = value; prompt_tokens = p; completion_tokens = k })
      | Attempt.transient p k ↦ do stage_usage c p k false false; unless_last left again
      | Attempt.failed p k ↦ do stage_usage c p k false false; raise AppError.ai_service_error
    ]

-- `_run`
unfoldable pub run : {A : Type 0} → AiSettings → Call → (ℕ → Attempt A) → App (AiResponse A)
unfolding attempt_from
run settings c call = attempt_from c call 1 settings.ai_max_attempts

abbrev pub generation : AiSettings → Payer → AiOperation → Call
generation settings payer operation = record {
  payer = payer;
  operation = operation;
  model = settings.ai_model;
  rate = settings.ai_rate;
}

-- `embed_texts`, priced under its own model.
abbrev pub embedding : AiSettings → Payer → Call
embedding settings payer = record {
  payer = payer;
  operation = AiOperation.embed;
  model = settings.embedding_model;
  rate = settings.embedding_rate;
}
