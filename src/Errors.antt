-- ===== src/Errors.antt =====
-- backend/app/core/exceptions.py: the application errors that the modelled services raise, and the
-- value that a call returns or raises.
use support_flow.Prelude.{ℕ, ◌≡◌}
use support_flow.Enums.{TicketStatus}

pub data ErrorCode : Type 0 where
  authentication_required invalid_credentials forbidden validation_error : ErrorCode
  user_not_found customer_not_found ticket_not_found sla_policy_not_found : ErrorCode
  notification_not_found ai_draft_not_found knowledge_document_not_found user_already_exists
        conflict invalid_ticket_transition :
      ErrorCode
  rate_limited ai_service_error storage_unavailable internal_server_error : ErrorCode

-- One constructor for each exception class; a transition error carries its two ends.
pub data AppError : Type 0 where
  authentication_required_error invalid_credentials_error inactive_user_error : AppError
  permission_denied_error validation_error conflict_error user_already_exists_error
        internal_server_error ai_service_error storage_unavailable_error :
      AppError
  not_found_error : ErrorCode → AppError
  invalid_ticket_transition_error : TicketStatus → TicketStatus → AppError
  rate_limited_error : ℕ → AppError

unfoldable pub code : AppError → ErrorCode
code AppError.authentication_required_error = ErrorCode.authentication_required
code AppError.invalid_credentials_error = ErrorCode.invalid_credentials
code AppError.inactive_user_error = ErrorCode.forbidden
code AppError.permission_denied_error = ErrorCode.forbidden
code AppError.validation_error = ErrorCode.validation_error
code AppError.conflict_error = ErrorCode.conflict
code AppError.user_already_exists_error = ErrorCode.user_already_exists
code AppError.ai_service_error = ErrorCode.ai_service_error
code AppError.storage_unavailable_error = ErrorCode.storage_unavailable
code AppError.internal_server_error = ErrorCode.internal_server_error
code (AppError.not_found_error c) = c
code (AppError.invalid_ticket_transition_error s t) = ErrorCode.invalid_ticket_transition
code (AppError.rate_limited_error n) = ErrorCode.rate_limited

unfoldable pub status_code : AppError → ℕ
status_code AppError.authentication_required_error = 401
status_code AppError.invalid_credentials_error = 401
status_code AppError.inactive_user_error = 403
status_code AppError.permission_denied_error = 403
status_code AppError.validation_error = 422
status_code AppError.conflict_error = 409
status_code AppError.user_already_exists_error = 409
status_code AppError.ai_service_error = 503
status_code AppError.storage_unavailable_error = 503
status_code AppError.internal_server_error = 500
status_code (AppError.not_found_error c) = 404
status_code (AppError.invalid_ticket_transition_error s t) = 409
status_code (AppError.rate_limited_error n) = 429

pub data Result {ℓ} (A : Type ℓ) : Type ℓ where
  ok : A → Result A
  raised : AppError → Result A

-- A call does not both return and raise.
module _ {ℓ} {A : Type ℓ} where
  pub raised-ok : {e : AppError} {a : A} → raised e ≡ ok a → ⊥
  raised-ok h = cc

  pub ok-raised : {e : AppError} {a : A} → ok a ≡ raised e → ⊥
  ok-raised h = cc

  pub ok-ok : {a b : A} → ok a ≡ ok b → a ≡ b
  ok-ok h = cc
