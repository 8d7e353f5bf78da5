-- ===== src/Sla/Policies.antt =====
-- backend/app/services/sla_service.py and backend/app/schemas/sla.py: the targets of an organization,
-- and the partial edit of one of them.
pub mod Targets
use support_flow.Prelude.{
  ℕ, suc, ◌*◌, Bool, true, false, Option, none, some, List, [], ◌∷◌, ◌++◌, map, ◌&&◌, ◌||◌, ◌==◌,
  leb, find?, update_where, if◌then◌else◌,
}
use support_flow.Enums.{TicketPriority, AuditAction, same_priority}
use support_flow.Tenancy.{TenantContext}
use support_flow.Errors.{AppError, ErrorCode, ok, raised}
use support_flow.Db.{SlaPolicy, AuditValue, Db}
use support_flow.Session.{
  Effect, App, ◌>>=◌, ◌>>◌, pure, require, require_some, raise, gets, modify, emit, commit_session,
}
use support_flow.Audit.{record_for}

-- DEFAULT_POLICIES
abbrev pub default_targets : List (TicketPriority × ℕ × ℕ)
default_targets =
    (TicketPriority.low, 24 * 60, 72 * 60)
    ∷ (TicketPriority.medium, 8 * 60, 24 * 60)
    ∷ (TicketPriority.high, 2 * 60, 8 * 60)
    ∷ (TicketPriority.urgent, 30, 4 * 60)
    ∷ []

-- The rows, with the columns' defaults and keys drawn from `id` on.
build_from : ℕ → ℕ → List (TicketPriority × ℕ × ℕ) → List SlaPolicy
build_from organization_id id [] = []
build_from organization_id id ((priority, response, resolution) ∷ rest) =
    record {
      id = id;
      organization_id = organization_id;
      priority = priority;
      response_time_minutes = response;
      resolution_time_minutes = resolution;
      warning_threshold_percent = 80;
      is_active = true;
    }
    ∷ build_from organization_id (suc id) rest

unfoldable pub build_default_policies : ℕ → ℕ → List SlaPolicy
unfolding build_from
build_default_policies organization_id id = build_from organization_id id default_targets

-- A field of a PATCH body: left out, `null`, or a value.
pub data Field (A : Type 0) : Type 0 where
  unset null : Field A
  given : A → Field A

pub record SlaPolicyUpdate : Type 0 where
  pub response_time_minutes : Field ℕ
  pub resolution_time_minutes : Field ℕ
  pub warning_threshold_percent : Field ℕ
  pub is_active : Field Bool

-- `Field(default=None, ge=..., le=...)`: the bounds are those of a value, and `null` passes.
abbrev in_range : ℕ → ℕ → Field ℕ → Bool
in_range low high (given n) = leb low n && leb n high
in_range low high unset = true
in_range low high null = true

abbrev is_set : {A : Type 0} → Field A → Bool
is_set unset = false
is_set null = true
is_set (given a) = true

unfoldable pub validate : SlaPolicyUpdate → Bool
validate payload =
    in_range 1 525600 payload.response_time_minutes
    && in_range 1 525600 payload.resolution_time_minutes
    && in_range 1 99 payload.warning_threshold_percent
    && (is_set payload.response_time_minutes
        || is_set payload.resolution_time_minutes
        || is_set payload.warning_threshold_percent
        || is_set payload.is_active)

-- `changes.get(name, stored)`: `none` is Python's `None`.
abbrev pub merged : {A : Type 0} → Field A → A → Option A
merged unset stored = some stored
merged null stored = none
merged (given a) stored = some a

-- SLAPolicyRepository.get_for_priority, before its 404
unfoldable pub policy_for : TenantContext → TicketPriority → Db → Option SlaPolicy
policy_for context priority db =
    find? (λ p. p.organization_id == context.organization_id && same_priority p.priority priority)
      db.sla_policies

abbrev snapshot : SlaPolicy → AuditValue
snapshot p =
    AuditValue.policy p.response_time_minutes p.resolution_time_minutes p.warning_threshold_percent
      p.is_active

unfoldable pub save_policy : SlaPolicy → Db → Db
save_policy p db = record db {
  sla_policies = update_where (λ q. q.id == p.id) (λ _. p) db.sla_policies;
}

-- `None < int` is a `TypeError`, and a `None` in one of the other two columns violates `NOT NULL` when
-- the transaction commits; neither is an application error, so the client gets the generic 500. The
-- second is raised here before the row is changed, and not after: the request's rollback leaves no
-- difference.
unfoldable pub update_policy : TenantContext → TicketPriority → SlaPolicyUpdate → App SlaPolicy
unfolding policy_for save_policy
update_policy context priority payload = do
  found ← gets (policy_for context priority)
  policy ← require_some found (AppError.not_found_error ErrorCode.sla_policy_not_found)
  response ←
      require_some (merged payload.response_time_minutes policy.response_time_minutes)
        AppError.internal_server_error
  resolution ←
      require_some (merged payload.resolution_time_minutes policy.resolution_time_minutes)
        AppError.internal_server_error
  require (leb response resolution) AppError.validation_error
  percent ←
      require_some (merged payload.warning_threshold_percent policy.warning_threshold_percent)
        AppError.internal_server_error
  active ← require_some (merged payload.is_active policy.is_active) AppError.internal_server_error
  let policy' : SlaPolicy = record policy {
    response_time_minutes = response;
    resolution_time_minutes = resolution;
    warning_threshold_percent = percent;
    is_active = active;
  }
  modify (save_policy policy')
  record_for context AuditAction.sla_policy_updated "sla_policy" policy'.id (some (snapshot policy))
      (some (snapshot policy')) none
  commit_session
  emit (Effect.invalidate context.organization_id)
  pure policy'
