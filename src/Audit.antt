-- ===== src/Audit.antt =====
-- backend/app/services/audit_service.py: staging one audit row.
use support_flow.Prelude.{ℕ, String, Option, some, [], ◌∷◌, ◌++◌}
use support_flow.Enums.{AuditAction}
use support_flow.Tenancy.{TenantContext}
use support_flow.Db.{AuditValue, AuditMetadata}
use support_flow.Session.{App, modify}

abbrev record_ :
    ℕ
    → Option ℕ
    → Option String
    → AuditAction
    → String
    → Option ℕ
    → Option AuditValue
    → Option AuditValue
    → Option AuditMetadata
    → App Unit
record_ organization_id actor email action target_type target_id before after metadata =
    modify λ db. record db {
      audit_logs =
          db.audit_logs
          ++ record {
            organization_id = organization_id;
            actor_user_id = actor;
            actor_email = email;
            action = action;
            target_type = target_type;
            target_id = target_id;
            before = before;
            after = after;
            metadata = metadata;
          }
            ∷ [];
    }

-- The actor is the caller and cannot be supplied.
abbrev pub record_as :
    TenantContext
    → AuditAction
    → String
    → Option ℕ
    → Option AuditValue
    → Option AuditValue
    → Option AuditMetadata
    → App Unit
record_as context action target_type target_id before after metadata =
    record_ context.organization_id (some context.user_id) context.email action target_type
      target_id before after metadata

unfoldable pub record_for :
    TenantContext
    → AuditAction
    → String
    → ℕ
    → Option AuditValue
    → Option AuditValue
    → Option AuditMetadata
    → App Unit
record_for context action target_type target_id before after metadata =
    record_as context action target_type (some target_id) before after metadata
