-- ===== src/Sla/Policies/Targets.antt =====
-- The targets that a policy may have.
use support_flow.Prelude.{
  ℕ, ◌≡◌, ◌≤◌, ◌<◌, true, some, ◌==◌, All, All-find?, All-update_where, leb, leb→le, arith,
}
use support_flow.Enums.{TicketPriority}
use support_flow.Tenancy.{TenantContext}
use support_flow.Db.{SlaPolicy}
use support_flow.Session.{World}
use support_flow.Session.Rules.{require_some-rule, require-rule}
use support_flow.Audit.{record_for}
use support_flow.Sla.Policies.{
  SlaPolicyUpdate, build_default_policies, validate, merged, policy_for, save_policy, update_policy,
}

-- The check constraints of the table `sla_policies`.
abbrev pub IsEnforceable : SlaPolicy → Type 0
IsEnforceable p =
    (1 ≤ p.response_time_minutes)
    × (p.response_time_minutes ≤ p.resolution_time_minutes)
    × (1 ≤ p.warning_threshold_percent)
    × (p.warning_threshold_percent < 100)

-- The four policies with which an organization starts satisfy the table's constraints.
pub build_default_policies-IsEnforceable :
    (organization_id id : ℕ) → All IsEnforceable (build_default_policies organization_id id)
unfolding build_default_policies
build_default_policies-IsEnforceable organization_id id = ground arith

merged_response :
    (payload : SlaPolicyUpdate) (stored : ℕ) (n : ℕ)
    → validate payload ≡ true
    → 1 ≤ stored
    → merged payload.response_time_minutes stored ≡ some n
    → 1 ≤ n
unfolding validate
merged_response payload stored n valid bound h = ground (arith, h)

merged_percent :
    (payload : SlaPolicyUpdate) (stored : ℕ) (n : ℕ)
    → validate payload ≡ true
    → (1 ≤ stored) × (stored < 100)
    → merged payload.warning_threshold_percent stored ≡ some n
    → (1 ≤ n) × (n < 100)
unfolding validate
merged_percent payload stored n valid bound h = ground (arith, h)

-- The policies of the session and of the committed state.
abbrev pub Keeps : World → Type 0
Keeps w = All IsEnforceable w.session.sla_policies × All IsEnforceable w.committed.sla_policies

-- A validated edit, whether it is applied or refused, leaves every policy of the session and of the
-- committed state within the table's constraints, whatever field it leaves out.
pub update_policy-IsEnforceable :
    (context : TenantContext) (priority : TicketPriority) (payload : SlaPolicyUpdate) (w : World)
    → validate payload ≡ true
    → Keeps w
    → Keeps (update_policy context priority payload w).1
unfolding update_policy save_policy record_for policy_for
update_policy-IsEnforceable context priority payload w valid keeps =
    require_some-rule Keeps (policy_for context priority w.session) _ _ w keeps λ p found.
      require_some-rule Keeps (merged payload.response_time_minutes p.response_time_minutes) _ _ w
        keeps
        λ response r.
          require_some-rule Keeps (merged payload.resolution_time_minutes p.resolution_time_minutes)
            _ _ w keeps
            λ resolution s. require-rule Keeps (leb response resolution) _ _ w keeps λ ordered.
              require_some-rule Keeps
                (merged payload.warning_threshold_percent p.warning_threshold_percent) _ _ w keeps
                λ percent q.
                  require_some-rule Keeps (merged payload.is_active p.is_active) _ _ w keeps
                    λ active a.
                      let old = All-find? IsEnforceable _ w.session.sla_policies keeps.0 found in
                      let new =
                        All-update_where IsEnforceable (λ q. q.id == p.id) _ w.session.sla_policies
                          (λ _ _ _.
                            let bounds =
                              merged_percent payload p.warning_threshold_percent percent valid
                                (old.2, old.3) q in
                            (
                              merged_response payload p.response_time_minutes response valid old.0
                                  r,
                              leb→le response resolution ordered,
                              bounds.0,
                              bounds.1,
                            ))
                          keeps.0 in
                      (new, new)
