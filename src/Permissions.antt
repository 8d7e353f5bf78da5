-- ===== src/Permissions.antt =====
-- backend/app/core/permissions.py: the permission vocabulary, the role matrix, the row scopes and
-- the attributes that follow from a role. A frozenset is a list and membership is by position in the
-- enum; a mapping over the closed enum `UserRole` is a function, so its fallback is never taken.
pub mod Matrix
use support_flow.Prelude.{ℕ, Bool, List, [], ◌∷◌, ◌==◌, any_of}
use support_flow.Enums.{UserRole, SenderType}

pub data Permission : Type 0 where
  org_view org_update user_list user_create user_update_role user_deactivate : Permission
  profile_view customer_list customer_create customer_update ticket_list : Permission
  ticket_create ticket_view ticket_assign ticket_change_priority : Permission
  ticket_change_status ticket_close ticket_reopen message_read_public : Permission
  message_read_internal message_post_reply message_post_internal : Permission
  attachment_upload attachment_download ai_request_analysis ai_request_suggestion : Permission
  ai_query_knowledge ai_configure ai_view_usage kb_list kb_upload kb_delete : Permission
  sla_view sla_configure analytics_org analytics_own audit_view notification_list : Permission

pub data RowScope : Type 0 where
  organization assigned own : RowScope

abbrev permission_index : Permission → ℕ
permission_index Permission.org_view = 0
permission_index Permission.org_update = 1
permission_index Permission.user_list = 2
permission_index Permission.user_create = 3
permission_index Permission.user_update_role = 4
permission_index Permission.user_deactivate = 5
permission_index Permission.profile_view = 6
permission_index Permission.customer_list = 7
permission_index Permission.customer_create = 8
permission_index Permission.customer_update = 9
permission_index Permission.ticket_list = 10
permission_index Permission.ticket_create = 11
permission_index Permission.ticket_view = 12
permission_index Permission.ticket_assign = 13
permission_index Permission.ticket_change_priority = 14
permission_index Permission.ticket_change_status = 15
permission_index Permission.ticket_close = 16
permission_index Permission.ticket_reopen = 17
permission_index Permission.message_read_public = 18
permission_index Permission.message_read_internal = 19
permission_index Permission.message_post_reply = 20
permission_index Permission.message_post_internal = 21
permission_index Permission.attachment_upload = 22
permission_index Permission.attachment_download = 23
permission_index Permission.ai_request_analysis = 24
permission_index Permission.ai_request_suggestion = 25
permission_index Permission.ai_query_knowledge = 26
permission_index Permission.ai_configure = 27
permission_index Permission.ai_view_usage = 28
permission_index Permission.kb_list = 29
permission_index Permission.kb_upload = 30
permission_index Permission.kb_delete = 31
permission_index Permission.sla_view = 32
permission_index Permission.sla_configure = 33
permission_index Permission.analytics_org = 34
permission_index Permission.analytics_own = 35
permission_index Permission.audit_view = 36
permission_index Permission.notification_list = 37

abbrev pub same_permission : Permission → Permission → Bool
same_permission a b = permission_index a == permission_index b

-- `frozenset(Permission)`: every member.
abbrev pub admin_permissions : List Permission
admin_permissions =
    Permission.org_view ∷ Permission.org_update ∷ Permission.user_list ∷ Permission.user_create
    ∷ Permission.user_update_role ∷ Permission.user_deactivate ∷ Permission.profile_view
    ∷ Permission.customer_list ∷ Permission.customer_create ∷ Permission.customer_update
    ∷ Permission.ticket_list ∷ Permission.ticket_create ∷ Permission.ticket_view
    ∷ Permission.ticket_assign ∷ Permission.ticket_change_priority ∷ Permission.ticket_change_status
    ∷ Permission.ticket_close ∷ Permission.ticket_reopen ∷ Permission.message_read_public
    ∷ Permission.message_read_internal ∷ Permission.message_post_reply
    ∷ Permission.message_post_internal ∷ Permission.attachment_upload
    ∷ Permission.attachment_download ∷ Permission.ai_request_analysis
    ∷ Permission.ai_request_suggestion ∷ Permission.ai_query_knowledge ∷ Permission.ai_configure
    ∷ Permission.ai_view_usage ∷ Permission.kb_list ∷ Permission.kb_upload ∷ Permission.kb_delete
    ∷ Permission.sla_view ∷ Permission.sla_configure ∷ Permission.analytics_org
    ∷ Permission.analytics_own ∷ Permission.audit_view ∷ Permission.notification_list ∷ []

-- _MANAGER_PERMISSIONS
abbrev pub manager_permissions : List Permission
manager_permissions =
    Permission.org_view ∷ Permission.user_list ∷ Permission.profile_view ∷ Permission.customer_list
    ∷ Permission.customer_create ∷ Permission.customer_update ∷ Permission.ticket_list
    ∷ Permission.ticket_create ∷ Permission.ticket_view ∷ Permission.ticket_assign
    ∷ Permission.ticket_change_priority ∷ Permission.ticket_change_status ∷ Permission.ticket_close
    ∷ Permission.ticket_reopen ∷ Permission.message_read_public ∷ Permission.message_read_internal
    ∷ Permission.message_post_reply ∷ Permission.message_post_internal
    ∷ Permission.attachment_upload ∷ Permission.attachment_download ∷ Permission.ai_request_analysis
    ∷ Permission.ai_request_suggestion ∷ Permission.ai_query_knowledge ∷ Permission.ai_view_usage
    ∷ Permission.kb_list ∷ Permission.sla_view ∷ Permission.analytics_org ∷ Permission.analytics_own
    ∷ Permission.notification_list ∷ []

-- _AGENT_PERMISSIONS
abbrev pub agent_permissions : List Permission
agent_permissions =
    Permission.profile_view ∷ Permission.customer_list ∷ Permission.customer_create
    ∷ Permission.customer_update ∷ Permission.ticket_list ∷ Permission.ticket_create
    ∷ Permission.ticket_view ∷ Permission.ticket_change_status ∷ Permission.ticket_close
    ∷ Permission.ticket_reopen ∷ Permission.message_read_public ∷ Permission.message_read_internal
    ∷ Permission.message_post_reply ∷ Permission.message_post_internal
    ∷ Permission.attachment_upload ∷ Permission.attachment_download ∷ Permission.ai_request_analysis
    ∷ Permission.ai_request_suggestion ∷ Permission.ai_query_knowledge ∷ Permission.kb_list
    ∷ Permission.sla_view ∷ Permission.analytics_own ∷ Permission.notification_list ∷ []

-- _CUSTOMER_PERMISSIONS
abbrev pub customer_permissions : List Permission
customer_permissions =
    Permission.profile_view ∷ Permission.ticket_list ∷ Permission.ticket_create
    ∷ Permission.ticket_view ∷ Permission.ticket_close ∷ Permission.ticket_reopen
    ∷ Permission.message_read_public ∷ Permission.message_post_reply ∷ Permission.attachment_upload
    ∷ Permission.attachment_download ∷ Permission.notification_list ∷ []

-- ROLE_PERMISSIONS and its lookup.
unfoldable pub permissions_for : UserRole → List Permission
permissions_for UserRole.admin = admin_permissions
permissions_for UserRole.manager = manager_permissions
permissions_for UserRole.agent = agent_permissions
permissions_for UserRole.customer = customer_permissions

unfoldable pub has_permission : UserRole → Permission → Bool
unfolding permissions_for
has_permission role permission = any_of (same_permission permission) (permissions_for role)

abbrev pub ScopeMap : Type 0
ScopeMap = UserRole → RowScope

-- TICKET_SCOPE_BY_ROLE; the message and attachment maps are copies of it.
unfoldable pub ticket_scope_by_role : ScopeMap
ticket_scope_by_role UserRole.admin = RowScope.organization
ticket_scope_by_role UserRole.manager = RowScope.organization
ticket_scope_by_role UserRole.agent = RowScope.assigned
ticket_scope_by_role UserRole.customer = RowScope.own

-- SENDER_TYPE_BY_ROLE
unfoldable pub sender_type_by_role : UserRole → SenderType
sender_type_by_role UserRole.admin = SenderType.agent
sender_type_by_role UserRole.manager = SenderType.agent
sender_type_by_role UserRole.agent = SenderType.agent
sender_type_by_role UserRole.customer = SenderType.customer

abbrev role_index : UserRole → ℕ
role_index UserRole.admin = 0
role_index UserRole.manager = 1
role_index UserRole.agent = 2
role_index UserRole.customer = 3

abbrev pub same_role : UserRole → UserRole → Bool
same_role a b = role_index a == role_index b

abbrev pub portal_roles : List UserRole
portal_roles = UserRole.customer ∷ []

abbrev pub sla_alert_roles : List UserRole
sla_alert_roles = UserRole.manager ∷ []

abbrev pub role_in : UserRole → List UserRole → Bool
role_in role = any_of (same_role role)

unfoldable pub row_scope_for : UserRole → ScopeMap → RowScope
row_scope_for role scopes = scopes role
