-- ===== src/Examples.antt =====
-- One organization's help desk with a second tenant beside it, for the tests of the services in
-- backend/app/services.
mod Desk
mod Threads
mod Clock
mod Accounts
mod Creation
mod Staff
mod Limits
mod Sockets
mod Documents
mod Analyses
mod Knowledge
use support_flow.Prelude.{ℕ, String, true, false, Option, none, some, [], ◌∷◌}
use text.Mathlib.Text.{◌==◌ as str_eq}
use support_flow.Enums.{NotificationType, UserRole, TicketStatus, TicketPriority, SenderType}
use support_flow.Tenancy.{TenantContext}
use support_flow.Db.{
  Ticket, Title, Notification, Message, SlaPolicy, User, Customer, RefreshToken, Db,
}
use support_flow.Session.{World}
use support_flow.Auth.{Security}

abbrev pub agent : TenantContext
agent = record {
  user_id = 11;
  organization_id = 1;
  role = UserRole.agent;
  customer_id = none;
  email = some "agent@desk.example";
}

abbrev pub portal : TenantContext
portal = record {
  user_id = 12;
  organization_id = 1;
  role = UserRole.customer;
  customer_id = some 5;
  email = some "buyer@shop.example";
}

abbrev pub chief : TenantContext
chief = record {
  user_id = 14;
  organization_id = 1;
  role = UserRole.admin;
  customer_id = none;
  email = none;
}

-- An administrator of the second tenant.
abbrev pub outsider : TenantContext
outsider = record {
  user_id = 13;
  organization_id = 2;
  role = UserRole.admin;
  customer_id = none;
  email = none;
}

abbrev ticket_row : ℕ → ℕ → TicketStatus → Option ℕ → Option ℕ → Ticket
ticket_row id organization_id status assigned resolved_at = record {
  id = id;
  organization_id = organization_id;
  number = id;
  customer_id = 5;
  assigned_agent_id = assigned;
  subject = "Refund";
  description = "The parcel never arrived.";
  category = none;
  status = status;
  priority = TicketPriority.urgent;
  subcategory = none;
  ai_recommended_priority = none;
  sentiment = none;
  created_at = 0;
  first_response_at = none;
  resolved_at = resolved_at;
  closed_at = none;
}

abbrev pub working : Ticket
working = ticket_row 1 1 TicketStatus.in_progress (some 11) none

abbrev pub solved : Ticket
solved = ticket_row 2 1 TicketStatus.resolved (some 11) (some 40)

abbrev pub foreign : Ticket
foreign = ticket_row 3 2 TicketStatus.«open» none none

abbrev pub note_row : Message
note_row = record {
  id = 30;
  organization_id = 1;
  ticket_id = 1;
  sender_type = SenderType.agent;
  sender_user_id = some 11;
  body = "Waiting for the courier.";
  is_internal = true;
  created_at = 8;
}

abbrev pub user_row : ℕ → ℕ → UserRole → Option ℕ → User
user_row id organization_id role customer_id = record {
  id = id;
  organization_id = organization_id;
  role = role;
  email = "agent@desk.example";
  password_hash = "secret";
  is_active = true;
  customer_id = customer_id;
  last_login_at = none;
  created_at = id;
}

abbrev pub urgent_policy : SlaPolicy
urgent_policy = record {
  id = 50;
  organization_id = 1;
  priority = TicketPriority.urgent;
  response_time_minutes = 30;
  resolution_time_minutes = 240;
  warning_threshold_percent = 80;
  is_active = true;
}

abbrev pub spent : RefreshToken
spent = record {
  id = 60;
  organization_id = 1;
  user_id = 11;
  token_hash = "old";
  expires_at = 1000;
  revoked_at = some 3;
  replaced_by_id = some 61;
}

abbrev pub live : RefreshToken
live = record {
  id = 61;
  organization_id = 1;
  user_id = 11;
  token_hash = "new";
  expires_at = 1000;
  revoked_at = none;
  replaced_by_id = none;
}

abbrev pub alert_row : Notification
alert_row = record {
  id = 40;
  organization_id = 1;
  user_id = 11;
  notification_type = NotificationType.ticket_assigned;
  title = Title.sentence "Ticket assigned to you";
  body = (1, "Refund");
  ticket_id = some 1;
  read_at = none;
}

-- The second administrator has left.
abbrev pub former_chief : User
former_chief = record (user_row 15 1 UserRole.admin none) { is_active = false }

abbrev pub desk_db : Db
desk_db = record {
  tickets = working ∷ solved ∷ foreign ∷ [];
  events = [];
  audit_logs = [];
  notifications = alert_row ∷ [];
  messages = note_row ∷ [];
  ai_analyses = [];
  ai_usage = [];
  knowledge_documents = [];
  knowledge_chunks = [];
  sla_policies = urgent_policy ∷ [];
  users =
      user_row 11 1 UserRole.agent none
      ∷ user_row 12 1 UserRole.customer (some 5)
      ∷ user_row 14 1 UserRole.admin none
      ∷ former_chief
      ∷ [];
  customers = record { id = 5; organization_id = 1 } ∷ [];
  refresh_tokens = spent ∷ live ∷ [];
  next_id = 100;
}

abbrev pub desk : World
desk = record { committed = desk_db; session = desk_db; effects = [] }

-- Passwords and tokens that are their own hashes.
abbrev pub plain : Security
plain = record {
  verify_and_update_password = λ password hash. (str_eq password hash, none);
  hash_refresh_token = λ token. token;
  create_access_token = λ user organization role. "access";
  refresh_token_ttl = 500;
  access_token_expiry = 900;
}
