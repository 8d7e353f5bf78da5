-- ===== src/Messages.antt =====
-- backend/app/services/message_service.py with backend/app/repositories/message_repository.py: the
-- thread of a ticket. An empty `draft_id` is an ordinary reply.
pub mod Thread
pub mod Replies
use support_flow.Prelude.{
  ℕ, zero, suc, String, Bool, true, false, not, Option, none, some, List, [], ◌∷◌, ◌++◌, ◌&&◌, ◌||◌,
  ◌==◌, is_some, select, take, find?, order_by, if◌then◌else◌,
}
use text.Mathlib.Text.{◌==◌ as str_eq}
use support_flow.Enums.{SenderType, TicketStatus, TicketEventType, AuditAction, same_status}
use support_flow.Permissions.{Permission, sender_type_by_role}
use support_flow.Tenancy.{TenantContext, has}
use support_flow.Errors.{AppError, ErrorCode, ok}
use support_flow.Db.{Ticket, Message, AuditValue, AuditMetadata, Db}
use support_flow.Session.{
  Effect, App, ◌>>=◌, ◌>>◌, pure, require, require_some, gets, modify, emit, commit_session,
}
use support_flow.Audit.{record_for}
use support_flow.Notifications.{notify_for_event, enqueue_delivery}
use support_flow.Sla.Sweep.{by_creation}
use support_flow.Tickets.{save_ticket, require_visible_ticket, record_event, publish}

-- `OFFSET`
drop : {A : Type 0} → ℕ → List A → List A
drop zero xs = xs
drop (suc n) [] = []
drop (suc n) (x ∷ xs) = drop n xs

-- MessageRepository.list_for_ticket
unfoldable pub list_for_ticket : TenantContext → ℕ → Bool → ℕ → ℕ → Db → List Message
unfolding order_by drop
list_for_ticket context ticket_id include_internal limit offset db = take limit (
    drop offset (
      order_by (λ a b. by_creation a.created_at a.id b.created_at b.id)
        (select
          (λ m.
            m.organization_id == context.organization_id
            && m.ticket_id == ticket_id
            && (include_internal || not m.is_internal))
          db.messages)))

unfoldable pub list_messages : TenantContext → ℕ → ℕ → ℕ → App (List Message)
unfolding list_for_ticket
list_messages context ticket_id limit offset = do
  t ← require_visible_ticket context ticket_id
  gets (
      list_for_ticket context t.id (has context (Permission.message_read_internal ∷ [])) limit
        offset)

abbrev is_draft : SenderType → Bool
is_draft SenderType.ai_draft = true
is_draft _ = false

abbrev pub is_agent : SenderType → Bool
is_agent SenderType.agent = true
is_agent _ = false

-- MessageRepository.find_draft
unfoldable pub find_draft : TenantContext → ℕ → ℕ → Db → Option Message
find_draft context ticket_id draft_id db =
    find?
      (λ m.
        m.organization_id == context.organization_id
        && m.id == draft_id
        && m.ticket_id == ticket_id
        && is_draft m.sender_type)
      db.messages

-- `_post`
unfoldable pub post_ : TenantContext → Ticket → String → Bool → ℕ → App Message
post_ context t body is_internal now w =
    let db = w.session in
    let m : Message = record {
      id = db.next_id;
      organization_id = context.organization_id;
      ticket_id = t.id;
      sender_type = sender_type_by_role context.role;
      sender_user_id = some context.user_id;
      body = body;
      is_internal = is_internal;
      created_at = now;
    } in
    (
      ok m,
      record w {
        session = record db { messages = db.messages ++ m ∷ []; next_id = suc db.next_id };
      },
    )

-- The draft that the reply accepts: none is asked for, or it has to be found.
unfoldable pub accepted_draft : TenantContext → Ticket → Option ℕ → App (Option Message)
accepted_draft context t none = pure none
accepted_draft context t (some draft_id) = do
  found ← gets (find_draft context t.id draft_id)
  _ ← require_some found (AppError.not_found_error ErrorCode.ai_draft_not_found)
  pure found

unfoldable pub record_acceptance : TenantContext → Ticket → String → Option Message → App Unit
record_acceptance context t body none = pure tt
record_acceptance context t body (some draft) =
    record_for context AuditAction.ai_response_accepted "ticket" t.id
      (some (AuditValue.body draft.body)) (some (AuditValue.body body))
      (some (AuditMetadata.draft draft.id (not (str_eq draft.body body))))

-- The response timer is stopped by the first reply of an agent.
unfoldable pub mark_first_response : SenderType → ℕ → Ticket → Ticket
mark_first_response sender now t =
    if is_agent sender && not (is_some t.first_response_at)
    then record t { first_response_at = some now }
    else t

unfoldable pub post_reply : TenantContext → ℕ → String → Option ℕ → ℕ → App Message
unfolding accepted_draft record_acceptance mark_first_response post_
post_reply context ticket_id body draft_id now = do
  t ← require_visible_ticket context ticket_id
  require (not (same_status t.status TicketStatus.closed)) AppError.validation_error
  draft ← accepted_draft context t draft_id
  m ← post_ context t body false now
  record_acceptance context t body draft
  let t' = mark_first_response m.sender_type now t
  modify (save_ticket t')
  event ← record_event context t' TicketEventType.message_added none none [] now
  notifications ← notify_for_event context t' event (some m)
  commit_session
  enqueue_delivery notifications
  publish t' event notifications false
  emit (Effect.invalidate context.organization_id)
  pure m

unfoldable pub post_note : TenantContext → ℕ → String → ℕ → App Message
unfolding post_ record_event publish
post_note context ticket_id body now = do
  t ← require_visible_ticket context ticket_id
  m ← post_ context t body true now
  event ← record_event context t TicketEventType.internal_note_added none none [] now
  commit_session
  publish t event [] true
  pure m
