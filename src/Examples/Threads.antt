-- ===== src/Examples/Threads.antt =====
-- The thread of one ticket, read and written.
use support_flow.Prelude.{◌≡◌, refl, String, Bool, true, false, none, some, [], ◌∷◌, All}
use support_flow.Enums.{SenderType}
use support_flow.Permissions.{Permission, ticket_scope_by_role, sender_type_by_role, has_permission}
use support_flow.Tenancy.{has}
use support_flow.Errors.{ok}
use support_flow.Db.{Ticket, Message}
use support_flow.Scope.{get_visible}
use support_flow.Notifications.{notify_for_event, enqueue_delivery}
use support_flow.Tickets.{require_visible_ticket, record_event, publish, save_ticket}
use support_flow.Messages.{list_messages, post_note, post_reply}
use support_flow.Messages.Thread.{Readable, list_messages-Readable}
use support_flow.Messages.Replies.{Posted, post_reply-Posted}
use support_flow.Examples.{agent, portal, desk}

-- The desk's one note is not on the customer's page.
portal_page : (list_messages portal 1 10 0 desk).0 ≡ ok []
unfolding list_messages require_visible_ticket get_visible ticket_scope_by_role has has_permission
portal_page = refl

list_messages-Readable_example :
    (t : Ticket) × ((get_visible portal 1 desk.session ≡ some t)
      × All (Readable portal t.id (has portal (Permission.message_read_internal ∷ []))) [])
list_messages-Readable_example = list_messages-Readable portal 1 10 0 desk [] portal_page

abbrev message : Bool → String → Message
message is_internal body = record {
  id = 100;
  organization_id = 1;
  ticket_id = 1;
  sender_type = SenderType.agent;
  sender_user_id = some 11;
  body = body;
  is_internal = is_internal;
  created_at = 9;
}

note_posted : (post_note agent 1 "Lost." 9 desk).0 ≡ ok (message true "Lost.")
unfolding post_note require_visible_ticket get_visible ticket_scope_by_role sender_type_by_role
note_posted = refl

portal_reads_none : has portal (Permission.message_read_internal ∷ []) ≡ false
unfolding has has_permission
portal_reads_none = refl

reply_posted : (post_reply agent 1 "Sorry." none 9 desk).0 ≡ ok (message false "Sorry.")
unfolding post_reply require_visible_ticket get_visible ticket_scope_by_role sender_type_by_role
    save_ticket record_event notify_for_event enqueue_delivery publish
reply_posted = refl

post_reply-Posted_example :
    Posted agent 1 "Sorry." 9 desk
      (message false "Sorry.")
      (post_reply agent 1 "Sorry." none 9 desk).1
post_reply-Posted_example =
    post_reply-Posted agent 1 "Sorry." none 9 desk (message false "Sorry.") reply_posted
