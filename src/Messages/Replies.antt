-- ===== src/Messages/Replies.antt =====
-- What a public reply of backend/app/services/message_service.py does to its ticket.
use support_flow.Prelude.{
  ℕ, ◌≡◌, ◌≢◌, refl, sym, ap, subst, ◌∙◌, ◌⊎◌, String, true, false, Option, none, some, List, [],
  ◌∷◌, ◌++◌, inl, inr, ◌==◌, update_where, Bool-cases, Option-cases, is_some,
}
use support_flow.Enums.{UserRole, TicketStatus, TicketEventType, same_status}
use support_flow.Permissions.{sender_type_by_role}
use support_flow.Tenancy.{TenantContext}
use support_flow.Errors.{AppError, ErrorCode, ok, raised, raised-ok, ok-ok}
use support_flow.Db.{Ticket, TicketEvent, Message, Notification}
use support_flow.Scope.{get_visible}
use support_flow.Session.{Effect, World, App, ◌>>=◌, ◌>>◌, pure, modify, emit, commit_session}
use support_flow.Session.Rules.{Leads, Leads-pure, Leads-bind}
use support_flow.Audit.{record_for}
use support_flow.Notifications.{notify_for_event, enqueue_delivery}
use support_flow.Notifications.Policy.{notify_for_event-Leads}
use support_flow.Tickets.{save_ticket, require_visible_ticket, record_event, publish}
use support_flow.Tickets.Outcome.{saved_tickets}
use support_flow.Messages.{
  accepted_draft, record_acceptance, find_draft, post_, post_reply, mark_first_response, is_agent,
}

-- The ticket's row is saved, the message is stored, and all of it is committed.
abbrev Sent : World → Ticket → Message → Message → World → Type 0
Sent w t' m m' w' =
    (m' ≡ m)
    × (w'.session.tickets ≡ saved_tickets w t')
    × (w'.committed ≡ w'.session)
    × (w'.session.messages ≡ w.session.messages ++ m ∷ [])

-- The message is added, and no ticket is touched.
abbrev Added : World → Message → World → Type 0
Added w m w' =
    (w'.session.tickets ≡ w.session.tickets) × (w'.session.messages ≡ w.session.messages ++ m ∷ [])

abbrev send_all : TenantContext → Ticket → Message → TicketEvent → List Notification → App Message
send_all context t' m event notifications = do
  commit_session
  enqueue_delivery notifications
  publish t' event notifications false
  emit (Effect.invalidate context.organization_id)
  pure m

send_all-Leads :
    (context : TenantContext) (w w' : World) (t' : Ticket) (m : Message) (event : TicketEvent)
    (ns : List Notification)
    → w'.session.tickets ≡ saved_tickets w t'
    → w'.session.messages ≡ w.session.messages ++ m ∷ []
    → Leads (Sent w t' m) (send_all context t' m event ns w')
unfolding enqueue_delivery publish
send_all-Leads context w w' t' m event [] h k = Leads-pure (Sent w t' m) _ _ (refl, h, refl, k)
send_all-Leads context w w' t' m event (n ∷ ns) h k =
    Leads-pure (Sent w t' m) _ _ (refl, h, refl, k)

abbrev deliver_reply : TenantContext → Ticket → Message → ℕ → App Message
deliver_reply context t' m now = do
  modify (save_ticket t')
  event ← record_event context t' TicketEventType.message_added none none [] now
  notifications ← notify_for_event context t' event (some m)
  send_all context t' m event notifications

deliver_reply-Leads :
    (context : TenantContext) (w w' : World) (t' : Ticket) (m : Message) (now : ℕ)
    → Added w m w'
    → Leads (Sent w t' m) (deliver_reply context t' m now w')
unfolding save_ticket record_event
deliver_reply-Leads context w w' t' m now h =
    Leads-bind _ (Leads (Sent w t' m)) _ _ (notify_for_event-Leads context t' _ (some m) _)
      λ ns w'' k.
        send_all-Leads context w w'' t' m _ ns
          (k.tickets ∙ ap (update_where (λ s. s.id == t'.id) (λ _. t')) h.0) (k.messages ∙ h.1)

-- How a reply changes its ticket: an agent's first one sets the time of the first response, and nothing else.
abbrev pub Answered : TenantContext → ℕ → Ticket → Ticket → Type 0
Answered context now t t' =
    ((context.role ≢ UserRole.customer)
      × (t.first_response_at ≡ none)
      × (t' ≡ record t { first_response_at = some now }))
    ⊎ (((context.role ≡ UserRole.customer) ⊎ (is_some t.first_response_at ≡ true)) × (t' ≡ t))

role_cases :
    (role : UserRole)
    → ((role ≢ UserRole.customer) × (is_agent (sender_type_by_role role) ≡ true))
      ⊎ ((role ≡ UserRole.customer) × (is_agent (sender_type_by_role role) ≡ false))
unfolding sender_type_by_role
role_cases UserRole.admin = inl (λ e. cc (e), refl)
role_cases UserRole.manager = inl (λ e. cc (e), refl)
role_cases UserRole.agent = inl (λ e. cc (e), refl)
role_cases UserRole.customer = inr (refl, refl)

mark_first_response-Answered :
    (context : TenantContext) (now : ℕ) (t : Ticket)
    → Answered context now t (mark_first_response (sender_type_by_role context.role) now t)
unfolding mark_first_response
mark_first_response-Answered context now t = elim (role_cases context.role) [
  | inr (customer, sender) ↦ rw sender (inr (inl customer, refl))
  | inl (staff, sender) ↦ elim (Option-cases t.first_response_at) [
    | inl first ↦ inl (staff, first, rw (sender, first) refl)
    | inr (at, again) ↦
        let set : is_some t.first_response_at ≡ true = rw again refl in
        rw (sender, set) (inr (inr refl, refl))
  ]
]

-- The message of a reply.
abbrev pub IsReply : TenantContext → Ticket → String → ℕ → Message → Type 0
IsReply context t body now m =
    (m.ticket_id ≡ t.id)
    × (m.organization_id ≡ context.organization_id)
    × (m.sender_user_id ≡ some context.user_id)
    × (m.sender_type ≡ sender_type_by_role context.role)
    × (m.body ≡ body)
    × (m.is_internal ≡ false)
    × (m.created_at ≡ now)

-- What a posted reply leaves behind.
abbrev pub Posted : TenantContext → ℕ → String → ℕ → World → Message → World → Type 0
Posted context ticket_id body now w m w' =
    (t : Ticket) × ((t' : Ticket) × ((get_visible context ticket_id w.session ≡ some t)
        × (same_status t.status TicketStatus.closed ≡ false)
        × Answered context now t t'
        × IsReply context t body now m
        × (w'.session.messages ≡ w.session.messages ++ m ∷ [])
        × (w'.session.tickets ≡ saved_tickets w t')
        × (w'.committed ≡ w'.session)))

deliver_reply-Posted :
    (context : TenantContext) (ticket_id : ℕ) (body : String) (now : ℕ) (w w' : World) (t : Ticket)
    (m m' : Message)
    → get_visible context ticket_id w.session ≡ some t
    → same_status t.status TicketStatus.closed ≡ false
    → Added w m w'
    → IsReply context t body now m
    → (deliver_reply context (mark_first_response m.sender_type now t) m now w').0 ≡ ok m'
    → Posted context ticket_id body now w m'
        (deliver_reply context (mark_first_response m.sender_type now t) m now w').1
deliver_reply-Posted context ticket_id body now w w' t m m' found working kept reply h =
    let t' = mark_first_response m.sender_type now t in
    let d = deliver_reply-Leads context w w' t' m now kept in
    let same : d.result ≡ m' = ok-ok (sym d.returns ∙ h) in
    (
      t,
      (
        t',
        (
          found,
          working,
          rw (reply.3) (mark_first_response-Answered context now t),
          subst (IsReply context t body now) (sym d.post.0 ∙ same) reply,
          rw (sym (sym d.post.0 ∙ same)) d.post.3,
          d.post.1,
          d.post.2,
        ),
      ),
    )

-- The draft is looked up, and nothing is written.
accepted_draft-cases :
    (context : TenantContext) (t : Ticket) (draft_id : Option ℕ) (w : World)
    → (accepted_draft context t draft_id w
        ≡ (raised (AppError.not_found_error ErrorCode.ai_draft_not_found), w))
      ⊎ ((draft : Option Message) × (accepted_draft context t draft_id w ≡ (ok draft, w)))
unfolding accepted_draft
accepted_draft-cases context t none w = inr (none, refl)
accepted_draft-cases context t (some id) w =
    elim (Option-cases (find_draft context t.id id w.session)) [
      | inl none' ↦ inl (rw none' refl)
      | inr (draft, found) ↦ inr (some draft, rw found refl)
    ]

record_acceptance-Leads :
    (context : TenantContext) (t : Ticket) (body : String) (draft : Option Message) (w : World)
    → Leads
        (λ _ w'.
          (w'.session.tickets ≡ w.session.tickets) × (w'.session.messages ≡ w.session.messages))
        (record_acceptance context t body draft w)
unfolding record_acceptance record_for
record_acceptance-Leads context t body none w = Leads-pure _ tt w (refl, refl)
record_acceptance-Leads context t body (some draft) w = Leads-pure _ tt _ (refl, refl)

-- The calls after the guards.
abbrev compose_reply : TenantContext → Ticket → String → Option Message → ℕ → App Message
compose_reply context t body draft now = do
  m ← post_ context t body false now
  record_acceptance context t body draft
  deliver_reply context (mark_first_response m.sender_type now t) m now

compose_reply-Posted :
    (context : TenantContext) (ticket_id : ℕ) (body : String) (draft : Option Message) (now : ℕ)
    (w : World) (t : Ticket) (m : Message)
    → get_visible context ticket_id w.session ≡ some t
    → same_status t.status TicketStatus.closed ≡ false
    → (compose_reply context t body draft now w).0 ≡ ok m
    → Posted context ticket_id body now w m (compose_reply context t body draft now w).1
unfolding post_
compose_reply-Posted context ticket_id body draft now w t m found working =
    let (posted, w1) = post_ context t body false now w in
    Leads-bind _ (λ r. r.0 ≡ ok m → Posted context ticket_id body now w m r.1) _ _
      (record_acceptance-Leads context t body draft w1)
      λ _ w2 k.
        deliver_reply-Posted context ticket_id body now w w2 t _ m found working k
          (refl, refl, refl, refl, refl, refl, refl)

-- A reply that was posted went to a ticket that the caller can see and that is not closed. The message that is
-- returned is public, of that ticket, the caller's organization, the caller, the given body and the given
-- time, and it is stored after the messages that there were. Where the caller is not a customer and the
-- ticket had no first response, the ticket's row gets the reply's time as its first response and is otherwise
-- as it was; in every other case it is as it was. All of it is committed.
pub post_reply-Posted :
    (context : TenantContext) (ticket_id : ℕ) (body : String) (draft_id : Option ℕ) (now : ℕ)
    (w : World) (m : Message)
    → (post_reply context ticket_id body draft_id now w).0 ≡ ok m
    → Posted context ticket_id body now w m (post_reply context ticket_id body draft_id now w).1
unfolding post_reply require_visible_ticket
post_reply-Posted context ticket_id body draft_id now w m h =
    elim (Option-cases (get_visible context ticket_id w.session)) [
      | inl none' ↦ absurd (raised-ok (rw none' at h))
      | inr (t, found) ↦ elim (Bool-cases (same_status t.status TicketStatus.closed)) [
        | inl closed ↦ absurd (raised-ok (rw (found, closed) at h))
        | inr working ↦ elim (accepted_draft-cases context t draft_id w) [
          | inl missing ↦ absurd (raised-ok (rw (found, working, missing) at h))
          | inr (draft, there) ↦
              let same : post_reply context ticket_id body draft_id now w
                  ≡ compose_reply context t body draft now w =
                rw (found, working, there) refl in
              rw same (
                compose_reply-Posted context ticket_id body draft now w t m found working
                  (rw same at h))
        ]
      ]
    ]
