-- ===== src/Realtime/Connections.antt =====
-- The sockets of one process, backend/app/websocket/manager.py: the outbound queue of a connection, the
-- registry, and what a published message does to them. The registry, a dictionary of sets by
-- organization, is a list that is filtered by it.
pub mod Queues
use support_flow.Prelude.{
  ℕ, suc, Bool, true, false, not, Option, none, some, List, [], ◌∷◌, ◌++◌, ◌&&◌, ◌==◌, leb, length,
  is_some, select, if◌then◌else◌,
}
use support_flow.Tenancy.{TenantContext}
use support_flow.Realtime.{Envelope, envelope_visible_to}

pub data CloseCode : Type 0 where
  normal : CloseCode
  slow_consumer : CloseCode
  unauthenticated : CloseCode
  forbidden : CloseCode
  auth_timeout : CloseCode

-- `none` in the queue is the marker that closes the socket.
pub record Connection : Type 0 where
  pub id : ℕ
  pub context : TenantContext
  pub close_code : Option CloseCode
  pub queue : List (Option Envelope)

-- `asyncio.Queue(maxsize)`, where 0 is no bound.
abbrev full : ℕ → List (Option Envelope) → Bool
full depth queue = not (depth == 0) && leb depth (length queue)

unfoldable pub drop_backlog : Connection → Connection
drop_backlog c = record c { close_code = some CloseCode.slow_consumer; queue = none ∷ [] }

unfoldable pub offer : ℕ → Envelope → Connection → Bool × Connection
unfolding drop_backlog
offer depth envelope c =
    if is_some c.close_code
    then (false, c)
    else if full depth c.queue
    then (false, drop_backlog c)
    else (true, record c { queue = c.queue ++ some envelope ∷ [] })

unfoldable pub register : Connection → List Connection → List Connection
register c connections = c ∷ select (λ d. not (d.id == c.id)) connections

unfoldable pub unregister : Connection → List Connection → List Connection
unregister c connections = select (λ d. not (d.id == c.id)) connections

abbrev pub organization_of : Envelope → ℕ
organization_of (Envelope.ticket_event e) = e.organization_id
organization_of (Envelope.notification n) = n.organization_id

-- How many took the envelope, and the connections after the broadcast.
unfoldable pub broadcast : ℕ → Envelope → List Connection → ℕ × List Connection
unfolding offer
broadcast depth envelope [] = (0, [])
broadcast depth envelope (c ∷ connections) =
    let (delivered, rest) = broadcast depth envelope connections in
    let (taken, c') = offer depth envelope c in
    if c.context.organization_id == organization_of envelope
      && envelope_visible_to envelope c.context
    then ((if taken then suc delivered else delivered), c' ∷ rest)
    else (delivered, c ∷ rest)

-- `_dispatch` of a message that was parsed: `channel` is the organization that its channel names, if any.
unfoldable pub dispatch : ℕ → Option ℕ → Envelope → List Connection → List Connection
unfolding broadcast
dispatch depth none envelope connections = connections
dispatch depth (some channel) envelope connections =
    if organization_of envelope == channel
    then (broadcast depth envelope connections).1
    else connections

-- What `writer` does with what its queue holds; `sent` is whether the send ended before its timeout and
-- without an exception.
unfoldable pub write_next : Bool → Connection → List (Option Envelope) → Connection
write_next sent c [] = c
write_next sent c (none ∷ rest) = record c {
  close_code = some CloseCode.slow_consumer;
  queue = rest;
}
write_next sent c (some envelope ∷ rest) =
    if sent
    then record c { queue = rest }
    else record c { close_code = some CloseCode.slow_consumer; queue = rest }

-- One round of `writer`.
unfoldable pub writer_round : Bool → Connection → Connection
unfolding write_next
writer_round sent c = write_next sent c c.queue

unfoldable pub write_to : ℕ → Bool → List Connection → List Connection
unfolding writer_round
write_to id sent [] = []
write_to id sent (c ∷ connections) =
    (if c.id == id then writer_round sent c else c) ∷ write_to id sent connections

-- `Connection.__init__`.
unfoldable pub new_connection : ℕ → TenantContext → Connection
new_connection id context = record { id = id; context = context; close_code = none; queue = [] }

-- What the event loop runs without a pause: a socket arrives or leaves, a message is dispatched, a writer
-- goes round. A round of a writer that has returned is allowed here, which is more than can happen.
pub data Turn : Type 0 where
  connected : ℕ → TenantContext → Turn
  disconnected : Connection → Turn
  published : Option ℕ → Envelope → Turn
  written : ℕ → Bool → Turn

unfoldable pub take_turn : ℕ → Turn → List Connection → List Connection
unfolding register unregister dispatch write_to new_connection
take_turn depth (Turn.connected id context) connections =
    register (new_connection id context) connections
take_turn depth (Turn.disconnected c) connections = unregister c connections
take_turn depth (Turn.published channel envelope) connections =
    dispatch depth channel envelope connections
take_turn depth (Turn.written id sent) connections = write_to id sent connections

unfoldable pub take_turns : ℕ → List Turn → List Connection → List Connection
unfolding take_turn
take_turns depth [] connections = connections
take_turns depth (t ∷ turns) connections = take_turns depth turns (take_turn depth t connections)
