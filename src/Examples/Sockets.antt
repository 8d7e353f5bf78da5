-- ===== src/Examples/Sockets.antt =====
-- Sockets that come and go, on the queues of backend/app/websocket/manager.py.
use support_flow.Prelude.{◌≡◌, refl, true, none, some, List, [], ◌∷◌, All, map, arith}
use support_flow.Permissions.{has_permission, row_scope_for, ticket_scope_by_role}
use support_flow.Tenancy.{has}
use support_flow.Realtime.{Envelope, envelope_visible_to, ticket_event_visible_to}
use support_flow.Realtime.Connections.{Connection, Turn, take_turns}
use support_flow.Realtime.Connections.Queues.{IsSound, take_turns-IsSound}
use support_flow.Examples.{agent, portal}
use support_flow.Examples.Desk.{announced}

-- An agent and a customer are connected; one note is published on its channel three times and once on
-- another one, and the agent reads nothing.
abbrev busy : List Turn
busy =
    Turn.connected 1 agent
    ∷ Turn.connected 2 portal
    ∷ Turn.published (some 1) (Envelope.ticket_event announced)
    ∷ Turn.published (some 2) (Envelope.ticket_event announced)
    ∷ Turn.published (some 1) (Envelope.ticket_event announced)
    ∷ Turn.written 2 true
    ∷ []

abbrev flooded : List Turn
flooded =
    Turn.connected 1 agent
    ∷ Turn.connected 2 portal
    ∷ Turn.published (some 1) (Envelope.ticket_event announced)
    ∷ Turn.published (some 1) (Envelope.ticket_event announced)
    ∷ Turn.published (some 1) (Envelope.ticket_event announced)
    ∷ []

-- The queues of the customer and of the agent.
busy_queues :
    map Connection.queue (take_turns 2 busy [])
    ≡ []
      ∷ (some (Envelope.ticket_event announced) ∷ some (Envelope.ticket_event announced) ∷ [])
      ∷ []
unfolding take_turns envelope_visible_to ticket_event_visible_to has has_permission row_scope_for
    ticket_scope_by_role
busy_queues = refl

flooded_queues : map Connection.queue (take_turns 2 flooded []) ≡ [] ∷ (none ∷ []) ∷ []
unfolding take_turns envelope_visible_to ticket_event_visible_to has has_permission row_scope_for
    ticket_scope_by_role
flooded_queues = refl

take_turns-IsSound_example : All (IsSound 2) (take_turns 2 flooded [])
take_turns-IsSound_example = take_turns-IsSound 2 flooded (ground arith)
