-- ===== src/Realtime/Connections/Queues.antt =====
-- What the queues of backend/app/websocket/manager.py hold.
use support_flow.Prelude.{
  ℕ, suc, ◌≡◌, ◌≤◌, refl, Bool, true, false, not, Option, none, some, List, [], ◌∷◌, ◌++◌, ◌&&◌,
  ◌==◌, leb, length, is_some, inl, inr, All, All-append, All-keep, Bool-cases, arith,
}
use support_flow.Tenancy.{TenantContext}
use support_flow.Realtime.{Envelope, envelope_visible_to}
use support_flow.Realtime.Connections.{
  Connection, offer, drop_backlog, broadcast, dispatch, organization_of, Turn, write_next,
  writer_round, write_to, register, unregister, new_connection, take_turn, take_turns,
}

-- An item that may be sent to a socket: the marker, or an envelope that its holder may see.
abbrev pub Entitled : TenantContext → Option Envelope → Type 0
Entitled context none = Unit
Entitled context (some envelope) = envelope_visible_to envelope context ≡ true

-- A queue holds what its connection may see, and is within its bound.
abbrev pub IsSound : ℕ → Connection → Type 0
IsSound depth c = All (Entitled c.context) c.queue × (length c.queue ≤ depth)

length-append :
    (q : List (Option Envelope)) (i : Option Envelope) → length (q ++ i ∷ []) ≡ suc (length q)
length-append [] i = refl
length-append (j ∷ q) i = ground (arith, length-append q i)

offer-IsSound :
    (depth : ℕ) (envelope : Envelope) (c : Connection)
    → 1 ≤ depth
    → envelope_visible_to envelope c.context ≡ true
    → IsSound depth c
    → IsSound depth (offer depth envelope c).1
unfolding offer drop_backlog
offer-IsSound depth envelope c positive visible (entitled, bounded) =
    elim (Bool-cases (is_some c.close_code)) [
      | inl closed ↦ rw closed (entitled, bounded)
      | inr still ↦ elim (Bool-cases (not (depth == 0) && leb depth (length c.queue))) [
        | inl full' ↦ rw (still, full') ((tt, tt), positive)
        | inr room ↦
            rw (still, room)
              (
                All-append (Entitled c.context) c.queue (some envelope ∷ []) entitled (visible, tt),
                rw (length-append c.queue (some envelope))
                    (ground (arith, room, bounded, positive)),
              )
      ]
    ]

broadcast-IsSound :
    (depth : ℕ) (envelope : Envelope) (connections : List Connection)
    → 1 ≤ depth
    → All (IsSound depth) connections
    → All (IsSound depth) (broadcast depth envelope connections).1
unfolding broadcast
broadcast-IsSound depth envelope [] positive h = tt
broadcast-IsSound depth envelope (c ∷ connections) positive h =
    let rest = broadcast-IsSound depth envelope connections positive h.1 in
    elim (Bool-cases (
      c.context.organization_id == organization_of envelope
      && envelope_visible_to envelope c.context)) [
        | inl here ↦
            rw here (offer-IsSound depth envelope c positive (ground (arith, here)) h.0, rest)
        | inr elsewhere ↦ rw elsewhere (h.0, rest)
      ]

dispatch-IsSound :
    (depth : ℕ) (channel : Option ℕ) (envelope : Envelope) (connections : List Connection)
    → 1 ≤ depth
    → All (IsSound depth) connections
    → All (IsSound depth) (dispatch depth channel envelope connections)
unfolding dispatch
dispatch-IsSound depth none envelope connections positive h = h
dispatch-IsSound depth (some channel) envelope connections positive h =
    elim (Bool-cases (organization_of envelope == channel)) [
      | inl same ↦ rw same (broadcast-IsSound depth envelope connections positive h)
      | inr other ↦ rw other h
    ]

write_next-IsSound :
    (depth : ℕ) (sent : Bool) (c : Connection) (queue : List (Option Envelope))
    → IsSound depth c
    → All (Entitled c.context) queue
    → length queue ≤ depth
    → IsSound depth (write_next sent c queue)
unfolding write_next
write_next-IsSound depth sent c [] h entitled bounded = h
write_next-IsSound depth sent c (none ∷ rest) h entitled bounded =
    (entitled.1, ground (arith, bounded))
write_next-IsSound depth true c (some envelope ∷ rest) h entitled bounded =
    (entitled.1, ground (arith, bounded))
write_next-IsSound depth false c (some envelope ∷ rest) h entitled bounded =
    (entitled.1, ground (arith, bounded))

writer_round-IsSound :
    (depth : ℕ) (sent : Bool) (c : Connection)
    → IsSound depth c
    → IsSound depth (writer_round sent c)
unfolding writer_round
writer_round-IsSound depth sent c h = write_next-IsSound depth sent c c.queue h h.0 h.1

write_to-IsSound :
    (depth id : ℕ) (sent : Bool) (connections : List Connection)
    → All (IsSound depth) connections
    → All (IsSound depth) (write_to id sent connections)
unfolding write_to
write_to-IsSound depth id sent [] h = tt
write_to-IsSound depth id sent (c ∷ connections) h =
    let rest = write_to-IsSound depth id sent connections h.1 in
    elim (Bool-cases (c.id == id)) [
      | inl its ↦ rw its (writer_round-IsSound depth sent c h.0, rest)
      | inr another ↦ rw another (h.0, rest)
    ]

take_turn-IsSound :
    (depth : ℕ) (t : Turn) (connections : List Connection)
    → 1 ≤ depth
    → All (IsSound depth) connections
    → All (IsSound depth) (take_turn depth t connections)
unfolding take_turn register unregister new_connection
take_turn-IsSound depth (Turn.connected id context) connections positive h =
    ((tt, ground (arith, positive)), All-keep (IsSound depth) (λ d. not (d.id == id)) connections h)
take_turn-IsSound depth (Turn.disconnected c) connections positive h =
    All-keep (IsSound depth) (λ d. not (d.id == c.id)) connections h
take_turn-IsSound depth (Turn.published channel envelope) connections positive h =
    dispatch-IsSound depth channel envelope connections positive h
take_turn-IsSound depth (Turn.written id sent) connections positive h =
    write_to-IsSound depth id sent connections h

take_turns-keep-IsSound :
    (depth : ℕ) (turns : List Turn) (connections : List Connection)
    → 1 ≤ depth
    → All (IsSound depth) connections
    → All (IsSound depth) (take_turns depth turns connections)
unfolding take_turns
take_turns-keep-IsSound depth [] connections positive h = h
take_turns-keep-IsSound depth (t ∷ turns) connections positive h =
    take_turns-keep-IsSound depth turns (take_turn depth t connections) positive
      (take_turn-IsSound depth t connections positive h)

-- With a bound of at least one on a queue, whatever sockets come and go, whatever is published on
-- whatever channel, and however the writers fare, every outbound queue holds only envelopes that the holder of
-- its socket may see and the close marker, and never more items than the bound.
pub take_turns-IsSound :
    (depth : ℕ) (turns : List Turn) → 1 ≤ depth → All (IsSound depth) (take_turns depth turns [])
take_turns-IsSound depth turns positive = take_turns-keep-IsSound depth turns [] positive tt
