-- ===== src/Connection/Responses.antt =====
-- connection.rs: what each call does to the responses that are still to come.
use polkadot_p2p_connect.Prelude.{
  ℕ, ◌+◌, ◌≤◌, ◌≡◌, arith, if◌then◌else◌, ◌==◌, List, [], ◌∷◌, none, some,
}
use polkadot_p2p_connect.Prelude.Maps.{Map, get, insert, remove, get-insert, get-remove}
use polkadot_p2p_connect.Multistreams.{OutputState}
use polkadot_p2p_connect.Streams.{Streams, IsFresh}
use polkadot_p2p_connect.Connection.{
  Connection, RequestState, awaiting_protocol_confirmation, awaiting_response_payload, Message,
}
use polkadot_p2p_connect.Connection.Turns.{Turn, emit}
use polkadot_p2p_connect.Connection.Requests.{
  on_confirmation, on_response, on_inflight, on_incoming_request,
}

-- Is the message a response to the request `id`?
abbrev pub answers : ℕ → Message → ℕ
answers id (Message.response j protocol_id res) = if j == id then 1 else 0
answers id (Message.request j protocol_id req) = 0
answers id (Message.notification protocol_id res) = 0

abbrev pub queued : ℕ → List Message → ℕ
queued id [] = 0
queued id (m ∷ ms) = answers id m + queued id ms

abbrev pub waits : {V : Type 0} → ℕ → Map V → ℕ
waits id m = elim (get id m) [ none ↦ 0 | some _ ↦ 1 ]

abbrev pub answered : ℕ → Turn → ℕ
answered id (emit m) = answers id m
answered id _ = 0

pub waits-remove :
    {V : Type 0}
    → (id j : ℕ) (m : Map V) → waits id (remove j m) ≡ (if j == id then 0 else waits id m)
waits-remove id j m = ground (arith, get-remove id j m)

pub waits-insert :
    {V : Type 0}
    → (id j : ℕ) (v : V) (m : Map V) → waits id (insert j v m) ≡ (if j == id then 1 else waits id m)
waits-insert id j v m = ground (arith, get-insert id j v m)

module _ {S : Streams} {Sleep : Type 0} (law : IsFresh S) (id : ℕ) where
  -- The responses to the request `id` that are still to come.
  abbrev pub to_come : Connection S Sleep → ℕ
  to_come c = queued id c.next_buf + waits id c.inflight_requests

  abbrev pub Settles : Connection S Sleep → Connection S Sleep × Turn → Type 0
  Settles c (c', turn) =
      (to_come c' + answered id turn ≡ to_come c) × (law.next_id c.yamux ≤ law.next_id c'.yamux)

  on_response-Settles :
      (j protocol_id : ℕ) (state : OutputState) (c : Connection S Sleep)
      → waits j c.inflight_requests ≡ 1
      → Settles c (on_response j protocol_id state c)
  unfolding on_response
  on_response-Settles j protocol_id state c h =
      ground
        (arith, waits-remove id j c.inflight_requests, law.reset_stream_immediately-mono j c.yamux)

  on_confirmation-Settles :
      (j protocol_id : ℕ) (body : List ℕ) (state : OutputState) (c : Connection S Sleep)
      → waits j c.inflight_requests ≡ 1
      → Settles c (on_confirmation j protocol_id body state c)
  unfolding on_confirmation
  on_confirmation-Settles j protocol_id body state c h = ground (
    arith,
    waits-remove id j c.inflight_requests,
    waits-insert id j (protocol_id, awaiting_response_payload) c.inflight_requests,
    waits-insert id j (protocol_id, awaiting_protocol_confirmation []) c.inflight_requests,
    law.send_data-mono j body c.yamux,
    law.close_stream-mono j (S.send_data j body c.yamux).0,
    law.reset_stream_immediately-mono j c.yamux,
  )

  pub on_inflight-Settles :
      (j protocol_id : ℕ) (info : RequestState) (state : OutputState) (c : Connection S Sleep)
      → waits j c.inflight_requests ≡ 1
      → Settles c (on_inflight j protocol_id info state c)
  unfolding on_inflight
  on_inflight-Settles j protocol_id (awaiting_protocol_confirmation body) state c h =
      on_confirmation-Settles j protocol_id body state c h
  on_inflight-Settles j protocol_id awaiting_response_payload state c h =
      on_response-Settles j protocol_id state c h

  pub on_incoming_request-Settles :
      (j protocol_id : ℕ) (state : OutputState) (c : Connection S Sleep)
      → Settles c (on_incoming_request j protocol_id state c)
  unfolding on_incoming_request
  on_incoming_request-Settles j protocol_id state c =
      ground (arith, law.reset_stream_immediately-mono j c.yamux)
