-- ===== src/Connection/Next.antt =====
-- connection.rs: `next`. An output of the streams belongs to a request of ours, to a request of the
-- remote, to a stream of a subscription, or is refused. `poll` says what polling a timeout gives.
use polkadot_p2p_connect.Prelude.{
  ℕ, Bool, true, false, if◌then◌else◌, List, [], ◌∷◌, Option, none, some,
}
use polkadot_p2p_connect.Prelude.Maps.{Map, get, insert, remove}
use polkadot_p2p_connect.Multistreams.{OutputState, incoming_protocol, closed}
use polkadot_p2p_connect.Multistreams.Next
use polkadot_p2p_connect.Multistreams.Next.{Round, stopped}
use polkadot_p2p_connect.Timers.{Poll, try_next}
use polkadot_p2p_connect.Streams.{Streams}
use polkadot_p2p_connect.Connection.{
  Connection, RequestDetails, find, Message, RequestResponse, RequestResponseError,
}
use polkadot_p2p_connect.Connection.Calls.{with_yamux}
use polkadot_p2p_connect.Connection.Turns.{
  Turn, again, waiting, ended, aborted, emit, failed, try_streams, outbound_fits, inbound_fits,
  serves,
}
use polkadot_p2p_connect.Connection.Requests.{on_inflight, on_incoming_request}
use polkadot_p2p_connect.Connection.Notifications.{on_outbound, on_inbound}

-- The details after the timeouts were looked at, and the request that timed out, with its protocol.
unfoldable pub expired :
    {Sleep V : Type 0}
    → (Sleep → Poll)
    → Map (ℕ × V)
    → List (RequestDetails Sleep)
    → List (RequestDetails Sleep) × Option (ℕ × ℕ)
expired poll inflight [] = ([], none)
expired poll inflight (p ∷ ps) =
    let (ps', later) = expired poll inflight ps in
    elim p.timeouts [
      | none ↦ (p ∷ ps', later)
      | some timeouts ↦
          let (timeouts', out) = try_next poll timeouts in
          let p' = record p { timeouts = some timeouts' } in
          elim out [
            | none ↦ (p' ∷ ps', later)
            | some id ↦ elim (get id inflight) [
              | none ↦ (p' ∷ ps', later)
              | some (protocol_id, state) ↦ (p' ∷ ps, some (id, protocol_id))
            ]
          ]
    ]

abbrev pub finishes : Turn → Bool
finishes ended = true
finishes (failed e) = true
finishes _ = false

module _ {S : Streams} {Sleep : Type 0} where
  abbrev pub on_expired :
      List (RequestDetails Sleep) × Option (ℕ × ℕ)
      → Connection S Sleep
      → Connection S Sleep × Option Message
  on_expired (details, none) c = (record c { request_details = details }, none)
  on_expired (details, some (id, protocol_id)) c = (
    record c {
      request_details = details;
      inflight_requests = remove id c.inflight_requests;
      yamux = S.reset_stream_immediately id c.yamux;
    },
    some (Message.response id protocol_id (RequestResponse.error RequestResponseError.timed_out)),
  )

  unfoldable pub handle_request_timeouts :
      (Sleep → Poll) → Connection S Sleep → Connection S Sleep × Option Message
  unfolding expired
  handle_request_timeouts poll c = on_expired (expired poll c.inflight_requests c.request_details) c

  -- A stream that nobody waits for; its request may have been cancelled.
  unfoldable pub refuse : ℕ → OutputState → Connection S Sleep → Connection S Sleep × Turn
  refuse id (incoming_protocol name) c =
      try_streams (S.reject_protocol id c.yamux) (λ s u. (with_yamux s c, again)) c
  refuse id (closed reason) c = (c, again)
  refuse id _ c = (with_yamux (S.reset_stream_immediately id c.yamux) c, again)

  -- A protocol of requests that we serve; its stream waits for the request.
  unfoldable pub serve : ℕ → RequestDetails Sleep → Connection S Sleep → Connection S Sleep × Turn
  serve id p c =
      try_streams (S.accept_protocol id p.protocol.max_response_size_in_bytes c.yamux)
        (λ s u. (
          record c { yamux = s; incoming_requests = insert id p.protocol_id c.incoming_requests },
          again,
        ))
        c

  unfoldable pub on_unknown : ℕ → OutputState → Connection S Sleep → Connection S Sleep × Turn
  unfolding serve refuse
  on_unknown id state c = elim (find (serves state) c.request_details) [
    | some p ↦ serve id p c
    | none ↦ refuse id state c
  ]

  unfoldable pub on_subscription : ℕ → OutputState → Connection S Sleep → Connection S Sleep × Turn
  unfolding on_inbound on_unknown
  on_subscription id state c = elim (find (inbound_fits id state) c.subscription_details) [
    | some p ↦ on_inbound id p p.their_stream state c
    | none ↦ on_unknown id state c
  ]

  unfoldable pub on_other : ℕ → OutputState → Connection S Sleep → Connection S Sleep × Turn
  unfolding on_outbound on_subscription
  on_other id state c = elim (find (outbound_fits id) c.subscription_details) [
    | some p ↦ on_outbound id p p.our_stream state c
    | none ↦ on_subscription id state c
  ]

  unfoldable pub on_request : ℕ → OutputState → Connection S Sleep → Connection S Sleep × Turn
  unfolding on_incoming_request on_other
  on_request id state c = elim (get id c.incoming_requests) [
    | some protocol_id ↦
        on_incoming_request id protocol_id state
          (record c { incoming_requests = remove id c.incoming_requests })
    | none ↦ on_other id state c
  ]

  unfoldable pub on_output : ℕ → OutputState → Connection S Sleep → Connection S Sleep × Turn
  unfolding on_inflight on_request
  on_output id state c = elim (get id c.inflight_requests) [
    | some (protocol_id, info) ↦ on_inflight id protocol_id info state c
    | none ↦ on_request id state c
  ]

  unfoldable pub on_streams : S.State × Round → Connection S Sleep → Connection S Sleep × Turn
  unfolding on_output
  on_streams (s, Next.again) c = (with_yamux s c, waiting)
  on_streams (s, stopped) c = (with_yamux s c, ended)
  on_streams (s, Next.aborted) c = (with_yamux s c, aborted)
  on_streams (s, Next.emit o) c = on_output o.stream_id o.state (with_yamux s c)
  on_streams (s, Next.failed e) c = (with_yamux s c, failed e)

  unfoldable pub on_timeouts : Connection S Sleep × Option Message → Connection S Sleep × Turn
  unfolding on_streams
  on_timeouts (c, some m) = (c, emit m)
  on_timeouts (c, none) = on_streams (S.next c.yamux) c

  -- A round of `next_inner`: what is queued, then the timeouts, then the streams.
  unfoldable pub next_round : (Sleep → Poll) → Connection S Sleep → Connection S Sleep × Turn
  unfolding handle_request_timeouts on_timeouts
  next_round poll c = elim c.next_buf [
    | m ∷ queued ↦ (record c { next_buf = queued }, emit m)
    | [] ↦ on_timeouts (handle_request_timeouts poll c)
  ]

  -- `next_inner`, with what `poll` is in each round; `again` is that these were not enough.
  unfoldable pub next_inner : List (Sleep → Poll) → Connection S Sleep → Connection S Sleep × Turn
  unfolding next_round
  next_inner [] c = (c, again)
  next_inner (poll ∷ polls) c =
      let (c', turn) = next_round poll c in
      elim turn [
        | again ↦ next_inner polls c'
        | waiting ↦ (c', waiting)
        | ended ↦ (c', ended)
        | aborted ↦ (c', aborted)
        | emit m ↦ (c', emit m)
        | failed e ↦ (c', failed e)
      ]

  -- `next`: `ended` is `None`, `emit` a message, `failed` an error.
  unfoldable pub next : List (Sleep → Poll) → Connection S Sleep → Connection S Sleep × Turn
  unfolding next_inner
  next polls c =
      let (c', turn) = next_inner polls c in
      if c.finished
      then (c, ended)
      else (if finishes turn then record c' { finished = true } else c', turn)
