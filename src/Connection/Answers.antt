-- ===== src/Connection/Answers.antt =====
-- connection.rs: `next` and the calls neither lose nor double a response.
use polkadot_p2p_connect.Prelude.{
  ℕ, ◌+◌, ◌≤◌, ◌≡◌, refl, ◌∙◌, arith, inl, inr, List, [], ◌∷◌, Option, none, some, Option-cases,
}
use polkadot_p2p_connect.Prelude.Maps.{Map, get, remove}
use polkadot_p2p_connect.Multistreams.{OutputState}
use polkadot_p2p_connect.Multistreams.Next
use polkadot_p2p_connect.Multistreams.Next.{Round, stopped}
use polkadot_p2p_connect.Streams.{Streams, IsFresh}
use polkadot_p2p_connect.Timers.{Poll}
use polkadot_p2p_connect.Connection.{Connection, RequestDetails, find, Message}
use polkadot_p2p_connect.Connection.Calls.{with_yamux}
use polkadot_p2p_connect.Connection.Turns.{
  Turn, again, waiting, ended, aborted, emit, failed, outbound_fits, inbound_fits, serves,
}
use polkadot_p2p_connect.Connection.Next.{
  expired, on_expired, handle_request_timeouts, refuse, serve, on_unknown, on_subscription,
  on_other, on_request, on_output, on_streams, on_timeouts, next_round, next_inner, next,
}
use polkadot_p2p_connect.Connection.Responses.{
  Settles, to_come, waits, answers, waits-remove, on_inflight-Settles, on_incoming_request-Settles,
}
use polkadot_p2p_connect.Connection.Subscribed.{on_outbound-Settles, on_inbound-Settles}

module _ {Sleep : Type 0} {V : Type 0} (poll : Sleep → Poll) (inflight : Map (ℕ × V)) where
  expired-waits :
      (ps : List (RequestDetails Sleep)) (id protocol_id : ℕ)
      → (expired poll inflight ps).1 ≡ some (id, protocol_id)
      → waits id inflight ≡ 1
  unfolding expired
  expired-waits [] id protocol_id e = cc
  expired-waits (p ∷ ps) id protocol_id e = ground (arith, expired-waits ps id protocol_id)

abbrev pub answered_by : ℕ → Option Message → ℕ
answered_by id none = 0
answered_by id (some m) = answers id m

module _ {S : Streams} {Sleep : Type 0} (law : IsFresh S) (id : ℕ) where
  on_unknown-Settles :
      (j : ℕ) (state : OutputState) (c : Connection S Sleep)
      → Settles law id c (on_unknown j state c)
  unfolding on_unknown serve refuse
  on_unknown-Settles j state c = elim (Option-cases (find (serves state) c.request_details)) [
    | inl e ↦
        rw (e, on_unknown)
          (ground (
            arith,
            law.reject_protocol-mono j c.yamux,
            law.reset_stream_immediately-mono j c.yamux,
          ))
    | inr (p, e) ↦
        rw (e, on_unknown)
          (ground (arith, law.accept_protocol-mono j p.protocol.max_response_size_in_bytes c.yamux))
  ]

  on_subscription-Settles :
      (j : ℕ) (state : OutputState) (c : Connection S Sleep)
      → Settles law id c (on_subscription j state c)
  unfolding on_subscription
  on_subscription-Settles j state c =
      elim (Option-cases (find (inbound_fits j state) c.subscription_details)) [
        | inl e ↦ rw (e, on_subscription) (on_unknown-Settles j state c)
        | inr (p, e) ↦
            rw (e, on_subscription) (on_inbound-Settles law id j p p.their_stream state c)
      ]

  on_other-Settles :
      (j : ℕ) (state : OutputState) (c : Connection S Sleep) → Settles law id c (on_other j state c)
  unfolding on_other
  on_other-Settles j state c = elim (Option-cases (find (outbound_fits j) c.subscription_details)) [
    | inl e ↦ rw (e, on_other) (on_subscription-Settles j state c)
    | inr (p, e) ↦ rw (e, on_other) (on_outbound-Settles law id j p p.our_stream state c)
  ]

  on_request-Settles :
      (j : ℕ) (state : OutputState) (c : Connection S Sleep)
      → Settles law id c (on_request j state c)
  unfolding on_request
  on_request-Settles j state c = elim (Option-cases (get j c.incoming_requests)) [
    | inl e ↦ rw (e, on_request) (on_other-Settles j state c)
    | inr (protocol_id, e) ↦
        rw (e, on_request)
          (on_incoming_request-Settles law id j protocol_id state
            (record c { incoming_requests = remove j c.incoming_requests }))
  ]

  on_output-Settles :
      (j : ℕ) (state : OutputState) (c : Connection S Sleep)
      → Settles law id c (on_output j state c)
  unfolding on_output
  on_output-Settles j state c = elim (Option-cases (get j c.inflight_requests)) [
    | inl e ↦ rw (e, on_output) (on_request-Settles j state c)
    | inr ((protocol_id, info), e) ↦
        rw (e, on_output)
          (on_inflight-Settles law id j protocol_id info state c (rw (e, waits) refl))
  ]

  on_streams-Settles :
      (s : S.State) (round : Round) (c : Connection S Sleep)
      → law.next_id c.yamux ≤ law.next_id s
      → Settles law id c (on_streams (s, round) c)
  unfolding on_streams
  on_streams-Settles s Next.again c le = (omega arith, le)
  on_streams-Settles s stopped c le = (omega arith, le)
  on_streams-Settles s Next.aborted c le = (omega arith, le)
  on_streams-Settles s (Next.failed e) c le = (omega arith, le)
  on_streams-Settles s (Next.emit o) c le =
      let (count, mono) = on_output-Settles o.stream_id o.state (with_yamux s c) in
      (count, omega arith)

  abbrev TimedOut : Connection S Sleep → Connection S Sleep × Option Message → Type 0
  TimedOut c (c', out) =
      (to_come law id c' + answered_by id out ≡ to_come law id c)
      × (law.next_id c.yamux ≤ law.next_id c'.yamux)

  on_expired-TimedOut :
      (details : List (RequestDetails Sleep)) (out : Option (ℕ × ℕ)) (c : Connection S Sleep)
      → ((j protocol_id : ℕ) → out ≡ some (j, protocol_id) → waits j c.inflight_requests ≡ 1)
      → TimedOut c (on_expired (details, out) c)
  on_expired-TimedOut details none c h = (omega arith, omega arith)
  on_expired-TimedOut details (some (j, protocol_id)) c h =
      let expects = h j protocol_id refl in
      ground
        (arith, waits-remove id j c.inflight_requests, law.reset_stream_immediately-mono j c.yamux)

  timeouts-TimedOut :
      (poll : Sleep → Poll) (c : Connection S Sleep) → TimedOut c (handle_request_timeouts poll c)
  unfolding handle_request_timeouts
  timeouts-TimedOut poll c =
      let (details, out) = expired poll c.inflight_requests c.request_details in
      on_expired-TimedOut details out c (expired-waits poll c.inflight_requests c.request_details)

  on_timeouts-Settles :
      (out : Option Message) (c c' : Connection S Sleep)
      → to_come law id c' + answered_by id out ≡ to_come law id c
      → law.next_id c.yamux ≤ law.next_id c'.yamux
      → Settles law id c (on_timeouts (c', out))
  unfolding on_timeouts
  on_timeouts-Settles (some m) c c' count mono = (count, mono)
  on_timeouts-Settles none c c' count mono =
      let (count', mono') =
        on_streams-Settles (S.next c'.yamux).0 (S.next c'.yamux).1 c' (law.next-mono c'.yamux) in
      (omega arith, omega arith)

  round-Settles :
      (buf : List Message) (poll : Sleep → Poll) (c : Connection S Sleep)
      → buf ≡ c.next_buf
      → Settles law id c (next_round poll c)
  unfolding next_round
  round-Settles [] poll c e =
      let (count, mono) = timeouts-TimedOut poll c in
      let (count', mono') =
        on_timeouts-Settles (handle_request_timeouts poll c).1 c (handle_request_timeouts poll c).0
          count mono in
      rw (← e, next_round) (count' ∙ rw (← e) refl, mono')
  round-Settles (m ∷ ms) poll c e = rw (← e, next_round) (omega arith, omega arith)

  go_on-Settles :
      (c c' : Connection S Sleep) (turn : Turn)
      (rest : Connection S Sleep → Connection S Sleep × Turn)
      → Settles law id c (c', turn)
      → Settles law id c' (rest c')
      → Settles law id c (elim turn [
        | again ↦ rest c'
        | waiting ↦ (c', waiting)
        | ended ↦ (c', ended)
        | aborted ↦ (c', aborted)
        | emit m ↦ (c', emit m)
        | failed e ↦ (c', failed e)
      ])
  go_on-Settles c c' again rest (count, mono) (count', mono') = (omega arith, omega arith)
  go_on-Settles c c' waiting rest h k = h
  go_on-Settles c c' ended rest h k = h
  go_on-Settles c c' aborted rest h k = h
  go_on-Settles c c' (emit m) rest h k = h
  go_on-Settles c c' (failed e) rest h k = h

  inner-Settles :
      (polls : List (Sleep → Poll)) (c : Connection S Sleep) → Settles law id c (next_inner polls c)
  unfolding next_inner
  inner-Settles [] c = (omega arith, omega arith)
  inner-Settles (poll ∷ polls) c =
      let (c', turn) = next_round poll c in
      go_on-Settles c c' turn (next_inner polls) (round-Settles c.next_buf poll c refl)
        (inner-Settles polls c')

  -- A call of `next` takes at most the response that it returns from those to come.
  pub next-Settles :
      (polls : List (Sleep → Poll)) (c : Connection S Sleep) → Settles law id c (next polls c)
  unfolding next
  next-Settles polls c = ground (arith, inner-Settles polls c)
