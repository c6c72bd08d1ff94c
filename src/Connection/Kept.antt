-- ===== src/Connection/Kept.antt =====
-- connection.rs: what the calls do to the responses that are still to come.
use polkadot_p2p_connect.Prelude.{
  ℕ, ◌+◌, ◌≤◌, ◌<◌, ◌≡◌, refl, arith, inl, inr, if◌then◌else◌, ◌==◌, List, [], ◌∷◌, ◌++◌, some,
  Option-cases,
}
use polkadot_p2p_connect.Prelude.Maps.{Map, get}
use polkadot_p2p_connect.Multistreams
use polkadot_p2p_connect.Streams.{Streams, IsFresh}
use polkadot_p2p_connect.Connection.{
  Connection, RequestState, SubscriptionStreamState, not_open, handshake, opened, find, Message,
  RequestResponse, SubscriptionResponse,
}
use polkadot_p2p_connect.Connection.Calls.{
  Result, ok, err, panicked, request_fits, subscription_fits, await_response, request,
  cancel_request, respond, subscribe, send_notification, cancel_subscription,
  cancel_subscription_silently, await_handshake, notify_on,
}
use polkadot_p2p_connect.Connection.Turns.{Turn, emit}
use polkadot_p2p_connect.Connection.Responses.{
  to_come, waits, queued, answers, waits-remove, waits-insert,
}
use polkadot_p2p_connect.Connection.Subscribed.{Keeps, cancel-Keeps}

abbrev pub count : ℕ → List ℕ → ℕ
count id [] = 0
count id (j ∷ js) = (if j == id then 1 else 0) + count id js

abbrev pub issue : Result ℕ → List ℕ → List ℕ
issue (ok id) issued = id ∷ issued
issue (err e) issued = issued
issue panicked issued = issued

abbrev pub collect : Turn → List ℕ → List ℕ
collect (emit (Message.response id protocol_id res)) done = id ∷ done
collect _ done = done

queued-snoc :
    (id : ℕ) (ms : List Message) (m : Message)
    → queued id (ms ++ m ∷ []) ≡ queued id ms + answers id m
queued-snoc id [] m = omega arith
queued-snoc id (m' ∷ ms) m = omega (arith, queued-snoc id ms m)

Some-waits : {V : Type 0} → (id : ℕ) (m : Map V) (v : V) → get id m ≡ some v → waits id m ≡ 1
Some-waits id m v e = rw (e, waits) refl

module _ {S : Streams} {Sleep : Type 0} (law : IsFresh S) (id : ℕ) where
  pub cancel_request-Keeps : (j : ℕ) (c : Connection S Sleep) → Keeps law id c (cancel_request j c)
  unfolding cancel_request
  cancel_request-Keeps j c = elim (Option-cases (get j c.inflight_requests)) [
    | inl e ↦ rw (e, cancel_request) (refl, omega arith)
    | inr ((protocol_id, state), e) ↦
        rw (e, cancel_request)
          (ground (
            arith,
            queued-snoc id c.next_buf (Message.response j protocol_id RequestResponse.cancelled),
            waits-remove id j c.inflight_requests,
            Some-waits j c.inflight_requests (protocol_id, state) e,
            law.reset_stream_immediately-mono j c.yamux,
          ))
  ]

  pub respond-Keeps :
      (j : ℕ) (bytes : List ℕ) (c : Connection S Sleep) → Keeps law id c (respond j bytes c)
  unfolding respond
  respond-Keeps j bytes c = ground (
    arith,
    law.send_data-mono j bytes c.yamux,
    law.close_stream-mono j (S.send_data j bytes c.yamux).0,
  )

  pub subscribe-Keeps :
      (protocol_id : ℕ) (c : Connection S Sleep) → Keeps law id c (subscribe protocol_id c).0
  unfolding subscribe await_handshake
  subscribe-Keeps protocol_id c =
      elim (Option-cases (find (subscription_fits protocol_id) c.subscription_details)) [
        | inl e ↦ rw (e, subscribe) (refl, omega arith)
        | inr (p, e) ↦
            rw (e, subscribe)
              (ground (
                arith,
                law.open_stream-mono (p.protocol.name ∷ []) p.protocol.max_response_size_in_bytes
                    c.yamux,
              ))
      ]

  notify_on-Keeps :
      (protocol_id : ℕ) (bytes : List ℕ) (ours : SubscriptionStreamState) (c : Connection S Sleep)
      → Keeps law id c (notify_on protocol_id bytes ours c).0
  unfolding notify_on
  notify_on-Keeps protocol_id bytes not_open c = (refl, omega arith)
  notify_on-Keeps protocol_id bytes (handshake j) c = (refl, omega arith)
  notify_on-Keeps protocol_id bytes (opened j) c = (refl, law.send_data-mono j bytes c.yamux)

  pub notify-Keeps :
      (protocol_id : ℕ) (bytes : List ℕ) (c : Connection S Sleep)
      → Keeps law id c (send_notification protocol_id bytes c).0
  unfolding send_notification
  notify-Keeps protocol_id bytes c =
      elim (Option-cases (find (subscription_fits protocol_id) c.subscription_details)) [
        | inl e ↦ rw (e, send_notification) (refl, omega arith)
        | inr (p, e) ↦ rw (e, send_notification) (notify_on-Keeps protocol_id bytes p.our_stream c)
      ]

  pub cancel_subscription-Keeps :
      (protocol_id : ℕ) (c : Connection S Sleep)
      → Keeps law id c (cancel_subscription protocol_id c)
  unfolding cancel_subscription
  cancel_subscription-Keeps protocol_id c = ground (
    arith,
    queued-snoc id (cancel_subscription_silently protocol_id c).0.next_buf
        (Message.notification protocol_id SubscriptionResponse.closed),
    cancel-Keeps law id protocol_id c,
  )

  -- A stream that `request` opened waits for its response.
  await_response-waits :
      (protocol_id : ℕ) (sleep : Sleep) (body : List ℕ) (s : S.State) (r : Multistreams.Result ℕ)
      (c : Connection S Sleep)
      → ((j : ℕ) → r ≡ Multistreams.ok j → waits j c.inflight_requests ≡ 0)
      → to_come law id (await_response protocol_id sleep body (s, r) c).0
        ≡ to_come law id c + count id (issue (await_response protocol_id sleep body (s, r) c).1 [])
  unfolding await_response
  await_response-waits protocol_id sleep body s (Multistreams.ok j) c free =
      let unused = free j refl in
      ground (
        arith,
        waits-insert id j (protocol_id, RequestState.awaiting_protocol_confirmation body)
            c.inflight_requests,
      )
  await_response-waits protocol_id sleep body s (Multistreams.err e) c free = omega arith
  await_response-waits protocol_id sleep body s Multistreams.panicked c free = omega arith

  -- `request` makes a response to come of just the id that it returns.
  pub request-waits :
      (protocol_id : ℕ) (sleep : Sleep) (body : List ℕ) (c : Connection S Sleep)
      → ((j : ℕ) → law.next_id c.yamux ≤ j → waits j c.inflight_requests ≡ 0)
      → to_come law id (request protocol_id sleep body c).0
        ≡ to_come law id c + count id (issue (request protocol_id sleep body c).1 [])
  unfolding request
  request-waits protocol_id sleep body c free =
      elim (Option-cases (find (request_fits protocol_id) c.request_details)) [
        | inl e ↦ rw (e, request) (omega arith)
        | inr (p, e) ↦
            let names = p.protocol.name ∷ [] in
            let size = p.protocol.max_response_size_in_bytes in
            let (s, r) = S.open_stream names size c.yamux in
            rw (e, request)
              (await_response-waits protocol_id sleep body s r c
                (λ j ok_j. free j (law.open_stream-fresh names size j c.yamux ok_j).0))
      ]

  -- At most one stream was opened, and its id is not below those that were used before.
  abbrev pub Fresh : Connection S Sleep → Connection S Sleep × Result ℕ → Type 0
  Fresh c (c', r) =
      (law.next_id c.yamux ≤ law.next_id c'.yamux)
      × (count id (issue r []) ≤ 1)
      × (1 ≤ count id (issue r []) → (law.next_id c.yamux ≤ id) × (id < law.next_id c'.yamux))

  await_response-Fresh :
      (protocol_id : ℕ) (sleep : Sleep) (body : List ℕ) (s : S.State) (r : Multistreams.Result ℕ)
      (c : Connection S Sleep)
      → law.next_id c.yamux ≤ law.next_id s
      → ((j : ℕ) → r ≡ Multistreams.ok j → (law.next_id c.yamux ≤ j) × (j < law.next_id s))
      → Fresh c (await_response protocol_id sleep body (s, r) c)
  unfolding await_response
  await_response-Fresh protocol_id sleep body s (Multistreams.ok j) c mono fresh =
      let (above, below) = fresh j refl in ground arith
  await_response-Fresh protocol_id sleep body s (Multistreams.err e) c mono fresh =
      (mono, omega arith, λ h. absurd (omega arith))
  await_response-Fresh protocol_id sleep body s Multistreams.panicked c mono fresh =
      (mono, omega arith, λ h. absurd (omega arith))

  pub request-Fresh :
      (protocol_id : ℕ) (sleep : Sleep) (body : List ℕ) (c : Connection S Sleep)
      → Fresh c (request protocol_id sleep body c)
  unfolding request
  request-Fresh protocol_id sleep body c =
      elim (Option-cases (find (request_fits protocol_id) c.request_details)) [
        | inl e ↦ rw (e, request) (omega arith, omega arith, λ h. absurd (omega arith))
        | inr (p, e) ↦
            let names = p.protocol.name ∷ [] in
            let size = p.protocol.max_response_size_in_bytes in
            let (s, r) = S.open_stream names size c.yamux in
            rw (e, request)
              (await_response-Fresh protocol_id sleep body s r c
                (law.open_stream-mono names size c.yamux)
                (λ j ok_j. law.open_stream-fresh names size j c.yamux ok_j))
      ]
