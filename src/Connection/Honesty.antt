-- ===== src/Connection/Honesty.antt =====
-- connection.rs: the notifications that an output of the streams makes `next` hand out.
use polkadot_p2p_connect.Prelude.{ℕ, refl, inl, inr, Option-cases}
use polkadot_p2p_connect.Prelude.Maps.{get, remove}
use polkadot_p2p_connect.Multistreams.{
  OutputState, incoming_protocol, outgoing_rejected, outgoing_accepted, message, closed, by_remote,
  incoming_message_too_large,
}
use polkadot_p2p_connect.Streams.{Streams}
use polkadot_p2p_connect.Connection.{
  Connection, RequestState, awaiting_protocol_confirmation, awaiting_response_payload,
  RequestDetails, find,
}
use polkadot_p2p_connect.Connection.Turns.{inbound_fits, outbound_fits, serves}
use polkadot_p2p_connect.Connection.Requests.{
  on_inflight, on_confirmation, on_response, on_incoming_request,
}
use polkadot_p2p_connect.Connection.Next.{
  refuse, serve, on_unknown, on_subscription, on_other, on_request, on_output,
}
use polkadot_p2p_connect.Connection.Lookup.{Unique}
use polkadot_p2p_connect.Connection.Subscriptions.{
  Honest, on_outbound-Honest, on_inbound-Honest, accepted-Honest,
}

module _ {S : Streams} {Sleep : Type 0} where
  on_inflight-Honest :
      (id protocol_id : ℕ) (info : RequestState) (state : OutputState) (c : Connection S Sleep)
      → Honest (on_inflight id protocol_id info state c)
  unfolding on_inflight on_confirmation on_response
  on_inflight-Honest id protocol_id (awaiting_protocol_confirmation body) (outgoing_accepted name)
        c =
      accepted-Honest (S.send_data id body c.yamux) _ _ (λ s. tt)
  on_inflight-Honest id protocol_id (awaiting_protocol_confirmation body) (incoming_protocol name)
        c =
      tt
  on_inflight-Honest id protocol_id (awaiting_protocol_confirmation body) outgoing_rejected c = tt
  on_inflight-Honest id protocol_id (awaiting_protocol_confirmation body) (message bytes) c = tt
  on_inflight-Honest id protocol_id (awaiting_protocol_confirmation body) (closed reason) c = tt
  on_inflight-Honest id protocol_id awaiting_response_payload (outgoing_accepted name) c = tt
  on_inflight-Honest id protocol_id awaiting_response_payload (incoming_protocol name) c = tt
  on_inflight-Honest id protocol_id awaiting_response_payload outgoing_rejected c = tt
  on_inflight-Honest id protocol_id awaiting_response_payload (message bytes) c = tt
  on_inflight-Honest id protocol_id awaiting_response_payload (closed by_remote) c = tt
  on_inflight-Honest id protocol_id awaiting_response_payload (closed incoming_message_too_large)
        c =
      tt

  on_incoming_request-Honest :
      (id protocol_id : ℕ) (state : OutputState) (c : Connection S Sleep)
      → Honest (on_incoming_request id protocol_id state c)
  unfolding on_incoming_request
  on_incoming_request-Honest id protocol_id (outgoing_accepted name) c = tt
  on_incoming_request-Honest id protocol_id (incoming_protocol name) c = tt
  on_incoming_request-Honest id protocol_id outgoing_rejected c = tt
  on_incoming_request-Honest id protocol_id (message bytes) c = tt
  on_incoming_request-Honest id protocol_id (closed by_remote) c = tt
  on_incoming_request-Honest id protocol_id (closed incoming_message_too_large) c = tt

  refuse-Honest :
      (id : ℕ) (state : OutputState) (c : Connection S Sleep) → Honest (refuse id state c)
  unfolding refuse
  refuse-Honest id (incoming_protocol name) c =
      accepted-Honest (S.reject_protocol id c.yamux) _ c (λ s. tt)
  refuse-Honest id (outgoing_accepted name) c = tt
  refuse-Honest id outgoing_rejected c = tt
  refuse-Honest id (message bytes) c = tt
  refuse-Honest id (closed reason) c = tt

  serve-Honest :
      (id : ℕ) (p : RequestDetails Sleep) (c : Connection S Sleep) → Honest (serve id p c)
  unfolding serve
  serve-Honest id p c =
      accepted-Honest (S.accept_protocol id p.protocol.max_response_size_in_bytes c.yamux) _ c
        (λ s. tt)

  module _ (id : ℕ) (state : OutputState) (c : Connection S Sleep)
      (u : Unique c.subscription_details) where
    on_unknown-Honest : Honest (on_unknown id state c)
    unfolding on_unknown
    on_unknown-Honest = elim (Option-cases (find (serves state) c.request_details)) [
      | inl e ↦ rw (e, on_unknown) (refuse-Honest id state c)
      | inr (p, e) ↦ rw (e, on_unknown) (serve-Honest id p c)
    ]

    on_subscription-Honest : Honest (on_subscription id state c)
    unfolding on_subscription
    on_subscription-Honest =
        elim (Option-cases (find (inbound_fits id state) c.subscription_details)) [
          | inl e ↦ rw (e, on_subscription) on_unknown-Honest
          | inr (p, e) ↦
              rw (e, on_subscription)
                (on_inbound-Honest id p p.their_stream state c (record { unique = u; found = e })
                  refl)
        ]

    on_other-Honest : Honest (on_other id state c)
    unfolding on_other
    on_other-Honest = elim (Option-cases (find (outbound_fits id) c.subscription_details)) [
      | inl e ↦ rw (e, on_other) on_subscription-Honest
      | inr (p, e) ↦
          rw (e, on_other)
            (on_outbound-Honest id p p.our_stream state c (record { unique = u; found = e }))
    ]

    on_request-Honest : Honest (on_request id state c)
    unfolding on_request
    on_request-Honest = elim (Option-cases (get id c.incoming_requests)) [
      | inl e ↦ rw (e, on_request) on_other-Honest
      | inr (protocol_id, e) ↦
          rw (e, on_request)
            (on_incoming_request-Honest id protocol_id state
              (record c { incoming_requests = remove id c.incoming_requests }))
    ]

  -- When no two subscriptions have the same protocol id: a notification that an output of the streams
  -- makes `next` hand out is about a subscription of the connection. After `Opened` both of its streams
  -- are open; with a value the stream of the remote is open; after `Closed` and after an error both of
  -- its streams are closed.
  pub on_output-Honest :
      (id : ℕ) (state : OutputState) (c : Connection S Sleep)
      → Unique c.subscription_details
      → Honest (on_output id state c)
  unfolding on_output
  on_output-Honest id state c u = elim (Option-cases (get id c.inflight_requests)) [
    | inl e ↦ rw (e, on_output) (on_request-Honest id state c u)
    | inr ((protocol_id, info), e) ↦
        rw (e, on_output) (on_inflight-Honest id protocol_id info state c)
  ]
