-- ===== src/Connection/Requests.antt =====
-- connection.rs: the part of `next_inner` for streams of requests, ours and the remote's.
use polkadot_p2p_connect.Prelude.{ℕ, List, []}
use polkadot_p2p_connect.Prelude.Maps.{insert, remove}
use polkadot_p2p_connect.Multistreams.{
  OutputState, outgoing_rejected, outgoing_accepted, message, closed, by_remote,
  incoming_message_too_large,
}
use polkadot_p2p_connect.Streams.{Streams}
use polkadot_p2p_connect.Connection.{
  Connection, RequestState, awaiting_protocol_confirmation, awaiting_response_payload, Message,
  Request, RequestResponse, RequestResponseError,
}
use polkadot_p2p_connect.Connection.Calls.{with_yamux}
use polkadot_p2p_connect.Connection.Turns.{Turn, again, emit, try_streams}

module _ {S : Streams} {Sleep : Type 0} where
  -- The stream `id` of a request is done with, and `res` is its response.
  abbrev pub finish :
      ℕ → ℕ → RequestResponse → S.State → Connection S Sleep → Connection S Sleep × Turn
  finish id protocol_id res s c = (
    record c { yamux = s; inflight_requests = remove id c.inflight_requests },
    emit (Message.response id protocol_id res),
  )

  abbrev pub finish_with_error :
      ℕ → ℕ → RequestResponseError → S.State → Connection S Sleep → Connection S Sleep × Turn
  finish_with_error id protocol_id e s c = finish id protocol_id (RequestResponse.error e) s c

  abbrev set_request : ℕ → ℕ → RequestState → Connection S Sleep → Connection S Sleep
  set_request id protocol_id state c = record c {
    inflight_requests = insert id (protocol_id, state) c.inflight_requests;
  }

  -- A request whose protocol the remote has not answered. The body is taken out before it is sent.
  unfoldable pub on_confirmation :
      ℕ → ℕ → List ℕ → OutputState → Connection S Sleep → Connection S Sleep × Turn
  on_confirmation id protocol_id body (outgoing_accepted name) c =
      try_streams (S.send_data id body c.yamux)
        (λ s u. (
          set_request id protocol_id awaiting_response_payload (with_yamux (S.close_stream id s) c),
          again,
        ))
        (set_request id protocol_id (awaiting_protocol_confirmation []) c)
  on_confirmation id protocol_id body outgoing_rejected c =
      finish_with_error id protocol_id RequestResponseError.protocol_rejected c.yamux c
  on_confirmation id protocol_id body _ c =
      finish_with_error id protocol_id RequestResponseError.multistream_protocol_error
        (S.reset_stream_immediately id c.yamux) c

  unfoldable pub on_response : ℕ → ℕ → OutputState → Connection S Sleep → Connection S Sleep × Turn
  on_response id protocol_id (message bytes) c =
      finish id protocol_id (RequestResponse.value bytes) (S.reset_stream_immediately id c.yamux) c
  on_response id protocol_id (closed by_remote) c =
      finish_with_error id protocol_id RequestResponseError.closed_by_remote
        (S.reset_stream_immediately id c.yamux) c
  on_response id protocol_id (closed incoming_message_too_large) c =
      finish_with_error id protocol_id RequestResponseError.remote_payload_too_large c.yamux c
  on_response id protocol_id _ c =
      finish_with_error id protocol_id RequestResponseError.multistream_protocol_error
        (S.reset_stream_immediately id c.yamux) c

  unfoldable pub on_inflight :
      ℕ → ℕ → RequestState → OutputState → Connection S Sleep → Connection S Sleep × Turn
  unfolding on_confirmation on_response
  on_inflight id protocol_id (awaiting_protocol_confirmation body) state c =
      on_confirmation id protocol_id body state c
  on_inflight id protocol_id awaiting_response_payload state c = on_response id protocol_id state c

  -- The payload of a request of the remote; the stream is no longer in `incoming_requests`.
  unfoldable pub on_incoming_request :
      ℕ → ℕ → OutputState → Connection S Sleep → Connection S Sleep × Turn
  on_incoming_request id protocol_id (message payload) c =
      (c, emit (Message.request id protocol_id (Request.value payload)))
  on_incoming_request id protocol_id (closed by_remote) c =
      (c, emit (Message.request id protocol_id Request.cancelled))
  on_incoming_request id protocol_id (closed incoming_message_too_large) c =
      (c, emit (Message.request id protocol_id Request.error_payload_too_large))
  on_incoming_request id protocol_id _ c =
      (with_yamux (S.reset_stream_immediately id c.yamux) c, again)
