-- ===== src/Connection/Notifications.antt =====
-- connection.rs: the part of `next_inner` for the two streams of a subscription.
use polkadot_p2p_connect.Prelude.{ℕ, Bool, not, ◌&&◌, if◌then◌else◌, [], ◌∷◌}
use polkadot_p2p_connect.Multistreams
use polkadot_p2p_connect.Multistreams.{
  OutputState, incoming_protocol, outgoing_rejected, outgoing_accepted, message, closed,
  CloseReason, by_remote, incoming_message_too_large,
}
use polkadot_p2p_connect.Streams.{Streams}
use polkadot_p2p_connect.Connection.{
  Connection, SubscriptionDetails, SubscriptionStreamState, not_open, handshake, opened, is_closed,
  is_open, modify, Message, SubscriptionResponse, SubscriptionResponseError,
}
use polkadot_p2p_connect.Connection.Calls.{
  with_yamux, with_subscription, set_our_stream, set_their_stream, cancel_subscription_silently,
}
use polkadot_p2p_connect.Connection.Turns.{
  Turn, again, emit, try_streams, outbound_fits, inbound_fits,
}

-- A stream of a subscription has become open, in the details `p`.
abbrev pub opened_turn : SubscriptionDetails → Turn
opened_turn p =
    if is_open p.our_stream && is_open p.their_stream
    then emit (Message.notification p.protocol_id SubscriptionResponse.opened)
    else again

module _ {S : Streams} {Sleep : Type 0} where
  -- Both streams of a subscription are closed, and the user is told.
  unfoldable pub drop_subscription :
      ℕ → SubscriptionResponse → Connection S Sleep → Connection S Sleep × Turn
  unfolding cancel_subscription_silently
  drop_subscription protocol_id res c =
      ((cancel_subscription_silently protocol_id c).0, emit (Message.notification protocol_id res))

  abbrev pub drop_with_error :
      ℕ → SubscriptionResponseError → Connection S Sleep → Connection S Sleep × Turn
  drop_with_error protocol_id e c = drop_subscription protocol_id (SubscriptionResponse.error e) c

  -- An output that ends a subscription with an open stream, or with theirs not yet open.
  unfoldable pub on_end :
      SubscriptionDetails → OutputState → Connection S Sleep → Connection S Sleep × Turn
  on_end p (closed by_remote) c = drop_subscription p.protocol_id SubscriptionResponse.closed c
  on_end p (closed incoming_message_too_large) c =
      drop_with_error p.protocol_id SubscriptionResponseError.remote_payload_too_large c
  on_end p _ c =
      drop_with_error p.protocol_id SubscriptionResponseError.multistream_protocol_error c

  module _ (id : ℕ) (p : SubscriptionDetails) where
    abbrev set_ours : SubscriptionStreamState → Connection S Sleep → Connection S Sleep
    set_ours state c = with_subscription (outbound_fits id) (set_our_stream state) c

    -- Our handshake waits for theirs on the stream that we opened.
    unfoldable pub on_our_handshake : OutputState → Connection S Sleep → Connection S Sleep × Turn
    on_our_handshake (outgoing_accepted name) c =
        try_streams (S.send_data id p.protocol.our_handshake c.yamux)
          (λ s u. (with_yamux s c, again)) c
    on_our_handshake outgoing_rejected c =
        drop_with_error p.protocol_id SubscriptionResponseError.protocol_rejected c
    on_our_handshake (message their_handshake) c =
        if p.protocol.validate_their_handshake their_handshake
        then (set_ours (opened id) c, opened_turn (set_our_stream (opened id) p))
        else drop_with_error p.protocol_id SubscriptionResponseError.their_handshake_rejected c
    on_our_handshake (closed by_remote) c =
        drop_with_error p.protocol_id SubscriptionResponseError.our_handshake_rejected c
    on_our_handshake (closed incoming_message_too_large) c =
        drop_with_error p.protocol_id SubscriptionResponseError.remote_payload_too_large c
    on_our_handshake (incoming_protocol name) c =
        drop_with_error p.protocol_id SubscriptionResponseError.multistream_protocol_error c

  -- An output of the stream that we opened, by its state before.
  unfoldable pub on_outbound :
      ℕ
      → SubscriptionDetails
      → SubscriptionStreamState
      → OutputState
      → Connection S Sleep
      → Connection S Sleep × Turn
  unfolding on_our_handshake on_end
  on_outbound id p (handshake _) state c = on_our_handshake id p state c
  on_outbound id p (opened _) state c = on_end p state c
  on_outbound id p not_open state c = (c, again)

  module _ (fits : SubscriptionDetails → Bool) (p : SubscriptionDetails) where
    -- The stream that we open in answer to theirs.
    unfoldable pub open_ours :
        S.State × Multistreams.Result ℕ → Connection S Sleep → Connection S Sleep × Turn
    open_ours opening c =
        try_streams opening
          (λ s id. (with_subscription fits (set_our_stream (handshake id)) (with_yamux s c), again))
          c

    abbrev theirs_proposed : ℕ → Connection S Sleep → Connection S Sleep
    theirs_proposed id c = record c {
      subscription_details = modify fits (set_their_stream (handshake id)) c.subscription_details;
    }

    -- The remote proposes the protocol, and has no stream for it yet.
    unfoldable pub on_proposal : ℕ → Connection S Sleep → Connection S Sleep × Turn
    unfolding open_ours
    on_proposal id c =
        if not p.protocol.allow_inbound && is_closed p.our_stream
        then (with_yamux (S.reset_stream_immediately id c.yamux) c, again)
        else try_streams (S.accept_protocol id p.protocol.max_response_size_in_bytes c.yamux)
            (λ s u.
              let c' = theirs_proposed id (with_yamux s c) in
              if is_closed p.our_stream
              then open_ours
                  (S.open_stream (p.protocol.name ∷ []) p.protocol.max_response_size_in_bytes s) c'
              else (c', again))
            c

    -- Their handshake on the stream that they opened; ours is the answer.
    unfoldable pub on_their_handshake :
        ℕ → OutputState → Connection S Sleep → Connection S Sleep × Turn
    unfolding on_end
    on_their_handshake id (message their_handshake) c =
        if p.protocol.validate_their_handshake their_handshake
        then try_streams (S.send_data id p.protocol.our_handshake c.yamux)
            (λ s u. (
              with_subscription fits (set_their_stream (opened id)) (with_yamux s c),
              opened_turn (set_their_stream (opened id) p),
            ))
            c
        else drop_with_error p.protocol_id SubscriptionResponseError.their_handshake_rejected c
    on_their_handshake id state c = on_end p state c

    unfoldable pub on_notification : OutputState → Connection S Sleep → Connection S Sleep × Turn
    unfolding on_end
    on_notification (message bytes) c =
        (c, emit (Message.notification p.protocol_id (SubscriptionResponse.value bytes)))
    on_notification state c = on_end p state c

  -- An output of the stream that the remote opened, or its proposal, by the state before.
  unfoldable pub on_inbound :
      ℕ
      → SubscriptionDetails
      → SubscriptionStreamState
      → OutputState
      → Connection S Sleep
      → Connection S Sleep × Turn
  unfolding on_proposal on_their_handshake on_notification
  on_inbound id p not_open state c = on_proposal (inbound_fits id state) p id c
  on_inbound id p (handshake their_id) state c =
      on_their_handshake (inbound_fits id state) p their_id state c
  on_inbound id p (opened _) state c = on_notification (inbound_fits id state) p state c
