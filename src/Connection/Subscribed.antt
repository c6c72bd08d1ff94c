-- ===== src/Connection/Subscribed.antt =====
-- connection.rs: an output of a stream of a subscription touches no request.
use polkadot_p2p_connect.Prelude.{
  ℕ, ◌≤◌, ◌≡◌, refl, arith, inl, inr, Bool, [], ◌∷◌, Option, none, some, Option-cases,
}
use polkadot_p2p_connect.Multistreams.{OutputState}
use polkadot_p2p_connect.Streams.{Streams, IsFresh}
use polkadot_p2p_connect.Connection.{
  Connection, SubscriptionDetails, SubscriptionStreamState, SubscriptionResponse, not_open,
  handshake, opened, find, stream_id,
}
use polkadot_p2p_connect.Connection.Calls.{
  cancel_subscription_silently, subscription_fits, reset_if,
}
use polkadot_p2p_connect.Connection.Turns.{inbound_fits}
use polkadot_p2p_connect.Connection.Notifications.{
  drop_subscription, on_our_handshake, on_end, on_outbound, on_proposal, on_their_handshake,
  on_notification, on_inbound, open_ours,
}
use polkadot_p2p_connect.Connection.Responses.{Settles, to_come}

pub reset_if_mono :
    {S : Streams} (law : IsFresh S) (o : Option ℕ) (s : S.State)
    → law.next_id s ≤ law.next_id (reset_if S o s)
reset_if_mono law none s = omega arith
reset_if_mono law (some j) s = law.reset_stream_immediately-mono j s

module _ {S : Streams} {Sleep : Type 0} (law : IsFresh S) (id : ℕ) where
  -- The requests of both are the same, and the streams of the second are later.
  abbrev pub Keeps : Connection S Sleep → Connection S Sleep → Type 0
  Keeps c c' = (to_come law id c' ≡ to_come law id c) × (law.next_id c.yamux ≤ law.next_id c'.yamux)

  pub cancel-Keeps :
      (protocol_id : ℕ) (c : Connection S Sleep)
      → Keeps c (cancel_subscription_silently protocol_id c).0
  unfolding cancel_subscription_silently
  cancel-Keeps protocol_id c =
      elim (Option-cases (find (subscription_fits protocol_id) c.subscription_details)) [
        | inl e ↦ rw (e, cancel_subscription_silently) (refl, omega arith)
        | inr (p, e) ↦
            rw (e, cancel_subscription_silently)
              (
                refl,
                omega (
                  arith,
                  reset_if_mono law (stream_id p.our_stream) c.yamux,
                  reset_if_mono law (stream_id p.their_stream)
                      (reset_if S (stream_id p.our_stream) c.yamux),
                ),
              )
      ]

  drop_subscription-Settles :
      (protocol_id : ℕ) (res : SubscriptionResponse) (c : Connection S Sleep)
      → Settles law id c (drop_subscription protocol_id res c)
  unfolding drop_subscription
  drop_subscription-Settles protocol_id res c = ground (arith, cancel-Keeps protocol_id c)

  on_end-Settles :
      (p : SubscriptionDetails) (state : OutputState) (c : Connection S Sleep)
      → Settles law id c (on_end p state c)
  unfolding on_end drop_subscription
  on_end-Settles p state c = ground (arith, cancel-Keeps p.protocol_id c)

  on_our_handshake-Settles :
      (j : ℕ) (p : SubscriptionDetails) (state : OutputState) (c : Connection S Sleep)
      → Settles law id c (on_our_handshake j p state c)
  unfolding on_our_handshake drop_subscription
  on_our_handshake-Settles j p state c =
      ground
        (arith, cancel-Keeps p.protocol_id c, law.send_data-mono j p.protocol.our_handshake c.yamux)

  pub on_outbound-Settles :
      (j : ℕ) (p : SubscriptionDetails) (ours : SubscriptionStreamState) (state : OutputState)
      (c : Connection S Sleep)
      → Settles law id c (on_outbound j p ours state c)
  unfolding on_outbound
  on_outbound-Settles j p not_open state c = ground arith
  on_outbound-Settles j p (handshake _) state c = on_our_handshake-Settles j p state c
  on_outbound-Settles j p (opened _) state c = on_end-Settles p state c

  on_proposal-Settles :
      (fits : SubscriptionDetails → Bool) (p : SubscriptionDetails) (j : ℕ) (c : Connection S Sleep)
      → Settles law id c (on_proposal fits p j c)
  unfolding on_proposal open_ours
  on_proposal-Settles fits p j c =
      let size = p.protocol.max_response_size_in_bytes in
      ground (
        arith,
        law.reset_stream_immediately-mono j c.yamux,
        law.accept_protocol-mono j size c.yamux,
        law.open_stream-mono (p.protocol.name ∷ []) size (S.accept_protocol j size c.yamux).0,
      )

  on_their_handshake-Settles :
      (fits : SubscriptionDetails → Bool) (p : SubscriptionDetails) (j : ℕ) (state : OutputState)
      (c : Connection S Sleep)
      → Settles law id c (on_their_handshake fits p j state c)
  unfolding on_their_handshake on_end drop_subscription
  on_their_handshake-Settles fits p j state c =
      ground
        (arith, cancel-Keeps p.protocol_id c, law.send_data-mono j p.protocol.our_handshake c.yamux)

  on_notification-Settles :
      (fits : SubscriptionDetails → Bool) (p : SubscriptionDetails) (state : OutputState)
      (c : Connection S Sleep)
      → Settles law id c (on_notification fits p state c)
  unfolding on_notification on_end drop_subscription
  on_notification-Settles fits p state c = ground (arith, cancel-Keeps p.protocol_id c)

  pub on_inbound-Settles :
      (j : ℕ) (p : SubscriptionDetails) (theirs : SubscriptionStreamState) (state : OutputState)
      (c : Connection S Sleep)
      → Settles law id c (on_inbound j p theirs state c)
  unfolding on_inbound
  on_inbound-Settles j p not_open state c = on_proposal-Settles (inbound_fits j state) p j c
  on_inbound-Settles j p (handshake k) state c =
      on_their_handshake-Settles (inbound_fits j state) p k state c
  on_inbound-Settles j p (opened _) state c =
      on_notification-Settles (inbound_fits j state) p state c
