-- ===== src/Connection/Subscriptions.antt =====
-- connection.rs: what a notification that `next` hands out says of the subscription.
use polkadot_p2p_connect.Prelude.{
  ℕ, ◌≡◌, refl, sym, subst, not, arith, inl, inr, Bool, true, false, ◌&&◌, Bool-cases,
  if◌then◌else◌, [], ◌∷◌, some,
}
use polkadot_p2p_connect.Multistreams
use polkadot_p2p_connect.Multistreams.{
  OutputState, incoming_protocol, outgoing_rejected, outgoing_accepted, message, closed, by_remote,
  incoming_message_too_large,
}
use polkadot_p2p_connect.Streams.{Streams}
use polkadot_p2p_connect.Connection.{
  Connection, SubscriptionDetails, SubscriptionStreamState, SubscriptionResponse,
  SubscriptionResponseError, not_open, handshake, opened, is_open, is_closed, Message, find, modify,
}
use polkadot_p2p_connect.Connection.Calls.{
  with_yamux, with_subscription, set_our_stream, set_their_stream, close_both,
  cancel_subscription_silently, subscription_fits,
}
use polkadot_p2p_connect.Connection.Lookup.{Unique, find-modify, find-Unique}
use polkadot_p2p_connect.Connection.Turns.{
  Turn, again, emit, try_streams, inbound_fits, outbound_fits,
}
use polkadot_p2p_connect.Connection.Notifications.{
  drop_with_error, drop_subscription, on_our_handshake, on_end, on_outbound, on_proposal, open_ours,
  on_their_handshake, on_notification, on_inbound, opened_turn,
}

-- What a notification says of the subscription that it is about.
abbrev pub Says : SubscriptionResponse → SubscriptionDetails → Type 0
Says SubscriptionResponse.opened p = (is_open p.our_stream ≡ true) × (is_open p.their_stream ≡ true)
Says (SubscriptionResponse.value bytes) p = is_open p.their_stream ≡ true
Says SubscriptionResponse.closed p = (p.our_stream ≡ not_open) × (p.their_stream ≡ not_open)
Says (SubscriptionResponse.error e) p = (p.our_stream ≡ not_open) × (p.their_stream ≡ not_open)

module _ {S : Streams} {Sleep : Type 0} where
  -- The subscription of the protocol id in the connection, as the notification has it.
  abbrev pub Told : ℕ → SubscriptionResponse → Connection S Sleep → Type 0
  Told protocol_id res c =
      (p : SubscriptionDetails) × (find (subscription_fits protocol_id) c.subscription_details
        ≡ some p)
      × Says res p

  abbrev pub Honest : Connection S Sleep × Turn → Type 0
  Honest (c, emit (Message.notification protocol_id res)) = Told protocol_id res c
  Honest (c, _) = Unit

  cancel-closes :
      (fits : SubscriptionDetails → Bool) (p : SubscriptionDetails) (c : Connection S Sleep)
      → Unique c.subscription_details
      → find fits c.subscription_details ≡ some p
      → find
          (subscription_fits p.protocol_id)
          (cancel_subscription_silently p.protocol_id c).0.subscription_details
        ≡ some (close_both p)
  unfolding cancel_subscription_silently
  cancel-closes fits p c u e =
      let found = find-Unique fits p c.subscription_details u e in
      rw (found, cancel_subscription_silently)
        (find-modify (subscription_fits p.protocol_id) close_both p c.subscription_details
          (λ q. refl) u found)

  -- A subscription that was found in a connection with distinct ids.
  pub record Found (fits : SubscriptionDetails → Bool) (p : SubscriptionDetails)
      (c : Connection S Sleep) : Type 0 where
    pub unique : Unique c.subscription_details
    pub found : find fits c.subscription_details ≡ some p

  closed-Honest :
      (fits : SubscriptionDetails → Bool) (p : SubscriptionDetails) (c : Connection S Sleep)
      → Found fits p c
      → Honest (drop_subscription p.protocol_id SubscriptionResponse.closed c)
  unfolding drop_subscription
  closed-Honest fits p c h = (close_both p, cancel-closes fits p c h.unique h.found, (refl, refl))

  error-Honest :
      (fits : SubscriptionDetails → Bool) (p : SubscriptionDetails) (e : SubscriptionResponseError)
      (c : Connection S Sleep)
      → Found fits p c
      → Honest (drop_with_error p.protocol_id e c)
  unfolding drop_subscription
  error-Honest fits p e c h = (close_both p, cancel-closes fits p c h.unique h.found, (refl, refl))

  on_end-Honest :
      (fits : SubscriptionDetails → Bool) (p : SubscriptionDetails) (state : OutputState)
      (c : Connection S Sleep)
      → Found fits p c
      → Honest (on_end p state c)
  unfolding on_end
  on_end-Honest fits p (closed by_remote) c h = closed-Honest fits p c h
  on_end-Honest fits p (closed incoming_message_too_large) c h = error-Honest fits p _ c h
  on_end-Honest fits p (incoming_protocol name) c h = error-Honest fits p _ c h
  on_end-Honest fits p outgoing_rejected c h = error-Honest fits p _ c h
  on_end-Honest fits p (outgoing_accepted name) c h = error-Honest fits p _ c h
  on_end-Honest fits p (message bytes) c h = error-Honest fits p _ c h

  -- After a change that leaves `p'` for `p`, the turn says whether both streams are open.
  opened_turn-Honest :
      (fits : SubscriptionDetails → Bool) (p : SubscriptionDetails)
      (f : SubscriptionDetails → SubscriptionDetails) (c : Connection S Sleep)
      → ((q : SubscriptionDetails) → (f q).protocol_id ≡ q.protocol_id)
      → Found fits p c
      → Honest (with_subscription fits f c, opened_turn (f p))
  opened_turn-Honest fits p f c keeps h =
      elim (Bool-cases (is_open (f p).our_stream && is_open (f p).their_stream)) [
        | inl both ↦ rw both (
          f p,
          subst
              (λ k. find (subscription_fits k) (modify fits f c.subscription_details) ≡ some (f p))
              (sym (keeps p)) (find-modify fits f p c.subscription_details keeps h.unique h.found),
          (ground arith, ground arith),
        )
        | inr missing ↦ rw missing tt
      ]

  pub accepted-Honest :
      (r : S.State × Multistreams.Result (Unit {0})) (k : S.State → Connection S Sleep × Turn)
      (c : Connection S Sleep)
      → ((s : S.State) → Honest (k s))
      → Honest (try_streams r (λ s u. k s) c)
  accepted-Honest (s, Multistreams.ok u) k c h = h s
  accepted-Honest (s, Multistreams.err e) k c h = tt
  accepted-Honest (s, Multistreams.panicked) k c h = tt

  if-Honest :
      (t : Bool) (r r' : Connection S Sleep × Turn)
      → Honest r
      → Honest r'
      → Honest (if t then r else r')
  if-Honest true r r' h h' = h
  if-Honest false r r' h h' = h'

  sent-Honest :
      (r : S.State × Multistreams.Result (Unit {0})) (c : Connection S Sleep)
      → Honest (try_streams r (λ s u. (with_yamux s c, again)) c)
  sent-Honest (s, Multistreams.ok u) c = tt
  sent-Honest (s, Multistreams.err e) c = tt
  sent-Honest (s, Multistreams.panicked) c = tt

  on_our_handshake-Honest :
      (id : ℕ) (p : SubscriptionDetails) (state : OutputState) (c : Connection S Sleep)
      → Found (outbound_fits id) p c
      → Honest (on_our_handshake id p state c)
  unfolding on_our_handshake
  on_our_handshake-Honest id p (closed by_remote) c h = error-Honest _ p _ c h
  on_our_handshake-Honest id p (closed incoming_message_too_large) c h = error-Honest _ p _ c h
  on_our_handshake-Honest id p (incoming_protocol name) c h = error-Honest _ p _ c h
  on_our_handshake-Honest id p outgoing_rejected c h = error-Honest _ p _ c h
  on_our_handshake-Honest id p (outgoing_accepted name) c h =
      sent-Honest (S.send_data id p.protocol.our_handshake c.yamux) c
  on_our_handshake-Honest id p (message bytes) c h =
      elim (Bool-cases (p.protocol.validate_their_handshake bytes)) [
        | inl valid ↦ rw valid (opened_turn-Honest _ p (set_our_stream (opened id)) c (λ q. refl) h)
        | inr invalid ↦ rw invalid (error-Honest _ p _ c h)
      ]

  Found-yamux :
      (fits : SubscriptionDetails → Bool) (p : SubscriptionDetails) (s : S.State)
      (c : Connection S Sleep)
      → Found fits p c
      → Found fits p (with_yamux s c)
  Found-yamux fits p s c h = record { unique = h.unique; found = h.found }

  pub on_outbound-Honest :
      (id : ℕ) (p : SubscriptionDetails) (ours : SubscriptionStreamState) (state : OutputState)
      (c : Connection S Sleep)
      → Found (outbound_fits id) p c
      → Honest (on_outbound id p ours state c)
  unfolding on_outbound
  on_outbound-Honest id p not_open state c h = tt
  on_outbound-Honest id p (handshake _) state c h = on_our_handshake-Honest id p state c h
  on_outbound-Honest id p (opened _) state c h = on_end-Honest (outbound_fits id) p state c h

  module _ (fits : SubscriptionDetails → Bool) (p : SubscriptionDetails) where
    open_ours-Honest :
        (r : S.State × Multistreams.Result ℕ) (c : Connection S Sleep)
        → Honest (open_ours fits p r c)
    unfolding open_ours
    open_ours-Honest (s, Multistreams.ok j) c = tt
    open_ours-Honest (s, Multistreams.err e) c = tt
    open_ours-Honest (s, Multistreams.panicked) c = tt

    on_proposal-Honest : (id : ℕ) (c : Connection S Sleep) → Honest (on_proposal fits p id c)
    unfolding on_proposal
    on_proposal-Honest id c =
        if-Honest (not p.protocol.allow_inbound && is_closed p.our_stream) _ _ tt (
          accepted-Honest (S.accept_protocol id p.protocol.max_response_size_in_bytes c.yamux) _ c
            (λ s.
              if-Honest (is_closed p.our_stream) _ _
                (open_ours-Honest
                  (S.open_stream (p.protocol.name ∷ []) p.protocol.max_response_size_in_bytes s) _)
                tt))

    on_their_handshake-Honest :
        (id : ℕ) (state : OutputState) (c : Connection S Sleep)
        → Found fits p c
        → Honest (on_their_handshake fits p id state c)
    unfolding on_their_handshake
    on_their_handshake-Honest id (message bytes) c h =
        elim (Bool-cases (p.protocol.validate_their_handshake bytes)) [
          | inl valid ↦ rw valid (
              accepted-Honest (S.send_data id p.protocol.our_handshake c.yamux) _ c (λ s.
                opened_turn-Honest fits p (set_their_stream (opened id)) (with_yamux s c)
                  (λ q. refl) (Found-yamux fits p s c h)))
          | inr invalid ↦ rw invalid (error-Honest fits p _ c h)
        ]
    on_their_handshake-Honest id (closed reason) c h = on_end-Honest fits p (closed reason) c h
    on_their_handshake-Honest id (incoming_protocol name) c h =
        on_end-Honest fits p (incoming_protocol name) c h
    on_their_handshake-Honest id outgoing_rejected c h = on_end-Honest fits p outgoing_rejected c h
    on_their_handshake-Honest id (outgoing_accepted name) c h =
        on_end-Honest fits p (outgoing_accepted name) c h

    on_notification-Honest :
        (id : ℕ) (state : OutputState) (c : Connection S Sleep)
        → Found fits p c
        → opened id ≡ p.their_stream
        → Honest (on_notification fits p state c)
    unfolding on_notification
    on_notification-Honest id (message bytes) c h e =
        (p, find-Unique fits p c.subscription_details h.unique h.found, rw (← e) refl)
    on_notification-Honest id (closed reason) c h e = on_end-Honest fits p (closed reason) c h
    on_notification-Honest id (incoming_protocol name) c h e =
        on_end-Honest fits p (incoming_protocol name) c h
    on_notification-Honest id outgoing_rejected c h e = on_end-Honest fits p outgoing_rejected c h
    on_notification-Honest id (outgoing_accepted name) c h e =
        on_end-Honest fits p (outgoing_accepted name) c h

  pub on_inbound-Honest :
      (id : ℕ) (p : SubscriptionDetails) (theirs : SubscriptionStreamState) (state : OutputState)
      (c : Connection S Sleep)
      → Found (inbound_fits id state) p c
      → theirs ≡ p.their_stream
      → Honest (on_inbound id p theirs state c)
  unfolding on_inbound
  on_inbound-Honest id p not_open state c h e = on_proposal-Honest (inbound_fits id state) p id c
  on_inbound-Honest id p (handshake k) state c h e =
      on_their_handshake-Honest (inbound_fits id state) p k state c h
  on_inbound-Honest id p (opened k) state c h e =
      on_notification-Honest (inbound_fits id state) p k state c h e
