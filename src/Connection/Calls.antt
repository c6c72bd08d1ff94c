-- ===== src/Connection/Calls.antt =====
-- connection.rs: the calls of a connection other than `next`.
use polkadot_p2p_connect.Prelude.{
  ℕ, Bool, true, false, if◌then◌else◌, ◌==◌, List, [], ◌∷◌, ◌++◌, Option, none, some,
}
use mathlib.Core.Option
use polkadot_p2p_connect.Prelude.Maps.{get, insert, remove}
use polkadot_p2p_connect.Multistreams
use polkadot_p2p_connect.Timers.{add}
use polkadot_p2p_connect.Streams.{Streams}
use polkadot_p2p_connect.Connection.{
  Connection, awaiting_protocol_confirmation, RequestDetails, SubscriptionDetails,
  SubscriptionStreamState, not_open, handshake, opened, is_closed, stream_id, find, modify, Message,
  RequestResponse, SubscriptionResponse,
}

-- The errors of the calls; those of setting up a connection are left out.
pub data Error : Type 0 where
  subscription_protocol_not_found subscription_closed subscription_not_ready : ℕ → Error
  request_protocol_not_found already_subscribed : ℕ → Error
  protocol_error : Multistreams.Error → Error

-- `panicked` is a panic of the layers below.
pub data Result {ℓ} (A : Type ℓ) : Type ℓ where
  ok : A → Result A
  err : Error → Result A
  panicked : Result A

-- `?` on a result of the streams.
abbrev pub lift {ℓ} : {A : Type ℓ} → Multistreams.Result A → Result A
lift (Multistreams.ok a) = ok a
lift (Multistreams.err e) = err (protocol_error e)
lift Multistreams.panicked = panicked

abbrev pub request_fits : {Sleep : Type 0} → ℕ → RequestDetails Sleep → Bool
request_fits id p = p.protocol_id == id

abbrev pub subscription_fits : ℕ → SubscriptionDetails → Bool
subscription_fits id p = p.protocol_id == id

abbrev pub add_timeout : {Sleep : Type 0} → ℕ → Sleep → RequestDetails Sleep → RequestDetails Sleep
add_timeout id sleep p = record p { timeouts = Option.map (add id sleep) p.timeouts }

abbrev pub set_our_stream : SubscriptionStreamState → SubscriptionDetails → SubscriptionDetails
set_our_stream state p = record p { our_stream = state }

abbrev pub set_their_stream : SubscriptionStreamState → SubscriptionDetails → SubscriptionDetails
set_their_stream state p = record p { their_stream = state }

abbrev pub reset_if : (S : Streams) → Option ℕ → S.State → S.State
reset_if S none s = s
reset_if S (some id) s = S.reset_stream_immediately id s

abbrev pub close_both : SubscriptionDetails → SubscriptionDetails
close_both p = record p { our_stream = not_open; their_stream = not_open }

module _ {S : Streams} {Sleep : Type 0} where
  abbrev pub with_yamux : S.State → Connection S Sleep → Connection S Sleep
  with_yamux s c = record c { yamux = s }

  -- The end of `request`, when the stream is there.
  unfoldable pub await_response :
      ℕ
      → Sleep
      → List ℕ
      → S.State × Multistreams.Result ℕ
      → Connection S Sleep
      → Connection S Sleep × Result ℕ
  await_response protocol_id sleep body (s, Multistreams.ok id) c = (
    record c {
      yamux = s;
      request_details = modify (request_fits protocol_id) (add_timeout id sleep) c.request_details;
      inflight_requests =
          insert id (protocol_id, awaiting_protocol_confirmation body) c.inflight_requests;
    },
    ok id,
  )
  await_response protocol_id sleep body (s, Multistreams.err e) c =
      (with_yamux s c, err (protocol_error e))
  await_response protocol_id sleep body (s, Multistreams.panicked) c = (with_yamux s c, panicked)

  -- `sleep` is the future that a timer of the protocol would wait for.
  unfoldable pub request : ℕ → Sleep → List ℕ → Connection S Sleep → Connection S Sleep × Result ℕ
  unfolding await_response
  request protocol_id sleep body c = elim (find (request_fits protocol_id) c.request_details) [
    | none ↦ (c, err (request_protocol_not_found protocol_id))
    | some p ↦
        await_response protocol_id sleep body
          (S.open_stream (p.protocol.name ∷ []) p.protocol.max_response_size_in_bytes c.yamux) c
  ]

  unfoldable pub cancel_request : ℕ → Connection S Sleep → Connection S Sleep
  cancel_request id c = elim (get id c.inflight_requests) [
    | none ↦ c
    | some (protocol_id, state) ↦ record c {
      inflight_requests = remove id c.inflight_requests;
      yamux = S.reset_stream_immediately id c.yamux;
      next_buf = c.next_buf ++ Message.response id protocol_id RequestResponse.cancelled ∷ [];
    }
  ]

  -- The result of `send_data` is dropped.
  unfoldable pub respond : ℕ → List ℕ → Connection S Sleep → Connection S Sleep
  respond id response c = with_yamux (S.close_stream id (S.send_data id response c.yamux).0) c

  abbrev pub with_subscription :
      (SubscriptionDetails → Bool)
      → (SubscriptionDetails → SubscriptionDetails)
      → Connection S Sleep
      → Connection S Sleep
  with_subscription fits f c = record c {
    subscription_details = modify fits f c.subscription_details;
  }

  unfoldable pub await_handshake :
      ℕ
      → S.State × Multistreams.Result ℕ
      → Connection S Sleep
      → Connection S Sleep × Result (Unit {0})
  await_handshake protocol_id (s, Multistreams.ok id) c = (
    with_subscription (subscription_fits protocol_id) (set_our_stream (handshake id))
        (with_yamux s c),
    ok tt,
  )
  await_handshake protocol_id (s, Multistreams.err e) c = (with_yamux s c, err (protocol_error e))
  await_handshake protocol_id (s, Multistreams.panicked) c = (with_yamux s c, panicked)

  unfoldable pub subscribe : ℕ → Connection S Sleep → Connection S Sleep × Result (Unit {0})
  unfolding await_handshake
  subscribe protocol_id c = elim (find (subscription_fits protocol_id) c.subscription_details) [
    | none ↦ (c, err (subscription_protocol_not_found protocol_id))
    | some p ↦
        if is_closed p.our_stream
        then await_handshake protocol_id
            (S.open_stream (p.protocol.name ∷ []) p.protocol.max_response_size_in_bytes c.yamux) c
        else (c, err (already_subscribed p.protocol_id))
  ]

  unfoldable pub notify_on :
      ℕ
      → List ℕ
      → SubscriptionStreamState
      → Connection S Sleep
      → Connection S Sleep × Result (Unit {0})
  notify_on protocol_id notif not_open c = (c, err (subscription_closed protocol_id))
  notify_on protocol_id notif (handshake id) c = (c, err (subscription_not_ready protocol_id))
  notify_on protocol_id notif (opened id) c =
      let (s, sent) = S.send_data id notif c.yamux in (with_yamux s c, lift sent)

  unfoldable pub send_notification :
      ℕ → List ℕ → Connection S Sleep → Connection S Sleep × Result (Unit {0})
  unfolding notify_on
  send_notification protocol_id notif c =
      elim (find (subscription_fits protocol_id) c.subscription_details) [
        | none ↦ (c, err (subscription_protocol_not_found protocol_id))
        | some p ↦ notify_on protocol_id notif p.our_stream c
      ]

  unfoldable pub cancel_subscription_silently : ℕ → Connection S Sleep → Connection S Sleep × Bool
  cancel_subscription_silently id c = elim (find (subscription_fits id) c.subscription_details) [
    | none ↦ (c, false)
    | some p ↦ (
      with_subscription (subscription_fits id) close_both (
          with_yamux
            (reset_if S (stream_id p.their_stream) (reset_if S (stream_id p.our_stream) c.yamux))
            c),
      true,
    )
  ]

  unfoldable pub cancel_subscription : ℕ → Connection S Sleep → Connection S Sleep
  unfolding cancel_subscription_silently
  cancel_subscription id c =
      let (c', found) = cancel_subscription_silently id c in
      if found
      then record c' {
        next_buf = c'.next_buf ++ Message.notification id SubscriptionResponse.closed ∷ [];
      }
      else c'
