-- ===== src/Connection/Turns.antt =====
-- connection.rs: how a round of `next_inner` ends, and to what an output of the streams belongs.
use polkadot_p2p_connect.Prelude.{
  ℕ, Bool, false, ◌&&◌, ◌||◌, ◌==◌, bytes_eq, List, Option, none, some,
}
use polkadot_p2p_connect.Multistreams
use polkadot_p2p_connect.Multistreams.{
  OutputState, incoming_protocol, outgoing_rejected, outgoing_accepted, message, closed,
  CloseReason, by_remote, incoming_message_too_large,
}
use polkadot_p2p_connect.Streams.{Streams}
use polkadot_p2p_connect.Connection.{
  Connection, RequestDetails, SubscriptionDetails, stream_id, Message,
}
use polkadot_p2p_connect.Connection.Calls.{with_yamux}

-- The end of a round of `next_inner`: `again` is another one, `waiting` that the streams wait for
-- the transport, `ended` its `Ok(None)`, and `aborted` a panic.
pub data Turn : Type 0 where
  again waiting ended aborted : Turn
  emit : Message → Turn
  failed : Multistreams.Error → Turn

abbrev pub is_stream : ℕ → Option ℕ → Bool
is_stream id none = false
is_stream id (some other) = other == id

abbrev pub proposes : List ℕ → OutputState → Bool
proposes name (incoming_protocol n) = bytes_eq n name
proposes name _ = false

abbrev pub outbound_fits : ℕ → SubscriptionDetails → Bool
outbound_fits id p = is_stream id (stream_id p.our_stream)

abbrev pub inbound_fits : ℕ → OutputState → SubscriptionDetails → Bool
inbound_fits id state p = is_stream id (stream_id p.their_stream) || proposes p.protocol.name state

abbrev pub serves : {Sleep : Type 0} → OutputState → RequestDetails Sleep → Bool
serves state p = p.protocol.allow_inbound && proposes p.protocol.name state

module _ {S : Streams} {Sleep : Type 0} where
  -- A call of the streams with `?`, and what follows it.
  abbrev pub try_streams {ℓ} :
      {A : Type ℓ}
      → S.State × Multistreams.Result A
      → (S.State → A → Connection S Sleep × Turn)
      → Connection S Sleep
      → Connection S Sleep × Turn
  try_streams (s, Multistreams.ok a) k c = k s a
  try_streams (s, Multistreams.err e) k c = (with_yamux s c, failed e)
  try_streams (s, Multistreams.panicked) k c = (with_yamux s c, aborted)
