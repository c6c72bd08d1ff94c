-- ===== src/Multistreams/Next.antt =====
-- layers/yamux_multistream.rs: `next_inner`. A round of its loop runs without a pause except for the
-- wait for the yamux session. `is_utf8` is `String::from_utf8`: it succeeds on just the lists of bytes
-- that are UTF-8, and keeps the bytes.
use polkadot_p2p_connect.Prelude.{
  ℕ, zero, suc, ◌+◌, Bool, true, false, if◌then◌else◌, ltb, ◌==◌, bytes_eq, List, [], ◌∷◌, ◌++◌,
  Option, none, some, length,
}
use polkadot_p2p_connect.Prelude.Maps.{get, remove}
use polkadot_p2p_connect.AsyncStream.{AsyncRead}
use polkadot_p2p_connect.FrameBuffer.{FrameBuffer, Frame, frame, error, empty, push, buffered}
use polkadot_p2p_connect.FrameBuffer
use polkadot_p2p_connect.Yamux.State
use polkadot_p2p_connect.Yamux.State.{
  Session, SharedState, opened_by_remote, received, closed_by_remote,
}
use polkadot_p2p_connect.Yamux.Api.{data_bytes}
use polkadot_p2p_connect.Yamux.Next
use polkadot_p2p_connect.Multistreams.{
  MultistreamState, new_incoming, new_incoming_protocol, waiting_for_accept, outgoing, open_now,
  closed_by_us, Multistream, YamuxMultistream, incoming_protocol, outgoing_rejected,
  outgoing_accepted, message, closed, by_remote, incoming_message_too_large, Output, output, Error,
  yamux, varint_out_of_range, Result, ok, err, panicked, header_line, protocol_max_len, set_buf,
  with_shared, send_multistream_data, send_multistream_data_with_newline, reset_stream_immediately,
}

-- The end of a round: another one, or a result of `next_inner`; `stopped` is its `Ok(None)`.
pub data Round : Type 0 where
  again stopped aborted : Round
  emit : Output → Round
  failed : Error → Round

-- A round that ends with a message of ours; `aborted` is a panic.
abbrev pub replied : YamuxMultistream → SharedState × Result (Unit {0}) → YamuxMultistream × Round
replied m (st, ok _) = (with_shared m st, again)
replied m (st, err e) = (with_shared m st, failed e)
replied m (st, panicked) = (with_shared m st, aborted)

-- `Vec::pop`
unfoldable pub pop : List ℕ → Option (List ℕ × ℕ)
pop [] = none
pop (byte ∷ []) = some ([], byte)
pop (byte ∷ next ∷ bytes) = elim (pop (next ∷ bytes)) [
  | none ↦ none
  | some (front, last) ↦ some (byte ∷ front, last)
]

module _ (is_utf8 : List ℕ → Bool) (id : ℕ) (entry : Multistream) where
  abbrev pub entry_at : MultistreamState → YamuxMultistream → YamuxMultistream
  entry_at state m = set_buf id (record entry { state = state }) m

  abbrev refuse : YamuxMultistream → YamuxMultistream × Round
  refuse m = (reset_stream_immediately id m, again)

  unfoldable pub on_proposal : Option (List ℕ × ℕ) → YamuxMultistream → YamuxMultistream × Round
  on_proposal none m = refuse m
  on_proposal (some (name, last)) m =
      if last == b'\n'
      then (if is_utf8 name
          then (entry_at (waiting_for_accept name) m, emit (output id (incoming_protocol name)))
          else refuse m)
      else refuse m

  -- The remote's answer to the protocol `current` was not `current`.
  unfoldable pub propose_next : List (List ℕ) → YamuxMultistream → YamuxMultistream × Round
  propose_next [] m = (reset_stream_immediately id m, emit (output id outgoing_rejected))
  propose_next (next ∷ rest) m =
      replied (entry_at (outgoing true next rest) m)
        (send_multistream_data_with_newline id next m.inner.shared)

  -- A frame of the stream, by the state of the stream.
  unfoldable pub on_frame : MultistreamState → List ℕ → YamuxMultistream → YamuxMultistream × Round
  unfolding on_proposal propose_next pop
  on_frame new_incoming bytes m =
      if bytes_eq header_line bytes
      then replied (entry_at new_incoming_protocol m)
          (send_multistream_data id header_line m.inner.shared)
      else refuse m
  on_frame new_incoming_protocol bytes m = on_proposal (pop bytes) m
  on_frame (waiting_for_accept name) bytes m = refuse m
  on_frame (outgoing false current rest) bytes m =
      if bytes_eq header_line bytes
      then (entry_at (outgoing true current rest) m, again)
      else refuse m
  on_frame (outgoing true current rest) bytes m =
      if bytes_eq (current ++ b'\n' ∷ []) bytes
      then (entry_at open_now m, emit (output id (outgoing_accepted current)))
      else propose_next rest m
  on_frame open_now bytes m = (m, emit (output id (message bytes)))
  on_frame closed_by_us bytes m = (m, emit (output id (message bytes)))

-- What the stream's buffer has, when the buffer that is left is `buffer`.
unfoldable pub on_buffer :
    (List ℕ → Bool)
    → ℕ
    → Multistream
    → FrameBuffer × Option Frame
    → YamuxMultistream
    → YamuxMultistream × Round
unfolding on_frame
on_buffer is_utf8 id entry (buffer, none) m =
    (set_buf id (record entry { buffer = buffer }) m, again)
on_buffer is_utf8 id entry (buffer, some error) m =
    (set_buf id (record entry { buffer = buffer }) m, failed varint_out_of_range)
on_buffer is_utf8 id entry (buffer, some (frame bytes)) m =
    let entry' = record entry { buffer = buffer } in
    on_frame is_utf8 id entry' entry.state bytes
      (record (set_buf id entry' m) { read_from_stream_buffer = some id })

unfoldable pub drain_entry :
    (List ℕ → Bool) → ℕ → Multistream → YamuxMultistream → YamuxMultistream × Round
unfolding on_buffer
drain_entry is_utf8 id entry m = on_buffer is_utf8 id entry (FrameBuffer.next entry.buffer) m

-- A stream that the remote opened; it can hold no more than a negotiation needs.
abbrev pub incoming_entry : Multistream
incoming_entry = record { buffer = empty; state = new_incoming; max_buffer_size = protocol_max_len }

unfoldable pub on_closed : ℕ → MultistreamState → YamuxMultistream → YamuxMultistream × Round
on_closed id new_incoming m = (m, again)
on_closed id new_incoming_protocol m = (m, again)
on_closed id _ m = (m, emit (output id (closed by_remote)))

unfoldable pub on_data :
    (List ℕ → Bool) → ℕ → Multistream → List ℕ → YamuxMultistream → YamuxMultistream × Round
unfolding drain_entry
on_data is_utf8 id entry bytes m =
    if ltb entry.max_buffer_size (buffered entry.buffer + length bytes)
    then (reset_stream_immediately id m, emit (output id (closed incoming_message_too_large)))
    else drain_entry is_utf8 id (record entry { buffer = push entry.buffer bytes }) m

-- An output of the yamux session.
unfoldable pub on_output :
    (List ℕ → Bool) → ℕ → State.OutputState → YamuxMultistream → YamuxMultistream × Round
unfolding on_data on_closed
on_output is_utf8 id opened_by_remote m = elim (get id m.bufs) [
  | none ↦ drain_entry is_utf8 id incoming_entry m
  | some entry ↦ drain_entry is_utf8 id entry m
]
on_output is_utf8 id (received n) m = elim (get id m.bufs) [
  | none ↦ (m, again)
  | some entry ↦ on_data is_utf8 id entry (data_bytes m.inner) m
]
on_output is_utf8 id closed_by_remote m = elim (get id m.bufs) [
  | none ↦ (m, again)
  | some entry ↦ on_closed id entry.state (record m { bufs = remove id m.bufs })
]

-- A result of the session's `next`. No result from a session that has not finished is that the
-- rounds it was given were not enough, and it goes on.
unfoldable pub on_yamux :
    (List ℕ → Bool)
    → Option (State.Result State.Output)
    → YamuxMultistream
    → YamuxMultistream × Round
unfolding on_output
on_yamux is_utf8 none m = if m.inner.finished then (m, stopped) else (m, again)
on_yamux is_utf8 (some (State.err e)) m = (m, failed (yamux e))
on_yamux is_utf8 (some (State.ok o)) m = on_output is_utf8 o.stream_id o.state m

-- A stream whose buffer may hold more; it may have been closed since.
unfoldable pub on_buffered : (List ℕ → Bool) → ℕ → YamuxMultistream → YamuxMultistream × Round
unfolding drain_entry
on_buffered is_utf8 id m = elim (get id m.bufs) [
  | none ↦ (m, again)
  | some entry ↦ drain_entry is_utf8 id entry m
]

module _ (is_utf8 : List ℕ → Bool) (io : AsyncRead) where
  open io use {Reader}

  -- A round of the loop, in which the session's `next` has `rounds` rounds.
  unfoldable pub next_round : ℕ → Reader → YamuxMultistream → (YamuxMultistream × Round) × Reader
  next_round rounds r m = elim m.read_from_stream_buffer [
    | some id ↦ (on_buffered is_utf8 id (record m { read_from_stream_buffer = none }), r)
    | none ↦
        let ((inner, out), r') = Next.next io rounds r m.inner in
        (on_yamux is_utf8 out (record m { inner = inner }), r')
  ]

  -- `next_inner` on a number of rounds; `again` is that these were not enough.
  unfoldable pub next : ℕ → ℕ → Reader → YamuxMultistream → (YamuxMultistream × Round) × Reader
  next zero rounds r m = ((m, again), r)
  next (suc n) rounds r m =
      let ((m', round), r') = next_round rounds r m in
      elim round [
        | again ↦ next n rounds r' m'
        | stopped ↦ ((m', stopped), r')
        | aborted ↦ ((m', aborted), r')
        | emit o ↦ ((m', emit o), r')
        | failed e ↦ ((m', failed e), r')
      ]
