-- ===== src/Multistreams/Bounds.antt =====
-- How much a stream's buffer can hold.
use polkadot_p2p_connect.Prelude.{
  ℕ, ◌+◌, ◌≤◌, arith, inl, inr, Bool, true, false, Bool-cases, ltb, List, [], ◌∷◌, Option, none,
  some, Option-cases, length,
}
use polkadot_p2p_connect.Prelude.Maps.{
  get, remove, Entries, insert-Entries, remove-Entries, get-Entries,
}
use polkadot_p2p_connect.AsyncStream.{AsyncRead}
use polkadot_p2p_connect.FrameBuffer.{
  Needs, decoding_len, len, FrameBuffer, Frame, frame, error, empty, push, buffered,
}
use polkadot_p2p_connect.FrameBuffer
use polkadot_p2p_connect.FrameBuffer.Bounds.{next-buffered, push-buffered}
use polkadot_p2p_connect.Yamux.State
use polkadot_p2p_connect.Yamux.State.{SharedState, opened_by_remote, received, closed_by_remote}
use polkadot_p2p_connect.Yamux.Api.{data_bytes}
use polkadot_p2p_connect.Yamux.Next
use polkadot_p2p_connect.Multistreams.{
  MultistreamState, new_incoming, new_incoming_protocol, waiting_for_accept, outgoing, open_now,
  closed_by_us, Multistream, YamuxMultistream, Result, ok, err, panicked, header_line, set_buf,
  send_multistream_data, send_multistream_data_with_newline, reset_stream_immediately,
}
use polkadot_p2p_connect.Multistreams.Next.{
  replied, pop, on_proposal, propose_next, on_frame, on_buffer, drain_entry, incoming_entry,
  on_closed, on_data, on_output, on_yamux, on_buffered, next_round,
}

-- A stream holds at most what it may hold.
abbrev pub IsBounded : ℕ → Multistream → Type 0
IsBounded id entry = buffered entry.buffer ≤ entry.max_buffer_size

abbrev pub Bounded : YamuxMultistream → Type 0
Bounded m = Entries IsBounded m.bufs

set_buf-Bounded :
    (id : ℕ) (entry : Multistream) (m : YamuxMultistream)
    → IsBounded id entry
    → Bounded m
    → Bounded (set_buf id entry m)
set_buf-Bounded id entry m h b = insert-Entries IsBounded id entry m.bufs h b

reset-Bounded :
    (id : ℕ) (m : YamuxMultistream) → Bounded m → Bounded (reset_stream_immediately id m)
unfolding reset_stream_immediately
reset-Bounded id m b = remove-Entries IsBounded id m.bufs b

replied-Bounded :
    (m : YamuxMultistream) (r : SharedState × Result (Unit {0}))
    → Bounded m
    → Bounded (replied m r).0
replied-Bounded m (st, ok u) b = b
replied-Bounded m (st, err e) b = b
replied-Bounded m (st, panicked) b = b

module _ (is_utf8 : List ℕ → Bool) (id : ℕ) (entry : Multistream) (h : IsBounded id entry) where
  on_proposal-Bounded :
      (o : Option (List ℕ × ℕ)) (m : YamuxMultistream)
      → Bounded m
      → Bounded (on_proposal is_utf8 id entry o m).0
  unfolding on_proposal
  on_proposal-Bounded none m b = reset-Bounded id m b
  on_proposal-Bounded (some (name, last)) m b = ground (
    arith,
    reset-Bounded id m b,
    set_buf-Bounded id (record entry { state = waiting_for_accept name }) m h b,
  )

  propose_next-Bounded :
      (rest : List (List ℕ)) (m : YamuxMultistream)
      → Bounded m
      → Bounded (propose_next is_utf8 id entry rest m).0
  unfolding propose_next
  propose_next-Bounded [] m b = reset-Bounded id m b
  propose_next-Bounded (next ∷ rest) m b =
      replied-Bounded (set_buf id (record entry { state = outgoing true next rest }) m)
        (send_multistream_data_with_newline id next m.inner.shared)
        (set_buf-Bounded id (record entry { state = outgoing true next rest }) m h b)

  on_frame-Bounded :
      (state : MultistreamState) (bytes : List ℕ) (m : YamuxMultistream)
      → Bounded m
      → Bounded (on_frame is_utf8 id entry state bytes m).0
  unfolding on_frame
  on_frame-Bounded new_incoming bytes m b = ground (
    arith,
    reset-Bounded id m b,
    replied-Bounded (set_buf id (record entry { state = new_incoming_protocol }) m)
        (send_multistream_data id header_line m.inner.shared)
        (set_buf-Bounded id (record entry { state = new_incoming_protocol }) m h b),
  )
  on_frame-Bounded new_incoming_protocol bytes m b = on_proposal-Bounded (pop bytes) m b
  on_frame-Bounded (waiting_for_accept name) bytes m b = reset-Bounded id m b
  on_frame-Bounded (outgoing false current rest) bytes m b = ground (
    arith,
    reset-Bounded id m b,
    set_buf-Bounded id (record entry { state = outgoing true current rest }) m h b,
  )
  on_frame-Bounded (outgoing true current rest) bytes m b = ground (
    arith,
    set_buf-Bounded id (record entry { state = open_now }) m h b,
    propose_next-Bounded rest m b,
  )
  on_frame-Bounded open_now bytes m b = b
  on_frame-Bounded closed_by_us bytes m b = b

module _ (is_utf8 : List ℕ → Bool) (id : ℕ) where
  on_buffer-Bounded :
      (entry : Multistream) (r : FrameBuffer × Option Frame) (m : YamuxMultistream)
      → buffered r.0 ≤ entry.max_buffer_size
      → Bounded m
      → Bounded (on_buffer is_utf8 id entry r m).0
  unfolding on_buffer
  on_buffer-Bounded entry (buffer, none) m h b =
      set_buf-Bounded id (record entry { buffer = buffer }) m h b
  on_buffer-Bounded entry (buffer, some error) m h b =
      set_buf-Bounded id (record entry { buffer = buffer }) m h b
  on_buffer-Bounded entry (buffer, some (frame bytes)) m h b =
      on_frame-Bounded is_utf8 id (record entry { buffer = buffer }) h entry.state bytes
        (record (set_buf id (record entry { buffer = buffer }) m) {
          read_from_stream_buffer = some id;
        })
        (set_buf-Bounded id (record entry { buffer = buffer }) m h b)

  drain_entry-Bounded :
      (entry : Multistream) (m : YamuxMultistream)
      → IsBounded id entry
      → Bounded m
      → Bounded (drain_entry is_utf8 id entry m).0
  unfolding drain_entry
  drain_entry-Bounded entry m h b =
      on_buffer-Bounded entry (FrameBuffer.next entry.buffer) m
        (omega (arith, next-buffered entry.buffer)) b

  on_data-Bounded :
      (entry : Multistream) (bytes : List ℕ) (m : YamuxMultistream)
      → Bounded m
      → Bounded (on_data is_utf8 id entry bytes m).0
  unfolding on_data
  on_data-Bounded entry bytes m b =
      elim (Bool-cases (ltb entry.max_buffer_size (buffered entry.buffer + length bytes))) [
        | inl large ↦ rw large (reset-Bounded id m b)
        | inr fits ↦ rw fits (
            drain_entry-Bounded (record entry { buffer = push entry.buffer bytes }) m
              (ground (arith, push-buffered entry.buffer bytes)) b)
      ]

  on_closed-Bounded :
      (state : MultistreamState) (m : YamuxMultistream)
      → Bounded m
      → Bounded (on_closed id state m).0
  unfolding on_closed
  on_closed-Bounded new_incoming m b = b
  on_closed-Bounded new_incoming_protocol m b = b
  on_closed-Bounded (waiting_for_accept name) m b = b
  on_closed-Bounded (outgoing seen current rest) m b = b
  on_closed-Bounded open_now m b = b
  on_closed-Bounded closed_by_us m b = b

  on_buffered-Bounded : (m : YamuxMultistream) → Bounded m → Bounded (on_buffered is_utf8 id m).0
  unfolding on_buffered
  on_buffered-Bounded m b = elim (Option-cases (get id m.bufs)) [
    | inl absent ↦ rw (absent, on_buffered) b
    | inr (entry, found) ↦
        rw (found, on_buffered)
          (drain_entry-Bounded entry m (get-Entries IsBounded id entry m.bufs b found) b)
  ]

  on_output-Bounded :
      (o : State.OutputState) (m : YamuxMultistream)
      → Bounded m
      → Bounded (on_output is_utf8 id o m).0
  unfolding on_output
  on_output-Bounded opened_by_remote m b = elim (Option-cases (get id m.bufs)) [
    | inl absent ↦ rw (absent, on_output) (drain_entry-Bounded incoming_entry m (omega arith) b)
    | inr (entry, found) ↦
        rw (found, on_output)
          (drain_entry-Bounded entry m (get-Entries IsBounded id entry m.bufs b found) b)
  ]
  on_output-Bounded (received n) m b = elim (Option-cases (get id m.bufs)) [
    | inl absent ↦ rw (absent, on_output) b
    | inr (entry, found) ↦ rw (found, on_output) (on_data-Bounded entry (data_bytes m.inner) m b)
  ]
  on_output-Bounded closed_by_remote m b = elim (Option-cases (get id m.bufs)) [
    | inl absent ↦ rw (absent, on_output) b
    | inr (entry, found) ↦
        rw (found, on_output)
          (on_closed-Bounded entry.state (record m { bufs = remove id m.bufs })
            (remove-Entries IsBounded id m.bufs b))
  ]

module _ (is_utf8 : List ℕ → Bool) where
  on_yamux-Bounded :
      (o : Option (State.Result State.Output)) (m : YamuxMultistream)
      → Bounded m
      → Bounded (on_yamux is_utf8 o m).0
  unfolding on_yamux
  on_yamux-Bounded none m b = ground arith
  on_yamux-Bounded (some (State.err e)) m b = b
  on_yamux-Bounded (some (State.ok o)) m b = on_output-Bounded is_utf8 o.stream_id o.state m b

  -- Whatever the remote sends, a round of `next_inner` leaves every stream's buffer within the bound
  -- of the stream, when it was so before.
  pub next_round-Bounded :
      (io : AsyncRead) (rounds : ℕ) (r : io.Reader) (m : YamuxMultistream)
      → Bounded m
      → Bounded (next_round is_utf8 io rounds r m).0.0
  unfolding next_round
  next_round-Bounded io rounds r m b = elim (Option-cases m.read_from_stream_buffer) [
    | inl idle ↦
        rw (idle, next_round)
          (on_yamux-Bounded (Next.next io rounds r m.inner).0.1
            (record m { inner = (Next.next io rounds r m.inner).0.0 }) b)
    | inr (id, more) ↦
        rw (more, next_round)
          (on_buffered-Bounded is_utf8 id (record m { read_from_stream_buffer = none }) b)
  ]
