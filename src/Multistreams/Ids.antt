-- ===== src/Multistreams/Ids.antt =====
-- layers/yamux_multistream.rs: only `open_stream` opens a stream, so the other calls and `next` keep the
-- next id of the session.
use polkadot_p2p_connect.Prelude.{
  ℕ, zero, suc, ◌≡◌, refl, ◌∙◌, arith, inl, inr, Bool, true, false, List, [], ◌∷◌, Option, none,
  some, Option-cases,
}
use polkadot_p2p_connect.Prelude.Maps.{get, remove}
use polkadot_p2p_connect.AsyncStream.{AsyncRead}
use polkadot_p2p_connect.FrameBuffer.{FrameBuffer, Frame, frame, error, push}
use polkadot_p2p_connect.FrameBuffer
use polkadot_p2p_connect.Yamux.State
use polkadot_p2p_connect.Yamux.State.{opened_by_remote, received, closed_by_remote}
use polkadot_p2p_connect.Yamux.Next
use polkadot_p2p_connect.Yamux.Next.Ids
use polkadot_p2p_connect.Yamux.Api.{data_bytes}
use polkadot_p2p_connect.Multistreams.{
  YamuxMultistream, Multistream, MultistreamState, new_incoming, new_incoming_protocol,
  waiting_for_accept, outgoing, open_now, closed_by_us, Result, ok, err, panicked, then_result,
  open_with, send_data, send_on, accept_protocol, accept_on, reject_protocol, reject_on,
  close_stream, reset_stream_immediately, start_outgoing, with_shared, set_buf,
  send_multistream_data, send_multistream_data_with_newline, header_line,
}
use polkadot_p2p_connect.Multistreams.Next.{
  replied, pop, entry_at, on_proposal, propose_next, on_frame, on_buffer, drain_entry,
  incoming_entry, on_closed, on_data, on_output, on_yamux, on_buffered, next_round, next,
}

abbrev pub next_of : YamuxMultistream → ℕ
next_of m = m.inner.next_stream_id

then_result-id :
    (r : State.SharedState × Result (Unit {0}))
    (k : State.SharedState → YamuxMultistream × Result ℕ) (m : YamuxMultistream)
    → ((st : State.SharedState) → next_of (k st).0 ≡ next_of m)
    → next_of (then_result r k m).0 ≡ next_of m
then_result-id (st, ok u) k m h = h st
then_result-id (st, err e) k m h = refl
then_result-id (st, panicked) k m h = refl

pub open_with-id :
    (id : ℕ) (names : List (List ℕ)) (size : ℕ) (m : YamuxMultistream)
    → next_of (open_with id names size m).0 ≡ next_of m
unfolding open_with
open_with-id id [] size m = refl
open_with-id id (name ∷ names) size m =
    let first = send_multistream_data id header_line m.inner.shared in
    then_result-id first
      (λ st.
        then_result (send_multistream_data_with_newline id name st)
          (λ st'. start_outgoing id name names size (with_shared m st')) m)
      m
      (λ st.
        then_result-id (send_multistream_data_with_newline id name st)
          (λ st'. start_outgoing id name names size (with_shared m st')) m (λ st'. refl))

pub open_with-ok :
    (id : ℕ) (names : List (List ℕ)) (size : ℕ) (m : YamuxMultistream) (j : ℕ)
    → (open_with id names size m).1 ≡ ok j
    → j ≡ id
unfolding open_with
open_with-ok id [] size m j e = cc
open_with-ok id (name ∷ names) size m j e = ground arith

pub send_data-id :
    (id : ℕ) (bytes : List ℕ) (m : YamuxMultistream) → next_of (send_data id bytes m).0 ≡ next_of m
unfolding send_data send_on
send_data-id id bytes m = ground arith

pub accept_protocol-id :
    (id size : ℕ) (m : YamuxMultistream) → next_of (accept_protocol id size m).0 ≡ next_of m
unfolding accept_protocol accept_on
accept_protocol-id id size m = ground arith

pub reject_protocol-id :
    (id : ℕ) (m : YamuxMultistream) → next_of (reject_protocol id m).0 ≡ next_of m
unfolding reject_protocol reject_on
reject_protocol-id id m = ground arith

pub close_stream-id : (id : ℕ) (m : YamuxMultistream) → next_of (close_stream id m) ≡ next_of m
unfolding close_stream
close_stream-id id m = ground arith

replied-id :
    (m : YamuxMultistream) (r : State.SharedState × Result (Unit {0}))
    → next_of (replied m r).0 ≡ next_of m
replied-id m (st, ok u) = refl
replied-id m (st, err e) = refl
replied-id m (st, panicked) = refl

pub reset-id : (id : ℕ) (m : YamuxMultistream) → next_of (reset_stream_immediately id m) ≡ next_of m
unfolding reset_stream_immediately
reset-id id m = refl

module _ (is_utf8 : List ℕ → Bool) (id : ℕ) (entry : Multistream) where
  on_proposal-id :
      (p : Option (List ℕ × ℕ)) (m : YamuxMultistream)
      → next_of (on_proposal is_utf8 id entry p m).0 ≡ next_of m
  unfolding on_proposal
  on_proposal-id none m = reset-id id m
  on_proposal-id (some (name, last)) m = ground (arith, reset-id id m)

  propose_next-id :
      (rest : List (List ℕ)) (m : YamuxMultistream)
      → next_of (propose_next is_utf8 id entry rest m).0 ≡ next_of m
  unfolding propose_next
  propose_next-id [] m = reset-id id m
  propose_next-id (name ∷ rest) m =
      replied-id (entry_at is_utf8 id entry (outgoing true name rest) m)
        (send_multistream_data_with_newline id name m.inner.shared)

  on_frame-id :
      (state : MultistreamState) (bytes : List ℕ) (m : YamuxMultistream)
      → next_of (on_frame is_utf8 id entry state bytes m).0 ≡ next_of m
  unfolding on_frame
  on_frame-id new_incoming bytes m = ground (
    arith,
    replied-id (entry_at is_utf8 id entry new_incoming_protocol m)
        (send_multistream_data id header_line m.inner.shared),
    reset-id id m,
  )
  on_frame-id new_incoming_protocol bytes m = on_proposal-id (pop bytes) m
  on_frame-id (waiting_for_accept name) bytes m = reset-id id m
  on_frame-id (outgoing false current rest) bytes m = ground (arith, reset-id id m)
  on_frame-id (outgoing true current rest) bytes m = ground (arith, propose_next-id rest m)
  on_frame-id open_now bytes m = refl
  on_frame-id closed_by_us bytes m = refl

on_closed-id :
    (id : ℕ) (state : MultistreamState) (m : YamuxMultistream)
    → next_of (on_closed id state m).0 ≡ next_of m
unfolding on_closed
on_closed-id id state m = ground arith

on_buffer-id :
    (is_utf8 : List ℕ → Bool) (id : ℕ) (entry : Multistream) (buffer : FrameBuffer)
    (out : Option Frame) (m : YamuxMultistream)
    → next_of (on_buffer is_utf8 id entry (buffer, out) m).0 ≡ next_of m
unfolding on_buffer
on_buffer-id is_utf8 id entry buffer none m = refl
on_buffer-id is_utf8 id entry buffer (some error) m = refl
on_buffer-id is_utf8 id entry buffer (some (frame bytes)) m =
    let entry' = record entry { buffer = buffer } in
    on_frame-id is_utf8 id entry' entry.state bytes
      (record (set_buf id entry' m) { read_from_stream_buffer = some id })

module _ (is_utf8 : List ℕ → Bool) (id : ℕ) where
  drain_entry-id :
      (entry : Multistream) (m : YamuxMultistream)
      → next_of (drain_entry is_utf8 id entry m).0 ≡ next_of m
  unfolding drain_entry
  drain_entry-id entry m =
      let (buffer, out) = FrameBuffer.next entry.buffer in
      on_buffer-id is_utf8 id entry buffer out m

  on_data-id :
      (entry : Multistream) (bytes : List ℕ) (m : YamuxMultistream)
      → next_of (on_data is_utf8 id entry bytes m).0 ≡ next_of m
  unfolding on_data
  on_data-id entry bytes m =
      ground
        (arith, reset-id id m, drain_entry-id (record entry { buffer = push entry.buffer bytes }) m)

  on_output-id :
      (o : State.OutputState) (m : YamuxMultistream)
      → next_of (on_output is_utf8 id o m).0 ≡ next_of m
  unfolding on_output on_closed
  on_output-id opened_by_remote m = elim (Option-cases (get id m.bufs)) [
    | inl e ↦ rw (e, on_output) (drain_entry-id incoming_entry m)
    | inr (entry, e) ↦ rw (e, on_output) (drain_entry-id entry m)
  ]
  on_output-id (received n) m = elim (Option-cases (get id m.bufs)) [
    | inl e ↦ rw (e, on_output) refl
    | inr (entry, e) ↦ rw (e, on_output) (on_data-id entry (data_bytes m.inner) m)
  ]
  on_output-id closed_by_remote m = elim (Option-cases (get id m.bufs)) [
    | inl e ↦ rw (e, on_output) refl
    | inr (entry, e) ↦
        rw (e, on_output) (on_closed-id id entry.state (record m { bufs = remove id m.bufs }))
  ]

  on_buffered-id : (m : YamuxMultistream) → next_of (on_buffered is_utf8 id m).0 ≡ next_of m
  unfolding on_buffered
  on_buffered-id m = elim (Option-cases (get id m.bufs)) [
    | inl e ↦ rw (e, on_buffered) refl
    | inr (entry, e) ↦ rw (e, on_buffered) (drain_entry-id entry m)
  ]

module _ (is_utf8 : List ℕ → Bool) where
  on_yamux-id :
      (out : Option (State.Result State.Output)) (m : YamuxMultistream)
      → next_of (on_yamux is_utf8 out m).0 ≡ next_of m
  unfolding on_yamux
  on_yamux-id none m = ground arith
  on_yamux-id (some (State.err e)) m = refl
  on_yamux-id (some (State.ok o)) m = on_output-id is_utf8 o.stream_id o.state m

module _ (is_utf8 : List ℕ → Bool) (io : AsyncRead) where
  open io use {Reader}

  next_round-id :
      (rounds : ℕ) (r : Reader) (m : YamuxMultistream)
      → next_of (next_round is_utf8 io rounds r m).0.0 ≡ next_of m
  unfolding next_round
  next_round-id rounds r m = elim (Option-cases m.read_from_stream_buffer) [
    | inl e ↦
        let ((inner, out), r') = Next.next io rounds r m.inner in
        rw (e, next_round)
          (on_yamux-id is_utf8 out (record m { inner = inner }) ∙ Ids.next-id io rounds r m.inner)
    | inr (id, e) ↦
        rw (e, next_round) (on_buffered-id is_utf8 id (record m { read_from_stream_buffer = none }))
  ]

  pub next-id :
      (n rounds : ℕ) (r : Reader) (m : YamuxMultistream)
      → next_of (next is_utf8 io n rounds r m).0.0 ≡ next_of m
  unfolding next
  next-id zero rounds r m = refl
  next-id (suc n) rounds r m =
      let ((m', round), r') = next_round is_utf8 io rounds r m in
      ground (arith, next_round-id rounds r m, next-id n rounds r' m')
