-- ===== src/Yamux/Api.antt =====
-- layers/yamux.rs: the calls that schedule something to be sent. None of them reads or writes.
use polkadot_p2p_connect.Prelude.{
  ℕ, Bool, true, false, if◌then◌else◌, List, [], ◌∷◌, ◌++◌, Option, none, some, take,
}
use mathlib.Core.Option
use polkadot_p2p_connect.Prelude.Maps.{get, insert}
use polkadot_p2p_connect.Yamux.Header.{increment}
use polkadot_p2p_connect.Yamux.State.{
  Session, SharedState, StreamState, new_stream, push_back, flush_writes, Message, accept_it,
  open_it, close_it, reset_it, payload, window_update, Result, ok, err, stream_not_found,
  set_fin_by_us, reset,
}

-- `streams.entry(id).or_insert_with(StreamState::new)`
abbrev pub entry : ℕ → SharedState → StreamState
entry id st = elim (get id st.streams) [ none ↦ new_stream | some s ↦ s ]

abbrev pub put : ℕ → StreamState → SharedState → SharedState
put id s st = record st { streams = insert id s st.streams }

-- The session in which the stream was created, and the next id is `next_id`.
abbrev pub opened : Session → ℕ → Session
opened s next_id =
    let id = s.next_stream_id in
    record s {
      shared = flush_writes (put id (push_back (entry id s.shared) open_it) s.shared);
      next_stream_id = next_id;
    }

-- `none` is the panic of `increment` when the ids are used up.
unfoldable pub open_stream : Session → Option (Session × ℕ)
open_stream s =
    Option.map (λ next_id. (opened s next_id, s.next_stream_id)) (increment s.next_stream_id)

-- The queue with data behind it: joined to data that is last, and refused behind a close or a reset.
unfoldable pub queue_data : List Message → List ℕ → Option (List Message)
queue_data [] bytes = some (payload bytes ∷ [])
queue_data (payload old ∷ []) bytes = some (payload (old ++ bytes) ∷ [])
queue_data (accept_it ∷ []) bytes = some (accept_it ∷ payload bytes ∷ [])
queue_data (open_it ∷ []) bytes = some (open_it ∷ payload bytes ∷ [])
queue_data (window_update n ∷ []) bytes = some (window_update n ∷ payload bytes ∷ [])
queue_data (close_it ∷ []) bytes = none
queue_data (reset_it ∷ []) bytes = none
queue_data (m ∷ m' ∷ ms) bytes = Option.map (◌∷◌ m) (queue_data (m' ∷ ms) bytes)

unfoldable pub send_data : ℕ → List ℕ → SharedState → SharedState × Result (Unit {0})
unfolding queue_data
send_data id bytes st = elim (get id st.streams) [
  | none ↦ (st, err (stream_not_found id))
  | some s ↦ elim (queue_data s.outbound_buf bytes) [
    | none ↦ (st, err (stream_not_found id))
    | some queue ↦ (flush_writes (put id (record s { outbound_buf = queue }) st), ok tt)
  ]
]

-- Is the last message of the queue a close?
unfoldable pub ends_in_close : List Message → Bool
ends_in_close [] = false
ends_in_close (close_it ∷ []) = true
ends_in_close (m ∷ []) = false
ends_in_close (m ∷ m' ∷ ms) = ends_in_close (m' ∷ ms)

unfoldable pub close_stream : ℕ → SharedState → SharedState
unfolding ends_in_close
close_stream id st = elim (get id st.streams) [
  | none ↦ st
  | some s ↦
      if ends_in_close s.outbound_buf then st else flush_writes (put id (push_back s close_it) st)
]

unfoldable pub close_stream_immediately : ℕ → SharedState → SharedState
close_stream_immediately id st = elim (get id st.streams) [
  | none ↦ st
  | some s ↦ flush_writes (
      put id (record s { open_state = set_fin_by_us s.open_state; outbound_buf = close_it ∷ [] })
        st)
]

-- `reset_stream_immediately_with_shared_state`
unfoldable pub reset_stream_immediately : ℕ → SharedState → SharedState
reset_stream_immediately id st = elim (get id st.streams) [
  | none ↦ st
  | some s ↦
      flush_writes (put id (record s { open_state = reset; outbound_buf = reset_it ∷ [] }) st)
]

-- `data`
abbrev pub data_bytes : Session → List ℕ
data_bytes s = take s.data_len s.inbound_buf
