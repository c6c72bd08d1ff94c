-- ===== src/Yamux/Read.antt =====
-- layers/yamux.rs: what a session does with a frame that it received. One round of the loop of
-- `read_next` runs without a pause from the end of its last read to the next round, so a round is one
-- step; the write future and, between calls of `next`, the calls of `Yamux/Api` come in between.
use polkadot_p2p_connect.Prelude.{
  ℕ, ◌+◌, ◌-◌, ◌/◌, ◌^◌, min, Bool, true, false, not, ◌||◌, if◌then◌else◌, ltb, leb, ◌==◌, ◌++◌,
  Option, none, some, length,
}
use polkadot_p2p_connect.Prelude.Maps.{get, remove, contains_key}
use polkadot_p2p_connect.Yamux.Header.{
  Header, FrameType, contains, fin, rst, is_open_new_stream, is_even, is_session_id, pong,
  reset_stream, encode, go_away_type, GoAwayType,
}
use polkadot_p2p_connect.Yamux.State.{
  SharedState, StreamState, push_back, flush_writes, accept_it, window_update, Error,
  data_sent_after_fin, invalid_stream_id, duplicate_stream_id, server_internal_error,
  server_protocol_error, server_unknown_error, Output, output, opened_by_remote, received,
  closed_by_remote, OpenState, open_both, fin_by_us, fin_by_them, reset, set_fin_by_them,
  max_streams, max_frame_size,
}
use polkadot_p2p_connect.Yamux.Api.{entry, put, reset_stream_immediately}

-- The end of a round: another one, or a result of `read_next`.
pub data Round : Type 0 where
  again : Round
  emit : Output → Round
  session_closed : Round
  failed : Error → Round

-- The stream of a frame, and whether the frame opened it.
pub data Located : Type 0 where
  refused : Error → Located
  ignored : Located
  located : StreamState → Bool → Located

unfoldable pub negotiate_new_stream_request : Header → SharedState → SharedState × Located
negotiate_new_stream_request hdr st0 =
    let id = hdr.stream_id in
    let st = flush_writes st0 in
    let stream = push_back (entry id st) accept_it in
    if not (is_even id) || is_session_id id
    then (st, refused (invalid_stream_id id))
    else if leb max_streams (length st.streams)
    then (record st { write_buf = st.write_buf ++ encode (reset_stream id) }, ignored)
    else if contains_key id st.streams
    then (st, refused (duplicate_stream_id id))
    else (put id stream st, located stream true)

unfoldable pub locate : Header → SharedState → SharedState × Located
locate hdr st =
    if is_open_new_stream hdr.flags
    then negotiate_new_stream_request hdr st
    else elim (get hdr.stream_id st.streams) [
      | none ↦ (st, ignored)
      | some s ↦ (st, located s false)
    ]

-- The stream's windows and state after `data_len` bytes arrived on it.
unfoldable pub account_data : Header → ℕ → StreamState → SharedState → SharedState
account_data hdr data_len s st =
    let id = hdr.stream_id in
    let left = s.recv_window - data_len in
    let stream = record s { recv_window = left } in
    let delta = max_frame_size - left in
    let closed = some (output id closed_by_remote) in
    if contains hdr.flags rst
    then record st { streams = remove id st.streams; output_buf = closed }
    else if contains hdr.flags fin
    then record (put id (record stream { open_state = fin_by_them }) st) { output_buf = closed }
    else if ltb left (max_frame_size / 2)
    then flush_writes
        (put id (push_back (record stream { recv_window = left + delta }) (window_update delta)) st)
    else put id stream st

-- What is handed out for `data_len` bytes.
unfoldable pub emit_data : ℕ → ℕ → Bool → SharedState → SharedState × Round
emit_data id data_len is_new st =
    if data_len == 0
    then (if is_new then (st, emit (output id opened_by_remote)) else (st, again))
    else if is_new
    then (
      record st { output_buf = some (output id (received data_len)) },
      emit (output id opened_by_remote),
    )
    else (st, emit (output id (received data_len)))

unfoldable pub data_on :
    Header → ℕ → Bool → StreamState → OpenState → SharedState → SharedState × Round
data_on hdr data_len is_new s fin_by_them st = (st, failed (data_sent_after_fin hdr.stream_id))
data_on hdr data_len is_new s reset st = (st, again)
data_on hdr data_len is_new s open_both st =
    emit_data hdr.stream_id data_len is_new (account_data hdr data_len s st)
data_on hdr data_len is_new s fin_by_us st =
    emit_data hdr.stream_id data_len is_new (account_data hdr data_len s st)

unfoldable pub data_found : Header → SharedState × Located → SharedState × Round
data_found hdr (st, refused e) = (st, failed e)
data_found hdr (st, ignored) = (st, again)
data_found hdr (st, located s is_new) = data_on hdr hdr.length is_new s s.open_state st

-- A data frame whose payload has been read.
unfoldable pub handle_data : Header → SharedState → SharedState × Round
handle_data hdr st = data_found hdr (locate hdr st)

-- `usize::saturating_add`
abbrev pub saturating_add : ℕ → ℕ → ℕ
saturating_add a b = min (a + b) (2 ^ 64 - 1)

unfoldable pub window_on :
    Header → Bool → StreamState → OpenState → SharedState → SharedState × Round
window_on hdr is_new s reset st = (st, again)
window_on hdr is_new s state st =
    let id = hdr.stream_id in
    let stream = record s { send_window = saturating_add s.send_window hdr.length } in
    let closed = emit (output id closed_by_remote) in
    if contains hdr.flags rst
    then (record st { streams = remove id st.streams }, closed)
    else if contains hdr.flags fin
    then (put id (record stream { open_state = set_fin_by_them state }) st, closed)
    else (put id stream st, if is_new then emit (output id opened_by_remote) else again)

unfoldable pub window_found : Header → SharedState × Located → SharedState × Round
window_found hdr (st, refused e) = (st, failed e)
window_found hdr (st, ignored) = (st, again)
window_found hdr (st, located s is_new) = window_on hdr is_new s s.open_state st

-- A window update frame.
unfoldable pub handle_window_update : Header → SharedState → SharedState × Round
handle_window_update hdr st = window_found hdr (locate hdr (flush_writes st))

unfoldable pub handle_ping : Header → SharedState → SharedState × Round
handle_ping hdr st =
    if is_session_id hdr.stream_id
    then (
      flush_writes
          (record st { write_buf = st.write_buf ++ encode (pong hdr.stream_id hdr.length) }),
      again,
    )
    else (reset_stream_immediately hdr.stream_id st, again)

unfoldable pub go_away_round : ℕ → Option GoAwayType → Round
go_away_round code (some GoAwayType.internal_error) = failed server_internal_error
go_away_round code (some GoAwayType.protocol_error) = failed server_protocol_error
go_away_round code none = failed (server_unknown_error code)
go_away_round code (some GoAwayType.normal_termination) = session_closed

unfoldable pub handle_go_away : Header → SharedState → SharedState × Round
unfolding go_away_round
handle_go_away hdr st =
    if is_session_id hdr.stream_id
    then (st, go_away_round hdr.length (go_away_type hdr.length))
    else (reset_stream_immediately hdr.stream_id st, again)

-- A frame by its type; the payload of a data frame has been read.
unfoldable pub handle_frame : FrameType → Header → SharedState → SharedState × Round
handle_frame FrameType.payload hdr st = handle_data hdr st
handle_frame FrameType.window_update hdr st = handle_window_update hdr st
handle_frame FrameType.ping hdr st = handle_ping hdr st
handle_frame FrameType.go_away hdr st = handle_go_away hdr st
