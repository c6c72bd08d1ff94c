-- ===== src/Yamux/Next.antt =====
-- layers/yamux.rs: `read_next` and `next`, over any reader.
pub mod Finished
pub mod Ids
use polkadot_p2p_connect.Prelude.{
  ℕ, zero, suc, true, if◌then◌else◌, ltb, ◌++◌, Option, none, some, drop,
}
use polkadot_p2p_connect.AsyncStream.{AsyncRead}
use polkadot_p2p_connect.Yamux.Header.{Header, FrameType, decode}
use polkadot_p2p_connect.Yamux.Header
use polkadot_p2p_connect.Yamux.State.{
  Session, SharedState, async_read, header_decode, frame_too_large, Result, ok, err, Output,
  OutputState, received, opened_by_remote, closed_by_remote, max_frame_size,
}
use polkadot_p2p_connect.Yamux.Read.{Round, again, emit, session_closed, failed, handle_frame}

abbrev with_shared : Session → SharedState × Round → Session × Round
with_shared s (st, r) = (record s { shared = st }, r)

module _ (io : AsyncRead) where
  open io use {Reader, read_exact}

  -- The reads and the handling of a frame, whose header has been decoded.
  unfoldable pub read_frame : FrameType → Header → Reader → Session → (Session × Round) × Reader
  read_frame FrameType.payload hdr r s =
      if ltb max_frame_size hdr.length
      then ((s, failed (frame_too_large hdr.length)), r)
      else elim (read_exact hdr.length r) [
        | none ↦ ((s, failed async_read), r)
        | some (bytes, r') ↦ (
          with_shared (record s { inbound_buf = bytes ++ drop hdr.length s.inbound_buf })
              (handle_frame FrameType.payload hdr s.shared),
          r',
        )
      ]
  read_frame t hdr r s = (with_shared s (handle_frame t hdr s.shared), r)

  unfoldable pub read_header : Header.Result Header → Reader → Session → (Session × Round) × Reader
  read_header (Header.err e) r s = ((s, failed (header_decode e)), r)
  read_header (Header.ok hdr) r s = read_frame hdr.frame_type hdr r s

  -- A round with no output waiting: the header first, then by its frame type.
  unfoldable pub read_wire : Reader → Session → (Session × Round) × Reader
  read_wire r s = elim (read_exact 12 r) [
    | none ↦ ((s, failed async_read), r)
    | some (hdr_buf, r') ↦ read_header (decode hdr_buf) r' s
  ]

  -- One round of the loop of `read_next`. After a failed read the reader is not used again.
  unfoldable pub read_round : Reader → Session → (Session × Round) × Reader
  read_round r s = elim s.output_buf [
    | some o ↦ ((record s { shared = record s.shared { output_buf = none } }, emit o), r)
    | none ↦ read_wire r s
  ]

  -- `read_next` on a number of rounds; `again` is that these were not enough.
  unfoldable pub read_next : ℕ → Reader → Session → (Session × Round) × Reader
  read_next zero r s = ((s, again), r)
  read_next (suc rounds) r s =
      let ((s', round), r') = read_round r s in
      elim round [
        | again ↦ read_next rounds r' s'
        | emit o ↦ ((s', emit o), r')
        | session_closed ↦ ((s', session_closed), r')
        | failed e ↦ ((s', failed e), r')
      ]

-- The number of data bytes that are available behind an output.
abbrev available : OutputState → ℕ
available (received n) = n
available opened_by_remote = 0
available closed_by_remote = 0

-- What `next` makes of the result of `next_inner`; `again` is no result.
unfoldable pub settle : Session → Round → Session × Option (Result Output)
settle s (emit o) = (record s { data_len = available o.state }, some (ok o))
settle s session_closed = (record s { finished = true }, none)
settle s (failed e) = (record s { finished = true }, some (err e))
settle s again = (s, none)

-- `next` on a number of rounds, with no write in between.
unfoldable pub next :
    (io : AsyncRead) → ℕ → io.Reader → Session → (Session × Option (Result Output)) × io.Reader
next io rounds r s0 =
    let s = record s0 { data_len = 0 } in
    if s.finished
    then ((s, none), r)
    else (let ((s', round), r') = read_next io rounds r s in (settle s' round, r'))
