-- ===== src/Yamux/Next/Ids.antt =====
-- layers/yamux.rs: `next` opens no stream, so the next id of the session stays.
use polkadot_p2p_connect.Prelude.{ℕ, zero, suc, ◌≡◌, refl, arith, inl, inr, Option-cases}
use polkadot_p2p_connect.AsyncStream.{AsyncRead}
use polkadot_p2p_connect.Yamux.Header.{FrameType, Header}
use polkadot_p2p_connect.Yamux.Header
use polkadot_p2p_connect.Yamux.State.{Session}
use polkadot_p2p_connect.Yamux.Next.{
  read_frame, read_header, read_wire, read_round, read_next, settle, next,
}

-- The parts of the session's `next`; none of them opens a stream.
module _ (io : AsyncRead) where
  open io use {Reader}

  read_frame-id :
      (t : FrameType) (hdr : Header) (r : Reader) (s : Session)
      → (read_frame io t hdr r s).0.0.next_stream_id ≡ s.next_stream_id
  unfolding read_frame
  read_frame-id t hdr r s = ground arith

  read_header-id :
      (h : Header.Result Header) (r : Reader) (s : Session)
      → (read_header io h r s).0.0.next_stream_id ≡ s.next_stream_id
  unfolding read_header
  read_header-id (Header.err e) r s = refl
  read_header-id (Header.ok hdr) r s = read_frame-id hdr.frame_type hdr r s

  read_wire-id :
      (r : Reader) (s : Session) → (read_wire io r s).0.0.next_stream_id ≡ s.next_stream_id
  unfolding read_wire
  read_wire-id r s = elim (Option-cases (io.read_exact 12 r)) [
    | inl e ↦ rw (e, read_wire) refl
    | inr ((hdr_buf, r'), e) ↦ rw (e, read_wire) (read_header-id (Header.decode hdr_buf) r' s)
  ]

  read_round-id :
      (r : Reader) (s : Session) → (read_round io r s).0.0.next_stream_id ≡ s.next_stream_id
  unfolding read_round
  read_round-id r s = ground (arith, read_wire-id r s)

  read_next-id :
      (rounds : ℕ) (r : Reader) (s : Session)
      → (read_next io rounds r s).0.0.next_stream_id ≡ s.next_stream_id
  unfolding read_next
  read_next-id zero r s = refl
  read_next-id (suc rounds) r s =
      let ((s', round), r') = read_round io r s in
      ground (arith, read_round-id r s, read_next-id rounds r' s')

  pub next-id :
      (rounds : ℕ) (r : Reader) (s : Session)
      → (next io rounds r s).0.0.next_stream_id ≡ s.next_stream_id
  unfolding next settle
  next-id rounds r s = ground (arith, read_next-id rounds r (record s { data_len = 0 }))
