-- ===== src/Yamux/Invariant/Reached.antt =====
-- The invariant of a session, along any sequence of calls, frames and writes.
use polkadot_p2p_connect.Prelude.{
  ℕ, ◌%◌, ◌≡◌, refl, arith, Bool-cases, Option-cases, inl, inr, ltb, none, some,
}
use polkadot_p2p_connect.Prelude.Maps.{get}
use polkadot_p2p_connect.AsyncStream.{AsyncRead}
use polkadot_p2p_connect.Yamux.Header.{Header, FrameType, decode}
use polkadot_p2p_connect.Yamux.Header
use polkadot_p2p_connect.Yamux.State.{Session, SharedState, new, max_frame_size}
use polkadot_p2p_connect.Yamux.Api.{open_stream}
use polkadot_p2p_connect.Yamux.Read.{Round, again, emit, session_closed, failed}
use polkadot_p2p_connect.Yamux.Next.{read_frame, read_header, read_wire, read_round, settle}
use polkadot_p2p_connect.Yamux.Write.{Layout, take_write_buf, park}
use polkadot_p2p_connect.Yamux.Steps.{
  Step, opens, sends, closes, closes_immediately, resets, begins, reads, settles, takes, gathers,
  parks, Reachable, start, next, with_state,
}
use polkadot_p2p_connect.Yamux.Invariant.{Sound, Inv}
use polkadot_p2p_connect.Yamux.Invariant.Calls.{
  open_stream-Inv, open_stream-some, next-fresh, send_data-Sound, close_stream-Sound,
  close_stream_immediately-Sound, reset_stream_immediately-Sound,
}
use polkadot_p2p_connect.Yamux.Invariant.Frames.{handle_frame-Sound}
use polkadot_p2p_connect.Yamux.Invariant.Writes.{gather-Sound}

-- A state with other streams, all sound.
with_state-Inv :
    (s : Session) (st : SharedState)
    → Inv s
    → Sound s.next_stream_id st.streams
    → Inv (with_state s st)
with_state-Inv s st v h = record { odd = v.odd; streams_sound = h }

module _ (io : AsyncRead) where
  module _ (s : Session) (v : Inv s) where
    read_frame-Inv :
        (t : FrameType) (hdr : Header) (r : io.Reader) → Inv (read_frame io t hdr r s).0.0
    unfolding read_frame
    read_frame-Inv FrameType.payload hdr r = elim (Bool-cases (ltb max_frame_size hdr.length)) [
      | inl large ↦ rw (large, read_frame) v
      | inr small ↦ elim (Option-cases (io.read_exact hdr.length r)) [
        | inl e ↦ rw (small, e, read_frame) v
        | inr ((bytes, r'), e) ↦
            rw (small, e, read_frame)
              (record {
                odd = v.odd;
                streams_sound =
                    handle_frame-Sound s.next_stream_id hdr s.shared v.streams_sound
                      FrameType.payload;
              })
      ]
    ]
    read_frame-Inv t hdr r = record {
      odd = v.odd;
      streams_sound = handle_frame-Sound s.next_stream_id hdr s.shared v.streams_sound t;
    }

    read_header-Inv : (d : Header.Result Header) (r : io.Reader) → Inv (read_header io d r s).0.0
    unfolding read_header
    read_header-Inv (Header.err e) r = v
    read_header-Inv (Header.ok hdr) r = read_frame-Inv hdr.frame_type hdr r

    read_wire-Inv : (r : io.Reader) → Inv (read_wire io r s).0.0
    unfolding read_wire
    read_wire-Inv r = elim (Option-cases (io.read_exact 12 r)) [
      | inl e ↦ rw (e, read_wire) v
      | inr ((hdr_buf, r'), e) ↦ rw (e, read_wire) (read_header-Inv (decode hdr_buf) r')
    ]

    read_round-Inv : (r : io.Reader) → Inv (read_round io r s).0.0
    unfolding read_round
    read_round-Inv r = elim (Option-cases s.output_buf) [
      | inl e ↦ ground (arith, read_wire-Inv r)
      | inr (o, e) ↦ ground arith
    ]

settle-Inv : (s : Session) (round : Round) → Inv s → Inv (settle s round).0
unfolding settle
settle-Inv s again v = v
settle-Inv s (emit o) v = record { odd = v.odd; streams_sound = v.streams_sound }
settle-Inv s session_closed v = record { odd = v.odd; streams_sound = v.streams_sound }
settle-Inv s (failed e) v = record { odd = v.odd; streams_sound = v.streams_sound }

park-Inv : (s : Session) → Inv s → Inv (with_state s (park s.shared).0)
unfolding park
park-Inv s v = record {
  odd = ground (arith, v.odd);
  streams_sound = ground (arith, v.streams_sound);
}

module _ (io : AsyncRead) (l : Layout) where
  -- Every step keeps the invariant.
  pub Step-Inv : {s s' : Session} → Step io l s s' → Inv s → Inv s'
  Step-Inv {s} (opens s' id e) v = open_stream-Inv s s' id v e
  Step-Inv {s} (sends id bytes) v =
      with_state-Inv s _ v (send_data-Sound s.next_stream_id id s.shared v.streams_sound bytes)
  Step-Inv {s} (closes id) v =
      with_state-Inv s _ v (close_stream-Sound s.next_stream_id id s.shared v.streams_sound)
  Step-Inv {s} (closes_immediately id) v =
      with_state-Inv s _ v
        (close_stream_immediately-Sound s.next_stream_id id s.shared v.streams_sound)
  Step-Inv {s} (resets id) v =
      with_state-Inv s _ v
        (reset_stream_immediately-Sound s.next_stream_id id s.shared v.streams_sound)
  Step-Inv {s} begins v = record { odd = v.odd; streams_sound = v.streams_sound }
  Step-Inv {s} (reads r) v = read_round-Inv io s v r
  Step-Inv {s} (settles round) v = settle-Inv s round v
  Step-Inv {s} takes v = with_state-Inv s _ v (unfold take_write_buf in v.streams_sound)
  Step-Inv {s} (gathers rounds st bytes e) v =
      with_state-Inv s st v
        (gather-Sound l s.next_stream_id rounds s.shared st bytes e v.streams_sound)
  Step-Inv {s} parks v = park-Inv s v

  -- In every state that a session can reach, each stream's window granted to the peer is at most
  -- 512 KiB, and at least 256 KiB as long as the peer may send data on it; what the peer granted fits
  -- a `usize`; queued window updates fit a `u32`; no stream has id 0, and odd ids are below the next.
  pub Reachable-Inv : {s : Session} → Reachable io l s → Inv s
  Reachable-Inv start = unfold new in record { odd = refl; streams_sound = tt }
  Reachable-Inv (next r st) = Step-Inv st (Reachable-Inv r)

  -- A stream that we open gets an odd id that no stream of the session has.
  pub open_stream-fresh :
      (s s' : Session) (id : ℕ)
      → Reachable io l s
      → open_stream s ≡ some (s', id)
      → (id % 2 ≡ 1) × (get id s.streams ≡ none)
  open_stream-fresh s s' id r e =
      let v = Reachable-Inv r in rw ((open_stream-some s s' id e).1) (v.odd, next-fresh s v)
