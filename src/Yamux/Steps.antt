-- ===== src/Yamux/Steps.antt =====
-- How a session goes on: a call, a round of the read future, the end of a call of `next`, and the
-- steps of the write future, in any order. The transport may fail or deliver any bytes.
use polkadot_p2p_connect.Prelude.{ℕ, ◌≡◌, List, some}
use polkadot_p2p_connect.AsyncStream.{AsyncRead}
use polkadot_p2p_connect.Yamux.State.{Session, SharedState, new}
use polkadot_p2p_connect.Yamux.Api.{
  open_stream, send_data, close_stream, close_stream_immediately, reset_stream_immediately,
}
use polkadot_p2p_connect.Yamux.Read.{Round}
use polkadot_p2p_connect.Yamux.Next.{read_round, settle}
use polkadot_p2p_connect.Yamux.Write.{Layout, take_write_buf, gather, park}

abbrev pub with_state : Session → SharedState → Session
with_state s st = record s { shared = st }

module _ (io : AsyncRead) (l : Layout) where
  pub data Step (s : Session) : Session → Type 0 where
    opens : (s' : Session) (id : ℕ) → open_stream s ≡ some (s', id) → Step s s'
    sends : (id : ℕ) (bytes : List ℕ) → Step s (with_state s (send_data id bytes s.shared).0)
    closes : (id : ℕ) → Step s (with_state s (close_stream id s.shared))
    closes_immediately : (id : ℕ) → Step s (with_state s (close_stream_immediately id s.shared))
    resets : (id : ℕ) → Step s (with_state s (reset_stream_immediately id s.shared))
    begins : Step s (record s { data_len = 0 })
    reads : (r : io.Reader) → Step s (read_round io r s).0.0
    settles : (round : Round) → Step s (settle s round).0
    takes : Step s (with_state s (take_write_buf s.shared).0)
    gathers :
        (rounds : ℕ) (st : SharedState) (bytes : List ℕ)
        → gather l rounds s.shared ≡ some (st, bytes)
        → Step s (with_state s st)
    parks : Step s (with_state s (park s.shared).0)

  -- The states that a new session can reach.
  pub data Reachable : Session → Type 0 where
    start : Reachable new
    next : {s s' : Session} → Reachable s → Step s s' → Reachable s'
