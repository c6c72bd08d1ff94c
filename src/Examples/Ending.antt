-- ===== src/Examples/Ending.antt =====
-- A session whose transport ends before the first header.
use polkadot_p2p_connect.Prelude.{◌≡◌, refl, Bool, true, false, [], ◌∷◌, none, some}
use polkadot_p2p_connect.AsyncStream.{arrived}
use polkadot_p2p_connect.Yamux.State.{Session, async_read, err}
use polkadot_p2p_connect.Yamux.Next.{next, read_next, read_round, read_wire, settle}
use polkadot_p2p_connect.Yamux.Next.Finished.{next-after_error}

abbrev session : (finished : Bool) → Session
session finished = record {
  shared = record {
    streams = [];
    write_buf = [];
    output_buf = none;
    has_pending_writes = false;
    pending_write_waker = false;
    woken = false;
  };
  next_stream_id = 1;
  finished = finished;
  inbound_buf = [];
  data_len = 0;
}

ends : (next arrived 3 [] (session false)).0 ≡ (session true, some (err async_read))
unfolding next read_next read_round read_wire settle
ends = refl

next-after_error_example :
    next arrived 5 (1 ∷ 2 ∷ []) (session true)
    ≡ ((record (session true) { data_len = 0 }, none), 1 ∷ 2 ∷ [])
next-after_error_example =
    next-after_error arrived 3 5 [] (1 ∷ 2 ∷ []) (session false) (session true) async_read ends
