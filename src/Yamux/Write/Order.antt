-- ===== src/Yamux/Write/Order.antt =====
-- The order in which a stream's messages are sent when the peer's window is used up.
use polkadot_p2p_connect.Prelude.{ℕ, ◌≡◌, refl, arith, false, List, [], ◌∷◌, ◌++◌, append-nil}
use polkadot_p2p_connect.Yamux.Header.{encode}
use polkadot_p2p_connect.Yamux.Header
use polkadot_p2p_connect.Yamux.State.{StreamState, payload, close_it, window_update, set_fin_by_us}
use polkadot_p2p_connect.Yamux.Queues.{pending}
use polkadot_p2p_connect.Yamux.Write.{Layout, write_stream, write_payload, bytes_to_send}

module _ (l : Layout) (id : ℕ) (s : StreamState) (outbound : List ℕ) where
  -- Data that waits for the peer's window goes behind the close that was queued after it: when the
  -- window is used up, the stream's first turn writes nothing and swaps the two, and its second turn
  -- writes the close, counts our half as closed, and leaves all of the data unsent.
  pub close-overtakes :
      s.outbound_buf ≡ payload outbound ∷ close_it ∷ []
      → s.send_window ≡ 0
      → (write_stream l id s ≡ record {
        bytes = [];
        stream = record s { outbound_buf = close_it ∷ payload outbound ∷ [] };
        removed = false;
      })
        × (write_stream l id (write_stream l id s).stream ≡ record {
          bytes = encode (Header.close_stream id);
          stream = record s {
            open_state = set_fin_by_us s.open_state;
            outbound_buf = payload outbound ∷ [];
          };
          removed = false;
        })
  unfolding write_stream
  close-overtakes e empty = (first, rw first refl)
    where
      nothing : bytes_to_send outbound s ≡ 0
      nothing = omega arith

      first : write_stream l id s ≡ record {
        bytes = [];
        stream = record s { outbound_buf = close_it ∷ payload outbound ∷ [] };
        removed = false;
      }
      first = unfold write_stream write_payload in rw (e, empty) (ground (arith, nothing))

  -- Data that waits for the peer's window also goes behind data that was sent after it: when the window
  -- is used up and a window update lies between the two, the stream's first turn writes nothing, its
  -- second turn writes the update alone, and then the stream's data is no longer in the order in which
  -- it was queued.
  pub data-overtakes :
      (later : List ℕ) (n : ℕ)
      → s.outbound_buf ≡ payload outbound ∷ window_update n ∷ payload later ∷ []
      → s.send_window ≡ 0
      → let first = write_stream l id s in
        let second = write_stream l id first.stream in
        (first.bytes ≡ [])
        × (second.bytes ≡ encode (Header.window_update_by id n))
        × (pending s.outbound_buf ≡ outbound ++ later)
        × (pending second.stream.outbound_buf ≡ later ++ outbound)
  unfolding write_stream pending
  data-overtakes later n e empty =
      rw (first) (refl, refl, rw (e, append-nil) refl, rw append-nil refl)
    where
      nothing : bytes_to_send outbound s ≡ 0
      nothing = omega arith

      first : write_stream l id s ≡ record {
        bytes = [];
        stream = record s {
          outbound_buf = window_update n ∷ payload later ∷ payload outbound ∷ [];
        };
        removed = false;
      }
      first = unfold write_stream write_payload in rw (e, empty) (ground (arith, nothing))
