-- ===== src/Examples/Sessions.antt =====
-- A session and its multistreams on concrete calls and frames.
use polkadot_p2p_connect.Prelude.{
  ℕ, ◌-◌, ◌%◌, ◌≤◌, ◌≡◌, ◌≢◌, refl, arith, Bool, true, false, List, [], ◌∷◌, ◌++◌, none, some,
  length,
}
use polkadot_p2p_connect.Prelude.Maps.{get}
use polkadot_p2p_connect.AsyncStream.{arrived}
use polkadot_p2p_connect.FrameBuffer.{frame, empty, push}
use polkadot_p2p_connect.FrameBuffer.Frames.{Framed, drain}
use polkadot_p2p_connect.Yamux.Header
use polkadot_p2p_connect.Yamux.State
use polkadot_p2p_connect.Yamux.State.{
  Session, SharedState, StreamState, new, new_stream, payload, close_it, open_it, window_update,
  open_both, set_fin_by_us, max_send_size,
}
use polkadot_p2p_connect.Yamux.Api
use polkadot_p2p_connect.Yamux.Api.{opened, put}
use polkadot_p2p_connect.Yamux.Steps.{Step, opens, sends, Reachable, start, with_state}
use polkadot_p2p_connect.Yamux.Steps
use polkadot_p2p_connect.Yamux.Invariant.{Inv}
use polkadot_p2p_connect.Yamux.Invariant.Reached.{Reachable-Inv, open_stream-fresh}
use polkadot_p2p_connect.Yamux.Queues.{pending, send_data-pending}
use polkadot_p2p_connect.Yamux.Write.{one_slice, write_stream, gather}
use polkadot_p2p_connect.Yamux.Write.Rounds.{gather-ends}
use polkadot_p2p_connect.Yamux.Write.Frames.{data_wire, concat, requeue, write_stream-payload}
use polkadot_p2p_connect.Yamux.Write.Order.{close-overtakes, data-overtakes}
use polkadot_p2p_connect.Multistreams.{
  YamuxMultistream, Multistream, new_incoming_protocol, MultistreamState, open_now,
  waiting_for_accept, incoming_protocol, output, set_buf, send_data, ok,
}
use polkadot_p2p_connect.Multistreams.Next.{on_frame, next_round, emit}
use polkadot_p2p_connect.Multistreams.Negotiation.{state_of, Emits, on_frame-Emits}
use polkadot_p2p_connect.Multistreams.Bounds.{Bounded, next_round-Bounded}
use polkadot_p2p_connect.Multistreams.Sending.{send_data-Framed}

abbrev first_open : Session
unfolding new
first_open = opened new 3

opens_first : Api.open_stream new ≡ some (first_open, 1)
unfolding Api.open_stream new
opens_first = refl

first_open-Reachable : Reachable arrived one_slice first_open
first_open-Reachable = Steps.next start (opens first_open 1 opens_first)

Reachable-Inv_example : Inv first_open
Reachable-Inv_example = Reachable-Inv arrived one_slice first_open-Reachable

opens_second : Api.open_stream first_open ≡ some (opened first_open 5, 3)
unfolding Api.open_stream first_open
opens_second = refl

open_stream-fresh_example : (3 % 2 ≡ 1) × (get 3 first_open.streams ≡ none)
open_stream-fresh_example =
    open_stream-fresh arrived one_slice first_open (opened first_open 5) 3 first_open-Reachable
      opens_second

abbrev pub with_queue : List State.Message → ℕ → StreamState
with_queue queue window = record {
  send_window = window;
  recv_window = 262144;
  open_state = open_both;
  outbound_buf = queue;
}

abbrev pub shared_with : StreamState → SharedState
shared_with s = record {
  streams = (1, s) ∷ [];
  write_buf = [];
  output_buf = none;
  has_pending_writes = false;
  pending_write_waker = false;
  woken = false;
}

abbrev greeting : List ℕ
greeting = 104 ∷ 105 ∷ []

abbrev greeting_queued : StreamState
greeting_queued = with_queue (open_it ∷ payload greeting ∷ []) 100

gather-ends_example :
    (r : SharedState × List ℕ) × (gather one_slice 20 (shared_with greeting_queued) ≡ some r)
gather-ends_example = gather-ends one_slice 20 (shared_with greeting_queued) (omega arith)

write_stream-payload_example :
    (ps : List (List ℕ)) × (left : List ℕ) × (write_stream one_slice 1
        (with_queue (payload greeting ∷ []) 1)
      ≡ record {
        bytes = data_wire 1 ps;
        stream = with_queue (requeue left []) (1 - length (concat ps));
        removed = false;
      })
    × (greeting ≡ concat ps ++ left)
    × (1 ≤ length (concat ps))
    × (length (concat ps) ≤ 1)
    × (length (concat ps) ≤ max_send_size)
write_stream-payload_example =
    write_stream-payload one_slice 1 (with_queue (payload greeting ∷ []) 1) greeting [] refl
      (omega arith) (omega arith)

abbrev stalled : StreamState
stalled = with_queue (payload greeting ∷ close_it ∷ []) 0

close-overtakes_example :
    (write_stream one_slice 1 stalled ≡ record {
      bytes = [];
      stream = with_queue (close_it ∷ payload greeting ∷ []) 0;
      removed = false;
    })
    × (write_stream one_slice 1 (write_stream one_slice 1 stalled).stream ≡ record {
      bytes = Header.encode (Header.close_stream 1);
      stream = record (with_queue (payload greeting ∷ []) 0) {
        open_state = set_fin_by_us open_both;
      };
      removed = false;
    })
close-overtakes_example = close-overtakes one_slice 1 stalled greeting refl refl

abbrev stalled_data : StreamState
stalled_data = with_queue (payload greeting ∷ window_update 5 ∷ payload (7 ∷ []) ∷ []) 0

data-overtakes_example :
    let first = write_stream one_slice 1 stalled_data in
    let second = write_stream one_slice 1 first.stream in
    (first.bytes ≡ [])
    × (second.bytes ≡ Header.encode (Header.window_update_by 1 5))
    × (pending stalled_data.outbound_buf ≡ greeting ++ 7 ∷ [])
    × (pending second.stream.outbound_buf ≡ 7 ∷ greeting)
data-overtakes_example = data-overtakes one_slice 1 stalled_data greeting (7 ∷ []) 5 refl refl

abbrev longer : StreamState
longer = with_queue (open_it ∷ payload (greeting ++ 7 ∷ []) ∷ []) 100

sends_more :
    Api.send_data 1 (7 ∷ []) (shared_with greeting_queued)
    ≡ (State.flush_writes (shared_with longer), State.ok tt)
unfolding Api.send_data
sends_more = refl

send_data-pending_example :
    (s : StreamState) × (s' : StreamState) × (get 1 (shared_with greeting_queued).streams ≡ some s)
    × (get 1 (shared_with longer).streams ≡ some s')
    × (pending s'.outbound_buf ≡ pending s.outbound_buf ++ 7 ∷ [])
    × ((other : ℕ)
        → other ≢ 1
        → get other (shared_with longer).streams ≡ get other (shared_with greeting_queued).streams)
send_data-pending_example =
    send_data-pending 1 (7 ∷ []) (shared_with greeting_queued)
      (State.flush_writes (shared_with longer)) sends_more

abbrev pub stream_in : MultistreamState → Multistream
stream_in state = record { buffer = empty; state = state; max_buffer_size = 1024 }

abbrev pub multistreams : MultistreamState → YamuxMultistream
multistreams state = record {
  inner = record {
    shared = shared_with (with_queue [] 100);
    next_stream_id = 3;
    finished = false;
    inbound_buf = [];
    data_len = 0;
  };
  bufs = (1, stream_in state) ∷ [];
  read_from_stream_buffer = some 1;
}

abbrev pub any_bytes : List ℕ → Bool
any_bytes bytes = true

proposed :
    on_frame any_bytes 1
      (stream_in new_incoming_protocol)
      new_incoming_protocol
      (47 ∷ 97 ∷ b'\n' ∷ [])
      (multistreams new_incoming_protocol)
    ≡ (
      multistreams (waiting_for_accept (47 ∷ 97 ∷ [])),
      emit (output 1 (incoming_protocol (47 ∷ 97 ∷ []))),
    )
unfolding on_frame
proposed = refl

on_frame-Emits_example :
    ((output 1 (incoming_protocol (47 ∷ 97 ∷ []))).stream_id ≡ 1)
    × Emits any_bytes new_incoming_protocol
        (47 ∷ 97 ∷ b'\n' ∷ [])
        (incoming_protocol (47 ∷ 97 ∷ []))
        (state_of 1 (multistreams (waiting_for_accept (47 ∷ 97 ∷ []))))
on_frame-Emits_example =
    on_frame-Emits any_bytes 1 (stream_in new_incoming_protocol) new_incoming_protocol
      (47 ∷ 97 ∷ b'\n' ∷ []) (multistreams new_incoming_protocol)
      (multistreams (waiting_for_accept (47 ∷ 97 ∷ [])))
      (output 1 (incoming_protocol (47 ∷ 97 ∷ []))) refl proposed

abbrev two_bytes : List ℕ
two_bytes = 1 ∷ 2 ∷ []

next_round-Bounded_example :
    Bounded (next_round any_bytes arrived 5 two_bytes (multistreams open_now)).0.0
next_round-Bounded_example =
    next_round-Bounded any_bytes arrived 5 two_bytes (multistreams open_now) (omega arith, tt)

abbrev sent_greeting : YamuxMultistream
sent_greeting = (send_data 1 greeting (multistreams open_now)).0

sends_greeting : send_data 1 greeting (multistreams open_now) ≡ (sent_greeting, ok tt)
unfolding send_data polkadot_p2p_connect.Multistreams.send_multistream_data
    polkadot_p2p_connect.Varint.encode polkadot_p2p_connect.Multistreams.send_parts Api.send_data
sends_greeting = refl

pub pending_nothing : Framed [] (pending (with_queue [] 100).outbound_buf)
unfolding pending
pending_nothing = refl

send_data-Framed_example :
    (entry : Multistream) × (s' : StreamState) × (get 1 (multistreams open_now).bufs ≡ some entry)
    × (entry.state ≡ open_now)
    × (get 1 sent_greeting.inner.shared.streams ≡ some s')
    × (drain 1 (push empty (pending s'.outbound_buf)) ≡ some (frame greeting) ∷ none ∷ [])
    × ((other : ℕ)
        → other ≢ 1
        → get other sent_greeting.inner.shared.streams
          ≡ get other (multistreams open_now).inner.shared.streams)
send_data-Framed_example =
    send_data-Framed 1 greeting [] (multistreams open_now) sent_greeting (with_queue [] 100)
      (omega arith) refl pending_nothing sends_greeting
