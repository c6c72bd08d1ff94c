-- ===== src/Yamux/Write.antt =====
-- layers/yamux.rs: the write future, `write_next`. It runs without a pause between two of its awaits,
-- so a round of it is four steps, and frames and calls come in between: the global buffer is taken
-- and written, the streams' messages are gathered and written, and the future goes on or sleeps.
pub mod Frames
pub mod Order
pub mod Rounds
use polkadot_p2p_connect.Prelude.{
  ℕ, zero, suc, ◌+◌, ◌-◌, ◌^◌, ◌≡◌, refl, append-nil, min, Bool, true, false, if◌then◌else◌, ltb,
  ◌==◌, List, [], ◌∷◌, ◌++◌, Option, none, some, length, take, drop,
}
use mathlib.Core.Option
use polkadot_p2p_connect.Prelude.Maps.{Map, remove}
use polkadot_p2p_connect.Yamux.Header.{encode}
use polkadot_p2p_connect.Yamux.Header
use polkadot_p2p_connect.Yamux.State.{
  SharedState, StreamState, Message, accept_it, open_it, close_it, reset_it, payload, window_update,
  set_fin_by_us, max_send_size,
}

-- `VecDeque::as_slices`: the two runs of memory that hold the content, in order. Where the content is
-- split depends on the past of the deque.
pub record Layout : Type 0 where
  pub as_slices : List ℕ → List ℕ × List ℕ
  pub as_slices_lem : (xs : List ℕ) → (as_slices xs).0 ++ (as_slices xs).1 ≡ xs

one_slice_lem : (xs : List ℕ) → xs ++ [] ≡ xs
one_slice_lem xs = append-nil xs

abbrev pub one_slice : Layout
unfolding one_slice_lem
one_slice = record { as_slices = λ xs. (xs, []); as_slices_lem = one_slice_lem }

-- The bytes of a message, the stream after it, and whether the stream is to be removed.
pub record Written : Type 0 where
  pub bytes : List ℕ
  pub stream : StreamState
  pub removed : Bool

abbrev wrote : List ℕ → StreamState → Written
wrote bytes s = record { bytes = bytes; stream = s; removed = false }

-- The number of bytes of a data message that may be sent.
abbrev pub bytes_to_send : List ℕ → StreamState → ℕ
bytes_to_send outbound s = min (min (length outbound) s.send_window) max_send_size

module _ (l : Layout) (id : ℕ) where
  -- The frames of the first `n` bytes: one for each of the two slices that they lie in.
  unfoldable pub data_frames : ℕ → List ℕ × List ℕ → List ℕ
  data_frames n (a, b) =
      let a_len = min n (length a) in
      let b_len = n - length a in
      (encode (Header.send_data id a_len) ++ take a_len a)
      ++ (if ltb 0 b_len then encode (Header.send_data id b_len) ++ take b_len b else [])

  -- `rest` is the queue behind the data message.
  unfoldable pub write_payload : List ℕ → List Message → StreamState → Written
  unfolding data_frames
  write_payload outbound rest s =
      let n = bytes_to_send outbound s in
      let left = if n == length outbound then rest else payload (drop n outbound) ∷ rest in
      if n == 0
      then wrote [] (record s { outbound_buf = rest ++ payload outbound ∷ [] })
      else wrote (data_frames n (l.as_slices outbound))
          (record s { send_window = s.send_window - n; outbound_buf = left })

  unfoldable pub write_message : Message → List Message → StreamState → Written
  unfolding write_payload
  write_message accept_it rest s =
      wrote (encode (Header.accept_stream id)) (record s { outbound_buf = rest })
  write_message open_it rest s =
      wrote (encode (Header.open_stream id)) (record s { outbound_buf = rest })
  write_message close_it rest s =
      wrote (encode (Header.close_stream id))
        (record s { outbound_buf = rest; open_state = set_fin_by_us s.open_state })
  write_message reset_it rest s = record {
    bytes = encode (Header.reset_stream id);
    stream = record s { outbound_buf = rest };
    removed = true;
  }
  write_message (window_update n) rest s =
      wrote (encode (Header.window_update_by id n)) (record s { outbound_buf = rest })
  write_message (payload outbound) rest s = write_payload outbound rest s

  unfoldable pub write_queue : List Message → StreamState → Written
  unfolding write_message
  write_queue [] s = wrote [] s
  write_queue (m ∷ rest) s = write_message m rest s

  -- A stream's turn in a pass: the first message of its queue.
  unfoldable pub write_stream : StreamState → Written
  unfolding write_queue
  write_stream s = write_queue s.outbound_buf s

-- The bytes, the streams and the ids to remove.
pub record Gathered : Type 0 where
  pub bytes : List ℕ
  pub streams : Map StreamState
  pub to_remove : List ℕ

unfoldable pub remove_all : List ℕ → Map StreamState → Map StreamState
remove_all [] m = m
remove_all (id ∷ ids) m = remove_all ids (remove id m)

-- Before the first pass.
abbrev pub nothing_yet : SharedState → Gathered
nothing_yet st = record { bytes = []; streams = st.streams; to_remove = [] }

module _ (l : Layout) where
  -- One pass over the streams, in the order of their ids.
  unfoldable pub write_pass : Map StreamState → Gathered
  write_pass [] = record { bytes = []; streams = []; to_remove = [] }
  write_pass ((id, s) ∷ m) =
      let w = write_stream l id s in
      let g = write_pass m in
      record {
        bytes = w.bytes ++ g.bytes;
        streams = (id, w.stream) ∷ g.streams;
        to_remove = if w.removed then id ∷ g.to_remove else g.to_remove;
      }

  -- Passes until one writes nothing; `none` when the rounds run out.
  unfoldable pub write_passes : ℕ → ℕ → Gathered → Option Gathered
  write_passes zero old_len g = none
  write_passes (suc rounds) old_len g =
      let pass = write_pass g.streams in
      let more = write_passes rounds (length g.bytes) (record {
        bytes = g.bytes ++ pass.bytes;
        streams = pass.streams;
        to_remove = g.to_remove ++ pass.to_remove;
      }) in
      if length g.bytes == old_len then some g else more

  -- The block that gathers the streams' messages; the first comparison is with `usize::MAX`.
  unfoldable pub gather : ℕ → SharedState → Option (SharedState × List ℕ)
  gather rounds st =
      Option.map (λ g. (record st { streams = remove_all g.to_remove g.streams }, g.bytes))
        (write_passes rounds (2 ^ 64 - 1) (nothing_yet st))

-- The start of a round, and the bytes of the global buffer.
unfoldable pub take_write_buf : SharedState → SharedState × List ℕ
take_write_buf st = (record st { has_pending_writes = false; write_buf = [] }, st.write_buf)

-- The end of a round: `true` when there is more to write; else the future stores its waker and sleeps.
unfoldable pub park : SharedState → SharedState × Bool
park st =
    if st.has_pending_writes
    then (st, true)
    else (record st { pending_write_waker = true; woken = false }, false)
