-- ===== src/Yamux/Invariant.antt =====
-- What holds in every state of a session.
pub mod Calls
pub mod Frames
pub mod Writes
pub mod Reached
use polkadot_p2p_connect.Prelude.{
  ℕ, ◌+◌, ◌*◌, ◌/◌, ◌%◌, ◌^◌, ◌≤◌, ◌<◌, ◌≡◌, ◌≢◌, List, [], ◌∷◌, All,
}
use polkadot_p2p_connect.Prelude.Maps.{Map, Entries}
use polkadot_p2p_connect.Yamux.State.{
  Session, SharedState, StreamState, OpenState, open_both, fin_by_us, fin_by_them, reset, Message,
  accept_it, open_it, close_it, reset_it, payload, window_update, max_frame_size,
}

-- As long as the peer may send data, it has been granted a window of half the largest frame.
abbrev pub Granted : OpenState → ℕ → Type 0
Granted open_both n = max_frame_size / 2 ≤ n
Granted fin_by_us n = max_frame_size / 2 ≤ n
Granted fin_by_them n = Unit {0}
Granted reset n = Unit {0}

-- A window update has room in the `u32` that it is cast to.
abbrev pub Fits : Message → Type 0
Fits (window_update n) = n < 2 ^ 32
Fits accept_it = Unit {0}
Fits open_it = Unit {0}
Fits close_it = Unit {0}
Fits reset_it = Unit {0}
Fits (payload bytes) = Unit {0}

-- `next` is the id that the next stream of ours gets.
pub record IsSound (next id : ℕ) (s : StreamState) : Type 0 where
  pub bounded : s.recv_window ≤ max_frame_size
  pub granted : Granted s.open_state s.recv_window
  pub sendable : s.send_window < 2 ^ 64
  pub updates_fit : All Fits s.outbound_buf
  pub ours_below : id % 2 ≡ 1 → id < next
  pub no_session_id : id ≢ 0

abbrev pub Sound : ℕ → Map StreamState → Type 0
Sound next m = Entries (IsSound next) m

pub record Inv (s : Session) : Type 0 where
  pub odd : s.next_stream_id % 2 ≡ 1
  pub streams_sound : Sound s.next_stream_id s.streams
