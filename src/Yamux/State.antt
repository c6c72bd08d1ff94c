-- ===== src/Yamux/State.antt =====
-- layers/yamux.rs: the state of a session and of its streams.
use polkadot_p2p_connect.Prelude.{
  ℕ, ◌*◌, Bool, true, false, ◌||◌, List, [], ◌∷◌, ◌++◌, Option, none, replicate,
}
use polkadot_p2p_connect.Prelude.Maps.{Map}
use polkadot_p2p_connect.Yamux.Header

abbrev pub default_window : ℕ
default_window = 256 * 1024

abbrev pub max_streams : ℕ
max_streams = 256

abbrev pub max_frame_size : ℕ
max_frame_size = 512 * 1024

abbrev pub max_send_size : ℕ
max_send_size = 64 * 1024

pub data Error : Type 0 where
  async_read async_write : Error
  header_decode : Header.DecodeError → Error
  stream_not_found data_sent_after_fin invalid_stream_id duplicate_stream_id : ℕ → Error
  frame_too_large : ℕ → Error
  server_internal_error server_protocol_error : Error
  server_unknown_error : ℕ → Error

pub data Result {ℓ} (A : Type ℓ) : Type ℓ where
  ok : A → Result A
  err : Error → Result A

pub data OutputState : Type 0 where
  opened_by_remote : OutputState
  received : ℕ → OutputState
  closed_by_remote : OutputState

pub record Output : Type 0 where
  pub stream_id : ℕ
  pub state : OutputState

abbrev pub output : ℕ → OutputState → Output
output id state = record { stream_id = id; state = state }

pub data OpenState : Type 0 where
  open_both fin_by_us fin_by_them reset : OpenState

abbrev pub set_fin_by_them : OpenState → OpenState
set_fin_by_them open_both = fin_by_them
set_fin_by_them fin_by_them = fin_by_them
set_fin_by_them reset = reset
set_fin_by_them fin_by_us = reset

abbrev pub set_fin_by_us : OpenState → OpenState
set_fin_by_us open_both = fin_by_us
set_fin_by_us fin_by_us = fin_by_us
set_fin_by_us reset = reset
set_fin_by_us fin_by_them = reset

-- `BufferedOutboundMessage`; `payload` is its `Data`.
pub data Message : Type 0 where
  accept_it open_it close_it reset_it : Message
  payload : List ℕ → Message
  window_update : ℕ → Message

pub record StreamState : Type 0 where
  pub send_window : ℕ
  pub recv_window : ℕ
  pub open_state : OpenState
  pub outbound_buf : List Message

abbrev pub new_stream : StreamState
new_stream = record {
  send_window = default_window;
  recv_window = default_window;
  open_state = open_both;
  outbound_buf = [];
}

abbrev pub push_back : StreamState → Message → StreamState
push_back s m = record s { outbound_buf = s.outbound_buf ++ m ∷ [] }

-- A waker is whether one is stored; `woken` records that it was called, so the write future runs.
pub record SharedState : Type 0 where
  pub streams : Map StreamState
  pub write_buf : List ℕ
  pub output_buf : Option Output
  pub has_pending_writes : Bool
  pub pending_write_waker : Bool
  pub woken : Bool

abbrev pub flush_writes : SharedState → SharedState
flush_writes st = record st {
  has_pending_writes = true;
  pending_write_waker = false;
  woken = st.woken || st.pending_write_waker;
}

-- `inbound_buf` is the array that payloads are read into. The transport is no part of the record.
pub record Session : Type 0 where
  pub shared : SharedState
  pub open shared use *
  pub next_stream_id : ℕ
  pub finished : Bool
  pub inbound_buf : List ℕ
  pub data_len : ℕ

-- `YamuxSession::new`
unfoldable pub new : Session
new = record {
  shared = record {
    streams = [];
    write_buf = [];
    output_buf = none;
    has_pending_writes = false;
    pending_write_waker = false;
    woken = false;
  };
  next_stream_id = Header.first;
  finished = false;
  inbound_buf = replicate max_frame_size 0;
  data_len = 0;
}
