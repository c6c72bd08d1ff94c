-- ===== src/Multistreams.antt =====
-- layers/yamux_multistream.rs: protocol negotiation and messages on the streams of a yamux session.
-- A `String` is the list of its bytes. `String::from_utf8` is the standard library's check of a list
-- of bytes, a parameter here. The pause after 64 units of work changes no state and is left out.
pub mod Agreement
pub mod Bounds
pub mod Ids
pub mod Next
pub mod Negotiation
pub mod Sending
use Prim.Native.Char.{code}
use Prim.Native.String
use Prim.Native.String.{String}
use polkadot_p2p_connect.Prelude.{
  ℕ, ◌+◌, ◌<◌, Bool, true, false, if◌then◌else◌, ltb, ◌==◌, bytes_eq, List, [], ◌∷◌, ◌++◌, Option,
  none, some, length, take, replicate,
}
use polkadot_p2p_connect.Prelude.Maps.{Map, get, insert, remove}
use polkadot_p2p_connect.Varint.{encode}
use polkadot_p2p_connect.FrameBuffer.{FrameBuffer, Frame, frame, error, empty, push, buffered, next}
use polkadot_p2p_connect.Yamux.State
use polkadot_p2p_connect.Yamux.State.{
  Session, SharedState, opened_by_remote, received, closed_by_remote,
}
use polkadot_p2p_connect.Yamux.Api.{data_bytes}
use polkadot_p2p_connect.Yamux.Api

abbrev pub codes : String → List ℕ
codes String.[] = []
codes (String.◌∷◌ c s) = code c ∷ codes s

-- `MULTISTREAM_PROTOCOL_NAME_WITH_NEWLINE`
abbrev pub header_line : List ℕ
header_line = codes "/multistream/1.0.0" ++ b'\n' ∷ []

-- `MULTISTREAM_PROTOCOL_MAX_LEN`
abbrev pub protocol_max_len : ℕ
protocol_max_len = 1024

pub data MultistreamState : Type 0 where
  new_incoming new_incoming_protocol : MultistreamState
  waiting_for_accept : List ℕ → MultistreamState
  outgoing : (seen_header : Bool) (current : List ℕ) (rest : List (List ℕ)) → MultistreamState
  open_now closed_by_us : MultistreamState

pub record Multistream : Type 0 where
  pub buffer : FrameBuffer
  pub state : MultistreamState
  pub max_buffer_size : ℕ

pub record YamuxMultistream : Type 0 where
  pub inner : Session
  pub bufs : Map Multistream
  pub read_from_stream_buffer : Option ℕ

-- `YamuxMultistream::new`
abbrev pub new : Session → YamuxMultistream
new session = record { inner = session; bufs = []; read_from_stream_buffer = none }

pub data CloseReason : Type 0 where
  by_remote incoming_message_too_large : CloseReason

pub data OutputState : Type 0 where
  incoming_protocol : List ℕ → OutputState
  outgoing_rejected : OutputState
  outgoing_accepted : List ℕ → OutputState
  message : List ℕ → OutputState
  closed : CloseReason → OutputState

pub record Output : Type 0 where
  pub stream_id : ℕ
  pub state : OutputState

abbrev pub output : ℕ → OutputState → Output
output id state = record { stream_id = id; state = state }

pub data Error : Type 0 where
  yamux : State.Error → Error
  varint_out_of_range no_protocols_given : Error
  stream_not_found stream_not_waiting_for_accept stream_not_open : ℕ → Error

-- `panicked` is a panic of `varint::encode` or of the stream ids.
pub data Result {ℓ} (A : Type ℓ) : Type ℓ where
  ok : A → Result A
  err : Error → Result A
  panicked : Result A

-- The calls of `YamuxSession::send_data`, up to the first that fails.
unfoldable pub send_parts : ℕ → List (List ℕ) → SharedState → SharedState × Result (Unit {0})
send_parts id [] st = (st, ok tt)
send_parts id (part ∷ parts) st =
    let (st', sent) = Api.send_data id part st in
    elim sent [ State.err e ↦ (st', err (yamux e)) | State.ok _ ↦ send_parts id parts st' ]

abbrev with_prefix :
    ℕ → Option (List ℕ × ℕ) → List (List ℕ) → SharedState → SharedState × Result (Unit {0})
with_prefix id none parts st = (st, panicked)
with_prefix id (some (buf, n)) parts st = send_parts id (take n buf ∷ parts) st

unfoldable pub send_multistream_data : ℕ → List ℕ → SharedState → SharedState × Result (Unit {0})
send_multistream_data id bytes st =
    with_prefix id (encode (length bytes) (replicate 10 0)) (bytes ∷ []) st

unfoldable pub send_multistream_data_with_newline :
    ℕ → List ℕ → SharedState → SharedState × Result (Unit {0})
send_multistream_data_with_newline id bytes st =
    with_prefix id (encode (length bytes + 1) (replicate 10 0)) (bytes ∷ (b'\n' ∷ []) ∷ []) st

abbrev pub with_shared : YamuxMultistream → SharedState → YamuxMultistream
with_shared m st = record m { inner = record m.inner { shared = st } }

abbrev pub set_buf : ℕ → Multistream → YamuxMultistream → YamuxMultistream
set_buf id entry m = record m { bufs = insert id entry m.bufs }

abbrev after_send :
    YamuxMultistream → SharedState × Result (Unit {0}) → YamuxMultistream × Result (Unit {0})
after_send m (st, r) = (with_shared m st, r)

abbrev start_outgoing :
    ℕ → List ℕ → List (List ℕ) → ℕ → YamuxMultistream → YamuxMultistream × Result ℕ
start_outgoing id protocol rest max_buffer_size m = (
  set_buf id
      (record {
        buffer = empty;
        max_buffer_size = max_buffer_size;
        state = outgoing false protocol rest;
      })
      m,
  ok id,
)

abbrev pub then_result {ℓ} :
    {A : Type ℓ}
    → SharedState × Result (Unit {0})
    → (SharedState → YamuxMultistream × Result A)
    → YamuxMultistream
    → YamuxMultistream × Result A
then_result (st, ok _) k m = k st
then_result (st, err e) k m = (with_shared m st, err e)
then_result (st, panicked) k m = (with_shared m st, panicked)

-- `open_stream`; the yamux stream is opened before the list of protocols is looked at.
unfoldable pub open_with : ℕ → List (List ℕ) → ℕ → YamuxMultistream → YamuxMultistream × Result ℕ
open_with id [] max_buffer_size m = (m, err no_protocols_given)
open_with id (protocol ∷ rest) max_buffer_size m =
    then_result (send_multistream_data id header_line m.inner.shared)
      (λ st.
        then_result (send_multistream_data_with_newline id protocol st)
          (λ st'. start_outgoing id protocol rest max_buffer_size (with_shared m st')) m)
      m

unfoldable pub open_stream : List (List ℕ) → ℕ → YamuxMultistream → YamuxMultistream × Result ℕ
open_stream protocols max_buffer_size m = elim (Api.open_stream m.inner) [
  | none ↦ (m, panicked)
  | some (inner, id) ↦ open_with id protocols max_buffer_size (record m { inner = inner })
]

unfoldable pub send_on :
    ℕ → List ℕ → MultistreamState → YamuxMultistream → YamuxMultistream × Result (Unit {0})
send_on id bytes open_now m = after_send m (send_multistream_data id bytes m.inner.shared)
send_on id bytes _ m = (m, err (stream_not_open id))

unfoldable pub send_data : ℕ → List ℕ → YamuxMultistream → YamuxMultistream × Result (Unit {0})
unfolding send_on
send_data id bytes m = elim (get id m.bufs) [
  | none ↦ (m, err (stream_not_found id))
  | some entry ↦ send_on id bytes entry.state m
]

unfoldable pub accept_on :
    ℕ → ℕ → Multistream → MultistreamState → YamuxMultistream → YamuxMultistream × Result (Unit {0})
accept_on id size entry (waiting_for_accept name) m =
    after_send (set_buf id (record entry { state = open_now; max_buffer_size = size }) m)
      (send_multistream_data_with_newline id name m.inner.shared)
accept_on id size entry _ m = (m, err (stream_not_waiting_for_accept id))

unfoldable pub accept_protocol : ℕ → ℕ → YamuxMultistream → YamuxMultistream × Result (Unit {0})
unfolding accept_on
accept_protocol id size m = elim (get id m.bufs) [
  | none ↦ (m, err (stream_not_found id))
  | some entry ↦ accept_on id size entry entry.state m
]

unfoldable pub reject_on :
    ℕ → Multistream → MultistreamState → YamuxMultistream → YamuxMultistream × Result (Unit {0})
reject_on id entry (waiting_for_accept name) m =
    after_send (set_buf id (record entry { state = new_incoming_protocol }) m)
      (send_multistream_data_with_newline id (codes "na") m.inner.shared)
reject_on id entry _ m = (m, err (stream_not_waiting_for_accept id))

unfoldable pub reject_protocol : ℕ → YamuxMultistream → YamuxMultistream × Result (Unit {0})
unfolding reject_on
reject_protocol id m = elim (get id m.bufs) [
  | none ↦ (m, err (stream_not_found id))
  | some entry ↦ reject_on id entry entry.state m
]

unfoldable pub close_stream : ℕ → YamuxMultistream → YamuxMultistream
close_stream id m = elim (get id m.bufs) [
  | none ↦ m
  | some entry ↦
      with_shared (set_buf id (record entry { state = closed_by_us }) m)
        (Api.close_stream id m.inner.shared)
]

unfoldable pub close_stream_immediately : ℕ → YamuxMultistream → YamuxMultistream
close_stream_immediately id m = elim (get id m.bufs) [
  | none ↦ m
  | some entry ↦
      with_shared (set_buf id (record entry { state = closed_by_us }) m)
        (Api.close_stream_immediately id m.inner.shared)
]

unfoldable pub reset_stream_immediately : ℕ → YamuxMultistream → YamuxMultistream
reset_stream_immediately id m =
    with_shared (record m { bufs = remove id m.bufs })
      (Api.reset_stream_immediately id m.inner.shared)
