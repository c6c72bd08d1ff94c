-- ===== src/Yamux/Header.antt =====
-- layers/yamux/header.rs: the header of a yamux frame, twelve bytes.
-- A `YamuxStreamId` is a number below 2 ^ 32 and `FrameFlags` a number below 2 ^ 16.
pub mod Codec
use polkadot_p2p_connect.Prelude.{
  ℕ, zero, ◌+◌, ◌*◌, ◌/◌, ◌%◌, ◌^◌, ◌<◌, bit_and, ◌≡◌, Bool, not, ◌&&◌, if◌then◌else◌, ltb, ◌==◌,
  List, [], ◌∷◌, ◌++◌, Option, none, some, get_or,
}

pub data FrameType : Type 0 where
  payload window_update ping go_away : FrameType

pub data FrameFlag : Type 0 where
  syn ack fin rst : FrameFlag

abbrev pub flag_bits : FrameFlag → ℕ
flag_bits syn = 1
flag_bits ack = 2
flag_bits fin = 4
flag_bits rst = 8

-- `FrameFlags::contains`
unfoldable pub contains : ℕ → FrameFlag → Bool
contains flags flag = bit_and flags (flag_bits flag) == flag_bits flag

unfoldable pub is_open_new_stream : ℕ → Bool
is_open_new_stream flags =
    contains flags syn && not (contains flags rst) && not (contains flags fin)

pub data GoAwayType : Type 0 where
  normal_termination protocol_error internal_error : GoAwayType

-- `GoAwayType::from_u32`
abbrev pub go_away_type : ℕ → Option GoAwayType
go_away_type val =
    if val == 0
    then some normal_termination
    else if val == 1
    then some protocol_error
    else if val == 2
    then some internal_error
    else none

-- `frame_type as u8`
abbrev pub type_byte : FrameType → ℕ
type_byte payload = 0
type_byte window_update = 1
type_byte ping = 2
type_byte go_away = 3

-- `FrameType::from_u8`
abbrev pub frame_type_from : ℕ → Option FrameType
frame_type_from val =
    if val == 0
    then some payload
    else if val == 1
    then some window_update
    else if val == 2
    then some ping
    else if val == 3
    then some go_away
    else none

pub record Header : Type 0 where
  pub version : ℕ
  pub frame_type : FrameType
  pub flags : ℕ
  pub stream_id : ℕ
  pub length : ℕ

-- `YAMUX_VERSION`
abbrev pub yamux_version : ℕ
yamux_version = 0

abbrev header : FrameType → ℕ → ℕ → ℕ → Header
header t flags id len = record {
  version = yamux_version;
  frame_type = t;
  flags = flags;
  stream_id = id;
  length = len;
}

abbrev pub send_data : ℕ → ℕ → Header
send_data id data_len = header payload 0 id data_len

abbrev pub open_stream : ℕ → Header
open_stream id = header window_update (flag_bits syn) id 0

abbrev pub accept_stream : ℕ → Header
accept_stream id = header window_update (flag_bits ack) id 0

abbrev pub reset_stream : ℕ → Header
reset_stream id = header window_update (flag_bits rst) id 0

abbrev pub close_stream : ℕ → Header
close_stream id = header window_update (flag_bits fin) id 0

abbrev pub pong : ℕ → ℕ → Header
pong id word = header ping (flag_bits ack) id word

abbrev pub window_update_by : ℕ → ℕ → Header
window_update_by id delta = header window_update 0 id delta

-- `u16::to_be_bytes` and `u32::to_be_bytes`
abbrev pub be16 : ℕ → List ℕ
be16 n = (n / 256 % 256) ∷ (n % 256) ∷ []

abbrev pub be32 : ℕ → List ℕ
be32 n = (n / 2 ^ 24 % 256) ∷ (n / 2 ^ 16 % 256) ∷ (n / 256 % 256) ∷ (n % 256) ∷ []

unfoldable pub encode : Header → List ℕ
encode h =
    h.version ∷ type_byte h.frame_type ∷ (be16 h.flags ++ (be32 h.stream_id ++ be32 h.length))

pub data DecodeError : Type 0 where
  invalid_version : ℕ → DecodeError
  invalid_frame_type : ℕ → DecodeError

pub data Result {ℓ} (A : Type ℓ) : Type ℓ where
  ok : A → Result A
  err : DecodeError → Result A

-- The index is below the length, twelve, wherever this is used.
abbrev at : List ℕ → ℕ → ℕ
at buf i = get_or buf i 0

abbrev from_be16 : List ℕ → ℕ → ℕ
from_be16 buf i = at buf i * 256 + at buf (i + 1)

abbrev from_be32 : List ℕ → ℕ → ℕ
from_be32 buf i =
    at buf i * 2 ^ 24 + at buf (i + 1) * 2 ^ 16 + at buf (i + 2) * 256 + at buf (i + 3)

decode_fields : List ℕ → Option FrameType → Result Header
decode_fields buf none = err (invalid_frame_type (at buf 1))
decode_fields buf (some t) = ok (record {
  version = at buf 0;
  frame_type = t;
  flags = from_be16 buf 2;
  stream_id = from_be32 buf 4;
  length = from_be32 buf 8;
})

-- `buf` is an array of twelve bytes.
unfoldable pub decode : List ℕ → Result Header
unfolding decode_fields
decode buf =
    if at buf 0 == yamux_version
    then decode_fields buf (frame_type_from (at buf 1))
    else err (invalid_version (at buf 0))

-- `YamuxStreamId::first`
abbrev pub first : ℕ
first = 1

-- `YamuxStreamId::increment`; `none` is the panic on overflow.
abbrev pub increment : ℕ → Option ℕ
increment id = if ltb (id + 2) (2 ^ 32) then some (id + 2) else none

-- `self.0 & 1` is the remainder by 2.
abbrev pub is_even : ℕ → Bool
is_even id = id % 2 == 0

abbrev pub is_session_id : ℕ → Bool
is_session_id id = id == 0
