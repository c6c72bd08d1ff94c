-- ===== src/Protobuf.antt =====
-- utils/protobuf.rs: an encoder that writes fields to a slice, and a decoder that hands the fields of a
-- slice to a visitor. `tag << 3` on a `u64` drops the bits above position 63, `tag & 7` is the remainder
-- by 8, and a `usize` has 64 bits. A panic is `none`.
pub mod Decode
pub mod Progress
pub mod Encode
pub mod RoundTrip
use polkadot_p2p_connect.Prelude.{
  ℕ, ◌+◌, ◌-◌, ◌*◌, ◌%◌, ◌^◌, bit_or, if◌then◌else◌, leb, ◌==◌, ◌||◌, ◌>>=◌, List, [], ◌++◌, Option,
  none, some, length, take, drop,
}
use polkadot_p2p_connect.Varint

abbrev pub i64_len : ℕ
i64_len = 8

abbrev pub i32_len : ℕ
i32_len = 4

pub data WireType : Type 0 where
  varint i64 len_prefixed i32 : WireType
  deprecated_groups unknown : ℕ → WireType

-- `WireType::from(u8)`
unfoldable pub from_u8 : ℕ → WireType
from_u8 n =
    if n == 0
    then varint
    else (if n == 1
        then i64
        else (if n == 2
            then len_prefixed
            else (if (n == 3 || n == 4)
                then deprecated_groups n
                else (if n == 5 then i32 else unknown n))))

-- `u8::from(WireType)`
abbrev pub to_u8 : WireType → ℕ
to_u8 varint = 0
to_u8 i64 = 1
to_u8 len_prefixed = 2
to_u8 (deprecated_groups n) = n
to_u8 i32 = 5
to_u8 (unknown n) = n

-- The slice that is still free, and what was written in front of it.
pub record Encoder : Type 0 where
  pub out : List ℕ
  pub start_len : ℕ
  pub written : List ℕ

abbrev pub encode : List ℕ → Encoder
encode out = record { out = out; start_len = length out; written = [] }

abbrev pub num_encoded : Encoder → ℕ
num_encoded e = e.start_len - length e.out

-- The cursor is moved behind the first `n` bytes of the slice, whose content is now `out`.
abbrev pub advance : Encoder → List ℕ × ℕ → Encoder
advance e (out, n) = record e { out = drop n out; written = e.written ++ take n out }

unfoldable pub encode_varint_value : ℕ → Encoder → Option Encoder
encode_varint_value val e = elim (Varint.encode val e.out) [
  | none ↦ none
  | some r ↦ some (advance e r)
]

-- `out[..bytes.len()].copy_from_slice(bytes)`
unfoldable pub encode_bytes : List ℕ → Encoder → Option Encoder
encode_bytes bytes e =
    if leb (length bytes) (length e.out)
    then some (advance e (bytes ++ drop (length bytes) e.out, length bytes))
    else none

unfoldable pub encode_field_id_and_wire_type : ℕ → WireType → Encoder → Option Encoder
unfolding encode_varint_value
encode_field_id_and_wire_type field_id wire_type e =
    encode_varint_value (bit_or (field_id * 2 ^ 3 % 2 ^ 64) (to_u8 wire_type)) e

unfoldable pub encode_varint : ℕ → ℕ → Encoder → Option Encoder
unfolding encode_field_id_and_wire_type encode_varint_value
encode_varint field_id value e = do
  e' ← encode_field_id_and_wire_type field_id varint e
  encode_varint_value value e'

unfoldable pub encode_i64 : ℕ → List ℕ → Encoder → Option Encoder
unfolding encode_field_id_and_wire_type encode_bytes
encode_i64 field_id value e = do
  e' ← encode_field_id_and_wire_type field_id i64 e
  encode_bytes value e'

unfoldable pub encode_i32 : ℕ → List ℕ → Encoder → Option Encoder
unfolding encode_field_id_and_wire_type encode_bytes
encode_i32 field_id value e = do
  e' ← encode_field_id_and_wire_type field_id i32 e
  encode_bytes value e'

unfoldable pub encode_data : ℕ → List ℕ → Encoder → Option Encoder
unfolding encode_field_id_and_wire_type encode_varint_value encode_bytes
encode_data field_id bytes e = do
  e' ← encode_field_id_and_wire_type field_id len_prefixed e
  e'' ← encode_varint_value (length bytes) e'
  encode_bytes bytes e''
