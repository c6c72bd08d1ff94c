-- ===== src/Protobuf/Encode.antt =====
-- utils/protobuf.rs: what the encoder writes.
use polkadot_p2p_connect.Prelude.{
  ℕ, ◌+◌, ◌*◌, ◌%◌, ◌^◌, ◌≤◌, ◌<◌, ◌≡◌, refl, ap, ◌∙◌, arith, bit_or, ◌>>=◌, List, [], ◌∷◌, ◌++◌,
  append_assoc, Option, some, length, drop, length-append, length-drop, take-append_length,
  drop-append_length, drop-drop,
}
use polkadot_p2p_connect.Prelude.Bits.{bit_or_below}
use polkadot_p2p_connect.Varint.RoundTrip.{front, last, encoding, length-front, encode-encoding}
use polkadot_p2p_connect.Protobuf.{
  WireType, varint, i64, len_prefixed, i32, to_u8, Encoder, advance, encode_varint_value,
  encode_bytes, encode_field_id_and_wire_type, encode_varint, encode_i64, encode_i32, encode_data,
}
use polkadot_p2p_connect.Protobuf.Decode.{Visitor}

-- A call of the encoder.
pub data Field : Type 0 where
  varint_field : (id value : ℕ) → Field
  i64_field i32_field data_field : (id : ℕ) → List ℕ → Field

-- Field numbers that a tag of 64 bits can hold, and values of their types.
abbrev pub IsField : Field → Type 0
IsField (varint_field id value) = (id < 2 ^ 61) × (value < 2 ^ 64)
IsField (i64_field id bytes) = (id < 2 ^ 61) × (length bytes ≡ 8)
IsField (i32_field id bytes) = (id < 2 ^ 61) × (length bytes ≡ 4)
IsField (data_field id bytes) = (id < 2 ^ 61) × (length bytes < 2 ^ 64)

abbrev pub encode_field : Field → Encoder → Option Encoder
encode_field (varint_field id value) e = encode_varint id value e
encode_field (i64_field id bytes) e = encode_i64 id bytes e
encode_field (i32_field id bytes) e = encode_i32 id bytes e
encode_field (data_field id bytes) e = encode_data id bytes e

unfoldable pub encode_fields : List Field → Encoder → Option Encoder
encode_fields [] e = some e
encode_fields (f ∷ fs) e = encode_field f e >>= encode_fields fs

-- Room that is enough for a field: two numbers and the data.
abbrev pub room : Field → ℕ
room (varint_field id value) = 20
room (i64_field id bytes) = 18
room (i32_field id bytes) = 14
room (data_field id bytes) = 20 + length bytes

abbrev pub room_for : List Field → ℕ
room_for [] = 0
room_for (f ∷ fs) = room f + room_for fs

abbrev pub visit : (V : Visitor) → Field → V.State → V.State
visit V (varint_field id value) st = V.varint id value st
visit V (i64_field id bytes) st = V.i64 id bytes st
visit V (i32_field id bytes) st = V.i32 id bytes st
visit V (data_field id bytes) st = V.bytes id bytes st

abbrev pub visit_all : (V : Visitor) → List Field → V.State → V.State
visit_all V [] st = st
visit_all V (f ∷ fs) st = visit_all V fs (visit V f st)

-- The encoder wrote just `bytes`.
pub record Writes (e e' : Encoder) (bytes : List ℕ) : Type 0 where
  pub written : e'.written ≡ e.written ++ bytes
  pub left : e'.out ≡ drop (length bytes) e.out
  pub start : e'.start_len ≡ e.start_len

abbrev pub Wrote : Encoder → Option Encoder → List ℕ → Type 0
Wrote e r bytes = (e' : Encoder) × (r ≡ some e') × Writes e e' bytes

advance-Writes :
    (e : Encoder) (bytes : List ℕ)
    → Writes e (advance e (bytes ++ drop (length bytes) e.out, length bytes)) bytes
advance-Writes e bytes = record {
  written = ap (λ w. e.written ++ w) (take-append_length bytes (drop (length bytes) e.out));
  left = drop-append_length bytes (drop (length bytes) e.out);
  start = refl;
}

pub length-encoding : (value : ℕ) → length (encoding 9 value) ≤ 10
length-encoding value =
    omega (arith, length-append (front 9 value) (last 9 value ∷ []), length-front 9 value)

value-Wrote :
    (value : ℕ) (e : Encoder)
    → value < 2 ^ 64
    → 10 ≤ length e.out
    → Wrote e (encode_varint_value value e) (encoding 9 value)
unfolding encode_varint_value
value-Wrote value e h fits = (
  advance e (encoding 9 value ++ drop (length (encoding 9 value)) e.out, length (encoding 9 value)),
  rw (encode-encoding 9 value e.out (omega arith) (omega arith), encode_varint_value) refl,
  advance-Writes e (encoding 9 value),
)

bytes-Wrote :
    (bytes : List ℕ) (e : Encoder)
    → length bytes ≤ length e.out
    → Wrote e (encode_bytes bytes e) bytes
unfolding encode_bytes
bytes-Wrote bytes e fits = (
  advance e (bytes ++ drop (length bytes) e.out, length bytes),
  ground arith,
  advance-Writes e bytes,
)

-- Two writes, one after the other.
pub then-Wrote :
    (e : Encoder) (r : Option Encoder) (k : Encoder → Option Encoder) (xs ys : List ℕ)
    → Wrote e r xs
    → ((e' : Encoder) → Writes e e' xs → Wrote e' (k e') ys)
    → Wrote e (r >>= k) (xs ++ ys)
then-Wrote e r k xs ys (e', is_e', w) next =
    let (e'', is_e'', w') = next e' w in
    (
      e'',
      rw is_e' is_e'',
      record {
        written = w'.written ∙ ap (λ t. t ++ ys) w.written ∙ append_assoc e.written xs ys;
        left = w'.left ∙ ap (drop (length ys)) w.left ∙ drop-drop xs ys e.out;
        start = w'.start ∙ w.start;
      },
    )

-- The number in front of a field.
abbrev pub tag : ℕ → WireType → ℕ
tag id t = id * 8 + to_u8 t

abbrev pub field_bytes : Field → List ℕ
field_bytes (varint_field id value) = encoding 9 (tag id varint) ++ encoding 9 value
field_bytes (i64_field id bytes) = encoding 9 (tag id i64) ++ bytes
field_bytes (i32_field id bytes) = encoding 9 (tag id i32) ++ bytes
field_bytes (data_field id bytes) =
    encoding 9 (tag id len_prefixed) ++ (encoding 9 (length bytes) ++ bytes)

tag-Wrote :
    (id : ℕ) (t : WireType) (e : Encoder)
    → id < 2 ^ 61
    → to_u8 t < 8
    → 10 ≤ length e.out
    → Wrote e (encode_field_id_and_wire_type id t e) (encoding 9 (tag id t))
unfolding encode_field_id_and_wire_type
tag-Wrote id t e small low fits =
    let fits_u64 : id * 2 ^ 3 % 2 ^ 64 ≡ id * 2 ^ 3 = omega arith in
    let joined : bit_or (id * 2 ^ 3 % 2 ^ 64) (to_u8 t) ≡ tag id t =
      rw fits_u64 (bit_or_below 3 (to_u8 t) id low ∙ omega arith) in
    rw (joined, encode_field_id_and_wire_type) (value-Wrote (tag id t) e (omega arith) fits)

-- The room behind a number.
room_left :
    (value n : ℕ) (e e' : Encoder)
    → Writes e e' (encoding 9 value)
    → 10 + n ≤ length e.out
    → n ≤ length e'.out
room_left value n e e' w fits =
    rw w.left (omega (arith, length-encoding value, length-drop (length (encoding 9 value)) e.out))

pub encode_field-Wrote :
    (f : Field) (e : Encoder)
    → IsField f
    → room f ≤ length e.out
    → Wrote e (encode_field f e) (field_bytes f)
unfolding encode_varint encode_i64 encode_i32 encode_data
encode_field-Wrote (varint_field id value) e (small, fits) enough =
    then-Wrote e _ (encode_varint_value value) (encoding 9 (tag id varint)) (encoding 9 value)
      (tag-Wrote id varint e small (omega arith) (omega arith))
      (λ e' w. value-Wrote value e' fits (room_left (tag id varint) 10 e e' w (omega arith)))
encode_field-Wrote (i64_field id bytes) e (small, len) enough =
    then-Wrote e _ (encode_bytes bytes) (encoding 9 (tag id i64)) bytes
      (tag-Wrote id i64 e small (omega arith) (omega arith))
      (λ e' w. bytes-Wrote bytes e' (room_left (tag id i64) (length bytes) e e' w (omega arith)))
encode_field-Wrote (i32_field id bytes) e (small, len) enough =
    then-Wrote e _ (encode_bytes bytes) (encoding 9 (tag id i32)) bytes
      (tag-Wrote id i32 e small (omega arith) (omega arith))
      (λ e' w. bytes-Wrote bytes e' (room_left (tag id i32) (length bytes) e e' w (omega arith)))
encode_field-Wrote (data_field id bytes) e (small, len) enough =
    then-Wrote e _ (λ e'. encode_varint_value (length bytes) e' >>= encode_bytes bytes)
      (encoding 9 (tag id len_prefixed)) (encoding 9 (length bytes) ++ bytes)
      (tag-Wrote id len_prefixed e small (omega arith) (omega arith))
      (λ e' w.
        let fits = room_left (tag id len_prefixed) (10 + length bytes) e e' w (omega arith) in
        then-Wrote e' _ (encode_bytes bytes) (encoding 9 (length bytes)) bytes
          (value-Wrote (length bytes) e' len (omega arith))
          (λ e'' w'.
            bytes-Wrote bytes e'' (room_left (length bytes) (length bytes) e' e'' w' fits)))
