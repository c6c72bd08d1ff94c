-- ===== src/Protobuf/RoundTrip.antt =====
-- utils/protobuf.rs: `decode` visits the fields that an encoder wrote.
use polkadot_p2p_connect.Prelude.{
  ℕ, zero, suc, ◌/◌, ◌%◌, ◌^◌, ◌≤◌, ◌<◌, ◌≡◌, refl, sym, ◌∙◌, arith, List, [], ◌∷◌, ◌++◌,
  append_assoc, append-nil, some, length, length-append, length-drop, take-append_length,
  drop-append_length, All,
}
use polkadot_p2p_connect.Varint
use polkadot_p2p_connect.Varint.RoundTrip.{encoding, front, last, decode-encoding}
use polkadot_p2p_connect.Protobuf.{
  WireType, varint, i64, len_prefixed, i32, from_u8, to_u8, Encoder, encode, num_encoded,
}
use polkadot_p2p_connect.Protobuf.Decode.{
  Visitor, Status, finished, more, take_bytes, read_varint, read_value, decode_field, decode_loop,
  decode,
}
use polkadot_p2p_connect.Protobuf.Encode.{
  Field, varint_field, i64_field, i32_field, data_field, IsField, encode_fields, room, room_for,
  visit, visit_all, tag, field_bytes, Wrote, then-Wrote, length-encoding, encode_field-Wrote,
}

abbrev all_bytes : List Field → List ℕ
all_bytes [] = []
all_bytes (f ∷ fs) = field_bytes f ++ all_bytes fs

encoding-some : (value : ℕ) (rest : List ℕ) → 1 ≤ length (encoding 9 value ++ rest)
encoding-some value rest = omega (
  arith,
  length-append (encoding 9 value) rest,
  length-append (front 9 value) (last 9 value ∷ []),
)

field_bytes-some : (f : Field) → 1 ≤ length (field_bytes f)
field_bytes-some (varint_field id value) = encoding-some (tag id varint) (encoding 9 value)
field_bytes-some (i64_field id bytes) = encoding-some (tag id i64) bytes
field_bytes-some (i32_field id bytes) = encoding-some (tag id i32) bytes
field_bytes-some (data_field id bytes) =
    encoding-some (tag id len_prefixed) (encoding 9 (length bytes) ++ bytes)

field_bytes-room : (f : Field) → IsField f → length (field_bytes f) ≤ room f
field_bytes-room (varint_field id value) h = omega (
  arith,
  length-append (encoding 9 (tag id varint)) (encoding 9 value),
  length-encoding (tag id varint),
  length-encoding value,
)
field_bytes-room (i64_field id bytes) h =
    omega (arith, length-append (encoding 9 (tag id i64)) bytes, length-encoding (tag id i64), h.1)
field_bytes-room (i32_field id bytes) h =
    omega (arith, length-append (encoding 9 (tag id i32)) bytes, length-encoding (tag id i32), h.1)
field_bytes-room (data_field id bytes) h = omega (
  arith,
  length-append (encoding 9 (tag id len_prefixed)) (encoding 9 (length bytes) ++ bytes),
  length-append (encoding 9 (length bytes)) bytes,
  length-encoding (tag id len_prefixed),
  length-encoding (length bytes),
)

all_bytes-room : (fs : List Field) → All IsField fs → length (all_bytes fs) ≤ room_for fs
all_bytes-room [] h = omega arith
all_bytes-room (f ∷ fs) (is_field, h) = omega (
  arith,
  length-append (field_bytes f) (all_bytes fs),
  field_bytes-room f is_field,
  all_bytes-room fs h,
)

encode_fields-Wrote :
    (fs : List Field) (e : Encoder)
    → All IsField fs
    → room_for fs ≤ length e.out
    → Wrote e (encode_fields fs e) (all_bytes fs)
unfolding encode_fields
encode_fields-Wrote [] e h enough =
    (e, refl, record { written = sym (append-nil e.written); left = refl; start = refl })
encode_fields-Wrote (f ∷ fs) e (is_field, h) enough =
    then-Wrote e _ (encode_fields fs) (field_bytes f) (all_bytes fs)
      (encode_field-Wrote f e is_field (omega arith))
      (λ e' w. encode_fields-Wrote fs e' h (
        rw w.left
          (omega (arith, field_bytes-room f is_field, length-drop (length (field_bytes f)) e.out))))

module _ (V : Visitor) where
  take_bytes-append :
      (n : ℕ) (go : List ℕ → V.State → V.State) (bytes rest : List ℕ) (st : V.State)
      → length bytes ≡ n
      → take_bytes V n go (bytes ++ rest) st ≡ ((go bytes st, rest), more)
  unfolding take_bytes
  take_bytes-append n go bytes rest st e =
      rw (← e, take_bytes)
        (ground (
          arith,
          length-append bytes rest,
          take-append_length bytes rest,
          drop-append_length bytes rest,
        ))

  read_varint-encoding :
      (k : ℕ → List ℕ → V.State → (V.State × List ℕ) × Status) (value : ℕ) (rest : List ℕ)
      (st : V.State)
      → value < 2 ^ 64
      → read_varint V k (Varint.decode (encoding 9 value ++ rest)) st ≡ k value rest st
  unfolding read_varint
  read_varint-encoding k value rest st h =
      rw (decode-encoding 9 value rest (omega arith) (omega arith) h) refl

  -- A field whose tag was written is read by its type.
  decode_field-tag :
      (id : ℕ) (t : WireType) (rest : List ℕ) (st : V.State)
      → id < 2 ^ 61
      → to_u8 t < 8
      → from_u8 (to_u8 t) ≡ t
      → decode_field V (encoding 9 (tag id t) ++ rest) st ≡ read_value V id t rest st
  unfolding decode_field
  decode_field-tag id t rest st small low same =
      let number : tag id t / 2 ^ 3 ≡ id = omega arith in
      let kind : tag id t % 8 ≡ to_u8 t = omega arith in
      read_varint-encoding _ (tag id t) rest st (omega arith) ∙ rw (number, kind, same) refl

  decode_field-visit :
      (f : Field) (rest : List ℕ) (st : V.State)
      → IsField f
      → decode_field V (field_bytes f ++ rest) st ≡ ((visit V f st, rest), more)
  unfolding read_value from_u8
  decode_field-visit (varint_field id value) rest st (small, fits) = rw append_assoc (
      decode_field-tag id varint (encoding 9 value ++ rest) st small (omega arith) refl
      ∙ read_varint-encoding _ value rest st fits)
  decode_field-visit (i64_field id bytes) rest st (small, len) = rw append_assoc (
      decode_field-tag id i64 (bytes ++ rest) st small (omega arith) refl
      ∙ take_bytes-append 8 (V.i64 id) bytes rest st len)
  decode_field-visit (i32_field id bytes) rest st (small, len) = rw append_assoc (
      decode_field-tag id i32 (bytes ++ rest) st small (omega arith) refl
      ∙ take_bytes-append 4 (V.i32 id) bytes rest st len)
  decode_field-visit (data_field id bytes) rest st (small, len) =
      rw
        (
          append_assoc (encoding 9 (tag id len_prefixed)) (encoding 9 (length bytes) ++ bytes) rest,
          append_assoc (encoding 9 (length bytes)) bytes rest,
        )
        (decode_field-tag id len_prefixed (encoding 9 (length bytes) ++ (bytes ++ rest)) st small
            (omega arith) refl
          ∙ read_varint-encoding _ (length bytes) (bytes ++ rest) st len
          ∙ take_bytes-append (length bytes) (V.bytes id) bytes rest st refl)

  loop-step :
      (n : ℕ) (bytes rest : List ℕ) (st st' : V.State)
      → 1 ≤ length bytes
      → decode_field V bytes st ≡ ((st', rest), more)
      → decode_loop V (suc n) bytes st ≡ decode_loop V n rest st'
  unfolding decode_loop
  loop-step n [] rest st st' h e = absurd (omega arith)
  loop-step n (byte ∷ bytes) rest st st' h e = rw (e, decode_loop) (rw e refl)

  loop-visit :
      (fs : List Field) (n : ℕ) (st : V.State)
      → All IsField fs
      → length (all_bytes fs) ≤ n
      → decode_loop V n (all_bytes fs) st ≡ ((visit_all V fs st, []), finished)
  unfolding decode_loop
  loop-visit [] n st h le = refl
  loop-visit (f ∷ fs) zero st h le =
      absurd (omega (arith, field_bytes-some f, length-append (field_bytes f) (all_bytes fs)))
  loop-visit (f ∷ fs) (suc n) st (is_field, h) le =
      let whole = length-append (field_bytes f) (all_bytes fs) in
      let some_byte = field_bytes-some f in
      loop-step n (field_bytes f ++ all_bytes fs) (all_bytes fs) st (visit V f st) (omega arith)
        (decode_field-visit f (all_bytes fs) st is_field)
      ∙ loop-visit fs n (visit V f st) h (omega arith)

  -- Fields with numbers below 2 ^ 61 and values of their types, written to a slice with room for two
  -- numbers of ten bytes and the data for each of them: no call of the encoder panics, and the count of
  -- the encoder is the number of the bytes written, at most that room. From these bytes `decode` hands just the fields to
  -- the visitor, in order, reads all of them and returns no error.
  pub decode-encode_fields :
      (fs : List Field) (buf : List ℕ) (st : V.State)
      → All IsField fs
      → room_for fs ≤ length buf
      → (e : Encoder) × (encode_fields fs (encode buf) ≡ some e)
        × (num_encoded e ≡ length e.written)
        × (length e.written ≤ room_for fs)
        × (decode V e.written st ≡ ((visit_all V fs st, []), finished))
  unfolding decode
  decode-encode_fields fs buf st h enough =
      let (e, is_e, w) = encode_fields-Wrote fs (encode buf) h enough in
      (
        e,
        is_e,
        rw (w.start, w.left, w.written)
            (omega (arith, all_bytes-room fs h, length-drop (length (all_bytes fs)) buf)),
        rw (w.written) (all_bytes-room fs h),
        rw (w.written) (loop-visit fs (length (all_bytes fs)) st h (omega arith)),
      )
