-- ===== src/Protobuf/Decode.antt =====
-- utils/protobuf.rs: `decode`. The cursor is the list of the bytes not read yet.
use polkadot_p2p_connect.Prelude.{
  ℕ, zero, suc, ◌/◌, ◌%◌, ◌^◌, if◌then◌else◌, leb, List, [], ◌∷◌, length, take, drop,
}
use polkadot_p2p_connect.Varint
use polkadot_p2p_connect.Protobuf.{
  WireType, varint, i64, len_prefixed, i32, deprecated_groups, unknown, from_u8, i64_len, i32_len,
}

pub data Error : Type 0 where
  varint_error : Varint.Error → Error
  unexpected_end_of_input : (need got : ℕ) → Error
  invalid_wire_type : ℕ → Error

-- A visitor with its state; a method that a visitor does not define keeps the state.
pub record Visitor : Type 1 where
  pub State : Type 0
  pub varint : ℕ → ℕ → State → State
  pub i64 : ℕ → List ℕ → State → State
  pub i32 : ℕ → List ℕ → State → State
  pub bytes : ℕ → List ℕ → State → State

-- `more` is that the loop has another round.
pub data Status : Type 0 where
  finished more : Status
  failed : Error → Status

module _ (V : Visitor) where
  -- A field of `n` bytes, that `visit` takes.
  unfoldable pub take_bytes :
      ℕ → (List ℕ → V.State → V.State) → List ℕ → V.State → (V.State × List ℕ) × Status
  take_bytes n visit cursor st =
      if leb n (length cursor)
      then ((visit (take n cursor) st, drop n cursor), more)
      else ((st, cursor), failed (unexpected_end_of_input n (length cursor)))

  unfoldable pub read_varint :
      (ℕ → List ℕ → V.State → (V.State × List ℕ) × Status)
      → Varint.Result ℕ × List ℕ
      → V.State
      → (V.State × List ℕ) × Status
  read_varint k (Varint.ok val, cursor) st = k val cursor st
  read_varint k (Varint.err e, cursor) st = ((st, cursor), failed (varint_error e))

  unfoldable pub read_value : ℕ → WireType → List ℕ → V.State → (V.State × List ℕ) × Status
  unfolding take_bytes read_varint
  read_value field varint cursor st =
      read_varint (λ val rest st'. ((V.varint field val st', rest), more)) (Varint.decode cursor) st
  read_value field i64 cursor st = take_bytes i64_len (V.i64 field) cursor st
  read_value field len_prefixed cursor st =
      read_varint (λ len. take_bytes len (V.bytes field)) (Varint.decode cursor) st
  read_value field (deprecated_groups n) cursor st = ((st, cursor), more)
  read_value field i32 cursor st = take_bytes i32_len (V.i32 field) cursor st
  read_value field (unknown n) cursor st = ((st, cursor), failed (invalid_wire_type n))

  -- A round of the loop, on a cursor that is not empty.
  unfoldable pub decode_field : List ℕ → V.State → (V.State × List ℕ) × Status
  unfolding read_varint read_value from_u8
  decode_field cursor st =
      read_varint (λ tag. read_value (tag / 2 ^ 3) (from_u8 (tag % 8))) (Varint.decode cursor) st

  -- The loop, on a number of rounds.
  unfoldable pub decode_loop : ℕ → List ℕ → V.State → (V.State × List ℕ) × Status
  unfolding decode_field
  decode_loop n [] st = ((st, []), finished)
  decode_loop zero (byte ∷ cursor) st = ((st, byte ∷ cursor), more)
  decode_loop (suc n) (byte ∷ cursor) st =
      let ((st', rest), status) = decode_field (byte ∷ cursor) st in
      elim status [
        | more ↦ decode_loop n rest st'
        | finished ↦ ((st', rest), finished)
        | failed e ↦ ((st', rest), failed e)
      ]

  -- A round reads a byte, so there are at most as many rounds as bytes.
  unfoldable pub decode : List ℕ → V.State → (V.State × List ℕ) × Status
  unfolding decode_loop
  decode cursor st = decode_loop (length cursor) cursor st
