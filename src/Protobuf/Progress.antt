-- ===== src/Protobuf/Progress.antt =====
-- utils/protobuf.rs: the loop of `decode` ends, as every round reads a byte.
use polkadot_p2p_connect.Prelude.{
  ℕ, zero, suc, ◌/◌, ◌%◌, ◌^◌, ◌≤◌, ◌<◌, ◌≡◌, ◌⊎◌, refl, arith, inl, inr, List, [], ◌∷◌, length,
  length-drop,
}
use polkadot_p2p_connect.Varint
use polkadot_p2p_connect.Protobuf.{
  WireType, varint, i64, len_prefixed, i32, deprecated_groups, unknown, from_u8,
}
use polkadot_p2p_connect.Protobuf.Decode.{
  Error, Visitor, Status, finished, more, failed, take_bytes, read_varint, read_value, decode_field,
  decode_loop, decode,
}

-- A number that was read took a byte, and what is left is never longer.
abbrev Shorter : ℕ → Varint.Result ℕ × List ℕ → Type 0
Shorter n (Varint.ok v, rest) = length rest < n
Shorter n (Varint.err e, rest) = length rest ≤ n

varint_loop-Shorter :
    (d : Varint.Decoder) (bytes : List ℕ) → Shorter (length bytes) (Varint.decode_loop d bytes)
unfolding Varint.decode_loop
varint_loop-Shorter d [] = omega arith
varint_loop-Shorter d (byte ∷ bytes) = go (Varint.feed d byte) (λ d'. varint_loop-Shorter d' bytes)
  where
    go :
        (out : Varint.DecoderOutput)
        → ((d' : Varint.Decoder) → Shorter (length bytes) (Varint.decode_loop d' bytes))
        → Shorter (suc (length bytes)) (elim out [
          | Varint.DecoderOutput.value v ↦ (Varint.ok v, bytes)
          | Varint.DecoderOutput.needs_more_bytes d' ↦ Varint.decode_loop d' bytes
          | Varint.DecoderOutput.out_of_range ↦ (Varint.err Varint.Error.out_of_range, bytes)
        ])
    go (Varint.DecoderOutput.value v) rec = omega arith
    go (Varint.DecoderOutput.needs_more_bytes d') rec =
        longer (Varint.decode_loop d' bytes) (rec d')
      where
        longer :
            (r : Varint.Result ℕ × List ℕ)
            → Shorter (length bytes) r
            → Shorter (suc (length bytes)) r
        longer (Varint.ok v, rest) h = omega arith
        longer (Varint.err e, rest) h = omega arith
    go Varint.DecoderOutput.out_of_range rec = omega arith

varint-Shorter : (bytes : List ℕ) → Shorter (length bytes) (Varint.decode bytes)
unfolding Varint.decode
varint-Shorter bytes = varint_loop-Shorter Varint.new bytes

module _ (V : Visitor) where
  -- What is left when the loop goes on; a round does not end the loop but by an error.
  abbrev Left : ℕ → (V.State × List ℕ) × Status → Type 0
  Left n ((st, rest), more) = length rest ≤ n
  Left n ((st, rest), finished) = ⊥
  Left n ((st, rest), failed e) = Unit

  take_bytes-Left :
      (n : ℕ) (visit : List ℕ → V.State → V.State) (cursor : List ℕ) (st : V.State)
      → Left (length cursor) (take_bytes V n visit cursor st)
  unfolding take_bytes
  take_bytes-Left n visit cursor st = ground (arith, length-drop n cursor)

  Left-mono : (n m : ℕ) (r : (V.State × List ℕ) × Status) → n ≤ m → Left n r → Left m r
  Left-mono n m ((st, rest), more) le h = omega arith
  Left-mono n m ((st, rest), finished) le h = elim h [ ]
  Left-mono n m ((st, rest), failed e) le h = tt

  read_varint-Left :
      (k : ℕ → List ℕ → V.State → (V.State × List ℕ) × Status) (n : ℕ)
      (r : Varint.Result ℕ × List ℕ) (st : V.State)
      → Shorter n r
      → ((v : ℕ) (cursor : List ℕ) → Left (length cursor) (k v cursor st))
      → Left n (read_varint V k r st)
  unfolding read_varint
  read_varint-Left k n (Varint.ok v, rest) st h left =
      Left-mono (length rest) n (k v rest st) (omega arith) (left v rest)
  read_varint-Left k n (Varint.err e, rest) st h left = tt

  read_value-Left :
      (field : ℕ) (t : WireType) (cursor : List ℕ) (st : V.State)
      → Left (length cursor) (read_value V field t cursor st)
  unfolding read_value
  read_value-Left field varint cursor st =
      read_varint-Left _ (length cursor) (Varint.decode cursor) st (varint-Shorter cursor)
        (λ v rest. omega arith)
  read_value-Left field i64 cursor st = take_bytes-Left 8 (V.i64 field) cursor st
  read_value-Left field len_prefixed cursor st =
      read_varint-Left _ (length cursor) (Varint.decode cursor) st (varint-Shorter cursor)
        (λ v rest. take_bytes-Left v (V.bytes field) rest st)
  read_value-Left field i32 cursor st = take_bytes-Left 4 (V.i32 field) cursor st
  read_value-Left field (deprecated_groups n) cursor st = omega arith
  read_value-Left field (unknown n) cursor st = tt

  -- A round reads a byte, or fails.
  decode_field-Left :
      (byte : ℕ) (cursor : List ℕ) (st : V.State)
      → Left (length cursor) (decode_field V (byte ∷ cursor) st)
  unfolding decode_field read_varint
  decode_field-Left byte cursor st =
      go (Varint.decode (byte ∷ cursor)) (varint-Shorter (byte ∷ cursor))
    where
      go :
          (r : Varint.Result ℕ × List ℕ)
          → Shorter (suc (length cursor)) r
          → Left
              (length cursor)
              (read_varint V (λ tag. read_value V (tag / 2 ^ 3) (from_u8 (tag % 8))) r st)
      go (Varint.ok tag, rest) h =
          Left-mono (length rest) (length cursor)
            (read_value V (tag / 2 ^ 3) (from_u8 (tag % 8)) rest st) (omega arith)
            (read_value-Left (tag / 2 ^ 3) (from_u8 (tag % 8)) rest st)
      go (Varint.err e, rest) h = tt

  -- The end of `decode`: all was read, or an error.
  abbrev pub Ended : (V.State × List ℕ) × Status → Type 0
  Ended ((st, rest), status) =
      ((status ≡ finished) × (rest ≡ [])) ⊎ ((e : Error) × (status ≡ failed e))

  go_on-Ended :
      (n : ℕ) (r : (V.State × List ℕ) × Status)
      → Left n r
      → ((st : V.State) (rest : List ℕ) → length rest ≤ n → Ended (decode_loop V n rest st))
      → Ended (elim r.1 [
        | more ↦ decode_loop V n r.0.1 r.0.0
        | finished ↦ ((r.0.0, r.0.1), finished)
        | failed e ↦ ((r.0.0, r.0.1), failed e)
      ])
  go_on-Ended n ((st, rest), more) h rec = rec st rest h
  go_on-Ended n ((st, rest), finished) h rec = elim h [ ]
  go_on-Ended n ((st, rest), failed e) h rec = inr (e, refl)

  decode_loop-Ended :
      (n : ℕ) (cursor : List ℕ) (st : V.State)
      → length cursor ≤ n
      → Ended (decode_loop V n cursor st)
  unfolding decode_loop
  decode_loop-Ended n [] st h = inl (refl, refl)
  decode_loop-Ended zero (byte ∷ cursor) st h = absurd (omega arith)
  decode_loop-Ended (suc n) (byte ∷ cursor) st h =
      go_on-Ended n (decode_field V (byte ∷ cursor) st)
        (Left-mono (length cursor) n (decode_field V (byte ∷ cursor) st) (omega arith)
          (decode_field-Left byte cursor st))
        (λ st' rest le. decode_loop-Ended n rest st' le)

  -- On any bytes and with any visitor, `decode` ends after at most as many rounds as there are bytes:
  -- with all of them read, or with an error.
  pub decode-Ended : (cursor : List ℕ) (st : V.State) → Ended (decode V cursor st)
  unfolding decode
  decode-Ended cursor st = decode_loop-Ended (length cursor) cursor st (omega arith)
