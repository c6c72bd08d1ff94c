-- ===== src/Varint.antt =====
-- utils/varint.rs: unsigned LEB128 integers of up to ten bytes.
-- A `u64` is a number below 2 ^ 64, a byte a number below 256. `value & 0x7f` is `value % 128` and
-- `value >>= 7` is `value / 128`; the masks of a byte are `bit_and`. The cursor of `decode` is the
-- list of the bytes not read yet; it is returned with the result.
pub mod Groups
pub mod Decode
pub mod RoundTrip
pub mod Stream
use polkadot_p2p_connect.Prelude.{
  ℕ, suc, ◌+◌, ◌*◌, ◌/◌, ◌%◌, ◌^◌, bit_and, bit_or, length, if◌then◌else◌, leb, ◌==◌, List, [], ◌∷◌,
  ◌++◌, Option, none, some, take, replicate, set,
}
use mathlib.Core.Option

-- The content of `Stream` is left out.
pub data Error : Type 0 where
  stream out_of_range unexpected_end_of_input : Error

pub data Result {ℓ} (A : Type ℓ) : Type ℓ where
  ok : A → Result A
  err : Error → Result A

-- The byte that was written goes in front of what the later rounds do to the rest of the slice.
abbrev wrote : ℕ → List ℕ × ℕ → List ℕ × ℕ
wrote byte (out, idx) = (byte ∷ out, suc idx)

-- `encode` walks the slice: the list is `out[idx..]`. The result is the slice's new content and the
-- number of bytes written; `none` is the panic of an index out of bounds.
unfoldable pub encode : ℕ → List ℕ → Option (List ℕ × ℕ)
encode value [] = none
encode value (old ∷ out) =
    let byte = value % 128 in
    let rest = Option.map (wrote (bit_or byte 0x80)) (encode (value / 128) out) in
    if value / 128 == 0 then some (byte ∷ out, 1) else rest

-- `none` is a panic of `encode`.
unfoldable pub encode_to_vec : ℕ → List ℕ → Option (List ℕ)
unfolding encode
encode_to_vec value out = Option.map (λ r. out ++ take r.1 r.0) (encode value (replicate 10 0))

pub record Decoder : Type 0 where
  pub buf : List ℕ
  pub len : ℕ

pub data DecoderOutput : Type 0 where
  value : ℕ → DecoderOutput
  needs_more_bytes : Decoder → DecoderOutput
  out_of_range : DecoderOutput

abbrev pub new : Decoder
new = record { buf = replicate 10 0; len = 0 }

-- The loop of `decode_valid_bytes`; `<<` on a `u64` drops the bits above position 63.
pub join_groups : ℕ → ℕ → List ℕ → ℕ
join_groups idx val [] = val
join_groups idx val (byte ∷ bytes) =
    join_groups (suc idx) (bit_or val (bit_and byte 0x7f * 2 ^ (idx * 7) % 2 ^ 64)) bytes

decode_valid_bytes : Decoder → ℕ
unfolding join_groups
decode_valid_bytes d = join_groups 0 0 (take d.len d.buf)

-- Push the given byte to our buf.
push : Decoder → ℕ → Decoder
push d byte = record { buf = set d.buf d.len byte; len = d.len + 1 }

unfoldable pub feed : Decoder → ℕ → DecoderOutput
unfolding push decode_valid_bytes
feed d byte =
    if leb (length d.buf) d.len
    then DecoderOutput.out_of_range
    else (if bit_and byte 0x80 == 0
        then DecoderOutput.value (decode_valid_bytes (push d byte))
        else DecoderOutput.needs_more_bytes (push d byte))

-- The loop of `decode` over what the cursor has not reached.
unfoldable pub decode_loop : Decoder → List ℕ → Result ℕ × List ℕ
decode_loop d [] = (err unexpected_end_of_input, [])
decode_loop d (byte ∷ bytes) = elim (feed d byte) [
  | DecoderOutput.value v ↦ (ok v, bytes)
  | DecoderOutput.needs_more_bytes d' ↦ decode_loop d' bytes
  | DecoderOutput.out_of_range ↦ (err Error.out_of_range, bytes)
]

unfoldable pub decode : List ℕ → Result ℕ × List ℕ
unfolding decode_loop
decode bytes = decode_loop new bytes
