-- ===== src/Varint/Stream.antt =====
-- utils/varint.rs: `decode_from_stream`, over any reader.
use polkadot_p2p_connect.Prelude.{
  ℕ, zero, suc, ◌+◌, ◌≤◌, ◌<◌, ◌≡◌, refl, ap, arith, inl, inr, List, [], ◌∷◌, Option, none, some,
  Option-cases, length, get_or, set, leb, true,
}
use polkadot_p2p_connect.AsyncStream.{AsyncRead, arrived}
use polkadot_p2p_connect.Varint.{
  Error, stream, unexpected_end_of_input, Result, ok, err, Decoder, DecoderOutput, new, push, feed,
  decode_loop, decode,
}
use polkadot_p2p_connect.Varint.Decode.{Output-cases}

module _ (io : AsyncRead) where
  open io use {Reader, read_exact}

  -- The loop on a number of rounds; `none` is that these were not enough.
  unfoldable pub decode_from : ℕ → Decoder → Reader → Option (Result ℕ × Reader)
  decode_from zero d r = none
  decode_from (suc rounds) d r = elim (read_exact 1 r) [
    | none ↦ some (err stream, r)
    | some (bytes, r') ↦ elim (feed d (get_or bytes 0 0)) [
      | DecoderOutput.value v ↦ some (ok v, r')
      | DecoderOutput.needs_more_bytes d' ↦ decode_from rounds d' r'
      | DecoderOutput.out_of_range ↦ some (err Error.out_of_range, r')
    ]
  ]

  -- A number has at most ten bytes, so eleven rounds are enough.
  unfoldable pub decode_from_stream : Reader → Option (Result ℕ × Reader)
  unfolding decode_from
  decode_from_stream r = decode_from 11 new r

length-set : (i x : ℕ) (xs : List ℕ) → length (set xs i x) ≡ length xs
length-set i x [] = refl
length-set zero x (y ∷ xs) = refl
length-set (suc i) x (y ∷ xs) = ap suc (length-set i x xs)

feed-more :
    (d d' : Decoder) (byte : ℕ)
    → feed d byte ≡ DecoderOutput.needs_more_bytes d'
    → (d.len < length d.buf) × (d'.len ≡ suc d.len) × (length d'.buf ≡ length d.buf)
unfolding feed push
feed-more d d' byte e = ground (arith, length-set d.len byte d.buf)

-- A result of `decode` with the error that a stream has at the end of its input.
abbrev pub from_stream : Result ℕ × List ℕ → Result ℕ × List ℕ
from_stream (ok v, rest) = (ok v, rest)
from_stream (err Error.out_of_range, rest) = (err Error.out_of_range, rest)
from_stream (err stream, rest) = (err stream, rest)
from_stream (err unexpected_end_of_input, rest) = (err stream, rest)

module _ (io : AsyncRead) where
  decode_from-ends :
      (rounds : ℕ) (d : Decoder) (r : io.Reader)
      → d.len ≤ length d.buf
      → suc (length d.buf) ≤ d.len + rounds
      → (result : Result ℕ × io.Reader) × (decode_from io rounds d r ≡ some result)
  unfolding decode_from
  decode_from-ends zero d r h enough = absurd (omega arith)
  decode_from-ends (suc rounds) d r h enough = elim (Option-cases (io.read_exact 1 r)) [
    | inl failed ↦ ((err stream, r), rw (failed, decode_from) refl)
    | inr ((bytes, r'), read) ↦ elim (Output-cases (feed d (get_or bytes 0 0))) [
      | inl (v, p) ↦ ((ok v, r'), rw (read, p, decode_from) refl)
      | inr (inl (d', p)) ↦
          let (room, next_len, same) = feed-more d d' (get_or bytes 0 0) p in
          let (result, e) = decode_from-ends rounds d' r' (omega arith) (omega arith) in
          (result, rw (read, p, decode_from) e)
      | inr (inr p) ↦ ((err Error.out_of_range, r'), rw (read, p, decode_from) refl)
    ]
  ]

one_byte : (bytes : List ℕ) → leb 1 (suc (length bytes)) ≡ true
one_byte bytes = ground arith

decode_from-arrived :
    (rounds : ℕ) (d : Decoder) (bytes : List ℕ)
    → d.len ≤ length d.buf
    → suc (length d.buf) ≤ d.len + rounds
    → decode_from arrived rounds d bytes ≡ some (from_stream (decode_loop d bytes))
unfolding decode_from decode_loop
decode_from-arrived zero d bytes h enough = absurd (omega arith)
decode_from-arrived (suc rounds) d [] h enough = refl
decode_from-arrived (suc rounds) d (byte ∷ bytes) h enough = elim (Output-cases (feed d byte)) [
  | inl (v, p) ↦ rw (one_byte bytes, p, decode_from, decode_loop) refl
  | inr (inl (d', p)) ↦
      let (room, next_len, same) = feed-more d d' byte p in
      rw (one_byte bytes, p, decode_from, decode_loop)
        (decode_from-arrived rounds d' bytes (omega arith) (omega arith))
  | inr (inr p) ↦ rw (one_byte bytes, p, decode_from, decode_loop) refl
]

-- Reading a number ends with a result, whatever the reader gives: eleven rounds are enough.
pub decode_from_stream-ends :
    (io : AsyncRead) (r : io.Reader)
    → (result : Result ℕ × io.Reader) × (decode_from_stream io r ≡ some result)
unfolding decode_from_stream
decode_from_stream-ends io r = decode_from-ends io 11 new r (omega arith) (omega arith)

-- From bytes that have arrived, `decode_from_stream` reads what `decode` reads and leaves what it
-- leaves, except that the end of the input is an error of the stream.
pub decode_from_stream-arrived :
    (bytes : List ℕ) → decode_from_stream arrived bytes ≡ some (from_stream (decode bytes))
unfolding decode_from_stream decode
decode_from_stream-arrived bytes = decode_from-arrived 11 new bytes (omega arith) (omega arith)
