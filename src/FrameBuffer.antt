-- ===== src/FrameBuffer.antt =====
-- layers/yamux_multistream/frame_buffer.rs: the frames of one multistream, each a varint length and
-- that many bytes. `usize` is 64 bits wide, so `len as usize` changes nothing. The iterator that
-- `next` returns drains its bytes when it is dropped, read or not, so it is the list of the bytes.
pub mod Bounds
pub mod Frames
use polkadot_p2p_connect.Prelude.{
  ℕ, Bool, true, false, if◌then◌else◌, leb, List, [], ◌∷◌, ◌++◌, Option, none, some, length, take,
  drop,
}
use polkadot_p2p_connect.Varint.{Decoder, DecoderOutput, new, feed}

pub data Needs : Type 0 where
  decoding_len : Decoder → Needs
  len : ℕ → Needs

pub record FrameBuffer : Type 0 where
  pub needs : Needs
  pub buf : List ℕ
  pub failed : Bool

-- `Some(Ok(bytes))` and `Some(Err(Error))`.
pub data Frame : Type 0 where
  frame : List ℕ → Frame
  error : Frame

abbrev pub default_needs : Needs
default_needs = decoding_len new

abbrev pub empty : FrameBuffer
empty = record { needs = default_needs; buf = []; failed = false }

-- `len`
abbrev pub buffered : FrameBuffer → ℕ
buffered b = length b.buf

unfoldable pub push : FrameBuffer → List ℕ → FrameBuffer
push b bytes = record b { buf = b.buf ++ bytes }

-- The round of the loop that waits for the payload, at a length that is known.
next_payload : ℕ → List ℕ → FrameBuffer × Option Frame
next_payload n buf =
    if leb n (length buf)
    then (
      record { needs = default_needs; buf = drop n buf; failed = false },
      some (frame (take n buf)),
    )
    else (record { needs = len n; buf = buf; failed = false }, none)

-- The rounds that decode the length; each takes one byte off the buffer.
next_len : Decoder → List ℕ → FrameBuffer × Option Frame
next_len d [] = (record { needs = decoding_len d; buf = []; failed = false }, none)
next_len d (byte ∷ buf) = elim (feed d byte) [
  | DecoderOutput.value n ↦ next_payload n buf
  | DecoderOutput.needs_more_bytes d' ↦ next_len d' buf
  | DecoderOutput.out_of_range ↦
      (record { needs = decoding_len d; buf = buf; failed = true }, some error)
]

-- The loop of `next` from what the buffer needs.
next_from : Needs → List ℕ → FrameBuffer × Option Frame
unfolding next_len next_payload
next_from (decoding_len d) buf = next_len d buf
next_from (len n) buf = next_payload n buf

unfoldable pub next : FrameBuffer → FrameBuffer × Option Frame
unfolding next_from
next b = if b.failed then (b, some error) else next_from b.needs b.buf
