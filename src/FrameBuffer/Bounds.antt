-- ===== src/FrameBuffer/Bounds.antt =====
-- The number of bytes that the buffer holds.
use polkadot_p2p_connect.Prelude.{
  ℕ, ◌+◌, ◌≤◌, ◌≡◌, arith, inl, inr, List, [], ◌∷◌, length, length-append, length-drop,
}
use polkadot_p2p_connect.Varint.{Decoder, feed}
use polkadot_p2p_connect.FrameBuffer.{
  Needs, decoding_len, len, FrameBuffer, push, buffered, next_payload, next_len, next_from, next,
}
use polkadot_p2p_connect.Varint.Decode.{Output-cases}

pub push-buffered :
    (b : FrameBuffer) (bytes : List ℕ) → buffered (push b bytes) ≡ buffered b + length bytes
unfolding push
push-buffered b bytes = length-append b.buf bytes

next_payload-buffered : (n : ℕ) (buf : List ℕ) → buffered (next_payload n buf).0 ≤ length buf
unfolding next_payload
next_payload-buffered n buf = ground (arith, length-drop n buf)

next_len-buffered : (buf : List ℕ) (d : Decoder) → buffered (next_len d buf).0 ≤ length buf
unfolding next_len
next_len-buffered [] d = omega arith
next_len-buffered (byte ∷ buf) d = elim (Output-cases (feed d byte)) [
  | inl (n, p) ↦ ground (arith, next_payload-buffered n buf)
  | inr (inl (d', p)) ↦ ground (arith, next_len-buffered buf d')
  | inr (inr p) ↦ ground arith
]

next_from-buffered : (needs : Needs) (buf : List ℕ) → buffered (next_from needs buf).0 ≤ length buf
unfolding next_from
next_from-buffered (decoding_len d) buf = next_len-buffered buf d
next_from-buffered (len n) buf = next_payload-buffered n buf

pub next-buffered : (b : FrameBuffer) → buffered (next b).0 ≤ buffered b
unfolding next
next-buffered b = ground (arith, next_from-buffered b.needs b.buf)
