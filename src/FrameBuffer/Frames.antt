-- ===== src/FrameBuffer/Frames.antt =====
-- Frames come out of the buffer as they went in, however their bytes were cut into pieces.
use polkadot_p2p_connect.Prelude.{
  ℕ, zero, suc, map, ◌^◌, ◌<◌, ◌≡◌, refl, sym, ap, ◌∙◌, arith, inl, inr, false, List, [], ◌∷◌, ◌++◌,
  length, length-append, take-append_length, drop-append_length, Option, none, some,
}
use polkadot_p2p_connect.Varint.{Decoder, new, ok, feed, decode, decode_loop, encode_to_vec}
use polkadot_p2p_connect.Varint.Decode.{Output-cases}
use polkadot_p2p_connect.Varint.RoundTrip.{decode-encode_to_vec}
use polkadot_p2p_connect.FrameBuffer.{
  Needs, decoding_len, len, FrameBuffer, Frame, frame, empty, push, next_payload, next_len,
  next_from, next,
}

-- The rounds that decode the length read what `Varint.decode` reads.
next_len-decode :
    (bytes : List ℕ) (d : Decoder) (v : ℕ) (rest : List ℕ)
    → decode_loop d bytes ≡ (ok v, rest)
    → next_len d bytes ≡ next_payload v rest
unfolding next_len decode_loop
next_len-decode [] d v rest e = cc
next_len-decode (byte ∷ bytes) d v rest e = elim (Output-cases (feed d byte)) [
  | inl (n, p) ↦ ground arith
  | inr (inl (d', p)) ↦ ground (arith, next_len-decode bytes d' v rest)
  | inr (inr p) ↦ ground arith
]

-- A payload that has arrived is handed over, and the buffer holds what follows it.
next_payload_lem :
    (payload rest : List ℕ)
    → next_payload (length payload) (payload ++ rest)
      ≡ (record empty { buf = rest }, some (frame payload))
unfolding next_payload
next_payload_lem payload rest =
    rw (take-append_length payload rest, drop-append_length payload rest)
      (ground (arith, length-append payload rest))

-- The buffer has the whole frame of a payload in front: `next` returns the payload, and the buffer
-- stands at the start of a frame with the bytes behind it.
pub next-frame :
    (payload w rest : List ℕ)
    → length payload < 2 ^ 64
    → encode_to_vec (length payload) [] ≡ some w
    → next (push empty (w ++ (payload ++ rest))) ≡ (push empty rest, some (frame payload))
unfolding next push
next-frame payload w rest h e =
    let (w', writes, _, _, reads) = decode-encode_to_vec (length payload) [] (payload ++ rest) h in
    let same : w ≡ w' = cc (sym e ∙ writes) in
    rw same (
      next_len-decode (w' ++ (payload ++ rest)) new (length payload) (payload ++ rest)
        (unfold decode in reads)
      ∙ next_payload_lem payload rest)

module _ (b' : FrameBuffer) (more : List ℕ) where
  early_payload :
      (n : ℕ) (buf : List ℕ)
      → next_payload n buf ≡ (b', none)
      → (b'.failed ≡ false) × (next_from b'.needs (b'.buf ++ more) ≡ next_payload n (buf ++ more))
  unfolding next_payload next_from
  early_payload n buf e = ground arith

  early_len :
      (buf : List ℕ) (d : Decoder)
      → next_len d buf ≡ (b', none)
      → (b'.failed ≡ false) × (next_from b'.needs (b'.buf ++ more) ≡ next_len d (buf ++ more))
  unfolding next_len next_from
  early_len [] d e = ground arith
  early_len (byte ∷ buf) d e = elim (Output-cases (feed d byte)) [
    | inl (n, p) ↦ ground (arith, early_payload n buf)
    | inr (inl (d', p)) ↦ ground (arith, early_len buf d')
    | inr (inr p) ↦ ground arith
  ]

  early_from :
      (needs : Needs) (buf : List ℕ)
      → next_from needs buf ≡ (b', none)
      → (b'.failed ≡ false) × (next_from b'.needs (b'.buf ++ more) ≡ next_from needs (buf ++ more))
  unfolding next_from
  early_from (decoding_len d) buf e = early_len buf d e
  early_from (len n) buf e = early_payload n buf e

-- Asking too early changes nothing: when `next` had no frame yet, the buffer it left gives with
-- more bytes the frame, the error or the wait, and the state, that the buffer before it would give.
pub next-push_early :
    (b b' : FrameBuffer) (more : List ℕ)
    → next b ≡ (b', none)
    → next (push b' more) ≡ next (push b more)
unfolding next push
next-push_early b b' more e = ground (arith, early_from b' more b.needs b.buf)

-- The bytes of a sequence of frames.
abbrev pub Framed : List (List ℕ) → List ℕ → Type 0
Framed [] bytes = bytes ≡ []
Framed (p ∷ payloads) bytes =
    (length p < 2 ^ 64)
    × (w : List ℕ) × (rest : List ℕ) × (encode_to_vec (length p) [] ≡ some w)
    × (bytes ≡ w ++ (p ++ rest))
    × Framed payloads rest

-- Calls of `next` on a buffer, one for each frame that is expected, and one more.
pub drain : ℕ → FrameBuffer → List (Option Frame)
drain zero b = (next b).1 ∷ []
drain (suc n) b = (next b).1 ∷ drain n (next b).0

-- Of a sequence of frames that were written behind one another, `next` returns each payload in order
-- and then nothing.
pub drain-Framed :
    (payloads : List (List ℕ)) (bytes : List ℕ)
    → Framed payloads bytes
    → drain (length payloads) (push empty bytes) ≡ map (λ p. some (frame p)) payloads ++ none ∷ []
unfolding drain
drain-Framed [] bytes f = rw f (unfold next push next_len in refl)
drain-Framed (p ∷ payloads) bytes (h, w, rest, e, eq, f) =
    rw (eq, next-frame p w rest h e) (ap (◌∷◌ (some (frame p))) (drain-Framed payloads rest f))
