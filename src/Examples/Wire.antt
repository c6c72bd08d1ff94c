-- ===== src/Examples/Wire.antt =====
-- The number format, the frames of a stream and the yamux header on concrete bytes.
use polkadot_p2p_connect.Prelude.{
  ℕ, ◌^◌, ◌≤◌, ◌<◌, ◌≡◌, ◌≢◌, ◌↔◌, refl, arith, List, [], ◌∷◌, ◌++◌, false, none, some, length,
  get_or, replicate, take, All,
}
use polkadot_p2p_connect.Varint.{ok, err, encode, encode_to_vec, decode, unexpected_end_of_input}
use polkadot_p2p_connect.Varint
use polkadot_p2p_connect.Varint.Groups.{IsContinuation, decoded}
use polkadot_p2p_connect.Varint.Decode.{decode_value}
use polkadot_p2p_connect.Varint.RoundTrip.{decode-encode_to_vec, encode_panics, decode_wraps}
use polkadot_p2p_connect.FrameBuffer.{FrameBuffer, len, frame, empty, push, next}
use polkadot_p2p_connect.FrameBuffer.Frames.{Framed, drain, next-push_early, drain-Framed}
use polkadot_p2p_connect.Yamux.Header.{Header}
use polkadot_p2p_connect.Yamux.Header
use polkadot_p2p_connect.Yamux.Header.Codec.{IsValid, decode-encode, encode-decode, decode_refuses}

abbrev continuations : List ℕ
continuations = replicate 10 0x80

top : IsContinuation 0x80
top = (omega arith, omega arith)

continuations-IsContinuation : All IsContinuation continuations
continuations-IsContinuation =
    (top, (top, (top, (top, (top, (top, (top, (top, (top, (top, tt))))))))))

decode_value_example : decode (0xac ∷ 2 ∷ 7 ∷ []) ≡ (ok (decoded (0xac ∷ 2 ∷ [])), 7 ∷ [])
decode_value_example =
    decode_value (0xac ∷ []) ((omega arith, omega arith), tt) 2 (7 ∷ []) (omega arith) (omega arith)

decode-encode_to_vec_example :
    (w : List ℕ) × (encode_to_vec 300 (9 ∷ []) ≡ some ((9 ∷ []) ++ w))
    × (1 ≤ length w)
    × (length w ≤ 10)
    × (decode (w ++ 5 ∷ []) ≡ (ok 300, 5 ∷ []))
decode-encode_to_vec_example = decode-encode_to_vec 300 (9 ∷ []) (5 ∷ []) (omega arith)

encode_panics_example : (encode 300 (0 ∷ 0 ∷ []) ≡ none) ↔ (128 ^ 2 ≤ 300)
encode_panics_example = encode_panics 300 0 (0 ∷ [])

decode_wraps_example :
    decode (take 9 continuations ++ 3 ∷ []) ≡ decode (take 9 continuations ++ 1 ∷ [])
decode_wraps_example =
    decode_wraps (take 9 continuations) 3 []
      (top, (top, (top, (top, (top, (top, (top, (top, (top, tt))))))))) refl (omega arith)

hello_len : encode_to_vec 2 [] ≡ some (2 ∷ [])
unfolding encode_to_vec
hello_len = refl

abbrev waiting : FrameBuffer
waiting = record { needs = len 2; buf = 104 ∷ []; failed = false }

early : next (push empty (2 ∷ 104 ∷ [])) ≡ (waiting, none)
unfolding next push Varint.feed
early = refl

next-push_early_example :
    next (push waiting (105 ∷ [])) ≡ next (push (push empty (2 ∷ 104 ∷ [])) (105 ∷ []))
next-push_early_example = next-push_early (push empty (2 ∷ 104 ∷ [])) waiting (105 ∷ []) early

two_frames : Framed ((104 ∷ 105 ∷ []) ∷ (1 ∷ 2 ∷ []) ∷ []) (2 ∷ 104 ∷ 105 ∷ 2 ∷ 1 ∷ 2 ∷ [])
two_frames = (
  omega arith,
  2 ∷ [],
  2 ∷ 1 ∷ 2 ∷ [],
  hello_len,
  refl,
  (omega arith, 2 ∷ [], [], hello_len, refl, refl),
)

drain-Framed_example :
    drain 2 (push empty (2 ∷ 104 ∷ 105 ∷ 2 ∷ 1 ∷ 2 ∷ []))
    ≡ some (frame (104 ∷ 105 ∷ [])) ∷ some (frame (1 ∷ 2 ∷ [])) ∷ none ∷ []
drain-Framed_example =
    drain-Framed ((104 ∷ 105 ∷ []) ∷ (1 ∷ 2 ∷ []) ∷ []) (2 ∷ 104 ∷ 105 ∷ 2 ∷ 1 ∷ 2 ∷ []) two_frames

abbrev a_header : Header
a_header = Header.window_update_by 7 300

a_header-IsValid : IsValid a_header
a_header-IsValid = record {
  supported = refl;
  flags_fit = omega arith;
  id_fits = omega arith;
  length_fits = omega arith;
}

decode-encode_example : Header.decode (Header.encode a_header) ≡ Header.ok a_header
decode-encode_example = decode-encode a_header a_header-IsValid

abbrev header_bytes : List ℕ
header_bytes = 0 ∷ 1 ∷ 0 ∷ 0 ∷ 0 ∷ 0 ∷ 0 ∷ 7 ∷ 0 ∷ 0 ∷ 1 ∷ 44 ∷ []

header_bytes-decoded : Header.decode header_bytes ≡ Header.ok a_header
unfolding Header.decode
header_bytes-decoded = refl

encode-decode_example : IsValid a_header × (Header.encode a_header ≡ header_bytes)
encode-decode_example =
    encode-decode header_bytes a_header refl
      (
        omega arith,
        (
          omega arith,
          (
            omega arith,
            (
              omega arith,
              (
                omega arith,
                (
                  omega arith,
                  (
                    omega arith,
                    (omega arith, (omega arith, (omega arith, (omega arith, (omega arith, (tt)))))),
                  ),
                ),
              ),
            ),
          ),
        ),
      )
      header_bytes-decoded

decode_refuses_example :
    ((e : ℕ)
      → (Header.decode (1 ∷ header_bytes) ≡ Header.err (Header.invalid_version e))
        ↔ ((get_or (1 ∷ header_bytes) 0 0 ≡ e) × (e ≢ 0)))
    × ((e : ℕ)
        → (Header.decode (1 ∷ header_bytes) ≡ Header.err (Header.invalid_frame_type e))
          ↔ ((get_or (1 ∷ header_bytes) 0 0 ≡ 0) × (get_or (1 ∷ header_bytes) 1 0 ≡ e) × (3 < e)))
decode_refuses_example = decode_refuses (1 ∷ header_bytes)
