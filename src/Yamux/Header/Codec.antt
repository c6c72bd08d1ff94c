-- ===== src/Yamux/Header/Codec.antt =====
-- Headers and their twelve bytes determine one another.
use polkadot_p2p_connect.Prelude.{
  ℕ, ◌+◌, ◌^◌, ◌<◌, ◌≡◌, ◌≢◌, ◌↔◌, ◌*◌, refl, arith, List, [], ◌∷◌, length, All, IsByte, get_or,
}
use polkadot_p2p_connect.Yamux.Header.{
  Header, FrameType, payload, window_update, ping, go_away, yamux_version, encode, decode,
  type_byte, ok, err, invalid_version, invalid_frame_type,
}

-- The fields fit their machine integers, and the version is the supported one.
pub record IsValid (h : Header) : Type 0 where
  pub supported : h.version ≡ yamux_version
  pub flags_fit : h.flags < 2 ^ 16
  pub id_fits : h.stream_id < 2 ^ 32
  pub length_fits : h.length < 2 ^ 32

decode-encode_fields :
    (t : FrameType) (h : Header) → h.frame_type ≡ t → IsValid h → decode (encode h) ≡ ok h
unfolding decode encode
decode-encode_fields payload h e v = ground arith
decode-encode_fields window_update h e v = ground arith
decode-encode_fields ping h e v = ground arith
decode-encode_fields go_away h e v = ground arith

-- Decoding the twelve bytes of a valid header gives the header back.
pub decode-encode : (h : Header) → IsValid h → decode (encode h) ≡ ok h
decode-encode h v = decode-encode_fields h.frame_type h refl v

abbrev twelve : (x0 x1 x2 x3 x4 x5 x6 x7 x8 x9 x10 x11 : ℕ) → List ℕ
twelve x0 x1 x2 x3 x4 x5 x6 x7 x8 x9 x10 x11 =
    x0 ∷ x1 ∷ x2 ∷ x3 ∷ x4 ∷ x5 ∷ x6 ∷ x7 ∷ x8 ∷ x9 ∷ x10 ∷ x11 ∷ []

decode-twelve :
    (x0 x1 x2 x3 x4 x5 x6 x7 x8 x9 x10 x11 : ℕ) (h : Header)
    → All IsByte (twelve x0 x1 x2 x3 x4 x5 x6 x7 x8 x9 x10 x11)
    → decode (twelve x0 x1 x2 x3 x4 x5 x6 x7 x8 x9 x10 x11) ≡ ok h
    → (x0 ≡ 0)
      × (x1 ≡ type_byte h.frame_type)
      × (h.version ≡ 0)
      × (h.flags ≡ x2 * 256 + x3)
      × (h.stream_id ≡ x4 * 2 ^ 24 + x5 * 2 ^ 16 + x6 * 256 + x7)
      × (h.length ≡ x8 * 2 ^ 24 + x9 * 2 ^ 16 + x10 * 256 + x11)
unfolding decode
decode-twelve x0 x1 x2 x3 x4 x5 x6 x7 x8 x9 x10 x11 h b e = ground arith

-- Twelve bytes are accepted only if they are the encoding of the header that they are read as, and
-- that header is valid.
pub encode-decode :
    (buf : List ℕ) (h : Header)
    → length buf ≡ 12
    → All IsByte buf
    → decode buf ≡ ok h
    → IsValid h × (encode h ≡ buf)
encode-decode (x0 ∷ x1 ∷ x2 ∷ x3 ∷ x4 ∷ x5 ∷ x6 ∷ x7 ∷ x8 ∷ x9 ∷ x10 ∷ x11 ∷ []) h len b e =
    let f = decode-twelve x0 x1 x2 x3 x4 x5 x6 x7 x8 x9 x10 x11 h b e in
    (omega arith, unfold encode in ground arith)
encode-decode _ h len b e = absurd (omega arith)

-- Which bytes are refused, and with which error: another version first, then an unknown frame type.
pub decode_refuses :
    (buf : List ℕ)
    → ((e : ℕ) → (decode buf ≡ err (invalid_version e)) ↔ ((get_or buf 0 0 ≡ e) × (e ≢ 0)))
      × ((e : ℕ)
          → (decode buf ≡ err (invalid_frame_type e))
            ↔ ((get_or buf 0 0 ≡ 0) × (get_or buf 1 0 ≡ e) × (3 < e)))
unfolding decode
decode_refuses buf =
    ((λ e. (λ d. ground arith, λ d. ground arith)), (λ e. (λ d. ground arith, λ d. ground arith)))
