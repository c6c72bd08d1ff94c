-- ===== src/Noise/PayloadRoundTrip.antt =====
-- layers/noise.rs: a payload that was written is read back.
use polkadot_p2p_connect.Prelude.{
  ℕ, ◌≤◌, ◌≡◌, refl, ◌∙◌, arith, ◌>>=◌, List, [], ◌∷◌, Option, none, some, length, replicate,
  take-append_length,
}
use polkadot_p2p_connect.Protobuf.{Encoder, encode, num_encoded, encode_varint, encode_data}
use polkadot_p2p_connect.Protobuf.Encode.{varint_field, data_field, encode_fields}
use polkadot_p2p_connect.Protobuf.RoundTrip.{decode-encode_fields}
use polkadot_p2p_connect.Noise.Payload.{
  NoiseHandshakePayload, ok, encoded, encode_key, encode_payload, to_protobuf, noise_visitor,
  key_visitor, check_payload, check_key, decode_outer_noise_payload_protobuf,
  decode_ed25519_public_key_protobuf, from_protobuf,
}

encoded-written : (e : Encoder) → num_encoded e ≡ length e.written → encoded e ≡ e.written
encoded-written e n = rw n (take-append_length e.written e.out)

-- Two calls of the encoder are the encoding of a list of two fields.
chain_end :
    (r : Option Encoder) (k : Encoder → Option Encoder)
    → (r >>= k) ≡ (r >>= (λ e. k e >>= (λ e'. some e')))
chain_end none k = refl
chain_end (some e) k = last_call (k e)
  where
    last_call : (r : Option Encoder) → r ≡ (r >>= (λ e'. some e'))
    last_call none = refl
    last_call (some e') = refl

encode_key-fields :
    (key buf : List ℕ)
    → encode_key key buf ≡ encode_fields (varint_field 1 1 ∷ data_field 2 key ∷ []) (encode buf)
unfolding encode_key encode_fields
encode_key-fields key buf = chain_end (encode_varint 1 1 (encode buf)) (encode_data 2 key)

encode_payload-fields :
    (key signature out : List ℕ)
    → encode_payload key signature out
      ≡ encode_fields (data_field 1 key ∷ data_field 2 signature ∷ []) (encode out)
unfolding encode_payload encode_fields
encode_payload-fields key signature out =
    chain_end (encode_data 1 key (encode out)) (encode_data 2 signature)

-- A key of 32 bytes in a buffer with room for it.
key_decoded :
    (key buf : List ℕ)
    → length key ≡ 32
    → 72 ≤ length buf
    → (e : Encoder) × (encode_key key buf ≡ some e)
      × (length (encoded e) ≤ 72)
      × (decode_ed25519_public_key_protobuf (encoded e) ≡ ok key)
unfolding decode_ed25519_public_key_protobuf check_key
key_decoded key buf len enough =
    let fs = varint_field 1 1 ∷ data_field 2 key ∷ [] in
    let (e, is_e, n, short, d) =
      decode-encode_fields key_visitor fs buf (record { ty = none; value = none })
        ((omega arith, omega arith), ((omega arith, omega arith), tt)) (omega arith) in
    (
      e,
      encode_key-fields key buf ∙ is_e,
      rw (encoded-written e n) (omega arith),
      rw (encoded-written e n, d) (rw len refl),
    )

-- A payload with a key of 32 bytes and a signature of 64, written to a slice with enough room, does not
-- panic; from the bytes written `from_protobuf` reads the payload.
pub from_protobuf-to_protobuf :
    (p : NoiseHandshakePayload) (out : List ℕ)
    → length p.key ≡ 32
    → length p.signature ≡ 64
    → 256 ≤ length out
    → (e : Encoder) × (to_protobuf p out ≡ some e) × (from_protobuf (encoded e) ≡ ok p)
unfolding to_protobuf from_protobuf decode_outer_noise_payload_protobuf check_payload
from_protobuf-to_protobuf p out key_len sig_len enough =
    let (k, is_k, k_len, key_back) = key_decoded p.key (replicate 128 0) key_len (omega arith) in
    let fs = data_field 1 (encoded k) ∷ data_field 2 p.signature ∷ [] in
    let (e, is_e, n, short, d) =
      decode-encode_fields noise_visitor fs out
        (record { identity_key = none; identity_sig = none })
        ((omega arith, omega arith), ((omega arith, omega arith), tt)) (omega arith) in
    (
      e,
      rw is_k (encode_payload-fields (encoded k) p.signature out ∙ is_e),
      rw (encoded-written e n, d, sig_len) (rw key_back refl),
    )
