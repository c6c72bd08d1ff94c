-- ===== src/Peers/Base58.antt =====
-- utils/peer_id.rs: the bytes of a peer id, and its base 58.
use polkadot_p2p_connect.Prelude.{
  ℕ, ◌≤◌, ◌≡◌, refl, ap, ◌∙◌, arith, List, [], ◌∷◌, ◌++◌, append-nil, some, length, drop,
  take-append-drop,
}
use polkadot_p2p_connect.Varint
use polkadot_p2p_connect.Protobuf.{
  encode_varint, encode_data, encode_bytes, encode_varint_value, encode_field_id_and_wire_type,
}
use polkadot_p2p_connect.Peers.{
  PeerId, Bs58, ok, peer_id_len, from_ed25519_public_key, check_multihash, from_base58, to_base58,
}

-- A public key of 32 bytes has the peer id 0, 36, the protobuf tags, the type and the length, and the key.
from_ed25519-bytes :
    (key : List ℕ)
    → length key ≡ 32
    → from_ed25519_public_key key ≡ some (record { multihash = 0x00 ∷ 36 ∷ 8 ∷ 1 ∷ 18 ∷ 32 ∷ key })
unfolding from_ed25519_public_key encode_varint encode_data encode_bytes encode_varint_value
    encode_field_id_and_wire_type Varint.encode
from_ed25519-bytes key len = rw len (
    ap (λ (t : List ℕ). some (record { multihash = 0x00 ∷ 36 ∷ 8 ∷ 1 ∷ 18 ∷ 32 ∷ t }))
      (take-append-drop 32 (key ++ []) ∙ append-nil key))

check_multihash-key :
    (key : List ℕ)
    → length key ≡ 32
    → check_multihash (0x00 ∷ 36 ∷ 8 ∷ 1 ∷ 18 ∷ 32 ∷ key)
      ≡ ok (record { multihash = 0x00 ∷ 36 ∷ 8 ∷ 1 ∷ 18 ∷ 32 ∷ key })
unfolding check_multihash Varint.decode Varint.feed
check_multihash-key key len = rw len refl

-- With a base 58 whose decoder reads back what its encoder made of bytes that fit the buffer: the public
-- key of 32 bytes has a peer id of 38 bytes that ends in the key, and `from_base58` reads that peer id
-- back from its base 58.
pub from_base58-to_base58 :
    (b : Bs58) (key : List ℕ)
    → ((n : ℕ) (bytes : List ℕ) → length bytes ≤ n → b.decode_onto n (b.encode bytes) ≡ some bytes)
    → length key ≡ 32
    → (p : PeerId) × (from_ed25519_public_key key ≡ some p)
      × (length p.multihash ≡ peer_id_len)
      × (drop 6 p.multihash ≡ key)
      × (from_base58 b (to_base58 b p) ≡ ok p)
unfolding from_base58
from_base58-to_base58 b key law len =
    let multihash = 0x00 ∷ 36 ∷ 8 ∷ 1 ∷ 18 ∷ 32 ∷ key in
    (
      record { multihash = multihash },
      from_ed25519-bytes key len,
      omega arith,
      refl,
      rw (law peer_id_len multihash (omega arith), from_base58) (check_multihash-key key len),
    )
