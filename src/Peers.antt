-- ===== src/Peers.antt =====
-- utils/peer_id.rs: peer ids, in the form of a multihash of a protobuf-encoded public key. Base 58 is the
-- package `bs58`, the signatures are the package `ed25519_dalek`, both parameters.
pub mod Base58
use polkadot_p2p_connect.Prelude.{
  ℕ, Bool, if◌then◌else◌, ◌==◌, ◌&&◌, not, ◌>>=◌, List, [], ◌∷◌, ◌++◌, Option, none, some, length,
  take, drop, replicate,
}
use polkadot_p2p_connect.Varint
use polkadot_p2p_connect.Protobuf.{Encoder, encode, encode_varint, encode_data}

-- `PEER_ID_LEN`
abbrev pub peer_id_len : ℕ
peer_id_len = 38

pub record PeerId : Type 0 where
  pub multihash : List ℕ

-- `onto` decodes to a buffer of a number of bytes; `none` is its error, as of a buffer that is too short.
pub record Bs58 : Type 0 where
  pub encode : List ℕ → List ℕ
  pub decode_onto : ℕ → List ℕ → Option (List ℕ)

pub data Error : Type 0 where
  not_ed25519 base58 : Error
  wrong_length : (expected actual : ℕ) → Error
  cannot_decode_varint : Varint.Error → Error

pub data Result {ℓ} (A : Type ℓ) : Type ℓ where
  ok : A → Result A
  err : Error → Result A

-- The identity byte, the length and the key; a panic is `none`.
unfoldable pub from_ed25519_public_key : List ℕ → Option PeerId
from_ed25519_public_key key = do
  (buf, n) ← Varint.encode 36 (replicate 37 0)
  e ← encode_varint 1 1 (encode (drop 1 buf))
  e' ← encode_data 2 key e
  some (record { multihash = 0x00 ∷ (take 1 buf ++ (e'.written ++ e'.out)) })

-- The length of the digest, behind the code of the hash.
abbrev check_length : List ℕ → Varint.Result ℕ × List ℕ → Result PeerId
check_length buf (Varint.err e, cursor) = err (cannot_decode_varint e)
check_length buf (Varint.ok digest_len, cursor) =
    if length cursor == 36 && digest_len == 36
    then ok (record { multihash = buf })
    else err (wrong_length 36 (length cursor))

abbrev check_code : List ℕ → Varint.Result ℕ × List ℕ → Result PeerId
check_code buf (Varint.err e, cursor) = err (cannot_decode_varint e)
check_code buf (Varint.ok code, cursor) =
    if code == 0x00 then check_length buf (Varint.decode cursor) else err not_ed25519

unfoldable pub check_multihash : List ℕ → Result PeerId
check_multihash buf =
    if length buf == peer_id_len
    then check_code buf (Varint.decode buf)
    else err (wrong_length peer_id_len (length buf))

module _ (b : Bs58) where
  unfoldable pub from_base58 : List ℕ → Result PeerId
  unfolding check_multihash
  from_base58 s = elim (b.decode_onto peer_id_len s) [
    | none ↦ err base58
    | some buf ↦ check_multihash buf
  ]

  abbrev pub to_base58 : PeerId → List ℕ
  to_base58 p = b.encode p.multihash

-- `SigningKey` and `VerifyingKey`; `verify` is false on bytes that are no key.
pub record Ed25519 : Type 1 where
  pub SigningKey : Type 0
  pub from_bytes : List ℕ → SigningKey
  pub public_key_bytes : SigningKey → List ℕ
  pub sign : SigningKey → List ℕ → List ℕ
  pub verify : (key message signature : List ℕ) → Bool

abbrev pub peer_id : (crypto : Ed25519) → crypto.SigningKey → Option PeerId
peer_id crypto key = from_ed25519_public_key (crypto.public_key_bytes key)
