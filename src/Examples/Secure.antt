-- ===== src/Examples/Secure.antt =====
-- Runs of the protobuf encoder, the peer ids and the noise layer, with packages that are simple enough
-- to run: a cipher that puts the count of the messages in front, and signatures that repeat the key.
use polkadot_p2p_connect.Prelude.{
  ℕ, suc, ◌+◌, ◌*◌, ◌≤◌, ◌≡◌, refl, ap, arith, if◌then◌else◌, ◌==◌, leb, bytes_eq, List, [], ◌∷◌,
  ◌++◌, Option, none, some, length, drop, replicate,
}
use polkadot_p2p_connect.AsyncStream.{arrived, collected}
use polkadot_p2p_connect.Varint
use polkadot_p2p_connect.Protobuf
use polkadot_p2p_connect.Noise.Frames
use polkadot_p2p_connect.Protobuf.{Encoder, encode, num_encoded}
use polkadot_p2p_connect.Protobuf.Decode.{Visitor, finished, decode}
use polkadot_p2p_connect.Protobuf.Encode.{
  Field, varint_field, i32_field, data_field, encode_fields, visit_all,
}
use polkadot_p2p_connect.Protobuf.Progress.{Ended, decode-Ended}
use polkadot_p2p_connect.Protobuf.RoundTrip.{decode-encode_fields}
use polkadot_p2p_connect.Peers.{
  PeerId, Bs58, Ed25519, ok, peer_id_len, from_ed25519_public_key, from_base58, to_base58,
}
use polkadot_p2p_connect.Peers.Base58.{from_base58-to_base58}
use polkadot_p2p_connect.Noise.Payload.{NoiseHandshakePayload, encoded, to_protobuf, from_protobuf}
use polkadot_p2p_connect.Noise.Payload
use polkadot_p2p_connect.Noise.PayloadRoundTrip.{from_protobuf-to_protobuf}
use polkadot_p2p_connect.Noise.Frames.{
  max_plaintext, max_noise_msg, Transport, sent, got, chunks, write_all, read_loop, NoiseReadStream,
  NoiseWriteStream, frame,
}
use polkadot_p2p_connect.Noise.Delivery.{InSync, read_loop-write_all}
use polkadot_p2p_connect.Noise.Handshake.{Snow, handshake_dialer}
use polkadot_p2p_connect.Noise.Handshake
use polkadot_p2p_connect.Noise.Authentic.{Becomes, Known, handshake_dialer-Proven}

-- A visitor that keeps the numbers and the bytes that it is handed.
abbrev collecting : Visitor
collecting = record {
  State = List (ℕ × List ℕ);
  varint = λ id n st. st ++ (id, n ∷ []) ∷ [];
  i64 = λ id bytes st. st ++ (id, bytes) ∷ [];
  i32 = λ id bytes st. st ++ (id, bytes) ∷ [];
  bytes = λ id bytes st. st ++ (id, bytes) ∷ [];
}

abbrev fields : List Field
fields = varint_field 1 300 ∷ data_field 2 (104 ∷ 105 ∷ []) ∷ i32_field 3 (1 ∷ 2 ∷ 3 ∷ 4 ∷ []) ∷ []

decode-encode_fields_example :
    (e : Encoder) × (encode_fields fields (encode (replicate 64 0)) ≡ some e)
    × (num_encoded e ≡ length e.written)
    × (length e.written ≤ 56)
    × (decode collecting e.written [] ≡ ((visit_all collecting fields [], []), finished))
decode-encode_fields_example =
    decode-encode_fields collecting fields (replicate 64 0) []
      ((omega arith, omega arith), ((omega arith, omega arith), ((omega arith, refl), tt)))
      (omega arith)

-- A field of five bytes of which two are there.
decode-Ended_example : Ended collecting (decode collecting (18 ∷ 5 ∷ 1 ∷ 2 ∷ []) [])
decode-Ended_example = decode-Ended collecting (18 ∷ 5 ∷ 1 ∷ 2 ∷ []) []

-- Base 58 that changes nothing.
abbrev plain58 : Bs58
plain58 = record {
  encode = λ bytes. bytes;
  decode_onto = λ n s. if leb (length s) n then some s else none;
}

abbrev key : List ℕ
key = replicate 32 7

plain58-reads :
    (n : ℕ) (bytes : List ℕ)
    → length bytes ≤ n
    → plain58.decode_onto n (plain58.encode bytes) ≡ some bytes
plain58-reads n bytes h = ground arith

from_base58-to_base58_example :
    (p : PeerId) × (from_ed25519_public_key key ≡ some p)
    × (length p.multihash ≡ peer_id_len)
    × (drop 6 p.multihash ≡ key)
    × (from_base58 plain58 (to_base58 plain58 p) ≡ ok p)
from_base58-to_base58_example = from_base58-to_base58 plain58 key plain58-reads refl

abbrev payload : NoiseHandshakePayload
payload = record { key = key; signature = key ++ key }

from_protobuf-to_protobuf_example :
    (e : Encoder) × (to_protobuf payload (replicate 256 0) ≡ some e)
    × (from_protobuf (encoded e) ≡ Payload.ok payload)
from_protobuf-to_protobuf_example =
    from_protobuf-to_protobuf payload (replicate 256 0) refl refl (omega arith)

abbrev uncount : List ℕ → ℕ → Option (List ℕ × ℕ)
uncount [] n = none
uncount (k ∷ bytes) n = if k == n then some (bytes, suc n) else none

abbrev counted : Transport
counted = record {
  State = ℕ;
  write_message = λ bytes n. some (n ∷ bytes, suc n);
  read_message = uncount;
}

abbrev counted-InSync : InSync counted
counted-InSync = record {
  Sync = λ n k. n ≡ k;
  delivers = λ plain n k short same.
      (n ∷ plain, suc n, suc k, refl, omega arith, ground arith, ap suc same);
}

abbrev hello : List ℕ
hello = 104 ∷ 105 ∷ []

read_loop-write_all_example :
    (wire : List ℕ) × (s' : ℕ) × (r' : ℕ) × (write_all counted collected hello
        (record { writer = []; transport = 3 })
      ≡ sent (record { writer = wire; transport = s' }))
    × ((more : List ℕ) (extra : ℕ)
        → read_loop counted arrived
            (length (chunks (length hello) max_plaintext hello) * 2 + extra)
            2
            (record { reader = wire ++ more; read_buf = []; transport = 3 })
          ≡ got hello (record { reader = more; read_buf = []; transport = r' }))
    × (s' ≡ r')
read_loop-write_all_example = read_loop-write_all counted-InSync hello [] 3 3 refl

-- A session in which the static key of the remote is the one byte 5.
abbrev open_snow : Snow counted
open_snow = record {
  Handshake = List ℕ;
  initiator = some (9 ∷ [], []);
  write_message = λ plain hs. some (plain, hs);
  read_message = λ msg hs. some (msg, 5 ∷ []);
  get_remote_static = λ hs. some hs;
  into_transport_mode = λ hs. some 0;
}

abbrev repeating : Ed25519
repeating = record {
  SigningKey = List ℕ;
  from_bytes = λ bytes. bytes;
  public_key_bytes = λ k. k;
  sign = λ k msg. k ++ k;
  verify = λ k msg signature. bytes_eq signature (k ++ k);
}

abbrev payload_bytes : List ℕ
payload_bytes = 10 ∷ 36 ∷ 8 ∷ 1 ∷ 18 ∷ 32 ∷ (key ++ 18 ∷ 64 ∷ (key ++ key))

abbrev remote : PeerId
remote = record { multihash = 0 ∷ 36 ∷ 8 ∷ 1 ∷ 18 ∷ 32 ∷ key }

abbrev read_half : NoiseReadStream counted (List ℕ)
read_half = record { reader = []; read_buf = []; transport = 0 }

abbrev write_half : NoiseWriteStream counted (List ℕ)
write_half = record { writer = frame [] ++ frame payload_bytes; transport = 0 }

handshake_runs :
    handshake_dialer open_snow repeating arrived collected key
      (some remote)
      (replicate 256 0)
      (frame payload_bytes)
      []
    ≡ Handshake.ok (read_half, write_half, remote)
unfolding handshake_dialer Frames.send_frame Frames.recv_frame from_protobuf decode Varint.decode
    Varint.feed Payload.decode_ed25519_public_key_protobuf from_ed25519_public_key Varint.encode
    Protobuf.encode_varint Protobuf.encode_data to_protobuf
handshake_runs = refl

handshake_dialer-Proven_example :
    (hs : List ℕ) × Becomes open_snow repeating hs 0
    × Becomes open_snow repeating hs 0
    × Known open_snow repeating (some remote) hs remote
handshake_dialer-Proven_example =
    handshake_dialer-Proven open_snow repeating arrived collected key (some remote)
      (replicate 256 0) (frame payload_bytes) [] read_half write_half remote handshake_runs
